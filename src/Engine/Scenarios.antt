-- ===== src/Engine/Scenarios.antt =====
-- internal/engine/engine.go: RunScenario.
use cs320_cluster_process_ma.Base.{
  ℕ, zero, suc, pos_part, true, ◌≡◌, refl, inl, inr, Bool-cases, Result-cases, Result, ok, err,
  panic, Float, String, IsCalm, subst,
}
use cs320_cluster_process_ma.Domain.Scenario.{Scenario}
use cs320_cluster_process_ma.Controller.State.{Controller, emitted}
use cs320_cluster_process_ma.Controller.Registry.{is_completed, finish, finish_locked}
use cs320_cluster_process_ma.Controller.Tick.{step}
use cs320_cluster_process_ma.Controller.Scenario
use cs320_cluster_process_ma.Controller.Scenario.{validate_scenario}
use cs320_cluster_process_ma.Controller.Scenario.Loading.{
  AreInts, load_scenario-IsConsistent, load_scenario-IsAtomic, validate_scenario-IsCalm,
}
use cs320_cluster_process_ma.Controller.Invariant.Facts.{IsConsistent}
use cs320_cluster_process_ma.Controller.Consistency.Tick.{step-IsConsistent}
use cs320_cluster_process_ma.Controller.Consistency.Registry.{finish-IsConsistent}
use cs320_cluster_process_ma.Controller.Outcome.Defs.{IsAtomic→IsCalm}
use cs320_cluster_process_ma.Controller.Outcome.Step.{step-IsAtomic}
use cs320_cluster_process_ma.Engine.{Engine, Stops, run_ticks, run_loaded, run_scenario}
use cs320_cluster_process_ma.Engine.Realtime.{Stops-IsConsistent}

-- A run that ends well: no panic, the invariant, and a completed simulation where it succeeds.
pub record EndsWell {F : Type 0} (r : Result Unit) (c : Controller F) : Type 0 where
  pub calm : IsCalm r
  pub consistent : IsConsistent c
  pub completed : r ≡ ok tt → is_completed c.simulation_status ≡ true

finish-completed :
    {F : Type 0} (reason : String) (c : Controller F)
    → is_completed (finish reason c).simulation_status ≡ true
unfolding finish finish_locked emitted
finish-completed reason c = elim (Bool-cases (is_completed c.simulation_status)) [
  | inl over ↦ rw over over
  | inr going ↦ rw going refl
]

module _ {F : Type 0} ⦃f : Float F⦄ where
  run_ticks-EndsWell :
      (n : ℕ) (c : Controller F) → IsConsistent c → EndsWell (run_ticks n c).0 (run_ticks n c).1
  unfolding run_ticks
  run_ticks-EndsWell zero c inv = record {
    calm = tt;
    consistent = finish-IsConsistent c inv "maximum tick count reached";
    completed = λ h. finish-completed "maximum tick count reached" c;
  }
  run_ticks-EndsWell (suc n) c inv =
      let kept = step-IsConsistent c inv in
      elim (Result-cases (step c).0) [
        | inl (_, good) ↦ elim (Bool-cases (is_completed (step c).1.simulation_status)) [
          | inl over ↦
              rw (run_ticks, good, over)
                (record { calm = tt; consistent = kept; completed = λ h. over })
          | inr going ↦ rw (run_ticks, good, going) (run_ticks-EndsWell n (step c).1 kept)
        ]
        | inr (inl (e, bad)) ↦
            rw (run_ticks, bad) (record { calm = tt; consistent = kept; completed = λ h. cc })
        | inr (inr crash) ↦
            let no : ⊥ = subst IsCalm crash (IsAtomic→IsCalm step c (step-IsAtomic c inv)) in
            elim no [ ]
      ]

  run_loaded-EndsWell :
      (stop : Engine F → Engine F) (ticks : ℕ) (r : Result Unit) (c : Controller F)
      → IsCalm r
      → IsConsistent c
      → EndsWell (run_loaded stop ticks (r, c)).0 (run_loaded stop ticks (r, c)).1
  run_loaded-EndsWell stop ticks (ok _) c calm inv = run_ticks-EndsWell ticks c inv
  run_loaded-EndsWell stop ticks (err _) c calm inv = record {
    calm = tt;
    consistent = inv;
    completed = λ h. cc;
  }
  run_loaded-EndsWell stop ticks panic c calm inv = elim calm [ ]

  -- RunScenario on an engine whose controller is consistent never panics, leaves a consistent
  -- controller, and leaves a completed simulation where it succeeds. The capacities of the nodes in
  -- the scenario are machine integers, and the loop that it stops may take any number of further
  -- ticks.
  pub run_scenario-EndsWell :
      (stop : Engine F → Engine F)
      → ((e : Engine F) → Stops e (stop e))
      → (s : Scenario) → AreInts s.nodes
      → (e : Engine F) → IsConsistent e.controller
      → EndsWell (run_scenario stop s e).0 (run_scenario stop s e).1.controller
  unfolding run_scenario
  run_scenario-EndsWell stop stops s ints e inv =
      let d = stop e in
      let (off, kept) = Stops-IsConsistent e d (stops e) inv in
      let (r, c) = Scenario.load_scenario s d.controller in
      elim (Result-cases (validate_scenario s e.controller)) [
        | inl (_, good) ↦ rw good (
            run_loaded-EndsWell stop (pos_part s.max_ticks) r c
              (IsAtomic→IsCalm (Scenario.load_scenario s) d.controller
                (load_scenario-IsAtomic s d.controller ints))
              (load_scenario-IsConsistent s d.controller ints kept))
        | inr (inl (error, bad)) ↦
            rw bad (record { calm = tt; consistent = inv; completed = λ h. cc })
        | inr (inr crash) ↦
            let no : ⊥ = subst IsCalm crash (validate_scenario-IsCalm s e.controller ints) in
            elim no [ ]
      ]
