-- ===== src/Engine/Loading.antt =====
-- internal/engine/engine.go: LoadScenario after ValidateScenario.
use cs320_cluster_process_ma.Base.{
  ℤ, pos, leb_ℤ, ltb_ℤ, ltb, size, ◌&&◌, ◌==◌, string_eq, ◌≡◌, refl, ap, ◌∙◌, inl, inr, Bool-cases,
  bind_after, Keeps, Result, ok, err, panic, Float, on_ok,
}
use cs320_cluster_process_ma.Domain.Scenario.{Scenario}
use cs320_cluster_process_ma.Controller.State.{Controller, emitted}
use cs320_cluster_process_ma.Controller.Registry.{is_running, is_completed, finish_locked}
use cs320_cluster_process_ma.Controller.Audit.{validate_invariants}
use cs320_cluster_process_ma.Controller.Failures.{detect_missed_heartbeats}
use cs320_cluster_process_ma.Controller.Placement.{schedule_ready, node_snapshots}
use cs320_cluster_process_ma.Controller.Consistency.Queue.{ready_queue}
use cs320_cluster_process_ma.Controller.Tick.Execution.{execute_running}
use cs320_cluster_process_ma.Controller.Tick.Sampling.{sample_utilization}
use cs320_cluster_process_ma.Controller.Tick.Schedule.{apply_scheduled}
use cs320_cluster_process_ma.Controller.Tick.{
  begin_tick, conclude, run_tick, step, or_rollback, checked, after_scheduled,
  all_processes_terminal, progress_block_reason,
}
use cs320_cluster_process_ma.Controller.Scenario
use cs320_cluster_process_ma.Controller.Scenario.{
  Prepared, prepare_scenario, validate_scenario, or_install,
}
use cs320_cluster_process_ma.Controller.Frame.{IsStable, fail_late-Keeps}
use cs320_cluster_process_ma.Controller.Frame.Tick.{
  apply_scheduled-Keeps, execute-Keeps, place_all-Keeps,
}
use cs320_cluster_process_ma.Engine
use cs320_cluster_process_ma.Engine.{
  Engine, Stops, idle, cancelled, continued, loop_tick, after_tick, if_valid, with_controller,
}

-- The configured limits of a controller.
abbrev HasLimits : {F : Type 0} → (max_nodes max_processes : ℤ) → Controller F → Type 0
HasLimits max_nodes max_processes c = (c.max_nodes ≡ max_nodes) × (c.max_processes ≡ max_processes)

HasLimits-IsStable : {F : Type 0} (m n : ℤ) → IsStable {F = F} (HasLimits m n)
unfolding emitted
HasLimits-IsStable m n = record {
  node = λ q c h. h;
  process = λ p c h. h;
  statistics = λ g c h. h;
  status = λ s reason c h. h;
  pending = λ d c h. h;
  failures = λ d c h. h;
  event = λ type severity p q message c h. h;
}

module _ {F : Type 0} (m n : ℤ) where
  begin_tick-HasLimits : (c : Controller F) → HasLimits m n c → HasLimits m n (begin_tick c)
  unfolding begin_tick emitted
  begin_tick-HasLimits c h = elim (Bool-cases (is_running c.simulation_status)) [
    | inl on ↦ rw on h
    | inr off ↦ rw off h
  ]

  conclude-HasLimits : (c : Controller F) → HasLimits m n c → HasLimits m n (conclude c)
  unfolding conclude finish_locked emitted
  conclude-HasLimits c h =
      elim (Bool-cases (ltb 0 (size c.processes) && all_processes_terminal c)) [
        | inl over ↦ rw over h
        | inr going ↦
            elim (Bool-cases (ltb_ℤ (pos 0) c.max_ticks && leb_ℤ c.max_ticks c.current_tick)) [
              | inl late ↦ rw (going, late) h
              | inr early ↦ elim (Bool-cases (progress_block_reason c == "")) [
                | inl free ↦ rw (going, early, free) h
                | inr blocked ↦ rw (going, early, blocked) h
              ]
            ]
      ]

  detect-HasLimits : Keeps (HasLimits {F = F} m n) detect_missed_heartbeats
  unfolding detect_missed_heartbeats
  detect-HasLimits c h = elim (Bool-cases (leb_ℤ c.heartbeat_timeout_ticks (pos 0))) [
    | inl off ↦ rw off h
    | inr on ↦ rw on (fail_late-Keeps (HasLimits m n) (HasLimits-IsStable m n) _ c h)
  ]

  module _ ⦃f : Float F⦄ where
    run_tick-HasLimits : Keeps (HasLimits {F = F} m n) run_tick
    unfolding run_tick sample_utilization schedule_ready execute_running
    run_tick-HasLimits c h =
        let P = HasLimits {F = F} m n in
        let stable = HasLimits-IsStable m n in
        bind_after P detect_missed_heartbeats _ c (detect-HasLimits c h) λ _ d k.
          bind_after P schedule_ready _ d
            (place_all-Keeps P stable (λ next e l. l) (ready_queue d) (node_snapshots d.nodes) d k)
            λ _ e l.
              bind_after P execute_running _ (sample_utilization e)
                (execute-Keeps P stable _ (sample_utilization e) l) λ _. conclude-HasLimits

    or_rollback-HasLimits :
        (previous c : Controller F) (audit : Result Unit)
        → HasLimits m n c
        → HasLimits m n (or_rollback previous audit c).1
    or_rollback-HasLimits previous c (ok _) h = h
    or_rollback-HasLimits previous c (err _) h = h
    or_rollback-HasLimits previous c panic h = h

    checked-HasLimits :
        (previous : Controller F) (r : Result Unit) (c : Controller F)
        → HasLimits m n c
        → HasLimits m n (checked previous (r, c)).1
    checked-HasLimits previous (ok _) c h =
        or_rollback-HasLimits previous c (validate_invariants c) h
    checked-HasLimits previous (err _) c h = h
    checked-HasLimits previous panic c h = h

    after_scheduled-HasLimits :
        (previous : Controller F) (r : Result Unit) (c : Controller F)
        → HasLimits m n c
        → HasLimits m n (after_scheduled previous (r, c)).1
    after_scheduled-HasLimits previous (ok _) c h =
        let (r, d) = run_tick c in checked-HasLimits previous r d (run_tick-HasLimits c h)
    after_scheduled-HasLimits previous (err _) c h = h
    after_scheduled-HasLimits previous panic c h = h

    step-HasLimits : Keeps (HasLimits {F = F} m n) step
    unfolding step
    step-HasLimits c h = elim (Bool-cases (is_completed c.simulation_status)) [
      | inl over ↦ rw over h
      | inr going ↦
          let (r, d) = apply_scheduled (begin_tick c) in
          rw going (
            after_scheduled-HasLimits c r d (
              apply_scheduled-Keeps (HasLimits m n) (HasLimits-IsStable m n) (begin_tick c)
                (begin_tick-HasLimits c h)))
    ]

    after_tick-HasLimits :
        (e : Engine F) (r : Result Unit) (c : Controller F)
        → HasLimits m n c
        → HasLimits m n (after_tick e (r, c)).controller
    after_tick-HasLimits e (ok _) c h = h
    after_tick-HasLimits e (err _) c h = h
    after_tick-HasLimits e panic c h = h

    Stops-HasLimits :
        (e d : Engine F) → Stops e d → HasLimits m n e.controller → HasLimits m n d.controller
    unfolding loop_tick
    Stops-HasLimits _ _ (idle e off) h = h
    Stops-HasLimits _ _ (cancelled e on) h = h
    Stops-HasLimits _ _ (continued e d on rest) h =
        let (r, c) = step e.controller in
        Stops-HasLimits (loop_tick e) d rest
          (after_tick-HasLimits e r c (step-HasLimits e.controller h))

module _ {F : Type 0} ⦃f : Float F⦄ where
  -- A scenario is prepared alike under equal limits.
  prepare_scenario-HasLimits :
      (s : Scenario) (c d : Controller F)
      → HasLimits c.max_nodes c.max_processes d
      → prepare_scenario s d ≡ prepare_scenario s c
  unfolding prepare_scenario
  prepare_scenario-HasLimits s c d (a, b) = rw (a, b) refl

  or_install-answer :
      (s : Scenario) (c : Controller F) (r : Result (Prepared F))
      → (or_install s r c).0 ≡ on_ok r λ _. ok tt
  or_install-answer s c (ok _) = refl
  or_install-answer s c (err _) = refl
  or_install-answer s c panic = refl

  load_scenario-validate :
      (s : Scenario) (c d : Controller F)
      → HasLimits c.max_nodes c.max_processes d
      → (Scenario.load_scenario s d).0 ≡ validate_scenario s c
  unfolding Scenario.load_scenario validate_scenario
  load_scenario-validate s c d h =
      or_install-answer s d (prepare_scenario s d)
      ∙ ap (λ r. on_ok r λ _. ok tt) (prepare_scenario-HasLimits s c d h)

  if_valid-answer :
      (stop : Engine F → Engine F) (r : Result Unit) (e : Engine F)
      (rest : Engine F → Result Unit × Engine F)
      → (rest (stop e)).0 ≡ r
      → (if_valid stop r e rest).0 ≡ r
  if_valid-answer stop (ok _) e rest h = h
  if_valid-answer stop (err _) e rest h = refl
  if_valid-answer stop panic e rest h = refl

  -- The engine's LoadScenario answers what ValidateScenario answers before it: once it has stopped
  -- the loop, loading does not fail. The loop may take any number of further ticks in between.
  pub load_scenario-validate_scenario :
      (stop : Engine F → Engine F)
      → ((e : Engine F) → Stops e (stop e))
      → (s : Scenario) (e : Engine F)
      → (Engine.load_scenario stop s e).0 ≡ validate_scenario s e.controller
  unfolding Engine.load_scenario
  load_scenario-validate_scenario stop stops s e =
      let limits =
        Stops-HasLimits e.controller.max_nodes e.controller.max_processes e (stop e) (stops e)
          (refl, refl) in
      if_valid-answer stop (validate_scenario s e.controller) e
        (λ d. with_controller stop d (Scenario.load_scenario s d.controller))
        (load_scenario-validate s e.controller (stop e).controller limits)
