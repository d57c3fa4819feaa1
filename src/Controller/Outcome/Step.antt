-- ===== src/Controller/Outcome/Step.antt =====
-- internal/cluster/lifecycle.go: the outcomes of Step.
use mathlib.Core.List.{append_assoc, append-nil}
use cs320_cluster_process_ma.Base.{
  String, List, [], ◌∷◌, ◌++◌, false, ◌≡◌, refl, sym, ap, ◌∙◌, inl, inr, Bool-cases, Result, ok,
  err, panic, Float, take, length, IsCalm,
}
use cs320_cluster_process_ma.Domain.Types.{Event, EventType, SimulationStatus}
use cs320_cluster_process_ma.Controller.State.{Controller, emitted, next_event, set_state}
use cs320_cluster_process_ma.Controller.Registry.{is_running, is_completed}
use cs320_cluster_process_ma.Controller.Frame.{IsStable}
use cs320_cluster_process_ma.Controller.Frame.Tick.{apply_scheduled-Keeps}
use cs320_cluster_process_ma.Controller.Failures.{detect_missed_heartbeats}
use cs320_cluster_process_ma.Controller.Placement.{schedule_ready}
use cs320_cluster_process_ma.Controller.Tick.Sampling.{sample_utilization}
use cs320_cluster_process_ma.Controller.Tick.{
  begin_tick, rollback, run_tick, checked, after_scheduled, step,
}
use cs320_cluster_process_ma.Controller.Tick.Schedule.{apply_scheduled}
use cs320_cluster_process_ma.Controller.Invariant.Facts.{IsConsistent}
use cs320_cluster_process_ma.Controller.Consistency.Audit.{validate_invariants-accepts}
use cs320_cluster_process_ma.Controller.Consistency.NodeStatus.{
  detect_missed_heartbeats-IsConsistent,
}
use cs320_cluster_process_ma.Controller.Consistency.Queue.{schedule_ready-IsConsistent}
use cs320_cluster_process_ma.Controller.Consistency.Schedule.{apply_scheduled-IsConsistent}
use cs320_cluster_process_ma.Controller.Consistency.Tick.{
  begin_tick-IsConsistent, run_tick-IsConsistent,
}
use cs320_cluster_process_ma.Controller.Outcome.Defs.{IsAtomic}
use cs320_cluster_process_ma.Controller.Outcome.Schedule.{apply_scheduled-IsCalm}
use cs320_cluster_process_ma.Controller.Outcome.Placement.{schedule_ready-Runs}
use cs320_cluster_process_ma.Controller.Outcome.Tick.{
  Runs, detect_missed_heartbeats-Runs, execute_running-Runs,
}

-- What a tick that fails in its scheduled actions has left alone: the configuration, and the
-- events that were there.
abbrev IsFramed : {F : Type 0} → Controller F → Controller F → Type 0
IsFramed c d =
    (d.scheduler ≡ c.scheduler)
    × (d.heartbeat_timeout_ticks ≡ c.heartbeat_timeout_ticks)
    × (d.max_nodes ≡ c.max_nodes)
    × (d.max_processes ≡ c.max_processes)
    × ((more : List Event) × (d.events ≡ c.events ++ more))

emitted-IsFramed :
    {F : Type 0} (c d : Controller F) (type : EventType) (severity p n message : String)
    → IsFramed c d
    → IsFramed c (emitted type severity p n message d)
unfolding emitted
emitted-IsFramed c d type severity p n message (a, b, e, f, (more, logged)) =
    let ev = next_event type severity p n message d ∷ [] in
    (a, b, e, f, (more ++ ev, ap (λ l. l ++ ev) logged ∙ append_assoc c.events more ev))

IsFramed-IsStable : {F : Type 0} (c : Controller F) → IsStable (IsFramed c)
IsFramed-IsStable c = record {
  node = λ n d h. h;
  process = λ p d h. h;
  statistics = λ g d h. h;
  status = λ s reason d h. h;
  pending = λ m d h. h;
  failures = λ m d h. h;
  event = λ type severity p n message d h. emitted-IsFramed c d type severity p n message h;
}

begin_tick-IsFramed : {F : Type 0} (c : Controller F) → IsFramed c (begin_tick c)
unfolding begin_tick
begin_tick-IsFramed c = elim (Bool-cases (is_running c.simulation_status)) [
  | inl on ↦ rw on (refl, refl, refl, refl, ([], sym (append-nil c.events)))
  | inr off ↦ rw off (
      emitted-IsFramed c
        (set_state (λ s. record s { simulation_status = SimulationStatus.running }) c)
        EventType.simulation_started "info" "" "" "simulation started"
        (refl, refl, refl, refl, ([], sym (append-nil c.events))))
]

take-append : (xs ys : List Event) → take (length xs) (xs ++ ys) ≡ xs
take-append [] ys = refl
take-append (x ∷ xs) ys = ap (λ l. x ∷ l) (take-append xs ys)

-- Rolled back, such a controller is the one before the tick.
rollback-IsFramed : {F : Type 0} (c d : Controller F) → IsFramed c d → rollback c d ≡ c
rollback-IsFramed c d (a, b, e, f, (more, logged)) =
    rw (a, b, e, f, logged, take-append c.events more) refl

module _ {F : Type 0} ⦃f : Float F⦄ where
  -- Once the scheduled actions are done, the rest of a tick goes through.
  pub run_tick-Runs : (c : Controller F) → IsConsistent c → Runs run_tick c
  unfolding run_tick sample_utilization
  run_tick-Runs c inv =
      let d = (detect_missed_heartbeats c).1 in
      let inv_d = detect_missed_heartbeats-IsConsistent c inv in
      let e = (schedule_ready d).1 in
      let inv_e = schedule_ready-IsConsistent d inv_d in
      rw
        (
          detect_missed_heartbeats-Runs c inv,
          schedule_ready-Runs d inv_d,
          execute_running-Runs (sample_utilization e) inv_e,
        )
        refl

  checked-ok :
      (previous c : Controller F) → IsConsistent c → (checked previous (run_tick c)).0 ≡ ok tt
  checked-ok previous c inv =
      let done = validate_invariants-accepts (run_tick c).1 (run_tick-IsConsistent c inv) in
      rw (run_tick-Runs c inv, done) refl

  ok-IsAtomic : (c : Controller F) (r : Result Unit × Controller F) → r.0 ≡ ok tt → IsAtomic c r
  ok-IsAtomic c (ok _, d) e = tt
  ok-IsAtomic c (err _, d) e = cc
  ok-IsAtomic c (panic, d) e = cc

  after_scheduled-IsAtomic :
      (c : Controller F) (r : Result Unit) (d : Controller F)
      → IsCalm r
      → IsFramed c d
      → IsConsistent d
      → IsAtomic c (after_scheduled c (r, d))
  after_scheduled-IsAtomic c (ok _) d calm frame inv =
      ok-IsAtomic c (checked c (run_tick d)) (checked-ok c d inv)
  after_scheduled-IsAtomic c (err _) d calm frame inv = rollback-IsFramed c d frame
  after_scheduled-IsAtomic c panic d calm frame inv = calm

  -- Step on a consistent controller succeeds, or returns an error and leaves the whole controller
  -- as it was, its events and its scheduler included; it never panics.
  pub step-IsAtomic : (c : Controller F) → IsConsistent c → IsAtomic c (step c)
  unfolding step
  step-IsAtomic c inv = elim (Bool-cases (is_completed c.simulation_status)) [
    | inl over ↦ rw over refl
    | inr going ↦
        let b = begin_tick c in
        let inv_b = begin_tick-IsConsistent c inv in
        let (r, d) = apply_scheduled b in
        rw going (
          after_scheduled-IsAtomic c r d (apply_scheduled-IsCalm b inv_b)
            (apply_scheduled-Keeps (IsFramed c) (IsFramed-IsStable c) b (begin_tick-IsFramed c))
            (apply_scheduled-IsConsistent b inv_b))
  ]

  -- A Step of a simulation that is not completed answers what its scheduled actions answer: nothing
  -- else in a tick of a consistent controller can fail, and the check of the invariants at its end
  -- does not refuse.
  pub step-apply_scheduled :
      (c : Controller F)
      → IsConsistent c
      → is_completed c.simulation_status ≡ false
      → (step c).0 ≡ (apply_scheduled (begin_tick c)).0
  unfolding step
  step-apply_scheduled c inv going =
      let b = begin_tick c in
      let (r, d) = apply_scheduled b in
      rw going (same_answer r d (apply_scheduled-IsConsistent b (begin_tick-IsConsistent c inv)))
    where
      same_answer :
          (r : Result Unit) (d : Controller F) → IsConsistent d → (after_scheduled c (r, d)).0 ≡ r
      same_answer (ok _) d k = checked-ok c d k
      same_answer (err _) d k = refl
      same_answer panic d k = refl
