-- ===== src/Controller/Consistency/Tick.antt =====
-- internal/cluster/lifecycle.go: Step and Steps, and the invariant.
use cs320_cluster_process_ma.Base.{
  ℕ, zero, suc, ℤ, pos, pos_part, inl, inr, Option-cases, Bool-cases, Float, Result, ok, err, panic,
  bind_after, leb_ℤ, ltb_ℤ, ltb, size, ◌&&◌, ◌==◌, string_eq,
}
use cs320_cluster_process_ma.Controller.State.{Controller, emitted}
use cs320_cluster_process_ma.Controller.Registry.{is_running, is_completed}
use cs320_cluster_process_ma.Controller.Audit.{validate_invariants}
use cs320_cluster_process_ma.Controller.Failures.{detect_missed_heartbeats}
use cs320_cluster_process_ma.Controller.Placement.{schedule_ready}
use cs320_cluster_process_ma.Controller.Tick.Execution.{execute_running}
use cs320_cluster_process_ma.Controller.Tick.Sampling.{sample_utilization}
use cs320_cluster_process_ma.Controller.Tick.Schedule.{apply_scheduled}
use cs320_cluster_process_ma.Controller.Tick.{
  begin_tick, conclude, run_tick, step, steps_from, steps, or_rollback, checked, after_scheduled,
  stops, all_processes_terminal, progress_block_reason,
}
use cs320_cluster_process_ma.Controller.Invariant.Facts.{IsConsistent}
use cs320_cluster_process_ma.Controller.Consistency.Registry.{finish_locked-IsConsistent}
use cs320_cluster_process_ma.Controller.Consistency.NodeStatus.{
  detect_missed_heartbeats-IsConsistent,
}
use cs320_cluster_process_ma.Controller.Consistency.Queue.{schedule_ready-IsConsistent}
use cs320_cluster_process_ma.Controller.Consistency.Execution.{execute_running-IsConsistent}
use cs320_cluster_process_ma.Controller.Consistency.Schedule.{apply_scheduled-IsConsistent}

module _ {F : Type 0} where
  conclude-IsConsistent : (c : Controller F) → IsConsistent c → IsConsistent (conclude c)
  unfolding conclude
  conclude-IsConsistent c inv =
      elim (Bool-cases (ltb 0 (size c.processes) && all_processes_terminal c)) [
        | inl over ↦ rw over (finish_locked-IsConsistent c inv _)
        | inr going ↦
            elim (Bool-cases (ltb_ℤ (pos 0) c.max_ticks && leb_ℤ c.max_ticks c.current_tick)) [
              | inl late ↦ rw (going, late) (finish_locked-IsConsistent c inv _)
              | inr early ↦ elim (Bool-cases (progress_block_reason c == "")) [
                | inl free ↦ rw (going, early, free) inv
                | inr blocked ↦ rw (going, early, blocked) (finish_locked-IsConsistent c inv _)
              ]
            ]
      ]

  pub begin_tick-IsConsistent : (c : Controller F) → IsConsistent c → IsConsistent (begin_tick c)
  unfolding begin_tick emitted
  begin_tick-IsConsistent c inv = elim (Bool-cases (is_running c.simulation_status)) [
    | inl on ↦ rw on inv
    | inr off ↦ rw off inv
  ]

module _ {F : Type 0} ⦃f : Float F⦄ where
  pub run_tick-IsConsistent : (c : Controller F) → IsConsistent c → IsConsistent (run_tick c).1
  unfolding run_tick sample_utilization
  run_tick-IsConsistent c inv =
      bind_after IsConsistent detect_missed_heartbeats _ c
        (detect_missed_heartbeats-IsConsistent c inv)
        λ _ d k.
          bind_after IsConsistent schedule_ready _ d (schedule_ready-IsConsistent d k) λ _ e l.
            bind_after IsConsistent execute_running _ (sample_utilization e)
              (execute_running-IsConsistent (sample_utilization e) l) λ _. conclude-IsConsistent

  or_rollback-IsConsistent :
      (previous c : Controller F) (audit : Result Unit)
      → IsConsistent previous
      → IsConsistent c
      → IsConsistent (or_rollback previous audit c).1
  or_rollback-IsConsistent previous c (ok _) p k = k
  or_rollback-IsConsistent previous c (err _) p k = p
  or_rollback-IsConsistent previous c panic p k = k

  checked-IsConsistent :
      (previous : Controller F) (r : Result Unit) (c : Controller F)
      → IsConsistent previous
      → IsConsistent c
      → IsConsistent (checked previous (r, c)).1
  checked-IsConsistent previous (ok _) c p k =
      or_rollback-IsConsistent previous c (validate_invariants c) p k
  checked-IsConsistent previous (err _) c p k = k
  checked-IsConsistent previous panic c p k = k

  after_scheduled-IsConsistent :
      (previous : Controller F) (r : Result Unit) (c : Controller F)
      → IsConsistent previous
      → IsConsistent c
      → IsConsistent (after_scheduled previous (r, c)).1
  after_scheduled-IsConsistent previous (ok _) c p k =
      let (r, d) = run_tick c in checked-IsConsistent previous r d p (run_tick-IsConsistent c k)
  after_scheduled-IsConsistent previous (err _) c p k = p
  after_scheduled-IsConsistent previous panic c p k = k

  -- Step takes a controller that satisfies the invariant to one that satisfies it, whether it
  -- succeeds, refuses, rolls back or panics: every counter of a node is the sum of the requests of
  -- the processes that it lists and is within its capacity, a node lists each process once, the
  -- processes that it lists are the running ones placed on it, and a process that does not run has
  -- no node.
  pub step-IsConsistent : (c : Controller F) → IsConsistent c → IsConsistent (step c).1
  unfolding step
  step-IsConsistent c inv = elim (Bool-cases (is_completed c.simulation_status)) [
    | inl over ↦ rw over inv
    | inr going ↦
        let (r, d) = apply_scheduled (begin_tick c) in
        rw going (
          after_scheduled-IsConsistent c r d inv
            (apply_scheduled-IsConsistent (begin_tick c) (begin_tick-IsConsistent c inv)))
  ]

  steps_from-IsConsistent :
      (count : ℕ) (c : Controller F) → IsConsistent c → IsConsistent (steps_from count c).1
  unfolding steps_from
  steps_from-IsConsistent zero c inv = inv
  steps_from-IsConsistent (suc count) c inv =
      let kept = step-IsConsistent c inv in
      elim (Option-cases (stops (step c).0 (step c).1)) [
        | inl e ↦ rw (e, steps_from) (steps_from-IsConsistent count (step c).1 kept)
        | inr (answer, e) ↦ rw (e, steps_from) kept
      ]

  -- Steps keeps the invariant for every number of ticks.
  pub steps-IsConsistent :
      (count : ℤ) (c : Controller F) → IsConsistent c → IsConsistent (steps count c).1
  unfolding steps
  steps-IsConsistent count c inv = elim (Bool-cases (leb_ℤ count (pos 0))) [
    | inl none_asked ↦ rw none_asked inv
    | inr some_asked ↦ rw some_asked (steps_from-IsConsistent (pos_part count) c inv)
  ]
