-- ===== src/Controller/Consistency/Schedule.antt =====
-- internal/cluster/scenario.go: applyScheduledLocked, and the invariant.
use cs320_cluster_process_ma.Base.{
  List, [], ◌∷◌, inl, inr, Option-cases, lookup, int_eq, string_eq, bind_after, sort_by, before,
}
use cs320_cluster_process_ma.Domain.Process.{ProcessDefinition}
use cs320_cluster_process_ma.Domain.Scenario.{FailureType, FailureDefinition}
use cs320_cluster_process_ma.Controller.State.{Controller}
use cs320_cluster_process_ma.Controller.Processes.{submit_process}
use cs320_cluster_process_ma.Controller.Failures.{fail_node_locked, fail_process_locked}
use cs320_cluster_process_ma.Controller.Tick.Schedule.{
  submit_all, apply_pending, apply_failure, apply_failures, apply_scheduled, or_empty,
}
use cs320_cluster_process_ma.Controller.Invariant.Facts.{IsConsistent}
use cs320_cluster_process_ma.Controller.Consistency.Commands.{
  submit_process-IsConsistent, found_itself,
}
use cs320_cluster_process_ma.Controller.Consistency.Failing.{fail_process_locked-IsConsistent}
use cs320_cluster_process_ma.Controller.Consistency.NodeFailure.{fail_node_locked-IsConsistent}

module _ {F : Type 0} where
  pub submit_all-IsConsistent :
      (defs : List ProcessDefinition) (c : Controller F)
      → IsConsistent c
      → IsConsistent (submit_all defs c).1
  unfolding submit_all
  submit_all-IsConsistent [] c inv = inv
  submit_all-IsConsistent (def ∷ defs) c inv =
      bind_after IsConsistent (submit_process def) (λ _. submit_all defs) c
        (submit_process-IsConsistent c inv def) (λ _. submit_all-IsConsistent defs)

  pub apply_pending-IsConsistent :
      (defs : List ProcessDefinition) (c : Controller F)
      → IsConsistent c
      → IsConsistent (apply_pending defs c).1
  unfolding apply_pending
  apply_pending-IsConsistent [] c inv = inv
  apply_pending-IsConsistent (def ∷ defs) c inv =
      bind_after IsConsistent (submit_all (sort_by (λ a b. before a.id b.id) (def ∷ defs))) _ c
        (submit_all-IsConsistent (sort_by (λ a b. before a.id b.id) (def ∷ defs)) c inv)
        (λ _ d k. k)

  pub apply_failure-IsConsistent :
      (type : FailureType) (failure : FailureDefinition) (c : Controller F)
      → IsConsistent c
      → IsConsistent (apply_failure type failure c).1
  unfolding apply_failure
  apply_failure-IsConsistent FailureType.node failure c inv =
      elim (Option-cases (lookup failure.node_id c.nodes)) [
        | inl e ↦ rw e inv
        | inr (n, e) ↦ rw e (
            bind_after IsConsistent (fail_node_locked n _) _ c
              (fail_node_locked-IsConsistent c inv failure.node_id n _ e) (λ _ d k. k))
      ]
  apply_failure-IsConsistent FailureType.process failure c inv =
      elim (Option-cases (lookup failure.process_id c.processes)) [
        | inl e ↦ rw e inv
        | inr (p, e) ↦ rw e (
            bind_after IsConsistent (fail_process_locked p _) _ c
              (fail_process_locked-IsConsistent c p _ (found_itself c inv failure.process_id p e)
                inv)
              (λ _ d k. k))
      ]
  apply_failure-IsConsistent (FailureType.unknown _) failure c inv = inv

  pub apply_failures-IsConsistent :
      (failures : List FailureDefinition) (c : Controller F)
      → IsConsistent c
      → IsConsistent (apply_failures failures c).1
  unfolding apply_failures
  apply_failures-IsConsistent [] c inv = inv
  apply_failures-IsConsistent (failure ∷ failures) c inv =
      bind_after IsConsistent (apply_failure failure.type failure) (λ _. apply_failures failures) c
        (apply_failure-IsConsistent failure.type failure c inv)
        (λ _. apply_failures-IsConsistent failures)

  -- applyScheduledLocked keeps the invariant, also where one of its submissions or failures returns
  -- an error and the rest is left out.
  pub apply_scheduled-IsConsistent :
      (c : Controller F) → IsConsistent c → IsConsistent (apply_scheduled c).1
  unfolding apply_scheduled
  apply_scheduled-IsConsistent c inv =
      bind_after IsConsistent (apply_pending (or_empty (lookup c.current_tick c.pending_processes)))
        _ c
        (apply_pending-IsConsistent (or_empty (lookup c.current_tick c.pending_processes)) c inv)
        (λ _ d k.
          bind_after IsConsistent
            (apply_failures (or_empty (lookup d.current_tick d.scheduled_failures))) _ d
            (apply_failures-IsConsistent (or_empty (lookup d.current_tick d.scheduled_failures)) d
              k)
            (λ _ e l. l))
