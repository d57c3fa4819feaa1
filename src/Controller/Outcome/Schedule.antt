-- ===== src/Controller/Outcome/Schedule.antt =====
-- internal/cluster/scenario.go: the outcomes of applyScheduledLocked.
use cs320_cluster_process_ma.Base.{
  List, [], ◌∷◌, inl, inr, Option-cases, lookup, string_eq, int_eq, sort_by, before, IsCalm,
  bind-IsCalm,
}
use cs320_cluster_process_ma.Domain.Process.{ProcessDefinition}
use cs320_cluster_process_ma.Domain.Scenario.{FailureType, FailureDefinition}
use cs320_cluster_process_ma.Controller.State.{Controller}
use cs320_cluster_process_ma.Controller.Processes.{submit_process}
use cs320_cluster_process_ma.Controller.Failures.{fail_node_locked, fail_process_locked}
use cs320_cluster_process_ma.Controller.Tick.Schedule.{
  submit_all, apply_pending, apply_failure, apply_failures, apply_scheduled, or_empty,
}
use cs320_cluster_process_ma.Controller.Invariant.Facts.{IsConsistent}
use cs320_cluster_process_ma.Controller.Consistency.Commands.{
  submit_process-IsConsistent, found_itself,
}
use cs320_cluster_process_ma.Controller.Consistency.Schedule.{
  apply_pending-IsConsistent, apply_failure-IsConsistent,
}
use cs320_cluster_process_ma.Controller.Outcome.Defs.{IsAtomic→IsCalm}
use cs320_cluster_process_ma.Controller.Outcome.Commands.{
  submit_process-IsAtomic, fail_process_locked-IsAtomic,
}
use cs320_cluster_process_ma.Controller.Outcome.Nodes.{fail_node_locked-IsAtomic}

module _ {F : Type 0} where
  submit_all-IsCalm :
      (defs : List ProcessDefinition) (c : Controller F)
      → IsConsistent c
      → IsCalm (submit_all defs c).0
  unfolding submit_all
  submit_all-IsCalm [] c inv = tt
  submit_all-IsCalm (def ∷ defs) c inv =
      bind-IsCalm (submit_process def) (λ _. submit_all defs) c
        (IsAtomic→IsCalm (submit_process def) c (submit_process-IsAtomic c inv def))
        (λ _.
          submit_all-IsCalm defs (submit_process def c).1 (submit_process-IsConsistent c inv def))

  apply_pending-IsCalm :
      (defs : List ProcessDefinition) (c : Controller F)
      → IsConsistent c
      → IsCalm (apply_pending defs c).0
  unfolding apply_pending
  apply_pending-IsCalm [] c inv = tt
  apply_pending-IsCalm (def ∷ defs) c inv =
      bind-IsCalm (submit_all (sort_by (λ a b. before a.id b.id) (def ∷ defs))) _ c
        (submit_all-IsCalm (sort_by (λ a b. before a.id b.id) (def ∷ defs)) c inv) (λ _. tt)

  apply_failure-IsCalm :
      (type : FailureType) (failure : FailureDefinition) (c : Controller F)
      → IsConsistent c
      → IsCalm (apply_failure type failure c).0
  unfolding apply_failure
  apply_failure-IsCalm FailureType.node failure c inv =
      elim (Option-cases (lookup failure.node_id c.nodes)) [
        | inl e ↦ rw e tt
        | inr (n, e) ↦ rw e (
            bind-IsCalm (fail_node_locked n _) _ c
              (IsAtomic→IsCalm (fail_node_locked n _) c
                (fail_node_locked-IsAtomic c inv failure.node_id n _ e))
              (λ _. tt))
      ]
  apply_failure-IsCalm FailureType.process failure c inv =
      elim (Option-cases (lookup failure.process_id c.processes)) [
        | inl e ↦ rw e tt
        | inr (p, e) ↦ rw e (
            bind-IsCalm (fail_process_locked p _) _ c
              (IsAtomic→IsCalm (fail_process_locked p _) c (
                fail_process_locked-IsAtomic c inv p _ (found_itself c inv failure.process_id p e)))
              (λ _. tt))
      ]
  apply_failure-IsCalm (FailureType.unknown _) failure c inv = tt

  apply_failures-IsCalm :
      (failures : List FailureDefinition) (c : Controller F)
      → IsConsistent c
      → IsCalm (apply_failures failures c).0
  unfolding apply_failures
  apply_failures-IsCalm [] c inv = tt
  apply_failures-IsCalm (failure ∷ failures) c inv =
      bind-IsCalm (apply_failure failure.type failure) (λ _. apply_failures failures) c
        (apply_failure-IsCalm failure.type failure c inv)
        (λ _.
          apply_failures-IsCalm failures (apply_failure failure.type failure c).1
            (apply_failure-IsConsistent failure.type failure c inv))

  pub apply_scheduled-IsCalm : (c : Controller F) → IsConsistent c → IsCalm (apply_scheduled c).0
  unfolding apply_scheduled
  apply_scheduled-IsCalm c inv =
      let defs = or_empty (lookup c.current_tick c.pending_processes) in
      let d = (apply_pending defs c).1 in
      let failures = or_empty (lookup d.current_tick d.scheduled_failures) in
      bind-IsCalm (apply_pending defs) _ c (apply_pending-IsCalm defs c inv) (λ _.
        bind-IsCalm (apply_failures failures) _ d
          (apply_failures-IsCalm failures d (apply_pending-IsConsistent defs c inv)) (λ _. tt))
