-- ===== src/Controller/Tick/Schedule.antt =====
-- internal/cluster/scenario.go: applyScheduledLocked.
use cs320_cluster_process_ma.Base.{
  String, List, [], ◌∷◌, Option, none, some, ◌==◌, string_eq, int_eq, if◌then◌else◌, lookup, delete,
  sort_by, before, Action, get, pure, modify, or_fail, ◌>>=◌, ◌>>◌, node_not_found,
  process_not_found,
}
use cs320_cluster_process_ma.Domain.Process.{ProcessDefinition}
use cs320_cluster_process_ma.Domain.Scenario.{FailureType, FailureDefinition}
use cs320_cluster_process_ma.Controller.State.{Controller}
use cs320_cluster_process_ma.Controller.Processes.{submit_process}
use cs320_cluster_process_ma.Controller.Failures.{fail_node_locked, fail_process_locked}

-- A missing key of a map of slices reads as the empty slice.
abbrev pub or_empty : {A : Type 0} → Option (List A) → List A
or_empty none = []
or_empty (some xs) = xs

abbrev reason : FailureDefinition → String
reason failure = if failure.message == "" then "scheduled scenario failure" else failure.message

module _ {F : Type 0} where
  unfoldable pub submit_all : List ProcessDefinition → Action (Controller F) Unit
  submit_all [] = pure tt
  submit_all (def ∷ defs) = do p ← submit_process def; submit_all defs

  -- The submissions of the current tick; the entry stays if there are none.
  unfoldable pub apply_pending : List ProcessDefinition → Action (Controller F) Unit
  apply_pending [] = pure tt
  apply_pending (def ∷ defs) = do
    submit_all (sort_by (λ a b. before a.id b.id) (def ∷ defs))
    c ← get
    modify (λ d. record d { pending_processes = delete c.current_tick d.pending_processes })

  -- The `switch` of the loop: a failure of an unknown type does nothing.
  unfoldable pub apply_failure : FailureType → FailureDefinition → Action (Controller F) Unit
  apply_failure FailureType.node failure = do
    c ← get
    n ← or_fail (lookup failure.node_id c.nodes) node_not_found
    m ← fail_node_locked n (reason failure)
    pure tt
  apply_failure FailureType.process failure = do
    c ← get
    p ← or_fail (lookup failure.process_id c.processes) process_not_found
    q ← fail_process_locked p (reason failure)
    pure tt
  apply_failure (FailureType.unknown _) failure = pure tt

  unfoldable pub apply_failures : List FailureDefinition → Action (Controller F) Unit
  apply_failures [] = pure tt
  apply_failures (failure ∷ failures) = do
    apply_failure failure.type failure
    apply_failures failures

  unfoldable pub apply_scheduled : Action (Controller F) Unit
  apply_scheduled = do
    c ← get
    apply_pending (or_empty (lookup c.current_tick c.pending_processes))
    d ← get
    apply_failures (or_empty (lookup d.current_tick d.scheduled_failures))
    modify (λ e. record e { scheduled_failures = delete d.current_tick e.scheduled_failures })
