-- ===== src/Controller/Frame/Tick.antt =====
-- internal/cluster/scenario.go and lifecycle.go: applyScheduledLocked, executeRunningLocked and
-- scheduleReadyLocked, and the properties that the elementary writes keep.
use cs320_cluster_process_ma.Base.{
  ℤ, pos, String, List, [], ◌∷◌, ◌≡◌, inl, inr, Bool-cases, lookup, string_eq, int_eq, Keeps,
  bind_after, ignore_after, Result, ok, err, panic, none, some, Option, sort_by, before, Float,
  add_int, or_fail, or_panic, node_not_found, process_not_found, ltb_ℤ, refl,
}
use cs320_cluster_process_ma.Domain.Types.{ProcessState, EventType}
use cs320_cluster_process_ma.Domain.Process.{Process, ProcessDefinition, transition}
use cs320_cluster_process_ma.Domain.Node.{Node, NodeSnapshot, allocate?, release}
use cs320_cluster_process_ma.Domain.Scenario.{FailureType, FailureDefinition}
use cs320_cluster_process_ma.Scheduler.{Scheduler, select_node}
use cs320_cluster_process_ma.Controller.State.{
  Controller, transition_to, emitted, set_statistics, store_node,
}
use cs320_cluster_process_ma.Controller.Processes.{submit_process, release_locked}
use cs320_cluster_process_ma.Controller.Failures.{fail_node_locked, fail_process_locked}
use cs320_cluster_process_ma.Controller.Placement.{
  announce, run_on, place_on, placing, place, place_all,
}
use cs320_cluster_process_ma.Controller.Tick.Execution.{complete, worked, execute}
use cs320_cluster_process_ma.Controller.Tick.Schedule.{
  submit_all, apply_pending, apply_failure, apply_failures, apply_scheduled, or_empty,
}
use cs320_cluster_process_ma.Controller.Frame.{
  IsStable, or_fail-Keeps, or_panic-Keeps, transition_to-Keeps, release_locked-Keeps,
  fail_process_locked-Keeps, fail_node_locked-Keeps, submit_process-Keeps,
}

module _ {F : Type 0} (P : Controller F → Type 0) (s : IsStable P) where
  submit_all-Keeps : (defs : List ProcessDefinition) → Keeps P (submit_all defs)
  unfolding submit_all
  submit_all-Keeps [] c h = h
  submit_all-Keeps (def ∷ defs) c h =
      bind_after P (submit_process def) (λ _. submit_all defs) c (submit_process-Keeps P s def c h)
        λ _. submit_all-Keeps defs

  apply_pending-Keeps : (defs : List ProcessDefinition) → Keeps P (apply_pending defs)
  unfolding apply_pending
  apply_pending-Keeps [] c h = h
  apply_pending-Keeps (def ∷ defs) c h =
      bind_after P (submit_all (sort_by (λ a b. before a.id b.id) (def ∷ defs))) _ c
        (submit_all-Keeps (sort_by (λ a b. before a.id b.id) (def ∷ defs)) c h)
        λ _ d k. s.pending _ d k

  apply_failure-Keeps :
      (type : FailureType) (failure : FailureDefinition) → Keeps P (apply_failure type failure)
  unfolding apply_failure
  apply_failure-Keeps FailureType.node failure c h =
      bind_after P (or_fail (lookup failure.node_id c.nodes) node_not_found) _ c
        (or_fail-Keeps P s (lookup failure.node_id c.nodes) node_not_found c h)
        λ n d k.
          bind_after P (fail_node_locked n _) _ d (fail_node_locked-Keeps P s n _ d k) λ _ e l. l
  apply_failure-Keeps FailureType.process failure c h =
      bind_after P (or_fail (lookup failure.process_id c.processes) process_not_found) _ c
        (or_fail-Keeps P s (lookup failure.process_id c.processes) process_not_found c h)
        λ p d k.
          bind_after P (fail_process_locked p _) _ d (fail_process_locked-Keeps P s p _ d k)
            λ _ e l. l
  apply_failure-Keeps (FailureType.unknown _) failure c h = h

  apply_failures-Keeps : (failures : List FailureDefinition) → Keeps P (apply_failures failures)
  unfolding apply_failures
  apply_failures-Keeps [] c h = h
  apply_failures-Keeps (failure ∷ failures) c h =
      bind_after P (apply_failure failure.type failure) (λ _. apply_failures failures) c
        (apply_failure-Keeps failure.type failure c h) λ _. apply_failures-Keeps failures

  pub apply_scheduled-Keeps : Keeps P apply_scheduled
  unfolding apply_scheduled
  apply_scheduled-Keeps c h =
      bind_after P (apply_pending (or_empty (lookup c.current_tick c.pending_processes))) _ c
        (apply_pending-Keeps (or_empty (lookup c.current_tick c.pending_processes)) c h)
        λ _ d k.
          bind_after P (apply_failures (or_empty (lookup d.current_tick d.scheduled_failures))) _ d
            (apply_failures-Keeps (or_empty (lookup d.current_tick d.scheduled_failures)) d k)
            λ _ e l. s.failures _ e l

  complete-Keeps : (p : Process) → Keeps P (complete p)
  unfolding complete
  complete-Keeps p c h =
      bind_after P (release_locked p) _ c (release_locked-Keeps P s p c h) λ q d k.
        bind_after P (transition_to q ProcessState.terminated) _ d
          (transition_to-Keeps P s q ProcessState.terminated d k)
          λ r e l. s.event _ _ _ _ _ _ (s.process _ _ l)

  pub worked-Keeps : (p : Process) → Keeps P (worked p)
  unfolding worked
  worked-Keeps p c h = elim (Bool-cases (ltb_ℤ (pos 0) p.remaining_ticks)) [
    | inl more ↦ rw more (s.process p c h)
    | inr done ↦ rw done (ignore_after P (complete p) _ (complete-Keeps p _ (s.process p c h)))
  ]

  pub execute-Keeps : (ids : List String) → Keeps P (execute ids)
  unfolding execute
  execute-Keeps [] c h = h
  execute-Keeps (id ∷ ids) c h =
      bind_after P (or_panic (lookup id c.processes)) _ c
        (or_panic-Keeps P s (lookup id c.processes) c h)
        λ p d k.
          bind_after P (worked _) (λ _. execute ids) d (worked-Keeps _ d k) λ _. execute-Keeps ids

  announce-Keeps :
      (p : Process) (n : Node) (node_id : String) (nodes : List NodeSnapshot) (started : Option ℤ)
      → Keeps P (announce started p n node_id nodes)
  unfolding announce
  announce-Keeps p n node_id nodes none c h =
      s.event _ _ _ _ _ _ (s.event _ _ _ _ _ _ (s.event _ _ _ _ _ _ (s.process _ c h)))
  announce-Keeps p n node_id nodes (some _) c h = s.event _ _ _ _ _ _ (
      s.event _ _ _ _ _ _
        (s.statistics (λ t. record t { reschedulings = add_int t.reschedulings (pos 1) }) c h))

  run_on-Keeps :
      (p : Process) (n : Node) (node_id : String) (nodes : List NodeSnapshot)
      → Keeps P (run_on p n node_id nodes)
  unfolding run_on
  run_on-Keeps p n node_id nodes c h =
      announce-Keeps _ n node_id nodes p.started_at_tick _ (s.process _ c h)

  deferred-keeps :
      (severity process_id node_id message : String) (c : Controller F)
      → P c
      → P (
          emitted EventType.scheduling_deferred severity process_id node_id message (
            set_statistics
              (λ t. record t { scheduling_deferred = add_int t.scheduling_deferred (pos 1) })
              c))
  deferred-keeps severity process_id node_id message c h = s.event _ _ _ _ _ _ (
      s.statistics (λ t. record t { scheduling_deferred = add_int t.scheduling_deferred (pos 1) }) c
        h)

  give_back-keeps :
      (r : Result Node) (c : Controller F)
      → P c
      → P (elim r as (λ _. Controller F) [ ok freed ↦ store_node freed c | err _ ↦ c | panic ↦ c ])
  give_back-keeps (ok freed) c h = s.node freed c h
  give_back-keeps (err _) c h = h
  give_back-keeps panic c h = h

  place_on-Keeps :
      (p : Process) (node_id : String) (nodes : List NodeSnapshot)
      → Keeps P (place_on p node_id nodes)
  unfolding place_on
  place_on-Keeps p node_id nodes c h = by_allocation (allocate? (lookup node_id c.nodes) p) refl
    where
      by_move :
          (node : Node) (r : Result Process)
          → allocate? (lookup node_id c.nodes) p ≡ ok node
          → transition p ProcessState.running ≡ r
          → P (place_on p node_id nodes c).1
      by_move node (ok q) e f =
          rw (place_on, e, f)
            (run_on-Keeps q node node_id nodes _ (s.process q _ (s.node node c h)))
      by_move node (err _) e f =
          rw (place_on, e, f) (give_back-keeps (release node p) _ (s.node node c h))
      by_move node panic e f = rw (place_on, e, f) h

      by_allocation :
          (r : Result Node)
          → allocate? (lookup node_id c.nodes) p ≡ r
          → P (place_on p node_id nodes c).1
      by_allocation (ok node) e = by_move node (transition p ProcessState.running) e refl
      by_allocation (err _) e = rw (place_on, e) (deferred-keeps _ _ _ _ c h)
      by_allocation panic e = rw (place_on, e) h

  -- The scheduler may change as well.
  module _ ⦃f : Float F⦄
      (picks : (next : Scheduler) (c : Controller F)
        → P c
        → P (record c { scheduler = next })) where
    placing-Keeps :
        (answer : Result String) (p : Process) (nodes : List NodeSnapshot)
        → Keeps P (placing answer p nodes)
    unfolding placing
    placing-Keeps (ok node_id) p nodes c h = place_on-Keeps p node_id nodes c h
    placing-Keeps (err _) p nodes c h = deferred-keeps _ _ _ _ c h
    placing-Keeps panic p nodes c h = h

    place-Keeps : (p : Process) (nodes : List NodeSnapshot) → Keeps P (place p nodes)
    unfolding place
    place-Keeps p nodes c h =
        let (answer, next) = select_node F c.scheduler p nodes in
        placing-Keeps answer p nodes (record c { scheduler = next }) (picks next c h)

    pub place_all-Keeps :
        (ps : List Process) (nodes : List NodeSnapshot) → Keeps P (place_all ps nodes)
    unfolding place_all
    place_all-Keeps [] nodes c h = h
    place_all-Keeps (p ∷ ps) nodes c h =
        bind_after P (place p nodes) (place_all ps) c (place-Keeps p nodes c h) (place_all-Keeps ps)
