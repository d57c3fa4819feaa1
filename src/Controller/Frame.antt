-- ===== src/Controller/Frame.antt =====
-- Properties of the controller that the elementary writes keep, and so every method that is made
-- of them: what failures, submissions and executions leave alone.
pub mod Tick
use Prim.Native.String.{◌++◌}
use cs320_cluster_process_ma.Base.{
  Dict, ℤ, String, List, [], ◌∷◌, Bool, true, false, ◌≡◌, inl, inr, Bool-cases, Option-cases,
  lookup, string_eq, Keeps, bind_after, add_int, Action, node_not_found, invalid_state_transition,
  invalid_input, duplicate_process, size, has_key, leb_ℤ, pos, ◌==◌, not, ◌&&◌, Error, Result, ok,
  err, panic, lift, get, or_fail, or_panic, fail_if, none, some, Option, sort_by, before, ignore,
  ignore_after, ◌>>=◌, modify, pure,
}
use cs320_cluster_process_ma.Domain.Types.{is_terminal, ProcessState, SimulationStatus, EventType}
use cs320_cluster_process_ma.Domain.Process.{
  Process, ProcessDefinition, transition, new_process, can_restart,
}
use cs320_cluster_process_ma.Domain.Node.{Node, release}
use cs320_cluster_process_ma.Domain.Scenario.{FailureDefinition}
use cs320_cluster_process_ma.Domain.Cluster.{Statistics}
use cs320_cluster_process_ma.Controller.State.{
  Controller, emitted, set_state, store_node, store_process, set_statistics, transition_to, emit,
}
use cs320_cluster_process_ma.Controller.Registry.{is_completed}
use cs320_cluster_process_ma.Controller.Processes.{
  is_running, release_locked, submit_process, reopened,
}
use cs320_cluster_process_ma.Controller.Failures.{
  is_failed, detach, forget_node, restart, finish_failed, restart_or_finish, fail_process_locked,
  fail_hosted, fail_node_locked, fail_late, detect_missed_heartbeats, failed_node,
}

pub record IsStable {F : Type 0} (P : Controller F → Type 0) : Type 0 where
  pub node : (n : Node) (c : Controller F) → P c → P (store_node n c)
  pub process : (p : Process) (c : Controller F) → P c → P (store_process p c)
  pub statistics :
      (g : Statistics F → Statistics F) (c : Controller F) → P c → P (set_statistics g c)
  pub status :
      (s : SimulationStatus) (reason : String) (c : Controller F)
      → P c
      → P (set_state (λ t. record t { simulation_status = s; finish_reason = reason }) c)
  pub pending :
      (m : Dict ℤ (List ProcessDefinition)) (c : Controller F)
      → P c
      → P (record c { pending_processes = m })
  pub failures :
      (m : Dict ℤ (List FailureDefinition)) (c : Controller F)
      → P c
      → P (record c { scheduled_failures = m })
  pub event :
      (type : EventType) (severity process_id node_id message : String) (c : Controller F)
      → P c
      → P (emitted type severity process_id node_id message c)

module _ {F : Type 0} (P : Controller F → Type 0) (s : IsStable P) where
  lift-Keeps : {A : Type 0} (r : Result A) → Keeps P (lift r)
  lift-Keeps r c p = p

  pub or_fail-Keeps : {A : Type 0} (o : Option A) (e : Error) → Keeps P (or_fail o e)
  or_fail-Keeps none e c p = p
  or_fail-Keeps (some a) e c p = p

  pub or_panic-Keeps : {A : Type 0} (o : Option A) → Keeps P (or_panic o)
  or_panic-Keeps none c p = p
  or_panic-Keeps (some a) c p = p

  pub fail_if-Keeps : (b : Bool) (e : Error) → Keeps P (fail_if b e)
  fail_if-Keeps true e c p = p
  fail_if-Keeps false e c p = p

  pub transition_to-Keeps : (p : Process) (to : ProcessState) → Keeps P (transition_to p to)
  transition_to-Keeps p to c h =
      bind_after P (lift (transition p to)) _ c h λ q d k. s.process q d k

  pub release_locked-Keeps : (p : Process) → Keeps P (release_locked p)
  unfolding release_locked
  release_locked-Keeps p c h =
      bind_after P (or_fail (lookup p.node_id c.nodes) node_not_found) _ c
        (or_fail-Keeps (lookup p.node_id c.nodes) node_not_found c h)
        λ n d k.
          bind_after P (lift (release n p)) _ d k
            λ freed e l. s.event _ _ _ _ _ _ (s.process _ _ (s.node freed e l))

  detach-Keeps : (p : Process) → Keeps P (detach p)
  unfolding detach
  detach-Keeps p c h = elim (Bool-cases (is_running p.state && not (p.node_id == ""))) [
    | inr idle ↦ rw idle h
    | inl run ↦ elim (Option-cases (lookup p.node_id c.nodes)) [
      | inl e ↦ rw (run, e) (s.process _ c h)
      | inr (n, e) ↦ elim (Bool-cases (is_failed n.status)) [
        | inl down ↦ rw (run, e, down) (s.process _ c h)
        | inr up ↦ rw (run, e, up) (release_locked-Keeps p c h)
      ]
    ]
  ]

  restart_or_finish-Keeps : (p : Process) → Keeps P (restart_or_finish p)
  unfolding restart_or_finish
  restart_or_finish-Keeps p c h = elim (Bool-cases (can_restart p)) [
    | inr last ↦ rw last (s.process _ c h)
    | inl again ↦ rw again (
        bind_after P (transition_to _ ProcessState.ready) _ _
          (transition_to-Keeps _ ProcessState.ready _ (s.process _ c h))
          λ r d k. s.event _ _ _ _ _ _ (s.process _ _ k))
  ]

  pub fail_process_locked-Keeps :
      (p : Process) (reason : String) → Keeps P (fail_process_locked p reason)
  unfolding fail_process_locked
  fail_process_locked-Keeps p reason c h =
      bind_after P (fail_if (is_terminal p.state) invalid_state_transition) _ c
        (fail_if-Keeps (is_terminal p.state) invalid_state_transition c h)
        λ _ d k. bind_after P (detach p) _ d (detach-Keeps p d k) λ q e l.
          bind_after P (transition_to q ProcessState.failed) _ e
            (transition_to-Keeps q ProcessState.failed e l)
            λ r f m. restart_or_finish-Keeps _ _ (s.event _ _ _ _ _ _ (s.process _ _ m))

  pub fail_hosted-Keeps : (reason : String) (ids : List String) → Keeps P (fail_hosted reason ids)
  unfolding fail_hosted
  fail_hosted-Keeps reason [] c h = h
  fail_hosted-Keeps reason (id ∷ ids) c h =
      bind_after P (or_panic (lookup id c.processes)) _ c
        (or_panic-Keeps (lookup id c.processes) c h)
        λ p d k.
          bind_after P (fail_process_locked (record p { node_id = "" }) reason)
            (λ _. fail_hosted reason ids) _ (fail_process_locked-Keeps _ reason _ (s.process _ d k))
            λ _. fail_hosted-Keeps reason ids

  pub fail_node_locked-Keeps : (n : Node) (reason : String) → Keeps P (fail_node_locked n reason)
  unfolding fail_node_locked
  fail_node_locked-Keeps n reason c h =
      bind_after P (fail_if (is_failed n.status) invalid_state_transition) _ c
        (fail_if-Keeps (is_failed n.status) invalid_state_transition c h)
        λ _ d k.
          bind_after P (fail_hosted ("hosting node " ++ n.id ++ " failed") ids)
            (λ _. pure (failed_node n)) _
            (fail_hosted-Keeps _ ids _ (
              s.event _ _ _ _ _ _ (
                s.statistics (λ t. record t { node_failures = add_int t.node_failures (pos 1) }) _
                  (s.node _ d k))))
            λ _ e l. l
    where
      ids : List String
      ids = sort_by before n.running_process_ids

  pub fail_late-Keeps : (ids : List String) → Keeps P (fail_late ids)
  unfolding fail_late
  fail_late-Keeps [] c h = h
  fail_late-Keeps (id ∷ ids) c h =
      bind_after P (or_panic (lookup id c.nodes)) _ c (or_panic-Keeps (lookup id c.nodes) c h)
        λ n d k.
          bind_after P (ignore (fail_node_locked n "heartbeat timeout exceeded"))
            (λ _. fail_late ids) _
            (ignore_after P (fail_node_locked n "heartbeat timeout exceeded") _
              (fail_node_locked-Keeps n _ _ (s.event _ _ _ _ _ _ k)))
            λ _. fail_late-Keeps ids

  pub submit_process-Keeps : (def : ProcessDefinition) → Keeps P (submit_process def)
  unfolding submit_process
  submit_process-Keeps def c h =
      bind_after P (fail_if (leb_ℤ c.max_processes (pos (size c.processes))) invalid_input) _ c
        (fail_if-Keeps (leb_ℤ c.max_processes (pos (size c.processes))) invalid_input c h)
        λ _ d k. bind_after P (lift (new_process def c.current_tick)) _ d k λ p e l.
          bind_after P (fail_if (has_key p.id c.processes) duplicate_process) _ e
            (fail_if-Keeps (has_key p.id c.processes) duplicate_process e l)
            λ _ f m.
              bind_after P (lift (transition p ProcessState.ready)) _ f m
                λ q g o. s.event _ _ _ _ _ _ (reopened-Keeps _ (s.process q g o))
    where
      reopened-Keeps : (c : Controller F) → P c → P (reopened c)
      reopened-Keeps c h = elim (Bool-cases (is_completed c.simulation_status)) [
        | inl over ↦ rw over (s.status _ _ c h)
        | inr going ↦ rw going h
      ]
