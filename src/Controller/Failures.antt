-- ===== src/Controller/Failures.antt =====
-- internal/cluster/recovery.go: node status, failures, restarts and heartbeats.
use Prim.Native.String.{◌++◌}
use cs320_cluster_process_ma.Base.{
  ℤ, pos, String, List, [], ◌∷◌, Bool, true, false, not, ◌&&◌, ◌||◌, none, some, ◌==◌, string_eq,
  ltb_ℤ, leb_ℤ, add_int, sub_int, ltb, length, if◌then◌else◌, lookup, sort_by, before, Dict, ok,
  Action, get, pure, modify, fail_if, or_fail, or_panic, ignore, ◌>>=◌, ◌>>◌, node_not_found,
  invalid_state_transition,
}
use cs320_cluster_process_ma.Domain.Types.{ProcessState, is_terminal, NodeStatus, EventType}
use cs320_cluster_process_ma.Domain.Process.{Process, can_restart}
use cs320_cluster_process_ma.Domain.Node.{Node, is_online}
use cs320_cluster_process_ma.Controller.State.{
  Controller, set_statistics, store_node, store_process, emit, process_locked, transition_to,
}
use cs320_cluster_process_ma.Controller.Processes.{is_running, release_locked}

abbrev pub is_failed : NodeStatus → Bool
is_failed NodeStatus.failed = true
is_failed _ = false

abbrev pub is_offline : NodeStatus → Bool
is_offline NodeStatus.offline = true
is_offline _ = false

abbrev pub is_draining : NodeStatus → Bool
is_draining NodeStatus.draining = true
is_draining _ = false

-- `from == to`
abbrev pub same_status : NodeStatus → NodeStatus → Bool
same_status NodeStatus.online NodeStatus.online = true
same_status NodeStatus.draining NodeStatus.draining = true
same_status NodeStatus.offline NodeStatus.offline = true
same_status NodeStatus.failed NodeStatus.failed = true
same_status NodeStatus.recovering NodeStatus.recovering = true
same_status (NodeStatus.unknown s) (NodeStatus.unknown t) = s == t
same_status _ _ = false

-- The table of validNodeTransition.
abbrev pub allowed : NodeStatus → NodeStatus → Bool
allowed NodeStatus.online NodeStatus.draining = true
allowed NodeStatus.online NodeStatus.offline = true
allowed NodeStatus.draining NodeStatus.online = true
allowed NodeStatus.draining NodeStatus.offline = true
allowed NodeStatus.offline NodeStatus.online = true
allowed NodeStatus.offline NodeStatus.recovering = true
allowed NodeStatus.recovering NodeStatus.online = true
allowed _ _ = false

unfoldable pub valid_node_transition : NodeStatus → NodeStatus → Bool
valid_node_transition from to = same_status from to || allowed from to

abbrev pub status_text : NodeStatus → String
status_text NodeStatus.online = "ONLINE"
status_text NodeStatus.draining = "DRAINING"
status_text NodeStatus.offline = "OFFLINE"
status_text NodeStatus.failed = "FAILED"
status_text NodeStatus.recovering = "RECOVERING"
status_text (NodeStatus.unknown s) = s

-- The nodes that detectMissedHeartbeatsLocked collects.
abbrev pub late : ℤ → ℤ → Dict String Node → List String
late tick timeout [] = []
late tick timeout ((id, n) ∷ nodes) =
    let rest = late tick timeout nodes in
    if is_online n.status && ltb_ℤ timeout (sub_int tick n.last_heartbeat_tick)
    then id ∷ rest
    else rest

-- A node as failNodeLocked leaves it.
abbrev pub failed_node : Node → Node
failed_node n = record n {
  status = NodeStatus.failed;
  cpu_allocated = pos 0;
  memory_allocated_mb = pos 0;
  running_process_ids = [];
}

module _ {F : Type 0} where
  -- `process.NodeID = ""`
  abbrev pub forget_node : Process → Action (Controller F) Process
  forget_node p = do
    modify (store_process (record p { node_id = "" }))
    pure (record p { node_id = "" })

  -- The inner `if` of failProcessLocked: a running process leaves its node.
  unfoldable pub detach : Process → Action (Controller F) Process
  detach p c =
      if is_running p.state && not (p.node_id == "")
      then elim (lookup p.node_id c.nodes) [
        | none ↦ forget_node p c
        | some node ↦ if is_failed node.status then forget_node p c else release_locked p c
      ]
      else (ok p, c)

  -- The restart at the end of failProcessLocked.
  abbrev pub restart : Process → Action (Controller F) Process
  restart p = do
    let q = record p {
      restart_count = add_int p.restart_count (pos 1);
      remaining_ticks = p.total_ticks;
      finished_at_tick = none;
    }
    modify (store_process q)
    r ← transition_to q ProcessState.ready
    c ← get
    modify (store_process (record r { last_ready_at_tick = c.current_tick }))
    emit EventType.process_restarted "warning" r.id "" "process queued for restart"
    pure (record r { last_ready_at_tick = c.current_tick })

  abbrev pub finish_failed : Process → Action (Controller F) Process
  finish_failed p = do
    c ← get
    modify (store_process (record p { finished_at_tick = some c.current_tick }))
    pure (record p { finished_at_tick = some c.current_tick })

  -- The end of failProcessLocked: a restart if one is left, and otherwise the process is finished.
  unfoldable pub restart_or_finish : Process → Action (Controller F) Process
  unfolding can_restart
  restart_or_finish p = if can_restart p then restart p else finish_failed p

  -- failProcessLocked; the process afterwards.
  unfoldable pub fail_process_locked : Process → String → Action (Controller F) Process
  fail_process_locked p reason = do
    fail_if (is_terminal p.state) invalid_state_transition
    q ← detach p
    r ← transition_to q ProcessState.failed
    modify (store_process (record r { last_error = reason }))
    emit EventType.process_failed "error" r.id p.node_id reason
    restart_or_finish (record r { last_error = reason })

  unfoldable pub fail_process : String → String → Action (Controller F) Process
  fail_process id reason = do p ← process_locked id; fail_process_locked p reason

  -- The loop of failNodeLocked over the processes that the node hosted.
  unfoldable pub fail_hosted : String → List String → Action (Controller F) Unit
  fail_hosted reason [] = pure tt
  fail_hosted reason (id ∷ ids) = do
    c ← get
    p ← or_panic (lookup id c.processes)
    modify (store_process (record p { node_id = "" }))
    q ← fail_process_locked (record p { node_id = "" }) reason
    fail_hosted reason ids

  -- failNodeLocked; the node afterwards.
  unfoldable pub fail_node_locked : Node → String → Action (Controller F) Node
  fail_node_locked n reason = do
    fail_if (is_failed n.status) invalid_state_transition
    modify (store_node (failed_node n))
    modify (set_statistics (λ s. record s { node_failures = add_int s.node_failures (pos 1) }))
    emit EventType.node_failed "error" "" n.id reason
    fail_hosted ("hosting node " ++ n.id ++ " failed") (sort_by before n.running_process_ids)
    pure (failed_node n)

  unfoldable pub fail_node : String → Action (Controller F) Node
  fail_node id = do
    c ← get
    n ← or_fail (lookup id c.nodes) node_not_found
    fail_node_locked n "node failed by user request"

  -- ChangeNodeStatus to a status other than FAILED, from the guards on.
  abbrev pub move_node : Node → NodeStatus → Action (Controller F) Node
  move_node n status = do
    fail_if (not (valid_node_transition n.status status)) invalid_state_transition
    fail_if (is_offline status && ltb 0 (length n.running_process_ids)) invalid_state_transition
    c ← get
    let beat = if is_online status then c.current_tick else n.last_heartbeat_tick
    let m = record n { status = status; last_heartbeat_tick = beat }
    modify (store_node m)
    emit EventType.node_status_changed "info" "" n.id
        ("node status changed to " ++ status_text status)
    pure m

  unfoldable pub change_node_status : String → NodeStatus → Action (Controller F) Node
  change_node_status id status = do
    c ← get
    n ← or_fail (lookup id c.nodes) node_not_found
    if is_failed status
        then fail_node_locked n "node failed by user request"
        else move_node n status

  unfoldable pub recover_node : String → Action (Controller F) Node
  recover_node id = do
    c ← get
    n ← or_fail (lookup id c.nodes) node_not_found
    fail_if (not (is_failed n.status) && not (is_offline n.status)) invalid_state_transition
    modify (store_node (record n { status = NodeStatus.recovering }))
    emit EventType.node_status_changed "info" "" n.id "node is recovering"
    let m = record n { status = NodeStatus.online; last_heartbeat_tick = c.current_tick }
    modify (store_node m)
    emit EventType.node_recovered "info" "" n.id "node recovered"
    pure m

  unfoldable pub heartbeat : String → Action (Controller F) Unit
  heartbeat id = do
    c ← get
    n ← or_fail (lookup id c.nodes) node_not_found
    fail_if (not (is_online n.status) && not (is_draining n.status)) invalid_state_transition
    modify (store_node (record n { last_heartbeat_tick = c.current_tick }))

  -- Its loop over their sorted identifiers.
  unfoldable pub fail_late : List String → Action (Controller F) Unit
  fail_late [] = pure tt
  fail_late (id ∷ ids) = do
    c ← get
    n ← or_panic (lookup id c.nodes)
    emit EventType.node_heartbeat_missed "error" "" id "heartbeat timeout exceeded"
    ignore (fail_node_locked n "heartbeat timeout exceeded")
    fail_late ids

  unfoldable pub detect_missed_heartbeats : Action (Controller F) Unit
  detect_missed_heartbeats c =
      if leb_ℤ c.heartbeat_timeout_ticks (pos 0)
      then (ok tt, c)
      else fail_late (sort_by before (late c.current_tick c.heartbeat_timeout_ticks c.nodes)) c
