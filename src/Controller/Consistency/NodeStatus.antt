-- ===== src/Controller/Consistency/NodeStatus.antt =====
-- internal/cluster/recovery.go: ChangeNodeStatus, RecoverNode, Heartbeat and
-- detectMissedHeartbeatsLocked, and the invariant.
use cs320_cluster_process_ma.Base.{
  bind_after, ignore_after, leb_ℤ, pos, ℤ, String, List, [], ◌∷◌, true, false, not, ◌&&◌, ◌≡◌, refl,
  sym, subst, inl, inr, some, lookup, insert, lookup-insert_self, string_eq, Option-cases,
  Bool-cases, ltb, length, ignore,
}
use cs320_cluster_process_ma.Domain.Types.{EventType, NodeStatus}
use cs320_cluster_process_ma.Domain.Node.{Node, is_online}
use cs320_cluster_process_ma.Controller.State.{Controller, emitted, store_node}
use cs320_cluster_process_ma.Controller.Failures.{
  is_failed, is_offline, is_draining, fail_node_locked, change_node_status, move_node, recover_node,
  heartbeat, fail_late, detect_missed_heartbeats, valid_node_transition,
}
use cs320_cluster_process_ma.Controller.Invariant.Facts.{IsConsistent, IsConsistentBut}
use cs320_cluster_process_ma.Controller.Invariant.Nodes.{write_node}
use cs320_cluster_process_ma.Controller.Consistency.NodeFailure.{fail_node_locked-IsConsistent}

-- A node of the map gets a new status and a new heartbeat.
restamp :
    {F : Type 0} (c : Controller F) (inv : IsConsistent c) (k : String) (n : Node) (s : NodeStatus)
    (t : ℤ)
    → lookup k c.nodes ≡ some n
    → (is_failed s ≡ true → n.running_process_ids ≡ [])
    → IsConsistent (store_node (record n { status = s; last_heartbeat_tick = t }) c)
restamp c inv k n s t e emptied =
    let w = inv.nodes k n e in
    let m : Node = record n { status = s; last_heartbeat_tick = t } in
    subst (λ j. IsConsistentBut [] (insert j m c.nodes) c.processes) (sym w.key)
      (write_node c.nodes k n m e [] c.processes refl
        (record {
          key = w.key;
          identified = w.identified;
          named = w.named;
          cpu = w.cpu;
          memory = w.memory;
          distinct = w.distinct;
          emptied = emptied;
          hosted = w.hosted;
        })
        inv)

module _ {F : Type 0} (c : Controller F) (inv : IsConsistent c) where
  move_node-IsConsistent :
      (k : String) (n : Node) (s : NodeStatus)
      → lookup k c.nodes ≡ some n
      → is_failed s ≡ false
      → IsConsistent (move_node n s c).1
  unfolding emitted
  move_node-IsConsistent k n s e up = elim (Bool-cases (valid_node_transition n.status s)) [
    | inr bad ↦ rw bad inv
    | inl good ↦ elim (Bool-cases (is_offline s && ltb 0 (length n.running_process_ids))) [
      | inl busy ↦ rw (good, busy) inv
      | inr free ↦ rw (good, free) (restamp c inv k n s _ e (λ h. cc))
    ]
  ]

  -- ChangeNodeStatus keeps the invariant on every branch, that of a failure included.
  pub change_node_status-IsConsistent :
      (id : String) (s : NodeStatus) → IsConsistent (change_node_status id s c).1
  unfolding change_node_status
  change_node_status-IsConsistent id s = elim (Option-cases (lookup id c.nodes)) [
    | inl e ↦ rw e inv
    | inr (n, e) ↦ elim (Bool-cases (is_failed s)) [
      | inl down ↦ rw (e, down) (fail_node_locked-IsConsistent c inv id n _ e)
      | inr up ↦ rw (e, up) (move_node-IsConsistent id n s e up)
    ]
  ]

  -- Heartbeat
  pub heartbeat-IsConsistent : (id : String) → IsConsistent (heartbeat id c).1
  unfolding heartbeat
  heartbeat-IsConsistent id = elim (Option-cases (lookup id c.nodes)) [
    | inl e ↦ rw e inv
    | inr (n, e) ↦ elim (Bool-cases (not (is_online n.status) && not (is_draining n.status))) [
      | inl deaf ↦ rw (e, deaf) inv
      | inr alive ↦
          rw (e, alive) (restamp c inv id n n.status c.current_tick e (inv.nodes id n e).emptied)
    ]
  ]

recovering : {F : Type 0} → Node → Controller F → Controller F
recovering n c =
    emitted EventType.node_status_changed "info" "" n.id "node is recovering"
      (store_node (record n { status = NodeStatus.recovering }) c)

-- RecoverNode keeps the invariant on every branch.
pub recover_node-IsConsistent :
    {F : Type 0} (c : Controller F)
    → IsConsistent c
    → (id : String) → IsConsistent (recover_node id c).1
unfolding recover_node recovering emitted
recover_node-IsConsistent c inv id = elim (Option-cases (lookup id c.nodes)) [
  | inl e ↦ rw e inv
  | inr (n, e) ↦ elim (Bool-cases (not (is_failed n.status) && not (is_offline n.status))) [
    | inl up ↦ rw (e, up) inv
    | inr down ↦
        let first = restamp c inv id n NodeStatus.recovering n.last_heartbeat_tick e (λ h. cc) in
        let m : Node = record n { status = NodeStatus.recovering } in
        rw (e, down)
          (restamp (recovering n c) first n.id m NodeStatus.online c.current_tick
            (lookup-insert_self n.id m c.nodes) (λ h. cc))
  ]
]

-- The loop of detectMissedHeartbeatsLocked.
fail_late-IsConsistent :
    {F : Type 0} (ids : List String) (c : Controller F)
    → IsConsistent c
    → IsConsistent (fail_late ids c).1
unfolding fail_late emitted
fail_late-IsConsistent [] c inv = inv
fail_late-IsConsistent {F} (id ∷ ids) c inv = elim (Option-cases (lookup id c.nodes)) [
  | inl e ↦ rw e inv
  | inr (n, e) ↦
      let message : String = "heartbeat timeout exceeded" in
      let d = emitted EventType.node_heartbeat_missed "error" "" id message c in
      rw e (
        bind_after IsConsistent (ignore (fail_node_locked n message)) (λ _. fail_late ids) d
          (ignore_after IsConsistent (fail_node_locked n message) d
            (fail_node_locked-IsConsistent d inv id n message e))
          (λ _. fail_late-IsConsistent ids))
]

-- Detection of missed heartbeats keeps the invariant: each node that it fails leaves no process
-- behind.
pub detect_missed_heartbeats-IsConsistent :
    {F : Type 0} (c : Controller F) → IsConsistent c → IsConsistent (detect_missed_heartbeats c).1
unfolding detect_missed_heartbeats
detect_missed_heartbeats-IsConsistent c inv =
    elim (Bool-cases (leb_ℤ c.heartbeat_timeout_ticks (pos 0))) [
      | inl off ↦ rw off inv
      | inr on ↦ rw on (fail_late-IsConsistent _ c inv)
    ]
