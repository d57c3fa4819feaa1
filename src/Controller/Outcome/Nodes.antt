-- ===== src/Controller/Outcome/Nodes.antt =====
-- internal/cluster/controller.go and recovery.go: the outcomes of the methods on nodes and on the
-- scheduler.
use cs320_cluster_process_ma.Base.{
  pos, String, not, ◌&&◌, ◌≡◌, refl, inl, inr, Option-cases, Bool-cases, lookup, string_eq, leb_ℤ,
  size, has_key, some, ltb, length,
}
use cs320_cluster_process_ma.Domain.Types.{NodeStatus}
use cs320_cluster_process_ma.Domain.Node.{Node, NodeDefinition, draft, is_online}
use cs320_cluster_process_ma.Scheduler.{new_scheduler_cases}
use cs320_cluster_process_ma.Controller.State.{Controller}
use cs320_cluster_process_ma.Controller.Registry.{
  register_node, remove_node, set_scheduler, is_occupied,
}
use cs320_cluster_process_ma.Controller.Failures.{
  is_failed, is_offline, is_draining, valid_node_transition, fail_node_locked, fail_node, move_node,
  change_node_status, recover_node, heartbeat,
}
use cs320_cluster_process_ma.Controller.Invariant.Facts.{IsConsistent}
use cs320_cluster_process_ma.Controller.Consistency.Registry.{new_node_cases}
use cs320_cluster_process_ma.Controller.Consistency.NodeFailure.{fail_node_locked-Succeeds}
use cs320_cluster_process_ma.Controller.Outcome.Defs.{IsAtomic}

module _ {F : Type 0} (c : Controller F) (inv : IsConsistent c) where
  pub register_node-IsAtomic : (def : NodeDefinition) → IsAtomic c (register_node def c)
  unfolding register_node
  register_node-IsAtomic def = elim (Bool-cases (leb_ℤ c.max_nodes (pos (size c.nodes)))) [
    | inl full ↦ rw full refl
    | inr room ↦ elim (new_node_cases def c.current_tick) [
      | inl (e, bad) ↦ rw (room, bad) refl
      | inr (good, sound) ↦ elim (Bool-cases (has_key (draft def c.current_tick).id c.nodes)) [
        | inl twice ↦ rw (room, good, twice) refl
        | inr once ↦ rw (room, good, once) tt
      ]
    ]
  ]

  pub remove_node-IsAtomic : (id : String) → IsAtomic c (remove_node id c)
  unfolding remove_node
  remove_node-IsAtomic id = elim (Option-cases (lookup id c.nodes)) [
    | inl e ↦ rw e refl
    | inr (n, e) ↦ elim (Bool-cases (is_occupied n)) [
      | inl busy ↦ rw (e, busy) refl
      | inr free ↦ rw (e, free) tt
    ]
  ]

  pub set_scheduler-IsAtomic : (text : String) → IsAtomic c (set_scheduler text c)
  unfolding set_scheduler
  set_scheduler-IsAtomic text = elim (new_scheduler_cases text) [
    | inl (s, e) ↦ rw e tt
    | inr e ↦ rw e refl
  ]

  pub fail_node_locked-IsAtomic :
      (k : String) (n : Node) (reason : String)
      → lookup k c.nodes ≡ some n
      → IsAtomic c (fail_node_locked n reason c)
  fail_node_locked-IsAtomic k n reason e = elim (Bool-cases (is_failed n.status)) [
    | inl down ↦ unfold fail_node_locked in rw down refl
    | inr up ↦
        let (m, d, answer, k') = fail_node_locked-Succeeds c inv k n reason e up in rw answer tt
  ]

  pub fail_node-IsAtomic : (id : String) → IsAtomic c (fail_node id c)
  unfolding fail_node
  fail_node-IsAtomic id = elim (Option-cases (lookup id c.nodes)) [
    | inl e ↦ rw e refl
    | inr (n, e) ↦ rw e (fail_node_locked-IsAtomic id n _ e)
  ]

  move_node-IsAtomic : (n : Node) (s : NodeStatus) → IsAtomic c (move_node n s c)
  move_node-IsAtomic n s = elim (Bool-cases (not (valid_node_transition n.status s))) [
    | inl bad ↦ rw bad refl
    | inr good ↦ elim (Bool-cases (is_offline s && ltb 0 (length n.running_process_ids))) [
      | inl busy ↦ rw (good, busy) refl
      | inr free ↦ rw (good, free) tt
    ]
  ]

  pub change_node_status-IsAtomic :
      (id : String) (s : NodeStatus) → IsAtomic c (change_node_status id s c)
  unfolding change_node_status
  change_node_status-IsAtomic id s = elim (Option-cases (lookup id c.nodes)) [
    | inl e ↦ rw e refl
    | inr (n, e) ↦ elim (Bool-cases (is_failed s)) [
      | inl down ↦ rw (e, down) (fail_node_locked-IsAtomic id n _ e)
      | inr up ↦ rw (e, up) (move_node-IsAtomic n s)
    ]
  ]

  pub recover_node-IsAtomic : (id : String) → IsAtomic c (recover_node id c)
  unfolding recover_node
  recover_node-IsAtomic id = elim (Option-cases (lookup id c.nodes)) [
    | inl e ↦ rw e refl
    | inr (n, e) ↦ elim (Bool-cases (not (is_failed n.status) && not (is_offline n.status))) [
      | inl up ↦ rw (e, up) refl
      | inr down ↦ rw (e, down) tt
    ]
  ]

  pub heartbeat-IsAtomic : (id : String) → IsAtomic c (heartbeat id c)
  unfolding heartbeat
  heartbeat-IsAtomic id = elim (Option-cases (lookup id c.nodes)) [
    | inl e ↦ rw e refl
    | inr (n, e) ↦ elim (Bool-cases (not (is_online n.status) && not (is_draining n.status))) [
      | inl deaf ↦ rw (e, deaf) refl
      | inr alive ↦ rw (e, alive) tt
    ]
  ]
