-- ===== src/Controller/Consistency/NodeFailure.antt =====
-- internal/cluster/recovery.go: failNodeLocked and FailNode, and the invariant.
use Prim.Native.String.{◌++◌}
use cs320_cluster_process_ma.Base.{
  pos, String, List, [], ◌∷◌, true, false, ◌≡◌, refl, sym, ap, ◌∙◌, subst, inl, inr, some, lookup,
  insert, arith, contains, contains-cons, lookup-insert_self, string_eq, Option-cases, Bool-cases,
  eq_iff, add_int, IsDistinct, sort_by, before, contains-sort_by, IsDistinct-sort_by, IsDistinct,
}
use cs320_cluster_process_ma.Domain.Types.{EventType}
use cs320_cluster_process_ma.Domain.Process.{Process}
use cs320_cluster_process_ma.Domain.Node.{Node}
use cs320_cluster_process_ma.Controller.State.{
  Controller, emitted, store_process, store_node, set_statistics,
}
use cs320_cluster_process_ma.Controller.Failures.{
  is_failed, failed_node, fail_process_locked, fail_hosted, fail_node_locked, fail_node,
}
use cs320_cluster_process_ma.Controller.Invariant.Facts.{IsConsistent, IsConsistentBut}
use cs320_cluster_process_ma.Controller.Invariant.Writes.{write_loose}
use cs320_cluster_process_ma.Controller.Invariant.Nodes.{clear_node}
use cs320_cluster_process_ma.Controller.Consistency.Failing.{Succeeds, fail_loose-Succeeds}

-- The first of the loose processes fails.
head_fails :
    {F : Type 0} (reason id : String) (ids : List String) (c : Controller F)
    → contains ids id ≡ false
    → IsConsistentBut (id ∷ ids) c.nodes c.processes
    → (p : Process) → lookup id c.processes ≡ some p
    → Succeeds ids
        (fail_process_locked (record p { node_id = "" }) reason)
        (store_process (record p { node_id = "" }) c)
head_fails {F} reason id ids c fresh inv p e =
    let w = inv.processes id p e in
    let loose : contains (id ∷ ids) id ≡ true =
      ground (arith, contains-cons id id ids, eq_iff id id) in
    let q : Process = record p { node_id = "" } in
    let b : Controller F = store_process q c in
    let written =
      write_loose c.processes id p q e (record { id = refl; cpu = refl; memory = refl }) (id ∷ ids)
        c.nodes loose (w.still_running loose) inv in
    fail_loose-Succeeds b q reason (lookup-insert_self p.id q c.processes) ids
      (subst (λ k. IsConsistentBut (k ∷ ids) c.nodes (insert p.id q c.processes)) (sym w.key)
        (subst (λ k. IsConsistentBut (id ∷ ids) c.nodes (insert k q c.processes)) (sym w.key)
          written))
      (ap (contains ids) w.key ∙ fresh) (w.still_running loose) refl

-- The processes that a failed node hosted fail one after the other: none is missing.
pub fail_hosted-Succeeds :
    {F : Type 0} (reason : String) (ids : List String) (c : Controller F)
    → IsDistinct ids
    → IsConsistentBut ids c.nodes c.processes
    → Succeeds [] (fail_hosted reason ids) c
unfolding fail_hosted
fail_hosted-Succeeds reason [] c d inv = (tt, c, refl, inv)
fail_hosted-Succeeds {F} reason (id ∷ ids) c d inv =
    let (p, e) = inv.known id (ground (arith, contains-cons id id ids, eq_iff id id)) in
    let (r, after, answer, rest) = head_fails reason id ids c d.0 inv p e in
    let (u, last, end, done) = fail_hosted-Succeeds reason ids after d.1 rest in
    (u, last, rw (e, answer, end) refl, done)

-- The state of failNodeLocked before its loop.
abbrev down : {F : Type 0} → Node → String → Controller F → Controller F
down n reason c = emitted EventType.node_failed "error" "" n.id reason (
    set_statistics (λ s. record s { node_failures = add_int s.node_failures (pos 1) })
      (store_node (failed_node n) c))

module _ {F : Type 0} (c : Controller F) (inv : IsConsistent c) where
  -- failNodeLocked on a node of a consistent controller that is not failed succeeds: each hosted
  -- process is found, can fail and restarts or ends, so there is neither an error nor a nil
  -- dereference, and the controller afterwards satisfies the invariant.
  pub fail_node_locked-Succeeds :
      (k : String) (n : Node) (reason : String)
      → lookup k c.nodes ≡ some n
      → is_failed n.status ≡ false
      → Succeeds [] (fail_node_locked n reason) c
  unfolding fail_node_locked emitted
  fail_node_locked-Succeeds k n reason e up =
      let w = inv.nodes k n e in
      let ids = sort_by before n.running_process_ids in
      let cleared =
        subst (λ j. IsConsistentBut ids (insert j (failed_node n) c.nodes) c.processes) (sym w.key)
          (clear_node c.nodes c.processes k n ids e (contains-sort_by before n.running_process_ids)
            inv) in
      let (u, d, answer, done) =
        fail_hosted-Succeeds ("hosting node " ++ n.id ++ " failed") ids (down n reason c)
          (IsDistinct-sort_by before n.running_process_ids w.distinct) cleared in
      (failed_node n, d, rw (up, answer) refl, done)

  pub fail_node_locked-IsConsistent :
      (k : String) (n : Node) (reason : String)
      → lookup k c.nodes ≡ some n
      → IsConsistent (fail_node_locked n reason c).1
  fail_node_locked-IsConsistent k n reason e = elim (Bool-cases (is_failed n.status)) [
    | inl down ↦ unfold fail_node_locked in rw down inv
    | inr up ↦
        let (m, d, answer, done) = fail_node_locked-Succeeds k n reason e up in rw answer done
  ]

  -- FailNode
  pub fail_node-IsConsistent : (id : String) → IsConsistent (fail_node id c).1
  unfolding fail_node
  fail_node-IsConsistent id = elim (Option-cases (lookup id c.nodes)) [
    | inl e ↦ rw e inv
    | inr (n, e) ↦ rw e (fail_node_locked-IsConsistent id n _ e)
  ]
