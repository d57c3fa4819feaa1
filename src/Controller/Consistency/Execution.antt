-- ===== src/Controller/Consistency/Execution.antt =====
-- internal/cluster/lifecycle.go: executeRunningLocked, and the invariant.
use cs320_cluster_process_ma.Base.{
  ℤ, pos, String, List, [], ◌∷◌, ◌≡◌, refl, inl, inr, none, some, Option-cases, Bool-cases, lookup,
  insert, contains-nil, ltb_ℤ, sub_int, string_eq, eq_iff, lookup-insert_self, bind_after,
  ignore_after, sort_by, before,
}
use cs320_cluster_process_ma.Domain.Types.{ProcessState}
use cs320_cluster_process_ma.Domain.Process.{Process, transition}
use cs320_cluster_process_ma.Controller.State.{Controller, emitted, store_process}
use cs320_cluster_process_ma.Controller.Processes.{is_running, release_locked}
use cs320_cluster_process_ma.Controller.Tick.Execution.{
  complete, worked, execute, execute_running, running_ids,
}
use cs320_cluster_process_ma.Controller.Invariant.Facts.{IsConsistent, identifier_named}
use cs320_cluster_process_ma.Controller.Invariant.Writes.{SameRequests, write, settle}
use cs320_cluster_process_ma.Controller.Consistency.Release.{unhosted, release_locked-IsReleased}
use cs320_cluster_process_ma.Controller.Consistency.Commands.{can_leave, found_itself}

module _ {F : Type 0} (c : Controller F) (inv : IsConsistent c) where
  -- No node has the empty identifier.
  pub nowhere : lookup "" c.nodes ≡ none
  nowhere = elim (Option-cases (lookup "" c.nodes)) [
    | inl e ↦ e
    | inr (n, e) ↦
        let w = inv.nodes "" n e in
        cc (identifier_named n.id "" w.key w.identified, (eq_iff "" "").1 refl)
  ]

  complete-IsConsistent :
      (p : Process) → lookup p.id c.processes ≡ some p → IsConsistent (complete p c).1
  unfolding complete transition emitted
  complete-IsConsistent p found = elim (Bool-cases (is_running p.state)) [
    | inr idle ↦
        let home = (inv.processes p.id p found).unplaced idle in
        let gone : lookup p.node_id c.nodes ≡ none = rw home nowhere in
        unfold release_locked in rw gone inv
    | inl run ↦
        let (d, r) = release_locked-IsReleased c p inv found run in
        let can = can_leave p.state ProcessState.terminated run refl in
        let q : Process = record (unhosted p) { state = ProcessState.terminated } in
        let same : SameRequests (unhosted p) q = record { id = refl; cpu = refl; memory = refl } in
        let again : SameRequests q (record q { finished_at_tick = some d.current_tick }) = record {
          id = refl;
          cpu = refl;
          memory = refl;
        } in
        rw (r.answers, can)
          (write (insert p.id q d.processes) p.id q _ (lookup-insert_self p.id q d.processes) again
            [] d.nodes refl refl
            (settle d.processes p.id (unhosted p) q r.found same [] d.nodes (contains-nil p.id) refl
              refl r.loose))
  ]

module _ {F : Type 0} where
  pub worked-IsConsistent :
      (c : Controller F) (p : Process) (remaining : ℤ)
      → IsConsistent c
      → lookup p.id c.processes ≡ some p
      → IsConsistent (worked (record p { remaining_ticks = remaining }) c).1
  unfolding worked
  worked-IsConsistent c p remaining inv found =
      let q : Process = record p { remaining_ticks = remaining } in
      let d = store_process q c in
      let kept : IsConsistent d =
        write c.processes p.id p q found (record { id = refl; cpu = refl; memory = refl }) []
          c.nodes refl refl inv in
      elim (Bool-cases (ltb_ℤ (pos 0) remaining)) [
        | inl more ↦ rw more kept
        | inr done ↦ rw done (
            ignore_after IsConsistent (complete q) d
              (complete-IsConsistent d kept q (lookup-insert_self p.id q c.processes)))
      ]

  execute-IsConsistent :
      (ids : List String) (c : Controller F) → IsConsistent c → IsConsistent (execute ids c).1
  unfolding execute
  execute-IsConsistent [] c inv = inv
  execute-IsConsistent (id ∷ ids) c inv = elim (Option-cases (lookup id c.processes)) [
    | inl e ↦ rw e inv
    | inr (p, e) ↦
        let left = sub_int p.remaining_ticks (pos 1) in
        rw e (
          bind_after IsConsistent (worked (record p { remaining_ticks = left })) (λ _. execute ids)
            c (worked-IsConsistent c p left inv (found_itself c inv id p e))
            (λ _ d k. execute-IsConsistent ids d k))
  ]

  -- executeRunningLocked keeps the invariant: a process whose work is done gives its resources back
  -- and ends, and the others go on.
  pub execute_running-IsConsistent :
      (c : Controller F) → IsConsistent c → IsConsistent (execute_running c).1
  unfolding execute_running
  execute_running-IsConsistent c inv =
      execute-IsConsistent (sort_by before (running_ids c.processes)) c inv
