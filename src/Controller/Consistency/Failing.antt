-- ===== src/Controller/Consistency/Failing.antt =====
-- internal/cluster/recovery.go: failProcessLocked and FailProcess, and the invariant.
use cs320_cluster_process_ma.Base.{
  pos, String, List, [], ◌∷◌, true, false, ◌≡◌, refl, sym, ap, inl, inr, none, some, lookup, insert,
  arith, ok, contains, contains-nil, lookup-insert_self, string_eq, Option-cases, Bool-cases,
  Action, ◌==◌, eq_iff, add_int,
}
use cs320_cluster_process_ma.Domain.Types.{ProcessState, EventType, is_terminal}
use cs320_cluster_process_ma.Domain.Process.{Process, transition, can_transition, can_restart}
use cs320_cluster_process_ma.Controller.State.{Controller, emitted, store_process}
use cs320_cluster_process_ma.Controller.Processes.{is_running}
use cs320_cluster_process_ma.Controller.Failures.{
  detach, is_failed, restart_or_finish, restart, finish_failed, fail_process_locked, fail_process,
}
use cs320_cluster_process_ma.Controller.Invariant.Facts.{
  identifier_named, IsConsistent, IsConsistentBut,
}
use cs320_cluster_process_ma.Controller.Invariant.Writes.{settle, write}
use cs320_cluster_process_ma.Controller.Consistency.Release.{
  release_locked-IsReleased, hosting, unhosted,
}
use cs320_cluster_process_ma.Controller.Consistency.Commands.{
  can_leave, found_itself, running-not_terminal,
}

-- A call succeeds, and leaves the maps consistent but for `loose` processes.
abbrev pub Succeeds : {F A : Type 0} → List String → Action (Controller F) A → Controller F → Type 0
Succeeds {F} {A} loose m c =
    (a : A) × (d : Controller F) × (m c ≡ (ok a, d)) × IsConsistentBut loose d.nodes d.processes

module _ {F : Type 0} (loose : List String) (d : Controller F) (q : Process)
    (found : lookup q.id d.processes ≡ some q) (failed : q.state ≡ ProcessState.failed)
    (inv : IsConsistentBut loose d.nodes d.processes) where
  restart-Succeeds : Succeeds loose (restart q) d
  unfolding transition emitted
  restart-Succeeds =
      let a : Process = record q {
        restart_count = add_int q.restart_count (pos 1);
        remaining_ticks = q.total_ticks;
        finished_at_tick = none;
      } in
      let b : Process = record a { state = ProcessState.ready } in
      let e : Process = record b { last_ready_at_tick = d.current_tick } in
      let idle : is_running q.state ≡ false = ap is_running failed in
      let first =
        write d.processes q.id q a found (record { id = refl; cpu = refl; memory = refl }) loose
          d.nodes refl refl inv in
      let second =
        write _ q.id a b (lookup-insert_self q.id a d.processes)
          (record { id = refl; cpu = refl; memory = refl }) loose d.nodes (sym idle) refl first in
      let third =
        write _ q.id b e (lookup-insert_self q.id b (insert q.id a d.processes))
          (record { id = refl; cpu = refl; memory = refl }) loose d.nodes refl refl second in
      (
        e,
        emitted EventType.process_restarted "warning" q.id "" "process queued for restart"
            (store_process e (store_process b (store_process a d))),
        rw (ap (λ s. can_transition s ProcessState.ready) failed) refl,
        third,
      )

  finish-Succeeds : Succeeds loose (finish_failed q) d
  finish-Succeeds =
      let e : Process = record q { finished_at_tick = some d.current_tick } in
      (
        e,
        store_process e d,
        refl,
        write d.processes q.id q e found (record { id = refl; cpu = refl; memory = refl }) loose
            d.nodes refl refl inv,
      )

  restart_or_finish-Succeeds : Succeeds loose (restart_or_finish q) d
  unfolding restart_or_finish
  restart_or_finish-Succeeds = elim (Bool-cases (can_restart q)) [
    | inl again ↦ rw again restart-Succeeds
    | inr last ↦ rw last finish-Succeeds
  ]

-- The process and the state once the failure is noted.
abbrev pub marked : Process → String → Process
marked p reason = record p { state = ProcessState.failed; last_error = reason }

abbrev pub noted : {F : Type 0} → Process → String → String → Controller F → Controller F
noted p node_id reason d =
    emitted EventType.process_failed "error" p.id node_id reason
      (store_process (marked p reason) (store_process (record p { state = ProcessState.failed }) d))

module _ {F : Type 0} (loose : List String) (d : Controller F) (p : Process)
    (node_id reason : String) (found : lookup p.id d.processes ≡ some p) where
  remark :
      IsConsistentBut loose d.nodes
        (insert p.id (record p { state = ProcessState.failed }) d.processes)
      → IsConsistentBut loose (noted p node_id reason d).nodes (noted p node_id reason d).processes
  unfolding emitted
  remark =
      write _ p.id (record p { state = ProcessState.failed }) (marked p reason)
        (lookup-insert_self p.id (record p { state = ProcessState.failed }) d.processes)
        (record { id = refl; cpu = refl; memory = refl }) loose d.nodes refl refl

  note_loose :
      contains loose p.id ≡ false
      → p.node_id ≡ ""
      → IsConsistentBut (p.id ∷ loose) d.nodes d.processes
      → IsConsistentBut loose (noted p node_id reason d).nodes (noted p node_id reason d).processes
  note_loose fresh at inv = remark (
      settle d.processes p.id p (record p { state = ProcessState.failed }) found
        (record { id = refl; cpu = refl; memory = refl }) loose d.nodes fresh refl at inv)

  note_idle :
      is_running p.state ≡ false
      → IsConsistentBut loose d.nodes d.processes
      → IsConsistentBut loose (noted p node_id reason d).nodes (noted p node_id reason d).processes
  note_idle idle inv = remark (
      write d.processes p.id p (record p { state = ProcessState.failed }) found
        (record { id = refl; cpu = refl; memory = refl }) loose d.nodes (sym idle) refl inv)

  found-noted : lookup p.id (noted p node_id reason d).processes ≡ some (marked p reason)
  unfolding emitted
  found-noted =
      lookup-insert_self p.id (marked p reason)
        (insert p.id (record p { state = ProcessState.failed }) d.processes)

  ended :
      IsConsistentBut loose (noted p node_id reason d).nodes (noted p node_id reason d).processes
      → Succeeds loose (restart_or_finish (marked p reason)) (noted p node_id reason d)
  ended inv =
      restart_or_finish-Succeeds loose (noted p node_id reason d) (marked p reason) found-noted refl
        inv

module _ {F : Type 0} (c : Controller F) (p : Process) (reason : String)
    (found : lookup p.id c.processes ≡ some p) where
  -- A process that has lost its node fails, and is not loose any more.
  pub fail_loose-Succeeds :
      (loose : List String)
      → IsConsistentBut (p.id ∷ loose) c.nodes c.processes
      → contains loose p.id ≡ false
      → is_running p.state ≡ true
      → p.node_id ≡ ""
      → Succeeds loose (fail_process_locked p reason) c
  unfolding fail_process_locked transition detach
  fail_loose-Succeeds loose inv fresh run at =
      let (r, d, e, f) =
        ended loose c p p.node_id reason found
          (note_loose loose c p p.node_id reason found fresh at inv) in
      (
        r,
        d,
        rw
            (
              running-not_terminal p.state run,
              run,
              (eq_iff p.node_id "").1 at,
              can_leave p.state ProcessState.failed run refl,
              e,
            )
            refl,
        f,
      )

  -- A running process leaves its node, which is not failed.
  pub fail_running-Succeeds :
      IsConsistent c → is_running p.state ≡ true → Succeeds [] (fail_process_locked p reason) c
  unfolding fail_process_locked transition detach
  fail_running-Succeeds inv run =
      let (n, e, h) = hosting c p inv found run in
      let w = inv.nodes p.node_id n e in
      let (d, r) = release_locked-IsReleased c p inv found run in
      let (q, f, g, k) =
        ended [] d (unhosted p) p.node_id reason r.found (
          note_loose [] d (unhosted p) p.node_id reason r.found (contains-nil p.id) refl r.loose) in
      let named : (p.node_id == "") ≡ false = identifier_named n.id p.node_id w.key w.identified in
      let works : is_failed n.status ≡ false =
        ground (arith, w.emptied, ap (λ ids. contains ids p.id), contains-nil p.id) in
      (
        q,
        f,
        rw
            (
              running-not_terminal p.state run,
              run,
              named,
              e,
              works,
              r.answers,
              can_leave p.state ProcessState.failed run refl,
              g,
            )
            refl,
        k,
      )

  -- A process without a node fails, if its state allows it.
  pub fail_idle-Succeeds :
      IsConsistent c
      → is_running p.state ≡ false
      → is_terminal p.state ≡ false
      → can_transition p.state ProcessState.failed ≡ true
      → Succeeds [] (fail_process_locked p reason) c
  unfolding fail_process_locked transition detach
  fail_idle-Succeeds inv idle live can =
      let (r, d, e, f) =
        ended [] c p p.node_id reason found (note_idle [] c p p.node_id reason found idle inv) in
      (r, d, rw (live, idle, can, e) refl, f)

  fail_idle-IsConsistent :
      IsConsistent c → is_running p.state ≡ false → IsConsistent (fail_process_locked p reason c).1
  fail_idle-IsConsistent inv idle = elim (Bool-cases (is_terminal p.state)) [
    | inl dead ↦ unfold fail_process_locked in rw dead inv
    | inr live ↦ elim (Bool-cases (can_transition p.state ProcessState.failed)) [
      | inr stuck ↦ unfold fail_process_locked transition detach in rw (live, idle, stuck) inv
      | inl can ↦ let (q, d, e, k) = fail_idle-Succeeds inv idle live can in rw e k
    ]
  ]

  pub fail_process_locked-IsConsistent :
      IsConsistent c → IsConsistent (fail_process_locked p reason c).1
  fail_process_locked-IsConsistent inv = elim (Bool-cases (is_running p.state)) [
    | inl run ↦ let (q, d, e, k) = fail_running-Succeeds inv run in rw e k
    | inr idle ↦ fail_idle-IsConsistent inv idle
  ]

module _ {F : Type 0} (c : Controller F) (inv : IsConsistent c) where
  -- FailProcess keeps the invariant.
  pub fail_process-IsConsistent : (id reason : String) → IsConsistent (fail_process id reason c).1
  unfolding fail_process
  fail_process-IsConsistent id reason = elim (Option-cases (lookup id c.processes)) [
    | inl e ↦ rw e inv
    | inr (p, e) ↦
        rw e (fail_process_locked-IsConsistent c p reason (found_itself c inv id p e) inv)
  ]
