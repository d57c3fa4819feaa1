-- ===== src/Controller/Outcome/Effects/Fail.antt =====
-- internal/cluster/recovery.go: FailProcess.
use cs320_cluster_process_ma.Base.{
  ℤ, pos, String, true, false, ◌≡◌, refl, ap, inl, inr, none, some, lookup, insert, ok, err, Result,
  add_int, if◌then◌else◌, ◌==◌, string_eq, contains, contains-nil, Bool-cases, lookup-insert_self,
  arith, process_not_found, invalid_state_transition,
}
use cs320_cluster_process_ma.Domain.Types.{ProcessState, is_terminal}
use cs320_cluster_process_ma.Domain.Process.{Process, transition, can_transition, can_restart}
use cs320_cluster_process_ma.Controller.State.{Controller, emitted}
use cs320_cluster_process_ma.Controller.Processes.{is_running, release_if_running}
use cs320_cluster_process_ma.Controller.Failures.{
  detach, is_failed, restart_or_finish, fail_process_locked, fail_process,
}
use cs320_cluster_process_ma.Controller.Invariant.Facts.{identifier_named, IsConsistent}
use cs320_cluster_process_ma.Controller.Consistency.Release.{unhosted, hosting}
use cs320_cluster_process_ma.Controller.Consistency.Commands.{found_itself}
use cs320_cluster_process_ma.Controller.Consistency.Failing.{
  marked, noted, fail_process-IsConsistent,
}
use cs320_cluster_process_ma.Controller.Outcome.Effects.{
  KeepsOthers, KeepsOthers-insert, release_if_running-IsLeft,
}

-- A process that failed for the last time, and one that starts again; the rest of it is as before.
abbrev pub ended : Process → String → ℤ → Process
ended p reason tick = record p {
  node_id = "";
  state = ProcessState.failed;
  last_error = reason;
  finished_at_tick = some tick;
}

abbrev pub restarted : Process → String → ℤ → Process
restarted p reason tick = record p {
  node_id = "";
  state = ProcessState.ready;
  last_error = reason;
  restart_count = add_int p.restart_count (pos 1);
  remaining_ticks = p.total_ticks;
  last_ready_at_tick = tick;
  finished_at_tick = none;
}

abbrev pub after_failure : Process → String → ℤ → Process
after_failure p reason tick = if can_restart p then restarted p reason tick else ended p reason tick

-- The outcome of FailProcess, by the process that the identifier stands for.
pub record IsFailure {F : Type 0} (c : Controller F) (id reason : String) (r : Result Process)
    (d : Controller F) : Type 0 where
  pub unknown : lookup id c.processes ≡ none → (r ≡ err process_not_found) × (d ≡ c)
  pub refused :
      (p : Process)
      → lookup id c.processes ≡ some p
      → can_transition p.state ProcessState.failed ≡ false
      → (r ≡ err invalid_state_transition) × (d ≡ c)
  pub done :
      (p : Process)
      → lookup id c.processes ≡ some p
      → can_transition p.state ProcessState.failed ≡ true
      → (r ≡ ok (after_failure p reason c.current_tick))
        × (lookup id d.processes ≡ some (after_failure p reason c.current_tick))
        × KeepsOthers id c.processes d.processes
  pub consistent : IsConsistent d

module _ {F : Type 0} (c : Controller F) (inv : IsConsistent c) where
  -- In a consistent state, the node of a running process is there and has not failed.
  detach-eq-release :
      (p : Process) → lookup p.id c.processes ≡ some p → detach p c ≡ release_if_running p c
  unfolding detach
  detach-eq-release p found = elim (Bool-cases (is_running p.state)) [
    | inr idle ↦ rw idle refl
    | inl run ↦
        let (n, e, h) = hosting c p inv found run in
        let w = inv.nodes p.node_id n e in
        let named : (p.node_id == "") ≡ false =
          identifier_named n.id p.node_id w.key w.identified in
        let works : is_failed n.status ≡ false =
          ground (arith, w.emptied, ap (λ ids. contains ids p.id), contains-nil p.id) in
        rw (run, named, e, works) refl
  ]

  -- What the end of failProcessLocked makes of the process.
  restart_or_finish-done :
      (p : Process) (reason : String) (tick : ℤ) (d : Controller F)
      → d.current_tick ≡ tick
      → KeepsOthers p.id c.processes d.processes
      → let (r, e) = restart_or_finish (marked (unhosted p) reason) d in
        (r ≡ ok (after_failure p reason tick))
        × (lookup p.id e.processes ≡ some (after_failure p reason tick))
        × KeepsOthers p.id c.processes e.processes
  unfolding restart_or_finish can_restart transition emitted
  restart_or_finish-done p reason tick d clock others = elim (Bool-cases (can_restart p)) [
    | inl again ↦
        let e = restarted p reason d.current_tick in
        let a : Process = record e {
          state = ProcessState.failed;
          last_ready_at_tick = p.last_ready_at_tick;
        } in
        let b : Process = record e { last_ready_at_tick = p.last_ready_at_tick } in
        let first = KeepsOthers-insert p.id a c.processes d.processes others in
        let second = KeepsOthers-insert p.id b c.processes (insert p.id a d.processes) first in
        rw (← clock, again)
          (
            refl,
            lookup-insert_self p.id e (insert p.id b (insert p.id a d.processes)),
            KeepsOthers-insert p.id e c.processes (insert p.id b (insert p.id a d.processes))
                second,
          )
    | inr last ↦
        let e = ended p reason d.current_tick in
        rw (← clock, last)
          (
            refl,
            lookup-insert_self p.id e d.processes,
            KeepsOthers-insert p.id e c.processes d.processes others,
          )
  ]

  fail_refused :
      (p : Process) (reason : String)
      → can_transition p.state ProcessState.failed ≡ false
      → fail_process_locked p reason c ≡ (err invalid_state_transition, c)
  unfolding fail_process_locked transition detach
  fail_refused p reason stuck = elim (Bool-cases (is_terminal p.state)) [
    | inl dead ↦ rw dead refl
    | inr live ↦ let idle : is_running p.state ≡ false = ground arith in rw (live, idle, stuck) refl
  ]

  fail_done :
      (p : Process) (reason : String)
      → lookup p.id c.processes ≡ some p
      → can_transition p.state ProcessState.failed ≡ true
      → let (r, d) = fail_process_locked p reason c in
        (r ≡ ok (after_failure p reason c.current_tick))
        × (lookup p.id d.processes ≡ some (after_failure p reason c.current_tick))
        × KeepsOthers p.id c.processes d.processes
  unfolding fail_process_locked transition emitted
  fail_done p reason found can =
      let live : is_terminal p.state ≡ false = unfold is_terminal in ground arith in
      let (d, left) = release_if_running-IsLeft c inv p found in
      let q : Process = record (unhosted p) { state = ProcessState.failed } in
      let kept =
        KeepsOthers-insert p.id (marked (unhosted p) reason) c.processes (insert p.id q d.processes)
          (KeepsOthers-insert p.id q c.processes d.processes left.others) in
      rw (live, detach-eq-release p found, left.answers, can)
        (restart_or_finish-done p reason c.current_tick (noted (unhosted p) p.node_id reason d)
          left.clock kept)

  -- FailProcess on a consistent controller answers that an unknown process is not found, and
  -- refuses one whose state cannot go to failed; both leave the whole controller as it was. Any
  -- other process loses its node and notes the reason. If its policy and its count leave a restart,
  -- it is ready again at the current tick with all its ticks to do and one restart more; otherwise
  -- it is failed and finished at the current tick. The other processes stay the same, and the
  -- controller is consistent.
  pub fail_process-IsFailure :
      (id reason : String)
      → IsFailure c id reason (fail_process id reason c).0 (fail_process id reason c).1
  fail_process-IsFailure id reason = record {
    unknown = λ e. unfold fail_process in rw e (refl, refl);
    refused = λ p e stuck. unfold fail_process in rw (e, fail_refused p reason stuck) (refl, refl);
    done = λ p e can.
        unfold fail_process in
        rw (e, ← (inv.processes id p e).key) (fail_done p reason (found_itself c inv id p e) can);
    consistent = fail_process-IsConsistent c inv id reason;
  }
