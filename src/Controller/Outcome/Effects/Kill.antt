-- ===== src/Controller/Outcome/Effects/Kill.antt =====
-- internal/cluster/lifecycle.go: KillProcess.
use cs320_cluster_process_ma.Base.{
  ℤ, String, true, false, ◌≡◌, refl, inl, inr, none, some, lookup, insert, ok, err, Result,
  string_eq, Bool-cases, lookup-insert_self, arith, process_not_found, invalid_state_transition,
}
use cs320_cluster_process_ma.Domain.Types.{ProcessState, is_terminal}
use cs320_cluster_process_ma.Domain.Process.{Process, transition, can_transition}
use cs320_cluster_process_ma.Controller.State.{Controller, emitted}
use cs320_cluster_process_ma.Controller.Processes.{is_running, kill_process}
use cs320_cluster_process_ma.Controller.Invariant.Facts.{IsConsistent}
use cs320_cluster_process_ma.Controller.Consistency.Release.{unhosted}
use cs320_cluster_process_ma.Controller.Consistency.Commands.{
  found_itself, kill_process-IsConsistent,
}
use cs320_cluster_process_ma.Controller.Outcome.Effects.{
  KeepsOthers, KeepsOthers-insert, release_if_running-IsLeft,
}

-- A process that was killed at a tick: it has no node, and the rest of it is as before.
abbrev pub killed : Process → ℤ → Process
killed p tick = record p { node_id = ""; state = ProcessState.killed; finished_at_tick = some tick }

-- The outcome of KillProcess, by the process that the identifier stands for.
pub record IsKill {F : Type 0} (c : Controller F) (id : String) (r : Result Process)
    (d : Controller F) : Type 0 where
  pub unknown : lookup id c.processes ≡ none → (r ≡ err process_not_found) × (d ≡ c)
  pub refused :
      (p : Process)
      → lookup id c.processes ≡ some p
      → can_transition p.state ProcessState.killed ≡ false
      → (r ≡ err invalid_state_transition) × (d ≡ c)
  pub done :
      (p : Process)
      → lookup id c.processes ≡ some p
      → can_transition p.state ProcessState.killed ≡ true
      → (r ≡ ok (killed p c.current_tick))
        × (lookup id d.processes ≡ some (killed p c.current_tick))
        × KeepsOthers id c.processes d.processes
  pub consistent : IsConsistent d

module _ {F : Type 0} (c : Controller F) (inv : IsConsistent c) (id : String) where
  kill_refused :
      (p : Process)
      → lookup id c.processes ≡ some p
      → can_transition p.state ProcessState.killed ≡ false
      → ((kill_process id c).0 ≡ err invalid_state_transition) × ((kill_process id c).1 ≡ c)
  unfolding kill_process transition
  kill_refused p e stuck = elim (Bool-cases (is_terminal p.state)) [
    | inl dead ↦ rw (e, dead) (refl, refl)
    | inr live ↦
        let idle : is_running p.state ≡ false = ground arith in
        rw (e, live, idle, stuck) (refl, refl)
  ]

  kill_done :
      (p : Process)
      → lookup id c.processes ≡ some p
      → can_transition p.state ProcessState.killed ≡ true
      → ((kill_process id c).0 ≡ ok (killed p c.current_tick))
        × (lookup id (kill_process id c).1.processes ≡ some (killed p c.current_tick))
        × KeepsOthers id c.processes (kill_process id c).1.processes
  unfolding kill_process transition emitted
  kill_done p e can =
      let live : is_terminal p.state ≡ false = unfold is_terminal in ground arith in
      let (d, left) = release_if_running-IsLeft c inv p (found_itself c inv id p e) in
      let key = (inv.processes id p e).key in
      let q : Process = record (unhosted p) { state = ProcessState.killed } in
      rw (e, live, left.answers, can, left.clock, ← key)
        (
          refl,
          lookup-insert_self p.id (killed p c.current_tick) (insert p.id q d.processes),
          KeepsOthers-insert p.id (killed p c.current_tick) c.processes (insert p.id q d.processes)
              (KeepsOthers-insert p.id q c.processes d.processes left.others),
        )

  -- KillProcess on a consistent controller answers that an unknown process is not found, and
  -- refuses one whose state cannot go to killed; both leave the whole controller as it was. Any
  -- other process is stored and returned as killed at the current tick and without a node, with all
  -- else of it kept; the other processes stay the same, and the controller is consistent.
  pub kill_process-IsKill : IsKill c id (kill_process id c).0 (kill_process id c).1
  kill_process-IsKill = record {
    unknown = λ e. unfold kill_process in rw e (refl, refl);
    refused = kill_refused;
    done = kill_done;
    consistent = kill_process-IsConsistent c inv id;
  }
