-- ===== src/Controller/Outcome/Commands.antt =====
-- internal/cluster/lifecycle.go and recovery.go: the outcomes of the commands on one process.
use cs320_cluster_process_ma.Base.{
  pos, String, Bool, true, false, ◌≡◌, refl, inl, inr, Option-cases, Bool-cases, lookup, string_eq,
  leb_ℤ, size, has_key, some, arith,
}
use cs320_cluster_process_ma.Domain.Types.{ProcessState, EventType, is_terminal}
use cs320_cluster_process_ma.Domain.Process.{Process, ProcessDefinition, transition, can_transition}
use cs320_cluster_process_ma.Controller.State.{Controller}
use cs320_cluster_process_ma.Controller.Processes.{
  is_running, is_paused, is_waiting, suspend, requeue, pause_process, wait_process, resume_process,
  wake_process, kill_process, submit_process,
}
use cs320_cluster_process_ma.Controller.Failures.{detach, fail_process_locked, fail_process}
use cs320_cluster_process_ma.Controller.Invariant.Facts.{IsConsistent}
use cs320_cluster_process_ma.Controller.Consistency.Release.{release_locked-IsReleased}
use cs320_cluster_process_ma.Controller.Consistency.Commands.{
  can_leave, running-not_terminal, found_itself, new_process_cases,
}
use cs320_cluster_process_ma.Controller.Consistency.Failing.{
  fail_running-Succeeds, fail_idle-Succeeds,
}
use cs320_cluster_process_ma.Controller.Outcome.Defs.{IsAtomic}

module _ {F : Type 0} (c : Controller F) (inv : IsConsistent c) where
  suspend-IsAtomic :
      (to : ProcessState) (type : EventType) (message id : String)
      → can_transition ProcessState.running to ≡ true
      → IsAtomic c (suspend to type message id c)
  unfolding transition
  suspend-IsAtomic to type message id can = elim (Option-cases (lookup id c.processes)) [
    | inl e ↦ rw e refl
    | inr (p, e) ↦ elim (Bool-cases (is_running p.state)) [
      | inr idle ↦ rw (e, idle) refl
      | inl run ↦
          let (d, r) = release_locked-IsReleased c p inv (found_itself c inv id p e) run in
          let moves = can_leave p.state to run can in rw (e, run, r.answers, moves) tt
    ]
  ]

  requeue-IsAtomic :
      (test : ProcessState → Bool) (type : EventType) (message id : String)
      → ((s : ProcessState) → test s ≡ true → can_transition s ProcessState.ready ≡ true)
      → IsAtomic c (requeue test type message id c)
  unfolding transition
  requeue-IsAtomic test type message id sound = elim (Option-cases (lookup id c.processes)) [
    | inl e ↦ rw e refl
    | inr (p, e) ↦ elim (Bool-cases (test p.state)) [
      | inr idle ↦ rw (e, idle) refl
      | inl passes ↦ let can = sound p.state passes in rw (e, passes, can) tt
    ]
  ]

  kill_idle-IsAtomic :
      (id : String) (p : Process)
      → lookup id c.processes ≡ some p
      → is_running p.state ≡ false
      → is_terminal p.state ≡ false
      → IsAtomic c (kill_process id c)
  unfolding kill_process transition
  kill_idle-IsAtomic id p e idle live =
      elim (Bool-cases (can_transition p.state ProcessState.killed)) [
        | inl can ↦ rw (e, live, idle, can) tt
        | inr stuck ↦ rw (e, live, idle, stuck) refl
      ]

  pub kill_process-IsAtomic : (id : String) → IsAtomic c (kill_process id c)
  unfolding kill_process transition
  kill_process-IsAtomic id = elim (Option-cases (lookup id c.processes)) [
    | inl e ↦ rw e refl
    | inr (p, e) ↦ elim (Bool-cases (is_running p.state)) [
      | inl run ↦
          let (d, r) = release_locked-IsReleased c p inv (found_itself c inv id p e) run in
          let can = can_leave p.state ProcessState.killed run refl in
          let live = running-not_terminal p.state run in rw (e, live, run, r.answers, can) tt
      | inr idle ↦ elim (Bool-cases (is_terminal p.state)) [
        | inl dead ↦ rw (e, dead) refl
        | inr live ↦ kill_idle-IsAtomic id p e idle live
      ]
    ]
  ]

  pub pause_process-IsAtomic : (id : String) → IsAtomic c (pause_process id c)
  unfolding pause_process
  pause_process-IsAtomic id = suspend-IsAtomic _ _ _ id refl

  pub wait_process-IsAtomic : (id : String) → IsAtomic c (wait_process id c)
  unfolding wait_process
  wait_process-IsAtomic id = suspend-IsAtomic _ _ _ id refl

  pub resume_process-IsAtomic : (id : String) → IsAtomic c (resume_process id c)
  unfolding resume_process
  resume_process-IsAtomic id = requeue-IsAtomic is_paused _ _ id (λ s h. ground arith)

  pub wake_process-IsAtomic : (id : String) → IsAtomic c (wake_process id c)
  unfolding wake_process
  wake_process-IsAtomic id = requeue-IsAtomic is_waiting _ _ id (λ s h. ground arith)

  pub submit_process-IsAtomic : (def : ProcessDefinition) → IsAtomic c (submit_process def c)
  unfolding submit_process transition
  submit_process-IsAtomic def = elim (Bool-cases (leb_ℤ c.max_processes (pos (size c.processes)))) [
    | inl full ↦ rw full refl
    | inr room ↦ elim (new_process_cases def c.current_tick) [
      | inl (e, bad) ↦ rw (room, bad) refl
      | inr (p, good, f) ↦ elim (Bool-cases (has_key p.id c.processes)) [
        | inl twice ↦ rw (room, good, twice) refl
        | inr once ↦ rw (room, good, once, f.state) tt
      ]
    ]
  ]

  pub fail_process_locked-IsAtomic :
      (p : Process) (reason : String)
      → lookup p.id c.processes ≡ some p
      → IsAtomic c (fail_process_locked p reason c)
  fail_process_locked-IsAtomic p reason found = elim (Bool-cases (is_running p.state)) [
    | inl run ↦ let (q, d, e, k) = fail_running-Succeeds c p reason found inv run in rw e tt
    | inr idle ↦ elim (Bool-cases (is_terminal p.state)) [
      | inl dead ↦ unfold fail_process_locked in rw dead refl
      | inr live ↦ elim (Bool-cases (can_transition p.state ProcessState.failed)) [
        | inr stuck ↦ unfold fail_process_locked transition detach in rw (live, idle, stuck) refl
        | inl can ↦
            let (q, d, e, k) = fail_idle-Succeeds c p reason found inv idle live can in rw e tt
      ]
    ]
  ]

  pub fail_process-IsAtomic : (id reason : String) → IsAtomic c (fail_process id reason c)
  unfolding fail_process
  fail_process-IsAtomic id reason = elim (Option-cases (lookup id c.processes)) [
    | inl e ↦ rw e refl
    | inr (p, e) ↦ rw e (fail_process_locked-IsAtomic p reason (found_itself c inv id p e))
  ]
