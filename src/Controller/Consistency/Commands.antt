-- ===== src/Controller/Consistency/Commands.antt =====
-- internal/cluster/lifecycle.go: the commands on one process, and the invariant.
use cs320_cluster_process_ma.Base.{
  Error, leb_ℤ, pos, size, ℤ, pos_part, ◌<◌, String, [], Bool, true, false, ◌≡◌, refl, sym, ap, ◌∙◌,
  ◌⊎◌, inl, inr, some, lookup, insert, has_key, arith, ok, err, contains-nil, lookup-insert_self,
  string_eq, Option-cases, Bool-cases, has_key-none,
}
use cs320_cluster_process_ma.Domain.Types.{ProcessState, EventType, is_terminal}
use cs320_cluster_process_ma.Domain.Process.{
  Process, ProcessDefinition, transition, can_transition, new_process, draft, validate,
}
use cs320_cluster_process_ma.Controller.State.{Controller, emitted}
use cs320_cluster_process_ma.Controller.Registry.{is_completed}
use cs320_cluster_process_ma.Controller.Processes.{
  is_running, is_paused, is_waiting, suspend, requeue, pause_process, wait_process, resume_process,
  wake_process, kill_process, submit_process,
}
use cs320_cluster_process_ma.Controller.Invariant.Facts.{IsConsistent}
use cs320_cluster_process_ma.Controller.Invariant.Writes.{SameRequests, settle, write, submit}
use cs320_cluster_process_ma.Controller.Consistency.Release.{release_locked-IsReleased, unhosted}

pub can_leave :
    (s to : ProcessState)
    → is_running s ≡ true
    → can_transition ProcessState.running to ≡ true
    → can_transition s to ≡ true
can_leave s to h k = ground arith

pub running-not_terminal : (s : ProcessState) → is_running s ≡ true → is_terminal s ≡ false
unfolding is_terminal
running-not_terminal s h = ground arith

-- What NewProcess guarantees of the process that it returns.
pub record IsNew (p : Process) : Type 0 where
  pub state : p.state ≡ ProcessState.new
  pub node : p.node_id ≡ ""
  pub cpu : 0 < pos_part p.cpu_request
  pub memory : 0 < pos_part p.memory_request_mb

validate_cases :
    (p : Process)
    → ((e : Error) × (validate p ≡ err e))
      ⊎ (validate p ≡ ok tt) × (0 < pos_part p.cpu_request) × (0 < pos_part p.memory_request_mb)
unfolding validate
validate_cases p = ground arith

-- NewProcess fails, or returns such a process.
pub new_process_cases :
    (def : ProcessDefinition) (tick : ℤ)
    → ((e : Error) × (new_process def tick ≡ err e))
      ⊎ ((p : Process) × (new_process def tick ≡ ok p) × IsNew p)
unfolding new_process
new_process_cases def tick = elim (validate_cases (draft def tick)) [
  | inl (e, bad) ↦ inl (e, rw bad refl)
  | inr (good, cpu, memory) ↦ inr (
    draft def tick,
    rw good refl,
    record { state = refl; node = refl; cpu = cpu; memory = memory },
  )
]

module _ {F : Type 0} (c : Controller F) (inv : IsConsistent c) where
  -- A process that is found is found under its own identifier.
  pub found_itself :
      (id : String) (p : Process)
      → lookup id c.processes ≡ some p
      → lookup p.id c.processes ≡ some p
  found_itself id p e = ap (λ i. lookup i c.processes) (inv.processes id p e).key ∙ e

  suspend-IsConsistent :
      (to : ProcessState) (type : EventType) (message id : String)
      → can_transition ProcessState.running to ≡ true
      → is_running to ≡ false
      → IsConsistent (suspend to type message id c).1
  unfolding transition emitted
  suspend-IsConsistent to type message id can stop = elim (Option-cases (lookup id c.processes)) [
    | inl e ↦ rw e inv
    | inr (p, e) ↦ elim (Bool-cases (is_running p.state)) [
      | inl run ↦
          let (d, r) = release_locked-IsReleased c p inv (found_itself id p e) run in
          let moves = can_leave p.state to run can in
          rw (e, run, r.answers, moves)
            (settle d.processes p.id (unhosted p) (record (unhosted p) { state = to }) r.found
              (record { id = refl; cpu = refl; memory = refl }) [] d.nodes (contains-nil p.id) stop
              refl r.loose)
      | inr idle ↦ rw (e, idle) inv
    ]
  ]

  requeue-IsConsistent :
      (test : ProcessState → Bool) (type : EventType) (message id : String)
      → ((s : ProcessState)
          → test s ≡ true
          → (can_transition s ProcessState.ready ≡ true) × (is_running s ≡ false))
      → IsConsistent (requeue test type message id c).1
  unfolding transition emitted
  requeue-IsConsistent test type message id sound = elim (Option-cases (lookup id c.processes)) [
    | inl e ↦ rw e inv
    | inr (p, e) ↦ elim (Bool-cases (test p.state)) [
      | inr idle ↦ rw (e, idle) inv
      | inl passes ↦
          let (can, rest) = sound p.state passes in
          let q : Process = record p { state = ProcessState.ready } in
          let same : SameRequests p q = record { id = refl; cpu = refl; memory = refl } in
          let again : SameRequests q (record q { last_ready_at_tick = c.current_tick }) = record {
            id = refl;
            cpu = refl;
            memory = refl;
          } in
          rw (e, passes, can)
            (write (insert p.id q c.processes) p.id q _ (lookup-insert_self p.id q c.processes)
              again [] c.nodes refl refl
              (write c.processes p.id p q (found_itself id p e) same [] c.nodes (sym rest) refl
                inv))
    ]
  ]

  -- The end of KillProcess, once the process has no node.
  kill_idle-IsConsistent :
      (id : String) (p : Process)
      → lookup id c.processes ≡ some p
      → is_running p.state ≡ false
      → is_terminal p.state ≡ false
      → IsConsistent (kill_process id c).1
  unfolding kill_process transition emitted
  kill_idle-IsConsistent id p e idle live =
      elim (Bool-cases (can_transition p.state ProcessState.killed)) [
        | inr stuck ↦ rw (e, live, idle, stuck) inv
        | inl can ↦
            let q : Process = record p { state = ProcessState.killed } in
            let same : SameRequests p q = record { id = refl; cpu = refl; memory = refl } in
            let again : SameRequests q (record q { finished_at_tick = some c.current_tick }) =
              record { id = refl; cpu = refl; memory = refl } in
            rw (e, live, idle, can)
              (write (insert p.id q c.processes) p.id q _ (lookup-insert_self p.id q c.processes)
                again [] c.nodes refl refl
                (write c.processes p.id p q (found_itself id p e) same [] c.nodes (sym idle) refl
                  inv))
      ]

  kill_running-IsConsistent :
      (id : String) (p : Process)
      → lookup id c.processes ≡ some p
      → is_running p.state ≡ true
      → IsConsistent (kill_process id c).1
  unfolding kill_process transition emitted
  kill_running-IsConsistent id p e run =
      let (d, r) = release_locked-IsReleased c p inv (found_itself id p e) run in
      let can = can_leave p.state ProcessState.killed run refl in
      let live = running-not_terminal p.state run in
      let q : Process = record (unhosted p) { state = ProcessState.killed } in
      let same : SameRequests (unhosted p) q = record { id = refl; cpu = refl; memory = refl } in
      let again : SameRequests q (record q { finished_at_tick = some d.current_tick }) = record {
        id = refl;
        cpu = refl;
        memory = refl;
      } in
      rw (e, live, run, r.answers, can)
        (write (insert p.id q d.processes) p.id q _ (lookup-insert_self p.id q d.processes) again []
          d.nodes refl refl
          (settle d.processes p.id (unhosted p) q r.found same [] d.nodes (contains-nil p.id) refl
            refl r.loose))

  -- KillProcess keeps the invariant.
  pub kill_process-IsConsistent : (id : String) → IsConsistent (kill_process id c).1
  kill_process-IsConsistent id = elim (Option-cases (lookup id c.processes)) [
    | inl e ↦ unfold kill_process in rw e inv
    | inr (p, e) ↦ elim (Bool-cases (is_running p.state)) [
      | inl run ↦ kill_running-IsConsistent id p e run
      | inr idle ↦ elim (Bool-cases (is_terminal p.state)) [
        | inl dead ↦ unfold kill_process in rw (e, dead) inv
        | inr live ↦ kill_idle-IsConsistent id p e idle live
      ]
    ]
  ]

  -- PauseProcess keeps the invariant.
  pub pause_process-IsConsistent : (id : String) → IsConsistent (pause_process id c).1
  unfolding pause_process
  pause_process-IsConsistent id = suspend-IsConsistent _ _ _ id refl refl

  -- WaitProcess keeps the invariant.
  pub wait_process-IsConsistent : (id : String) → IsConsistent (wait_process id c).1
  unfolding wait_process
  wait_process-IsConsistent id = suspend-IsConsistent _ _ _ id refl refl

  -- ResumeProcess keeps the invariant.
  pub resume_process-IsConsistent : (id : String) → IsConsistent (resume_process id c).1
  unfolding resume_process
  resume_process-IsConsistent id = requeue-IsConsistent is_paused _ _ id (λ s h. ground arith)

  -- WakeProcess keeps the invariant.
  pub wake_process-IsConsistent : (id : String) → IsConsistent (wake_process id c).1
  unfolding wake_process
  wake_process-IsConsistent id = requeue-IsConsistent is_waiting _ _ id (λ s h. ground arith)

  -- SubmitProcess keeps the invariant.
  pub submit_process-IsConsistent :
      (def : ProcessDefinition) → IsConsistent (submit_process def c).1
  unfolding submit_process transition emitted
  submit_process-IsConsistent def =
      elim (Bool-cases (leb_ℤ c.max_processes (pos (size c.processes)))) [
        | inl full ↦ rw full inv
        | inr room ↦ elim (new_process_cases def c.current_tick) [
          | inl (e, bad) ↦ rw (room, bad) inv
          | inr (p, good, f) ↦ elim (Bool-cases (has_key p.id c.processes)) [
            | inl twice ↦ rw (room, good, twice) inv
            | inr once ↦
                let fresh = has_key-none p.id c.processes once in
                let q : Process = record p { state = ProcessState.ready } in
                let grown =
                  submit c.nodes c.processes p.id q fresh refl f.cpu f.memory refl f.node inv in
                elim (Bool-cases (is_completed c.simulation_status)) [
                  | inl over ↦ rw (room, good, once, f.state, over) grown
                  | inr going ↦ rw (room, good, once, f.state, going) grown
                ]
          ]
        ]
      ]
