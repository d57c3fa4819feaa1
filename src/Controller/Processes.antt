-- ===== src/Controller/Processes.antt =====
-- internal/cluster/lifecycle.go: the commands on one process.
use cs320_cluster_process_ma.Base.{
  pos, String, Bool, true, false, not, some, string_eq, leb_ℤ, if◌then◌else◌, size, lookup, has_key,
  Action, get, lift, pure, modify, fail_if, or_fail, ◌>>=◌, ◌>>◌, invalid_input, duplicate_process,
  node_not_found, invalid_state_transition,
}
use cs320_cluster_process_ma.Domain.Types.{ProcessState, is_terminal, SimulationStatus, EventType}
use cs320_cluster_process_ma.Domain.Process.{Process, ProcessDefinition, new_process, transition}
use cs320_cluster_process_ma.Domain.Node.{release}
use cs320_cluster_process_ma.Controller.State.{
  Controller, set_state, store_node, store_process, emit, process_locked, transition_to,
}
use cs320_cluster_process_ma.Controller.Registry.{is_completed}

-- Comparisons of a process's state with a constant.
abbrev pub is_running : ProcessState → Bool
is_running ProcessState.running = true
is_running _ = false

abbrev pub is_ready : ProcessState → Bool
is_ready ProcessState.ready = true
is_ready _ = false

abbrev pub is_paused : ProcessState → Bool
is_paused ProcessState.paused = true
is_paused _ = false

abbrev pub is_waiting : ProcessState → Bool
is_waiting ProcessState.waiting = true
is_waiting _ = false

module _ {F : Type 0} where
  -- A submission after the end makes the simulation idle again.
  abbrev pub reopened : Controller F → Controller F
  reopened c =
      if is_completed c.simulation_status
      then set_state
          (λ s. record s { simulation_status = SimulationStatus.idle; finish_reason = "" }) c
      else c

  unfoldable pub submit_process : ProcessDefinition → Action (Controller F) Process
  unfolding has_key
  submit_process def = do
    c ← get
    fail_if (leb_ℤ c.max_processes (pos (size c.processes))) invalid_input
    p ← lift (new_process def c.current_tick)
    fail_if (has_key p.id c.processes) duplicate_process
    q ← lift (transition p ProcessState.ready)
    modify (store_process q)
    modify reopened
    emit EventType.process_submitted "info" q.id "" "process submitted"
    pure q

  -- releaseLocked; the process afterwards.
  unfoldable pub release_locked : Process → Action (Controller F) Process
  release_locked p = do
    c ← get
    node ← or_fail (lookup p.node_id c.nodes) node_not_found
    freed ← lift (release node p)
    modify (store_node freed)
    modify (store_process (record p { node_id = "" }))
    emit EventType.resource_released "info" p.id p.node_id "resources released"
    pure (record p { node_id = "" })

  -- PauseProcess and WaitProcess: a running process gives up its node and goes to state `to`.
  abbrev pub suspend : ProcessState → EventType → String → String → Action (Controller F) Process
  suspend to type message id = do
    p ← process_locked id
    fail_if (not (is_running p.state)) invalid_state_transition
    q ← release_locked p
    r ← transition_to q to
    emit type "info" r.id "" message
    pure r

  unfoldable pub pause_process : String → Action (Controller F) Process
  unfolding release_locked
  pause_process = suspend ProcessState.paused EventType.process_paused "process paused"

  unfoldable pub wait_process : String → Action (Controller F) Process
  unfolding release_locked
  wait_process =
      suspend ProcessState.waiting EventType.process_waiting "process is waiting for simulated I/O"

  -- ResumeProcess and WakeProcess: a process in the state that `test` wants is ready again.
  abbrev pub requeue :
      (ProcessState → Bool) → EventType → String → String → Action (Controller F) Process
  requeue test type message id = do
    p ← process_locked id
    fail_if (not (test p.state)) invalid_state_transition
    q ← transition_to p ProcessState.ready
    c ← get
    modify (store_process (record q { last_ready_at_tick = c.current_tick }))
    emit type "info" q.id "" message
    pure (record q { last_ready_at_tick = c.current_tick })

  unfoldable pub resume_process : String → Action (Controller F) Process
  resume_process = requeue is_paused EventType.process_resumed "process returned to ready queue"

  unfoldable pub wake_process : String → Action (Controller F) Process
  wake_process = requeue is_waiting EventType.process_io_completed "simulated I/O completed"

  -- `if process.State == ProcessRunning { releaseLocked }`
  abbrev pub release_if_running : Process → Action (Controller F) Process
  release_if_running p = if is_running p.state then release_locked p else pure p

  unfoldable pub kill_process : String → Action (Controller F) Process
  unfolding release_locked is_terminal
  kill_process id = do
    p ← process_locked id
    fail_if (is_terminal p.state) invalid_state_transition
    q ← release_if_running p
    r ← transition_to q ProcessState.killed
    c ← get
    modify (store_process (record r { finished_at_tick = some c.current_tick }))
    emit EventType.process_killed "warning" r.id "" "process killed"
    pure (record r { finished_at_tick = some c.current_tick })
