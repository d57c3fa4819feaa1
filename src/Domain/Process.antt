-- ===== src/Domain/Process.antt =====
-- internal/domain/process.go.
use cs320_cluster_process_ma.Base.{
  and_return, ℤ, pos, String, Bool, true, false, ◌&&◌, Option, none, ltb_ℤ, leb_ℤ, ◌==◌, string_eq,
  if◌then◌else◌, trim_space, Result, ok, err, invalid_input, invalid_state_transition,
}
use cs320_cluster_process_ma.Domain.Types.{ProcessState, RestartPolicy}

pub record Process : Type 0 where
  pub id : String
  pub name : String
  pub state : ProcessState
  pub priority : ℤ
  pub cpu_request : ℤ
  pub memory_request_mb : ℤ
  pub total_ticks : ℤ
  pub remaining_ticks : ℤ
  pub node_id : String
  pub restart_policy : RestartPolicy
  pub restart_count : ℤ
  pub max_restarts : ℤ
  pub submitted_at_tick : ℤ
  pub started_at_tick : Option ℤ
  pub finished_at_tick : Option ℤ
  pub last_ready_at_tick : ℤ
  pub waiting_ticks : ℤ
  pub last_error : String

pub record ProcessDefinition : Type 0 where
  pub id : String
  pub name : String
  pub priority : ℤ
  pub cpu_request : ℤ
  pub memory_request_mb : ℤ
  pub total_ticks : ℤ
  pub restart_policy : RestartPolicy
  pub max_restarts : ℤ
  pub submit_at_tick : ℤ

-- The `switch` at the end of Validate.
abbrev is_supported : RestartPolicy → Bool
is_supported RestartPolicy.never = true
is_supported RestartPolicy.on_failure = true
is_supported _ = false

-- Process.Validate: the unit value stands for a nil error.
unfoldable pub validate : Process → Result Unit
validate p =
    if trim_space p.id == ""
    then err invalid_input
    else if trim_space p.name == ""
    then err invalid_input
    else if leb_ℤ p.cpu_request (pos 0)
    then err invalid_input
    else if leb_ℤ p.memory_request_mb (pos 0)
    then err invalid_input
    else if leb_ℤ p.total_ticks (pos 0)
    then err invalid_input
    else if ltb_ℤ p.max_restarts (pos 0)
    then err invalid_input
    else if is_supported p.restart_policy
    then ok tt
    else err invalid_input

-- `if def.RestartPolicy == "" { def.RestartPolicy = RestartNever }`
abbrev or_never : RestartPolicy → RestartPolicy
or_never RestartPolicy.unspecified = RestartPolicy.never
or_never policy = policy

-- The process that NewProcess builds before it validates it.
abbrev pub draft : ProcessDefinition → ℤ → Process
draft def tick = record {
  id = trim_space def.id;
  name = trim_space def.name;
  state = ProcessState.new;
  priority = def.priority;
  cpu_request = def.cpu_request;
  memory_request_mb = def.memory_request_mb;
  total_ticks = def.total_ticks;
  remaining_ticks = def.total_ticks;
  node_id = "";
  restart_policy = or_never def.restart_policy;
  restart_count = pos 0;
  max_restarts = def.max_restarts;
  submitted_at_tick = tick;
  started_at_tick = none;
  finished_at_tick = none;
  last_ready_at_tick = tick;
  waiting_ticks = pos 0;
  last_error = "";
}

unfoldable pub new_process : ProcessDefinition → ℤ → Result Process
new_process def tick = let p = draft def tick in and_return (validate p) p

-- The table processTransitions.
abbrev pub can_transition : ProcessState → ProcessState → Bool
can_transition ProcessState.new ProcessState.ready = true
can_transition ProcessState.ready ProcessState.running = true
can_transition ProcessState.ready ProcessState.failed = true
can_transition ProcessState.ready ProcessState.killed = true
can_transition ProcessState.running ProcessState.ready = true
can_transition ProcessState.running ProcessState.waiting = true
can_transition ProcessState.running ProcessState.paused = true
can_transition ProcessState.running ProcessState.terminated = true
can_transition ProcessState.running ProcessState.failed = true
can_transition ProcessState.running ProcessState.killed = true
can_transition ProcessState.waiting ProcessState.ready = true
can_transition ProcessState.waiting ProcessState.failed = true
can_transition ProcessState.waiting ProcessState.killed = true
can_transition ProcessState.paused ProcessState.ready = true
can_transition ProcessState.paused ProcessState.failed = true
can_transition ProcessState.paused ProcessState.killed = true
can_transition ProcessState.failed ProcessState.ready = true
can_transition _ _ = false

-- Process.Transition on a pointer that is not nil.
unfoldable pub transition : Process → ProcessState → Result Process
transition p to =
    if can_transition p.state to then ok (record p { state = to }) else err invalid_state_transition

abbrev retries : RestartPolicy → Bool
retries RestartPolicy.on_failure = true
retries _ = false

unfoldable pub can_restart : Process → Bool
can_restart p = retries p.restart_policy && ltb_ℤ p.restart_count p.max_restarts
