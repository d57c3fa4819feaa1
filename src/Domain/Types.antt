-- ===== src/Domain/Types.antt =====
-- internal/domain/types.go. A Go type whose values are only ever written by the program is an
-- enumeration; a type that arrives in a request has a further constructor for any other text.
use cs320_cluster_process_ma.Base.{ℤ, String, Bool, true, false}

pub data ProcessState : Type 0 where
  new ready running waiting paused terminated failed killed : ProcessState

unfoldable pub is_terminal : ProcessState → Bool
is_terminal terminated = true
is_terminal failed = true
is_terminal killed = true
is_terminal _ = false

-- `unspecified` is the empty text, `unknown` any other one that is not a policy.
pub data RestartPolicy : Type 0 where
  never on_failure unspecified : RestartPolicy
  unknown : String → RestartPolicy

pub data NodeStatus : Type 0 where
  online draining offline failed recovering : NodeStatus
  unknown : String → NodeStatus

pub data SimulationStatus : Type 0 where
  idle running paused completed : SimulationStatus

pub data EventType : Type 0 where
  node_registered node_removed node_status_changed node_heartbeat_missed : EventType
  node_failed node_recovered : EventType
  process_submitted process_scheduled process_started process_paused : EventType
  process_resumed process_waiting process_io_completed process_completed : EventType
  process_failed process_restarted process_killed scheduling_deferred : EventType
  resource_allocated resource_released : EventType
  simulation_started simulation_paused simulation_reset simulation_finished : EventType
  scheduler_changed scenario_loaded : EventType

pub record Event : Type 0 where
  pub id : String
  pub tick : ℤ
  pub type : EventType
  pub severity : String
  pub process_id : String
  pub node_id : String
  pub message : String
