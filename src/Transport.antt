-- ===== src/Transport.antt =====
-- internal/transport/http: the requests and their routes, over the handlers of the children.
pub mod Answers
pub mod Nodes
pub mod Processes
pub mod Simulation
pub mod Reports
pub mod Tests
pub mod Safety
pub mod Refusals
pub mod Routes
pub mod Setup
pub mod Statuses
pub mod Bodies
use cs320_cluster_process_ma.Base.{ℤ, String, Option, Float}
use cs320_cluster_process_ma.Domain.Types.{NodeStatus}
use cs320_cluster_process_ma.Domain.Process.{ProcessDefinition}
use cs320_cluster_process_ma.Domain.Node.{NodeDefinition}
use cs320_cluster_process_ma.Domain.Scenario.{Scenario}
use cs320_cluster_process_ma.Controller.Views
use cs320_cluster_process_ma.Metrics
use cs320_cluster_process_ma.Engine.{Engine}
use Answers.{Body, Response, view, write}
use Nodes
use Processes
use Simulation
use Reports

-- The routes, and what a handler reads of its request.
pub data Request : Type 0 where
  health list_nodes list_processes : Request
  create_node : Option NodeDefinition → Request
  get_node delete_node fail_node recover_node heartbeat : String → Request
  change_node_status : String → Option NodeStatus → Request
  create_process : Option ProcessDefinition → Request
  get_process pause_process resume_process wait_process : String → Request
  wake_process kill_process fail_process : String → Request
  start_simulation pause_simulation reset_simulation simulation_status : Request
  step_simulation : Option ℤ → Request
  load_scenario : Option Scenario → Request
  get_scheduler list_events get_metrics : Request
  export_report : String → Request
  set_scheduler : Option String → Request

module _ {F : Type 0} ⦃f : Float F⦄ (stop : Engine F → Engine F) where
  -- The routes and withRecovery.
  unfoldable pub handle : Request → Engine F → Response F × Engine F
  handle Request.health = view λ c. write 200 Body.health
  handle Request.list_nodes = Nodes.list_nodes
  handle (Request.create_node body) = Nodes.create_node body
  handle (Request.get_node id) = Nodes.get_node id
  handle (Request.delete_node id) = Nodes.delete_node id
  handle (Request.fail_node id) = Nodes.fail_node id
  handle (Request.recover_node id) = Nodes.recover_node id
  handle (Request.heartbeat id) = Nodes.heartbeat id
  handle (Request.change_node_status id body) = Nodes.change_node_status id body
  handle Request.list_processes = Processes.list_processes
  handle (Request.create_process body) = Processes.create_process body
  handle (Request.get_process id) = Processes.get_process id
  handle (Request.pause_process id) = Processes.pause_process id
  handle (Request.resume_process id) = Processes.resume_process id
  handle (Request.wait_process id) = Processes.wait_process id
  handle (Request.wake_process id) = Processes.wake_process id
  handle (Request.kill_process id) = Processes.kill_process id
  handle (Request.fail_process id) = Processes.fail_process id
  handle Request.start_simulation = Simulation.start_simulation
  handle Request.pause_simulation = Simulation.pause_simulation stop
  handle Request.reset_simulation = Simulation.reset_simulation stop
  handle Request.simulation_status = Simulation.simulation_status
  handle (Request.step_simulation body) = Simulation.step_simulation stop body
  handle (Request.load_scenario body) = Simulation.load_scenario stop body
  handle Request.get_scheduler = Simulation.get_scheduler
  handle (Request.set_scheduler body) = Simulation.set_scheduler body
  handle Request.list_events = Reports.list_events
  handle Request.get_metrics = Reports.get_metrics
  handle (Request.export_report format) = Reports.export_report format
