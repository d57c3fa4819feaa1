-- ===== src/Transport/Processes.antt =====
-- internal/transport/http/processes.go.
use cs320_cluster_process_ma.Base.{String, Option, Action}
use cs320_cluster_process_ma.Domain.Process.{Process, ProcessDefinition}
use cs320_cluster_process_ma.Controller.State.{Controller}
use cs320_cluster_process_ma.Controller.Processes
use cs320_cluster_process_ma.Controller.Failures
use cs320_cluster_process_ma.Controller.Views
use cs320_cluster_process_ma.Engine.{Engine}
use cs320_cluster_process_ma.Transport.Answers.{
  Body, Response, respond, decoded, view, answer, write,
}

module _ {F : Type 0} where
  abbrev pub create_process : Option ProcessDefinition → Engine F → Response F × Engine F
  create_process body = decoded body λ def. respond 201 Body.process (Processes.submit_process def)

  abbrev pub list_processes : Engine F → Response F × Engine F
  list_processes = view λ c. write 200 (Body.processes (Views.processes c))

  abbrev pub get_process : String → Engine F → Response F × Engine F
  get_process id = view λ c. answer 200 Body.process (Views.process id c)

  abbrev pub process_action :
      String → (String → Action (Controller F) Process) → Engine F → Response F × Engine F
  process_action id action = respond 200 Body.process (action id)

  abbrev pub pause_process : String → Engine F → Response F × Engine F
  pause_process id = process_action id Processes.pause_process

  abbrev pub resume_process : String → Engine F → Response F × Engine F
  resume_process id = process_action id Processes.resume_process

  abbrev pub wait_process : String → Engine F → Response F × Engine F
  wait_process id = process_action id Processes.wait_process

  abbrev pub wake_process : String → Engine F → Response F × Engine F
  wake_process id = process_action id Processes.wake_process

  abbrev pub kill_process : String → Engine F → Response F × Engine F
  kill_process id = process_action id Processes.kill_process

  abbrev pub fail_process : String → Engine F → Response F × Engine F
  fail_process id =
      respond 200 Body.process (Failures.fail_process id "process failed by API request")
