-- ===== src/Transport/Statuses.antt =====
-- internal/transport/http: the statuses of the responses.
use cs320_cluster_process_ma.Base.{
  ℕ, ◌≤◌, ◌<◌, ◌⊎◌, inl, inr, arith, true, none, some, Result, ok, err, panic, Error, Action, Float,
  Bool-cases, ◌||◌, ◌==◌, string_eq,
}
use cs320_cluster_process_ma.Controller.State.{Controller}
use cs320_cluster_process_ma.Controller.Registry
use cs320_cluster_process_ma.Controller.Processes
use cs320_cluster_process_ma.Controller.Failures
use cs320_cluster_process_ma.Controller.Views
use cs320_cluster_process_ma.Engine
use cs320_cluster_process_ma.Engine.{Engine}
use cs320_cluster_process_ma.Transport.Simulation.{or_one}
use cs320_cluster_process_ma.Transport.{Request, handle}
use cs320_cluster_process_ma.Transport.Answers.{
  Body, status_for_error, answer, respond, engine_answer,
}

-- A status of success, or one of an error.
abbrev pub IsUsual : ℕ → Type 0
IsUsual n = ((200 ≤ n) × (n < 300)) ⊎ (400 ≤ n)

status_for_error-IsUsual : (e : Error) → IsUsual (status_for_error e)
unfolding status_for_error
status_for_error-IsUsual Error.node_not_found = inr (omega arith)
status_for_error-IsUsual Error.process_not_found = inr (omega arith)
status_for_error-IsUsual Error.duplicate_node = inr (omega arith)
status_for_error-IsUsual Error.duplicate_process = inr (omega arith)
status_for_error-IsUsual Error.invalid_state_transition = inr (omega arith)
status_for_error-IsUsual Error.insufficient_resources = inr (omega arith)
status_for_error-IsUsual Error.no_schedulable_node = inr (omega arith)
status_for_error-IsUsual Error.max_restarts_exceeded = inr (omega arith)
status_for_error-IsUsual Error.invalid_input = inr (omega arith)
status_for_error-IsUsual Error.simulation_not_running = inr (omega arith)
status_for_error-IsUsual Error.invariant_broken = inr (omega arith)

module _ {F : Type 0} where
  answer-IsUsual :
      {A : Type 0} (status : ℕ) (body : A → Body F) (r : Result A)
      → IsUsual status
      → IsUsual (answer status body r).status
  answer-IsUsual status body (ok a) h = h
  answer-IsUsual status body (err e) h = status_for_error-IsUsual e
  answer-IsUsual status body panic h = inr (omega arith)

  respond-IsUsual :
      {A : Type 0} (status : ℕ) (body : A → Body F) (method : Action (Controller F) A)
      (e : Engine F)
      → IsUsual status
      → IsUsual (respond status body method e).0.status
  respond-IsUsual status body method e h = answer-IsUsual status body (method e.controller).0 h

  engine_answer-IsUsual :
      (status : ℕ) (r : Result Unit × Engine F)
      → IsUsual status
      → IsUsual (engine_answer status r).0.status
  engine_answer-IsUsual status (ok _, e) h = h
  engine_answer-IsUsual status (err x, e) h = status_for_error-IsUsual x
  engine_answer-IsUsual status (panic, e) h = inr (omega arith)

module _ {F : Type 0} ⦃f : Float F⦄ (stop : Engine F → Engine F) where
  -- Every response has a status of success or of an error, and none is a redirection.
  pub handle-IsUsual : (r : Request) (e : Engine F) → IsUsual (handle stop r e).0.status
  unfolding handle
  handle-IsUsual Request.health e = inl (omega arith, omega arith)
  handle-IsUsual Request.list_nodes e = inl (omega arith, omega arith)
  handle-IsUsual Request.list_processes e = inl (omega arith, omega arith)
  handle-IsUsual Request.simulation_status e = inl (omega arith, omega arith)
  handle-IsUsual Request.get_scheduler e = inl (omega arith, omega arith)
  handle-IsUsual Request.list_events e = inl (omega arith, omega arith)
  handle-IsUsual Request.get_metrics e = inl (omega arith, omega arith)
  handle-IsUsual (Request.create_node none) e = inr (omega arith)
  handle-IsUsual (Request.create_node (some def)) e =
      respond-IsUsual 201 Body.node (Registry.register_node def) e (inl (omega arith, omega arith))
  handle-IsUsual (Request.get_node id) e =
      answer-IsUsual 200 Body.node (Views.node id e.controller) (inl (omega arith, omega arith))
  handle-IsUsual (Request.delete_node id) e =
      respond-IsUsual 204 (λ _. Body.empty) (Registry.remove_node id) e
        (inl (omega arith, omega arith))
  handle-IsUsual (Request.fail_node id) e =
      respond-IsUsual 200 Body.node (Failures.fail_node id) e (inl (omega arith, omega arith))
  handle-IsUsual (Request.recover_node id) e =
      respond-IsUsual 200 Body.node (Failures.recover_node id) e (inl (omega arith, omega arith))
  handle-IsUsual (Request.heartbeat id) e =
      respond-IsUsual 204 (λ _. Body.empty) (Failures.heartbeat id) e
        (inl (omega arith, omega arith))
  handle-IsUsual (Request.change_node_status id none) e = inr (omega arith)
  handle-IsUsual (Request.change_node_status id (some status)) e =
      respond-IsUsual 200 Body.node (Failures.change_node_status id status) e
        (inl (omega arith, omega arith))
  handle-IsUsual (Request.create_process none) e = inr (omega arith)
  handle-IsUsual (Request.create_process (some def)) e =
      respond-IsUsual 201 Body.process (Processes.submit_process def) e
        (inl (omega arith, omega arith))
  handle-IsUsual (Request.get_process id) e =
      answer-IsUsual 200 Body.process (Views.process id e.controller)
        (inl (omega arith, omega arith))
  handle-IsUsual (Request.pause_process id) e =
      respond-IsUsual 200 Body.process (Processes.pause_process id) e
        (inl (omega arith, omega arith))
  handle-IsUsual (Request.resume_process id) e =
      respond-IsUsual 200 Body.process (Processes.resume_process id) e
        (inl (omega arith, omega arith))
  handle-IsUsual (Request.wait_process id) e =
      respond-IsUsual 200 Body.process (Processes.wait_process id) e
        (inl (omega arith, omega arith))
  handle-IsUsual (Request.wake_process id) e =
      respond-IsUsual 200 Body.process (Processes.wake_process id) e
        (inl (omega arith, omega arith))
  handle-IsUsual (Request.kill_process id) e =
      respond-IsUsual 200 Body.process (Processes.kill_process id) e
        (inl (omega arith, omega arith))
  handle-IsUsual (Request.fail_process id) e =
      respond-IsUsual 200 Body.process (Failures.fail_process id "process failed by API request") e
        (inl (omega arith, omega arith))
  handle-IsUsual Request.start_simulation e =
      engine_answer-IsUsual 200 (Engine.start true e) (inl (omega arith, omega arith))
  handle-IsUsual Request.pause_simulation e = inl (omega arith, omega arith)
  handle-IsUsual Request.reset_simulation e = inl (omega arith, omega arith)
  handle-IsUsual (Request.step_simulation none) e = inr (omega arith)
  handle-IsUsual (Request.step_simulation (some ticks)) e =
      engine_answer-IsUsual 200 (Engine.run_steps stop (or_one ticks) e)
        (inl (omega arith, omega arith))
  handle-IsUsual (Request.load_scenario none) e = inr (omega arith)
  handle-IsUsual (Request.load_scenario (some s)) e =
      engine_answer-IsUsual 201 (Engine.load_scenario stop s e) (inl (omega arith, omega arith))
  handle-IsUsual (Request.set_scheduler none) e = inr (omega arith)
  handle-IsUsual (Request.set_scheduler (some text)) e =
      answer-IsUsual 200
        (λ _. Body.scheduler (Views.scheduler_name (Registry.set_scheduler text e.controller).1))
        (Registry.set_scheduler text e.controller).0 (inl (omega arith, omega arith))
  handle-IsUsual (Request.export_report format) e =
      elim (Bool-cases (format == "" || format == "json" || format == "csv")) [
        | inl known ↦ rw known (inl (omega arith, omega arith))
        | inr unknown ↦ rw unknown (inr (omega arith))
      ]
