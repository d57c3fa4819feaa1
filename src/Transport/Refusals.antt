-- ===== src/Transport/Refusals.antt =====
-- internal/transport/http: what a request that is refused leaves.
use cs320_cluster_process_ma.Base.{
  ℕ, ◌<◌, ◌≤◌, true, ◌≡◌, refl, ap, inl, inr, arith, none, some, Bool-cases, ◌∙◌, Result-cases,
  Result, ok, err, panic, Float, Action,
}
use cs320_cluster_process_ma.Controller.State.{Controller}
use cs320_cluster_process_ma.Controller.Registry
use cs320_cluster_process_ma.Controller.Processes
use cs320_cluster_process_ma.Controller.Failures
use cs320_cluster_process_ma.Controller.Views
use cs320_cluster_process_ma.Controller.Invariant.Facts.{IsConsistent}
use cs320_cluster_process_ma.Controller.Outcome.Defs.{IsAtomic}
use cs320_cluster_process_ma.Controller.Outcome.Commands.{
  kill_process-IsAtomic, pause_process-IsAtomic, wait_process-IsAtomic, resume_process-IsAtomic,
  wake_process-IsAtomic, submit_process-IsAtomic, fail_process-IsAtomic,
}
use cs320_cluster_process_ma.Controller.Outcome.Nodes.{
  register_node-IsAtomic, remove_node-IsAtomic, set_scheduler-IsAtomic, fail_node-IsAtomic,
  change_node_status-IsAtomic, recover_node-IsAtomic, heartbeat-IsAtomic,
}
use cs320_cluster_process_ma.Engine
use cs320_cluster_process_ma.Domain.Scenario.{Scenario}
use cs320_cluster_process_ma.Controller.Scenario.{validate_scenario}
use cs320_cluster_process_ma.Engine.Loading.{load_scenario-validate_scenario}
use cs320_cluster_process_ma.Engine.{Engine, Stops}
use cs320_cluster_process_ma.Transport.Answers.{engine_answer, Body, answer, respond}
use cs320_cluster_process_ma.Transport.{Request, handle}

-- The requests that do not ask for ticks.
abbrev pub IsDirect : Request → Type 0
IsDirect (Request.step_simulation _) = ⊥
IsDirect _ = Unit {0}

module _ {F : Type 0} where
  -- An answer of a method that does its work or leaves the controller alone.
  answer-refused :
      {A : Type 0} (status : ℕ) (body : A → Body F) (e : Engine F) (r : Result A) (c : Controller F)
      → status < 400
      → IsAtomic e.controller (r, c)
      → 400 ≤ (answer status body r).status
      → record e { controller = c } ≡ e
  answer-refused status body e (ok _) c good h refused = let no : ⊥ = omega arith in elim no [ ]
  answer-refused status body e (err _) c good h refused = ap (λ d. record e { controller = d }) h
  answer-refused status body e panic c good h refused = elim h [ ]

  respond-refused :
      {A : Type 0} (status : ℕ) (body : A → Body F) (m : Action (Controller F) A) (e : Engine F)
      → status < 400
      → IsAtomic e.controller (m e.controller)
      → 400 ≤ (respond status body m e).0.status
      → (respond status body m e).1 ≡ e
  respond-refused status body m e good h =
      let (r, c) = m e.controller in answer-refused status body e r c good h

  start-refused :
      (e : Engine F)
      → 400
        ≤ (answer 200
            (λ _. Body.cluster (Views.snapshot (Engine.start true e).1.controller))
            (Engine.start true e).0).status
      → (Engine.start true e).1 ≡ e
  unfolding Engine.start
  start-refused e h = elim (Bool-cases e.realtime) [
    | inl on ↦ ground arith
    | inr off ↦ let no : ⊥ = ground arith in elim no [ ]
  ]

  load_answer-refused :
      (e : Engine F) (r : Result Unit × Engine F)
      → r.0 ≡ ok tt
      → 400 ≤ (engine_answer 201 r).0.status
      → r.1 ≡ e
  load_answer-refused e (ok _, d) good h = let no : ⊥ = omega arith in elim no [ ]
  load_answer-refused e (err _, d) good h = cc
  load_answer-refused e (panic, d) good h = cc

  module _ ⦃f : Float F⦄ (stop : Engine F → Engine F)
      (stops : (e : Engine F) → Stops e (stop e)) where
    load_scenario-refused :
        (s : Scenario) (e : Engine F)
        → 400 ≤ (engine_answer 201 (Engine.load_scenario stop s e)).0.status
        → (Engine.load_scenario stop s e).1 ≡ e
    load_scenario-refused s e h = elim (Result-cases (validate_scenario s e.controller)) [
      | inl (_, good) ↦
          load_answer-refused e (Engine.load_scenario stop s e)
            (load_scenario-validate_scenario stop stops s e ∙ good) h
      | inr (inl (_, bad)) ↦ unfold Engine.load_scenario in rw bad refl
      | inr (inr crash) ↦ unfold Engine.load_scenario in rw crash refl
    ]

    -- A request that does not ask for ticks and is answered with a status of 400 or above leaves
    -- the engine and its consistent controller as they were, the real-time loop included. A request
    -- that stops the loop may find it after any number of further ticks.
    pub handle-refused :
        (r : Request) (e : Engine F)
        → IsDirect r
        → IsConsistent e.controller
        → 400 ≤ (handle stop r e).0.status
        → (handle stop r e).1 ≡ e
    unfolding handle Engine.pause Engine.reset
    handle-refused Request.health e direct inv h = refl
    handle-refused Request.list_nodes e direct inv h = refl
    handle-refused (Request.create_node none) e direct inv h = refl
    handle-refused (Request.create_node (some def)) e direct inv h =
        respond-refused 201 Body.node (Registry.register_node def) e (omega arith)
          (register_node-IsAtomic e.controller inv def) h
    handle-refused (Request.get_node id) e direct inv h = refl
    handle-refused (Request.delete_node id) e direct inv h =
        respond-refused 204 (λ _. Body.empty) (Registry.remove_node id) e (omega arith)
          (remove_node-IsAtomic e.controller inv id) h
    handle-refused (Request.fail_node id) e direct inv h =
        respond-refused 200 Body.node (Failures.fail_node id) e (omega arith)
          (fail_node-IsAtomic e.controller inv id) h
    handle-refused (Request.recover_node id) e direct inv h =
        respond-refused 200 Body.node (Failures.recover_node id) e (omega arith)
          (recover_node-IsAtomic e.controller inv id) h
    handle-refused (Request.heartbeat id) e direct inv h =
        respond-refused 204 (λ _. Body.empty) (Failures.heartbeat id) e (omega arith)
          (heartbeat-IsAtomic e.controller inv id) h
    handle-refused (Request.change_node_status id none) e direct inv h = refl
    handle-refused (Request.change_node_status id (some status)) e direct inv h =
        respond-refused 200 Body.node (Failures.change_node_status id status) e (omega arith)
          (change_node_status-IsAtomic e.controller inv id status) h
    handle-refused Request.list_processes e direct inv h = refl
    handle-refused (Request.create_process none) e direct inv h = refl
    handle-refused (Request.create_process (some def)) e direct inv h =
        respond-refused 201 Body.process (Processes.submit_process def) e (omega arith)
          (submit_process-IsAtomic e.controller inv def) h
    handle-refused (Request.get_process id) e direct inv h = refl
    handle-refused (Request.pause_process id) e direct inv h =
        respond-refused 200 Body.process (Processes.pause_process id) e (omega arith)
          (pause_process-IsAtomic e.controller inv id) h
    handle-refused (Request.resume_process id) e direct inv h =
        respond-refused 200 Body.process (Processes.resume_process id) e (omega arith)
          (resume_process-IsAtomic e.controller inv id) h
    handle-refused (Request.wait_process id) e direct inv h =
        respond-refused 200 Body.process (Processes.wait_process id) e (omega arith)
          (wait_process-IsAtomic e.controller inv id) h
    handle-refused (Request.wake_process id) e direct inv h =
        respond-refused 200 Body.process (Processes.wake_process id) e (omega arith)
          (wake_process-IsAtomic e.controller inv id) h
    handle-refused (Request.kill_process id) e direct inv h =
        respond-refused 200 Body.process (Processes.kill_process id) e (omega arith)
          (kill_process-IsAtomic e.controller inv id) h
    handle-refused (Request.fail_process id) e direct inv h =
        respond-refused 200 Body.process (Failures.fail_process id "process failed by API request")
          e (omega arith)
          (fail_process-IsAtomic e.controller inv id "process failed by API request") h
    handle-refused Request.start_simulation e direct inv h = start-refused e h
    handle-refused Request.pause_simulation e direct inv h = let no : ⊥ = omega arith in elim no [ ]
    handle-refused Request.reset_simulation e direct inv h = let no : ⊥ = omega arith in elim no [ ]
    handle-refused Request.simulation_status e direct inv h = refl
    handle-refused (Request.step_simulation _) e direct inv h = elim direct [ ]
    handle-refused (Request.load_scenario none) e direct inv h = refl
    handle-refused (Request.load_scenario (some s)) e direct inv h = load_scenario-refused s e h
    handle-refused Request.get_scheduler e direct inv h = refl
    handle-refused (Request.set_scheduler none) e direct inv h = refl
    handle-refused (Request.set_scheduler (some text)) e direct inv h =
        respond-refused 200
          (λ _. Body.scheduler (Views.scheduler_name (Registry.set_scheduler text e.controller).1))
          (Registry.set_scheduler text) e (omega arith)
          (set_scheduler-IsAtomic e.controller inv text) h
    handle-refused Request.list_events e direct inv h = refl
    handle-refused Request.get_metrics e direct inv h = refl
    handle-refused (Request.export_report format) e direct inv h = refl
