-- ===== src/Transport/Simulation.antt =====
-- internal/transport/http/simulation.go. The snapshot of an answer is taken at the end of the
-- engine's method.
use cs320_cluster_process_ma.Base.{ℤ, pos, eqb_ℤ, String, Option, if◌then◌else◌, ok, Float, true}
use cs320_cluster_process_ma.Domain.Scenario.{Scenario}
use cs320_cluster_process_ma.Controller.Registry
use cs320_cluster_process_ma.Controller.Views
use cs320_cluster_process_ma.Engine
use cs320_cluster_process_ma.Engine.{Engine}
use cs320_cluster_process_ma.Transport.Answers.{
  Body, Response, respond, decoded, view, write, engine_answer,
}

-- `if request.Ticks == 0 { request.Ticks = 1 }`
abbrev pub or_one : ℤ → ℤ
or_one ticks = if eqb_ℤ ticks (pos 0) then pos 1 else ticks

module _ {F : Type 0} where
  abbrev pub start_simulation : Engine F → Response F × Engine F
  start_simulation e = engine_answer 200 (Engine.start true e)

  abbrev pub simulation_status : Engine F → Response F × Engine F
  simulation_status = view λ c. write 200 (Body.cluster (Views.snapshot c))

  abbrev pub get_scheduler : Engine F → Response F × Engine F
  get_scheduler = view λ c. write 200 (Body.scheduler (Views.scheduler_name c))

  abbrev pub set_scheduler : Option String → Engine F → Response F × Engine F
  set_scheduler body = decoded body λ text e.
      let (result, after) = Registry.set_scheduler text e.controller in
      respond 200 (λ _. Body.scheduler (Views.scheduler_name after)) (λ c. (result, after)) e

  module _ ⦃f : Float F⦄ (stop : Engine F → Engine F) where
    abbrev pub pause_simulation : Engine F → Response F × Engine F
    pause_simulation e = engine_answer 200 (ok tt, Engine.pause stop e)

    abbrev pub step_simulation : Option ℤ → Engine F → Response F × Engine F
    step_simulation body =
        decoded body λ ticks e. engine_answer 200 (Engine.run_steps stop (or_one ticks) e)

    abbrev pub reset_simulation : Engine F → Response F × Engine F
    reset_simulation e = engine_answer 200 (ok tt, Engine.reset stop e)

    abbrev pub load_scenario : Option Scenario → Engine F → Response F × Engine F
    load_scenario body =
        decoded body λ scenario e. engine_answer 201 (Engine.load_scenario stop scenario e)
