-- ===== src/Engine.antt =====
-- internal/engine/engine.go. The goroutine of the loop is a step, `loop_tick`, that may be taken
-- while `realtime` holds; the two mutexes make the methods atomic with respect to each other.
pub mod Loading
pub mod Realtime
pub mod Scenarios
pub mod Files
use cs320_cluster_process_ma.Base.{
  ℕ, zero, suc, ℤ, pos, pos_part, ◌≡◌, Bool, true, false, Option, none, some, leb_ℤ, if◌then◌else◌,
  Result, ok, err, panic, Float, invalid_input, invalid_state_transition, not,
}
use cs320_cluster_process_ma.Domain.Cluster.{Cluster}
use cs320_cluster_process_ma.Domain.Scenario.{Scenario}
use cs320_cluster_process_ma.Controller.State.{Controller}
use cs320_cluster_process_ma.Controller.Registry
use cs320_cluster_process_ma.Controller.Registry.{is_completed, pause_simulation, finish}
use cs320_cluster_process_ma.Controller.Tick.{step, steps}
use cs320_cluster_process_ma.Controller.Scenario
use cs320_cluster_process_ma.Controller.Scenario.{validate_scenario}

-- `realtime`: the field cancel is not nil. The duration is in nanoseconds.
pub record Engine (F : Type 0) : Type 0 where
  pub controller : Controller F
  pub tick_duration : ℤ
  pub realtime : Bool

module _ {F : Type 0} where
  -- New, whose controller may be nil.
  unfoldable pub new_engine : Option (Controller F) → ℤ → Result (Engine F)
  new_engine none tick_duration = err invalid_input
  new_engine (some c) tick_duration = ok (record {
    controller = c;
    tick_duration = if leb_ℤ tick_duration (pos 0) then pos 500_000_000 else tick_duration;
    realtime = false;
  })

  -- Start, with a context that may be nil.
  unfoldable pub start : (has_context : Bool) → Engine F → Result Unit × Engine F
  start has_context e =
      if not has_context
      then (err invalid_input, e)
      else if e.realtime
      then (err invalid_state_transition, e)
      else (ok tt, record e { controller = Registry.start e.controller; realtime = true })

  -- The loop ends: the deferred function of the goroutine.
  abbrev pub halted : Engine F → Engine F
  halted e = record e { realtime = false }

  module _ ⦃f : Float F⦄ where
    -- The loop after Step: an error and a completed simulation end it. A panic ends the program.
    abbrev pub after_tick : Engine F → Result Unit × Controller F → Engine F
    after_tick e (ok _, c) = record e {
      controller = c;
      realtime = not (is_completed c.simulation_status);
    }
    after_tick e (err _, c) = record e { controller = c; realtime = false }
    after_tick e (panic, c) = record e { controller = c; realtime = false }

    -- The case `<-ticker.C` of the loop.
    unfoldable pub loop_tick : Engine F → Engine F
    loop_tick e = after_tick e (step e.controller)

    -- What stopRealtime does: it cancels, and waits until the loop has ended. The loop may take
    -- further ticks before it sees the cancellation.
    pub data Stops : Engine F → Engine F → Type 0 where
      idle : (e : Engine F) → e.realtime ≡ false → Stops e e
      cancelled : (e : Engine F) → e.realtime ≡ true → Stops e (halted e)
      continued : (e d : Engine F) → e.realtime ≡ true → Stops (loop_tick e) d → Stops e d

    -- The loop of RunScenario.
    unfoldable pub run_ticks : ℕ → Controller F → Result Unit × Controller F
    run_ticks zero c = (ok tt, finish "maximum tick count reached" c)
    run_ticks (suc n) c =
        let (result, after) = step c in
        let rest = run_ticks n after in
        elim result [
          | ok _ ↦ if is_completed after.simulation_status then (ok tt, after) else rest
          | err e ↦ (err e, after)
          | panic ↦ (panic, after)
        ]

    -- The methods on an engine whose loop `stop` has stopped.
    module _ (stop : Engine F → Engine F) where
      unfoldable pub pause : Engine F → Engine F
      pause e = let d = stop e in record d { controller = pause_simulation d.controller }

      unfoldable pub close : Engine F → Engine F
      close e = stop e

      unfoldable pub reset : Engine F → Engine F
      reset e = let d = stop e in record d { controller = Registry.reset d.controller }

      -- The engine afterwards, from the controller's answer.
      abbrev pub with_controller : Engine F → Result Unit × Controller F → Result Unit × Engine F
      with_controller e (result, c) = (result, record e { controller = c })

      unfoldable pub run_steps : ℤ → Engine F → Result Unit × Engine F
      run_steps ticks e = let d = stop e in with_controller d (steps ticks d.controller)

      -- LoadScenario and RunScenario after ValidateScenario.
      abbrev pub if_valid :
          Result Unit → Engine F → (Engine F → Result Unit × Engine F) → Result Unit × Engine F
      if_valid (ok _) e rest = rest (stop e)
      if_valid (err error) e rest = (err error, e)
      if_valid panic e rest = (panic, e)

      unfoldable pub load_scenario : Scenario → Engine F → Result Unit × Engine F
      load_scenario s e =
          if_valid (validate_scenario s e.controller) e
            λ d. with_controller d (Scenario.load_scenario s d.controller)

      -- RunScenario after LoadScenario.
      abbrev pub run_loaded : ℕ → Result Unit × Controller F → Result Unit × Controller F
      run_loaded ticks (ok _, c) = run_ticks ticks c
      run_loaded ticks (err e, c) = (err e, c)
      run_loaded ticks (panic, c) = (panic, c)

      -- RunScenario; the snapshot that it returns is the state of the controller afterwards.
      unfoldable pub run_scenario : Scenario → Engine F → Result Unit × Engine F
      run_scenario s e = if_valid (validate_scenario s e.controller) e λ d.
          with_controller d
            (run_loaded (pos_part s.max_ticks) (Scenario.load_scenario s d.controller))
