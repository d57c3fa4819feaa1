-- ===== src/Commands/Simulator.antt =====
-- cmd/simulator/main.go. The files and the encoders are parameters; a write that fails is left out.
pub mod Reporting
use cs320_cluster_process_ma.Base.{
  ℤ, pos, eqb_ℤ, String, List, [], ◌∷◌, ◌==◌, string_eq, Bool, true, false, not, ◌||◌, Option, some,
  if◌then◌else◌, Float, Result, ok, err, panic, Error,
}
use cs320_cluster_process_ma.Base.Flags.{text, int, Flags, text_named, int_named, parse_flags}
use cs320_cluster_process_ma.Domain.Scenario.{Scenario}
use cs320_cluster_process_ma.Controller.State
use cs320_cluster_process_ma.Controller.State.{Controller, new_controller}
use cs320_cluster_process_ma.Controller.Views.{snapshot}
use cs320_cluster_process_ma.Engine.{Engine, new_engine, run_scenario}
use cs320_cluster_process_ma.Engine.Files.{
  Source, FileError, Loaded, loaded, refused, load_scenario_file,
}
use cs320_cluster_process_ma.Metrics.{Report, build}
use cs320_cluster_process_ma.Metrics.Export.{Encoders, write_csv, write_json}
use cs320_cluster_process_ma.Commands.Answers.{
  Answer, done, failed, crashed, or_fail, or_error, fail_if, ◌>>=◌, ◌>>◌,
}
use cs320_cluster_process_ma.Commands.Server.{milliseconds}

pub data Failure : Type 0 where
  flags create format : Failure
  scenario : FileError → Failure
  internal : Error → Failure

-- The variables that the flags fill, with their defaults.
abbrev pub declared : Flags
declared =
    ("scenario", text "scenarios/balanced.json")
    ∷ ("format", text "json")
    ∷ ("output", text "")
    ∷ ("scheduler", text "")
    ∷ ("seed", int (pos 0))
    ∷ []

-- The two overrides.
unfoldable pub overridden : Flags → Scenario → Scenario
overridden set s =
    let scheduler = text_named "scheduler" set in
    let seed = int_named "seed" set in
    record s {
      scheduler = if scheduler == "" then s.scheduler else scheduler;
      seed = if eqb_ℤ seed (pos 0) then s.seed else seed;
    }

abbrev pub or_scenario_error : Loaded → Answer Failure Scenario
or_scenario_error (loaded s) = done s
or_scenario_error (refused e) = failed (scenario e)
or_scenario_error Loaded.crashed = crashed

-- cluster.New fills in what this leaves 0.
abbrev pub config_of : Scenario → State.Config
config_of s = record {
  scheduler = s.scheduler;
  seed = s.seed;
  heartbeat_timeout_ticks = pos 0;
  max_nodes = pos 0;
  max_processes = pos 0;
}

module _ {F : Type 0} ⦃f : Float F⦄ (stop : Engine F → Engine F) where
  -- The engine after RunScenario on a controller of its own.
  unfoldable pub simulate : Scenario → Answer Failure (Engine F)
  unfolding milliseconds
  simulate s = do
    controller ← or_error (new_controller F (config_of s)) internal
    engine ← or_error (new_engine (some controller) (milliseconds s.tick_duration_ms)) internal
    let (result, after) = run_scenario stop s engine
    ran ← or_error result internal
    done after

  -- run up to RunScenario: the flags, and the engine after it.
  unfoldable pub simulated :
      {J : Type 0}
      → Source J
      → (String → Option ℤ)
      → List String
      → Answer Failure (Flags × Engine F)
  unfolding simulate overridden
  simulated source parse_int arguments = do
    (set, rest) ← or_fail (parse_flags parse_int arguments declared) flags
    s ← or_scenario_error (load_scenario_file source (text_named "scenario" set))
    e ← simulate (overridden set s)
    done (set, e)

  -- run up to metrics.Build, whose argument is the snapshot that RunScenario returns.
  unfoldable pub reported :
      {J : Type 0}
      → Source J
      → (String → Option ℤ)
      → List String
      → Answer Failure (Flags × Report F)
  unfolding simulated
  reported source parse_int arguments = do
    (set, e) ← simulated source parse_int arguments
    done (set, build (snapshot e.controller))

module _ {F O : Type 0} ⦃f : Float F⦄ (encoders : Encoders F O) (creates : String → Bool) where
  -- The switch on the format.
  abbrev encode : String → Report F → Answer Failure O
  encode name report =
      if name == "json"
      then done (write_json encoders report)
      else if name == "csv"
      then done (write_csv encoders report)
      else failed format

  -- run behind metrics.Build: the output is created before the format is looked at.
  unfoldable pub write_report : Flags → Report F → Answer Failure O
  unfolding write_json write_csv
  write_report set report = do
    let path = text_named "output" set
    fail_if (not (path == "" || creates path)) create
    encode (text_named "format" set) report

  -- run; the engine that it closes is not used any more.
  unfoldable pub run :
      {J : Type 0}
      → (Engine F → Engine F)
      → Source J
      → (String → Option ℤ)
      → List String
      → Answer Failure O
  unfolding reported write_report
  run stop source parse_int arguments = do
    (set, report) ← reported stop source parse_int arguments
    write_report set report
