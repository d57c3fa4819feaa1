-- ===== src/Commands/Simulator/Reporting.antt =====
-- cmd/simulator/main.go: what the program reports.
use cs320_cluster_process_ma.Base.{
  ℤ, String, true, List, arith, ◌≡◌, refl, Option, none, some, ok, err, panic, Float, Result,
  Yields, Result-cases, inl, inr,
}
use cs320_cluster_process_ma.Base.Flags.{Flags, parse_flags, text_named}
use cs320_cluster_process_ma.Domain.Scenario.{Scenario}
use cs320_cluster_process_ma.Domain.Scenario.Validation.{validate}
use cs320_cluster_process_ma.Scheduler.{new_scheduler_cases}
use cs320_cluster_process_ma.Controller.State
use cs320_cluster_process_ma.Controller.State.{Controller, Config, new_controller}
use cs320_cluster_process_ma.Controller.Views.{snapshot}
use cs320_cluster_process_ma.Controller.Registry.{is_completed}
use cs320_cluster_process_ma.Controller.Scenario.Checks.{Any, validate-Any}
use cs320_cluster_process_ma.Controller.Scenario.Loading.{AreInts}
use cs320_cluster_process_ma.Controller.Invariant.Facts.{IsConsistent}
use cs320_cluster_process_ma.Controller.Consistency.Registry.{new_controller-IsConsistent}
use cs320_cluster_process_ma.Engine.{Engine, Stops, new_engine, run_scenario}
use cs320_cluster_process_ma.Engine.Files.{
  Source, load_scenario_file, decode_scenario, decoded, if_valid, opened, max_scenario,
}
use cs320_cluster_process_ma.Engine.Scenarios.{EndsWell, run_scenario-EndsWell}
use cs320_cluster_process_ma.Metrics.{Report, build}
use cs320_cluster_process_ma.Commands.Answers.{
  Holds, Holds-done, bind-Holds, or_fail-Holds, or_error-Holds, or_error, or_fail, done, ◌>>=◌,
}
use cs320_cluster_process_ma.Commands.Server.{milliseconds}
use cs320_cluster_process_ma.Commands.Simulator.{
  Failure, declared, overridden, or_scenario_error, config_of, simulate, simulated, reported,
}

-- The decoder fills the capacities of the nodes with machine integers.
abbrev pub DecodesInts : {J : Type 0} → Source J → Type 0
DecodesInts {J} source =
    (body rest : J) (s : Scenario) → source.decode body ≡ some (s, rest) → AreInts s.nodes

if_valid-Holds :
    (r : Result Unit) (s : Scenario)
    → Yields Any r
    → AreInts s.nodes
    → Holds (λ t. AreInts t.nodes) (or_scenario_error (if_valid r s))
if_valid-Holds (ok _) s calm ints = ints
if_valid-Holds (err e) s calm ints = tt
if_valid-Holds panic s calm ints = calm

decoded-Holds :
    {J : Type 0} (o : Option (Scenario × J))
    → ((s : Scenario) (rest : J) → o ≡ some (s, rest) → AreInts s.nodes)
    → Holds (λ t. AreInts t.nodes) (or_scenario_error (decoded o))
decoded-Holds none h = tt
decoded-Holds (some (s, rest)) h = if_valid-Holds (validate s) s (validate-Any s) (h s rest refl)

opened-Holds :
    {J : Type 0} (source : Source J) (o : Option J)
    → DecodesInts source
    → Holds (λ t. AreInts t.nodes) (or_scenario_error (opened source o))
unfolding decode_scenario
opened-Holds source none h = tt
opened-Holds source (some reader) h =
    let body = source.limit max_scenario reader in
    decoded-Holds (source.decode body) λ s rest. h body rest s

-- A file is loaded with machine integers, and Validate does not panic.
load_scenario_file-Holds :
    {J : Type 0} (source : Source J) (path : String)
    → DecodesInts source
    → Holds (λ t. AreInts t.nodes) (or_scenario_error (load_scenario_file source path))
unfolding load_scenario_file
load_scenario_file-Holds source path h = opened-Holds source (source.open_file path) h

new_controller-ne-panic :
    (F : Type 0) ⦃f : Float F⦄ (config : Config) → new_controller F config ≡ panic → ⊥
unfolding new_controller
new_controller-ne-panic F config h =
    elim (new_scheduler_cases (State.with_defaults config).scheduler) [
      | inl (s, e) ↦ ground (arith, e)
      | inr e ↦ ground (arith, e)
    ]

new_controller-Yields :
    (F : Type 0) ⦃f : Float F⦄ (config : Config)
    → Yields (λ c. IsConsistent c) (new_controller F config)
new_controller-Yields F config = elim (Result-cases (new_controller F config)) [
  | inl (c, e) ↦ rw e (new_controller-IsConsistent F config c e)
  | inr (inl (x, e)) ↦ rw e tt
  | inr (inr e) ↦ rw e (new_controller-ne-panic F config e)
]

module _ {F : Type 0} ⦃f : Float F⦄ where
  new_engine-Yields :
      (c : Controller F) (duration : ℤ)
      → IsConsistent c
      → Yields (λ e. IsConsistent e.controller) (new_engine (some c) duration)
  unfolding new_engine
  new_engine-Yields c duration h = h

  -- The engine behind RunScenario.
  abbrev IsOver : Engine F → Type 0
  IsOver e = IsConsistent e.controller × (is_completed e.controller.simulation_status ≡ true)

  -- What the program reports is built from the engine that this very run has left, and the
  -- simulation of that engine has ended.
  pub record IsFinalReport (stop : Engine F → Engine F) {J : Type 0} (source : Source J)
      (parse_int : String → Option ℤ) (arguments : List String) (r : Flags × Report F)
      : Type 0 where
    pub engine : Engine F
    pub ran : simulated stop source parse_int arguments ≡ done (r.0, engine)
    pub made : r.1 ≡ build engine.controller.state
    pub consistent : IsConsistent engine.controller
    pub over : is_completed engine.controller.simulation_status ≡ true

  ran-Holds :
      (r : Result Unit) (e : Engine F)
      → EndsWell r e.controller
      → Holds IsOver (or_error r Failure.internal >>= λ _. done e)
  ran-Holds (ok _) e well = (well.consistent, well.completed refl)
  ran-Holds (err x) e well = tt
  ran-Holds panic e well = well.calm

  module _ (stop : Engine F → Engine F) (stops : (e : Engine F) → Stops e (stop e)) where
    simulate-Holds : (s : Scenario) → AreInts s.nodes → Holds IsOver (simulate stop s)
    unfolding simulate
    simulate-Holds s ints =
        bind-Holds (λ c. IsConsistent c) IsOver
          (or_error (new_controller F (config_of s)) Failure.internal) _
          (or_error-Holds (λ c. IsConsistent c) (new_controller F (config_of s)) Failure.internal
            (new_controller-Yields F (config_of s)))
          λ c sound.
            bind-Holds (λ e. IsConsistent e.controller) IsOver
              (or_error (new_engine (some c) (milliseconds s.tick_duration_ms)) Failure.internal) _
              (or_error-Holds (λ e. IsConsistent e.controller)
                (new_engine (some c) (milliseconds s.tick_duration_ms)) Failure.internal
                (new_engine-Yields c (milliseconds s.tick_duration_ms) sound))
              λ e inv.
                ran-Holds (run_scenario stop s e).0 (run_scenario stop s e).1
                  (run_scenario-EndsWell stop stops s ints e inv)

    simulated-Holds :
        {J : Type 0} (source : Source J)
        → DecodesInts source
        → (parse_int : String → Option ℤ) (arguments : List String)
        → Holds (λ r. IsOver r.1) (simulated stop source parse_int arguments)
    unfolding simulated overridden
    simulated-Holds source ints parse_int arguments =
        bind-Holds Any (λ r. IsOver r.1)
          (or_fail (parse_flags parse_int arguments declared) Failure.flags) _
          (or_fail-Holds Any (parse_flags parse_int arguments declared) Failure.flags λ _ _. tt)
          λ (set, rest) _.
            bind-Holds (λ t. AreInts t.nodes) (λ r. IsOver r.1)
              (or_scenario_error (load_scenario_file source (text_named "scenario" set))) _
              (load_scenario_file-Holds source (text_named "scenario" set) ints)
              λ s good.
                bind-Holds IsOver (λ r. IsOver r.1) (simulate stop (overridden set s)) _
                  (simulate-Holds (overridden set s) good) λ e over. over

    -- The simulator never panics, and where it comes to a report, that is the report which Build
    -- makes of the engine that this run of the simulator leaves: its controller is consistent, and
    -- its simulation is completed. The decoder fills the capacities of the nodes with machine
    -- integers, and the loop that RunScenario stops may take any number of further ticks.
    pub reported-IsFinalReport :
        {J : Type 0} (source : Source J)
        → DecodesInts source
        → (parse_int : String → Option ℤ) (arguments : List String)
        → Holds
            (IsFinalReport stop source parse_int arguments)
            (reported stop source parse_int arguments)
    unfolding reported snapshot
    reported-IsFinalReport source ints parse_int arguments =
        bind-Holds (λ r. (simulated stop source parse_int arguments ≡ done r) × IsOver r.1)
          (IsFinalReport stop source parse_int arguments)
          (simulated stop source parse_int arguments) _
          (Holds-done (λ r. IsOver r.1) (simulated stop source parse_int arguments)
            (simulated-Holds source ints parse_int arguments))
          λ (set, e) (ran, over). record {
            engine = e;
            ran = ran;
            made = refl;
            consistent = over.0;
            over = over.1;
          }
