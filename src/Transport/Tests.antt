-- ===== src/Transport/Tests.antt =====
-- Runs of scenarios, of the engine and of the transport, and the theorems applied to them.
use mathlib.Core.List.{Permᴰ}
use cs320_cluster_process_ma.Base.{
  ℕ, Float, sub_int, int64, ◌-ℤ◌, String, ◌+◌, ◌-◌, ◌*◌, ◌/◌, pos_part, ltb, nat_beq,
}
use cs320_cluster_process_ma.Domain.Node.{snapshot, can_fit}
use cs320_cluster_process_ma.Scheduler.LeastLoaded
use cs320_cluster_process_ma.Scheduler.LeastLoaded.{load_score}
use cs320_cluster_process_ma.Scheduler.Selection.{IsCandidate}
use cs320_cluster_process_ma.Scheduler.Service.{AreScored, least_loaded_serves}
use cs320_cluster_process_ma.Scheduler.Priority
use cs320_cluster_process_ma.Scheduler.Order.{IsRanked, order_ready-IsRanked}
use cs320_cluster_process_ma.Controller.Tests.{idle_node}
use cs320_cluster_process_ma.Engine
use cs320_cluster_process_ma.Engine.Loading.{load_scenario-validate_scenario}
use cs320_cluster_process_ma.Base.{
  pos, [], ◌∷◌, true, false, some, ok, err, refl, ◌≡◌, ◌≤◌, ◌⊎◌, lookup, string_eq, insert, has_key,
  inl, inr, contains, trim_space, arith, to_lower, Bool-cases, on_ok, if◌then◌else◌, invalid_input,
  leb_ℤ, Error, subst,
}
use cs320_cluster_process_ma.Domain.Types.{ProcessState}
use cs320_cluster_process_ma.Domain.Process.{
  ProcessDefinition, Process, new_process, transition, draft,
}
use cs320_cluster_process_ma.Domain.Process
use cs320_cluster_process_ma.Domain.Node
use cs320_cluster_process_ma.Domain.Node.{NodeDefinition, new_node}
use cs320_cluster_process_ma.Domain.Cluster.{Cluster, new_cluster}
use cs320_cluster_process_ma.Domain.Scenario.{Scenario, FailureType, FailureDefinition}
use cs320_cluster_process_ma.Domain.Scenario.Validation.{
  validate, check_nodes, check_processes, check_failures, check_type, failure_key,
}
use cs320_cluster_process_ma.Scheduler.{Scheduler, new_scheduler, chosen, name}
use cs320_cluster_process_ma.Controller.State.{Controller, default_config, emitted, set_state}
use cs320_cluster_process_ma.Controller.Registry.{is_completed, register_node}
use cs320_cluster_process_ma.Controller.Processes.{kill_process}
use cs320_cluster_process_ma.Controller.Audit.{validate_invariants}
use cs320_cluster_process_ma.Controller.Tick.{step, steps_from, begin_tick}
use cs320_cluster_process_ma.Controller.Tick.Schedule.{apply_scheduled}
use cs320_cluster_process_ma.Controller.Scenario.{
  Prepared, prepare_nodes, prepare_processes, prepare_failures, prepare_state, prepare_scenario,
  validate_scenario, load_scenario, admit,
}
use cs320_cluster_process_ma.Controller.Scenario.Loading.{
  load_scenario-IsAtomic, load_scenario-IsConsistent,
}
use cs320_cluster_process_ma.Controller.Scenario.Agreement.{
  exceeds_limits, validate_scenario-validate,
}
use cs320_cluster_process_ma.Controller.Scenario.Plan.{IsPlanOf, prepare_scenario-IsPlanOf}
use cs320_cluster_process_ma.Controller.Invariant.Facts.{IsConsistent}
use cs320_cluster_process_ma.Controller.Outcome.Defs.{IsAtomic}
use cs320_cluster_process_ma.Controller.Outcome.Step.{step-IsAtomic, step-apply_scheduled}
use cs320_cluster_process_ma.Controller.Outcome.Completion.{steps_from-ends}
use cs320_cluster_process_ma.Controller.Tests.{
  unit_float, node_a, job, empty, with_node, running, empty-IsConsistent, with_node-IsConsistent,
  running-IsConsistent, made,
}
use cs320_cluster_process_ma.Metrics.{build, observed_waiting_ticks}
use cs320_cluster_process_ma.Metrics.Counts.{IsCounted, build-IsCounted, build-maximum_waiting}
use cs320_cluster_process_ma.Engine.{
  Engine, Stops, idle, cancelled, halted, new_engine, run_scenario,
}
use cs320_cluster_process_ma.Engine.Realtime.{loop_ticks, loop_ticks-halts}
use cs320_cluster_process_ma.Engine.Scenarios.{EndsWell, run_scenario-EndsWell}
use cs320_cluster_process_ma.Transport.{Request, handle}
use cs320_cluster_process_ma.Transport.Answers.{status_for_error}
use cs320_cluster_process_ma.Transport.Refusals.{handle-refused}
use cs320_cluster_process_ma.Transport.Safety.{
  set_up, served, handle-IsConsistent, Reaches-validate_invariants,
}

-- A loop that sees its cancellation at once.
abbrev pub stop_now : Engine Unit → Engine Unit
stop_now e = halted e

pub stop_now_lem : (e : Engine Unit) → Stops e (stop_now e)
stop_now_lem e = elim (Bool-cases e.realtime) [
  | inl on ↦ cancelled e on
  | inr off ↦ subst (λ b. Stops e (record e { realtime = b })) off (idle e off)
]

-- A process at once, one at tick 2 that is failed at tick 3.
abbrev later_job : ProcessDefinition
later_job = record job { id = "q"; submit_at_tick = pos 2 }

abbrev fault : FailureDefinition
fault = record {
  tick = pos 3;
  type = FailureType.process;
  node_id = "";
  process_id = "q";
  message = "broken";
}

abbrev pub small : Scenario
small = record {
  name = "small";
  seed = pos 7;
  scheduler = "round-robin";
  tick_duration_ms = pos 0;
  max_ticks = pos 5;
  nodes = node_a ∷ [];
  processes = job ∷ later_job ∷ [];
  failures = fault ∷ [];
}

abbrev plan : Prepared Unit
plan = record {
  state = record (new_cluster "round-robin" (pos 7)) {
    scenario_name = "small";
    max_ticks = pos 5;
    nodes = ("a", Node.draft node_a (pos 0)) ∷ [];
    processes = ("p", record (draft job (pos 0)) { state = ProcessState.ready }) ∷ [];
  };
  schedule = Scheduler.round_robin 0;
  pending = (pos 2, later_job ∷ []) ∷ [];
  failures = (pos 3, fault ∷ []) ∷ [];
}

planned : prepare_scenario small empty ≡ ok plan
unfolding prepare_scenario validate check_nodes check_processes check_failures check_type
    failure_key new_node Node.validate new_process Process.validate trim_space has_key lookup insert
    contains new_scheduler chosen to_lower prepare_state prepare_nodes prepare_processes
    prepare_failures admit transition new_cluster name
planned = refl

-- A controller that stops after three ticks, and engines.
abbrev limited : Controller Unit
limited = set_state (λ s. record s { max_ticks = pos 3 }) with_node

abbrev pub server : Engine Unit
server = record { controller = empty; tick_duration = pos 500_000_000; realtime = false }

abbrev live : Engine Unit
live = record { controller = limited; tick_duration = pos 1; realtime = true }

server_built : new_engine (some empty) (pos 0) ≡ ok server
unfolding new_engine
server_built = refl

limited_tick : limited.current_tick ≡ pos 0
unfolding register_node new_node Node.validate trim_space has_key lookup new_cluster emitted
limited_tick = refl

going : is_completed limited.simulation_status ≡ false
unfolding register_node new_node Node.validate trim_space has_key lookup new_cluster emitted
going = refl

pub unknown_process : 400 ≤ (handle stop_now (Request.kill_process "x") server).0.status
unfolding handle kill_process lookup status_for_error new_cluster
unknown_process = omega arith

-- A cluster with one process that was never made ready.
abbrev pub busy : Cluster Unit
busy = record (new_cluster "least-loaded" (pos 0)) { processes = ("p", draft job (pos 0)) ∷ [] }

busy_lem : lookup "p" busy.processes ≡ some (draft job (pos 0))
unfolding lookup
busy_lem = refl

-- Natural numbers in the place of float64.
instance counting_float : Float ℕ
counting_float = record {
  of_int = pos_part;
  half = 1;
  infinity = 1000;
  add = ◌+◌;
  sub = ◌-◌;
  mul = ◌*◌;
  div = ◌/◌;
  sqrt = λ a. a;
  lt = ltb;
  eq = nat_beq;
}

idle_scored : AreScored ℕ (snapshot idle_node ∷ [])
unfolding load_score counting_float
idle_scored = (refl, refl, tt)

idle_fits : can_fit (snapshot idle_node) (draft job (pos 0)) ≡ true
unfolding can_fit sub_int int64 ◌-ℤ◌
idle_fits = refl

Reaches-validate_invariants_example :
    validate_invariants (handle stop_now (Request.create_node (some node_a)) server).1.controller
    ≡ ok tt
Reaches-validate_invariants_example =
    Reaches-validate_invariants (handle stop_now (Request.create_node (some node_a)) server).1 (
      served server stop_now (Request.create_node (some node_a))
        (set_up default_config empty (pos 0) server made server_built) stop_now_lem
        ((omega arith, omega arith), (omega arith, omega arith)))

step-IsAtomic_example : IsAtomic running (step running)
step-IsAtomic_example = step-IsAtomic running running-IsConsistent

steps_from-ends_example :
    (is_completed (steps_from 3 limited).1.simulation_status ≡ true)
    ⊎ ((e : Error) × ((steps_from 3 limited).0 ≡ err e))
steps_from-ends_example =
    steps_from-ends 3 0 3 limited with_node-IsConsistent limited_tick refl (omega arith)
      (omega arith) (omega arith)

validate_scenario-validate_example :
    validate_scenario small empty
    ≡ on_ok (validate small) λ _.
      on_ok
        (new_scheduler small.scheduler)
        λ _. if exceeds_limits small empty then err invalid_input else ok tt
validate_scenario-validate_example = validate_scenario-validate small empty

prepare_scenario-IsPlanOf_example : IsPlanOf small plan
prepare_scenario-IsPlanOf_example = prepare_scenario-IsPlanOf small empty plan planned

loop_ticks-halts_example : (loop_ticks 3 live).realtime ≡ false
loop_ticks-halts_example =
    loop_ticks-halts 3 0 3 live limited_tick refl (omega arith) (omega arith) (omega arith)

run_scenario-EndsWell_example :
    EndsWell
      (run_scenario stop_now small server).0
      (run_scenario stop_now small server).1.controller
run_scenario-EndsWell_example =
    run_scenario-EndsWell stop_now stop_now_lem small
      ((omega arith, omega arith), (omega arith, omega arith), tt) server empty-IsConsistent

step-apply_scheduled_example : (step limited).0 ≡ (apply_scheduled (begin_tick limited)).0
step-apply_scheduled_example = step-apply_scheduled limited with_node-IsConsistent going

handle-refused_example : (handle stop_now (Request.kill_process "x") server).1 ≡ server
handle-refused_example =
    handle-refused stop_now stop_now_lem (Request.kill_process "x") server tt empty-IsConsistent
      unknown_process

handle-IsConsistent_example :
    IsConsistent (handle stop_now (Request.create_node (some node_a)) server).1.controller
handle-IsConsistent_example =
    handle-IsConsistent stop_now stop_now_lem (Request.create_node (some node_a)) server
      ((omega arith, omega arith), (omega arith, omega arith)) empty-IsConsistent

load_scenario-IsAtomic_example : IsAtomic running (load_scenario small running)
load_scenario-IsAtomic_example =
    load_scenario-IsAtomic small running
      ((omega arith, omega arith), (omega arith, omega arith), tt)

load_scenario-IsConsistent_example : IsConsistent (load_scenario small running).1
load_scenario-IsConsistent_example =
    load_scenario-IsConsistent small running
      ((omega arith, omega arith), (omega arith, omega arith), tt) running-IsConsistent

load_scenario-validate_scenario_example :
    (Engine.load_scenario stop_now small live).0 ≡ validate_scenario small live.controller
load_scenario-validate_scenario_example =
    load_scenario-validate_scenario stop_now stop_now_lem small live

least_loaded_serves_example :
    (id : String) × (LeastLoaded.select_node ℕ (draft job (pos 0)) (snapshot idle_node ∷ [])
      ≡ ok id)
    × IsCandidate ℕ (snapshot idle_node ∷ []) (draft job (pos 0)) id
least_loaded_serves_example =
    least_loaded_serves ℕ (draft job (pos 0)) (snapshot idle_node ∷ []) 0 (snapshot idle_node)
      idle_scored refl idle_fits

order_ready-IsRanked_example :
    IsRanked
      (pos 5)
      (pos 9)
      (Priority.order_ready (pos 5) (draft job (pos 0) ∷ draft later_job (pos 2) ∷ []) (pos 9))
    × Permᴰ
        (Priority.order_ready (pos 5) (draft job (pos 0) ∷ draft later_job (pos 2) ∷ []) (pos 9))
        (draft job (pos 0) ∷ draft later_job (pos 2) ∷ [])
order_ready-IsRanked_example =
    order_ready-IsRanked (pos 5) (draft job (pos 0) ∷ draft later_job (pos 2) ∷ []) (pos 9)

build-IsCounted_example : IsCounted busy.processes (build busy)
build-IsCounted_example = build-IsCounted busy (omega arith)

build-maximum_waiting_example :
    (leb_ℤ (pos 0) (observed_waiting_ticks (draft job (pos 0)) busy.current_tick) ≡ true)
    × (leb_ℤ
          (observed_waiting_ticks (draft job (pos 0)) busy.current_tick)
          (build busy).maximum_waiting_ticks_all_submitted
        ≡ true)
build-maximum_waiting_example = build-maximum_waiting busy "p" (draft job (pos 0)) busy_lem
