-- ===== src/Controller/Scenario.antt =====
-- internal/cluster/scenario.go: prepareScenario, ValidateScenario and LoadScenario.
pub mod Agreement
pub mod Checks
pub mod Loading
pub mod Plan
pub mod Rounds
use Prim.Native.String.{◌++◌}
use cs320_cluster_process_ma.Base.{
  ℤ, pos, String, List, [], ◌∷◌, ◌++◌ as append, Bool, false, ◌||◌, Dict, if◌then◌else◌, ltb_ℤ,
  length, lookup, has_key, insert, contains, keys, sort_by, before, string_eq, int_eq, Option, none,
  some, Float, Result, ok, err, panic, on_ok, Action, invalid_input, duplicate_node,
  duplicate_process, node_not_found, process_not_found,
}
use cs320_cluster_process_ma.Domain.Types.{ProcessState, EventType}
use cs320_cluster_process_ma.Domain.Process.{Process, ProcessDefinition, new_process, transition}
use cs320_cluster_process_ma.Domain.Node.{Node, NodeDefinition, new_node}
use cs320_cluster_process_ma.Domain.Cluster.{Cluster, new_cluster}
use cs320_cluster_process_ma.Domain.Scenario.{FailureType, FailureDefinition, Scenario}
use cs320_cluster_process_ma.Domain.Scenario.Validation.{validate, max_of}
use cs320_cluster_process_ma.Scheduler.{Scheduler, name, new_scheduler}
use cs320_cluster_process_ma.Controller.State.{Controller, emitted}
use cs320_cluster_process_ma.Controller.Tick.Schedule.{or_empty}

-- preparedScenario
pub record Prepared (F : Type 0) : Type 0 where
  pub state : Cluster F
  pub schedule : Scheduler
  pub pending : Dict ℤ (List ProcessDefinition)
  pub failures : Dict ℤ (List FailureDefinition)

-- `m[key] = append(m[key], value)`
abbrev pub append_at : {V : Type 0} → ℤ → V → Dict ℤ (List V) → Dict ℤ (List V)
append_at key value m = insert key (append (or_empty (lookup key m)) (value ∷ [])) m

-- The loop over the nodes.
unfoldable pub prepare_nodes : Dict String Node → List NodeDefinition → Result (Dict String Node)
prepare_nodes nodes [] = ok nodes
prepare_nodes nodes (def ∷ defs) = on_ok (new_node def (pos 0)) λ node.
    let rest = prepare_nodes (insert node.id node nodes) defs in
    if has_key node.id nodes then err duplicate_node else rest

-- The variables of the loop over the processes: state.Processes, pending and processIDs.
pub record Intake : Type 0 where
  pub processes : Dict String Process
  pub pending : Dict ℤ (List ProcessDefinition)
  pub ids : List String

-- A process of the scenario: it waits for its tick, or is ready.
unfoldable pub admit : ProcessDefinition → Process → Intake → Result Intake
admit def process t =
    let known : Intake = record t { ids = process.id ∷ t.ids } in
    if ltb_ℤ (pos 0) def.submit_at_tick
    then ok (record known { pending = append_at def.submit_at_tick def t.pending })
    else on_ok (transition process ProcessState.ready)
        λ ready. ok (record known { processes = insert ready.id ready t.processes })

-- The loop over the processes.
unfoldable pub prepare_processes : Intake → List ProcessDefinition → Result Intake
prepare_processes t [] = ok t
prepare_processes t (def ∷ defs) =
    on_ok (new_process def (max_of def.submit_at_tick (pos 0))) λ process.
      if contains t.ids process.id
      then err duplicate_process
      else on_ok (admit def process t) λ later. prepare_processes later defs

-- The test of a failure's target: a failure of any type but NODE names a process.
abbrev pub target_error :
    FailureDefinition → Dict String Node → List String → FailureType → Result Unit
target_error failure nodes ids FailureType.node =
    if has_key failure.node_id nodes then ok tt else err node_not_found
target_error failure nodes ids _ =
    if contains ids failure.process_id then ok tt else err process_not_found

-- The loop over the failures.
unfoldable pub prepare_failures :
    Dict String Node
    → List String
    → Dict ℤ (List FailureDefinition)
    → List FailureDefinition
    → Result (Dict ℤ (List FailureDefinition))
prepare_failures nodes ids planned [] = ok planned
prepare_failures nodes ids planned (failure ∷ failures) =
    on_ok (target_error failure nodes ids failure.type)
      λ _. prepare_failures nodes ids (append_at failure.tick failure planned) failures

-- The empty variables.
abbrev pub no_intake : Intake
no_intake = record { processes = []; pending = []; ids = [] }

module _ {F : Type 0} ⦃f : Float F⦄ where
  -- prepareScenario after its guards.
  unfoldable pub prepare_state : Scenario → Scheduler → Result (Prepared F)
  prepare_state s selected = on_ok (prepare_nodes [] s.nodes) λ nodes.
      on_ok (prepare_processes no_intake s.processes) λ intake.
        on_ok (prepare_failures nodes intake.ids [] s.failures) λ failures. ok (record {
          state = record (new_cluster {F = F} (name selected) s.seed) {
            scenario_name = s.name;
            max_ticks = s.max_ticks;
            nodes = nodes;
            processes = intake.processes;
          };
          schedule = selected;
          pending = intake.pending;
          failures = failures;
        })

  unfoldable pub prepare_scenario : Scenario → Controller F → Result (Prepared F)
  prepare_scenario s c = on_ok (validate s) λ _. on_ok (new_scheduler s.scheduler) λ selected.
      if ltb_ℤ c.max_nodes (pos (length s.nodes))
        || ltb_ℤ c.max_processes (pos (length s.processes))
      then err invalid_input
      else prepare_state s selected

  -- ValidateScenario
  unfoldable pub validate_scenario : Scenario → Controller F → Result Unit
  validate_scenario s c = on_ok (prepare_scenario s c) λ _. ok tt

  -- The loops over the sorted identifiers: one event for each.
  abbrev pub announce_nodes : List String → Controller F → Controller F
  announce_nodes [] c = c
  announce_nodes (id ∷ ids) c =
      announce_nodes ids
        (emitted EventType.node_registered "info" "" id "node loaded from scenario" c)

  abbrev pub announce_processes : List String → Controller F → Controller F
  announce_processes [] c = c
  announce_processes (id ∷ ids) c =
      announce_processes ids
        (emitted EventType.process_submitted "info" id "" "process loaded from scenario" c)

  -- The assignments of LoadScenario.
  abbrev pub installed : Prepared F → Controller F → Controller F
  installed prepared c = record c {
    state = prepared.state;
    scheduler = prepared.schedule;
    pending_processes = prepared.pending;
    scheduled_failures = prepared.failures;
    events = [];
    event_sequence = 0;
  }

  -- LoadScenario once the scenario is prepared.
  unfoldable pub install : Scenario → Prepared F → Controller F → Controller F
  install s prepared c =
      let d = installed prepared c in
      emitted EventType.scenario_loaded "info" "" "" ("scenario loaded: " ++ s.name) (
        announce_processes (sort_by before (keys d.processes))
          (announce_nodes (sort_by before (keys d.nodes)) d))

  -- LoadScenario on the answer of prepareScenario.
  abbrev pub or_install : Scenario → Result (Prepared F) → Controller F → Result Unit × Controller F
  or_install s (ok prepared) c = (ok tt, install s prepared c)
  or_install s (err e) c = (err e, c)
  or_install s panic c = (panic, c)

  unfoldable pub load_scenario : Scenario → Action (Controller F) Unit
  load_scenario s c = or_install s (prepare_scenario s c) c
