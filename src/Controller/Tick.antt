-- ===== src/Controller/Tick.antt =====
-- internal/cluster/lifecycle.go: Step and Steps.
pub mod Execution
pub mod Sampling
pub mod Schedule
use Execution.{execute_running}
use Sampling.{sample_utilization}
use Schedule.{apply_scheduled}
use cs320_cluster_process_ma.Base.{
  ℕ, zero, suc, ℤ, pos, pos_part, String, List, [], ◌∷◌, ◌++◌, Option, none, some, Bool, true,
  false, ◌&&◌, ltb, leb_ℤ, ltb_ℤ, add_int, if◌then◌else◌, size, length, take, Dict, Float, Error,
  Result, ok, err, panic, Action, ◌>>=◌, ◌>>◌, ◌==◌, string_eq, invalid_input,
  invalid_state_transition,
}
use cs320_cluster_process_ma.Domain.Types.{ProcessState, is_terminal, SimulationStatus, EventType}
use cs320_cluster_process_ma.Domain.Process.{Process, ProcessDefinition}
use cs320_cluster_process_ma.Domain.Node.{Node, snapshot, can_fit}
use cs320_cluster_process_ma.Domain.Scenario.{FailureDefinition}
use cs320_cluster_process_ma.Controller.State.{Controller, set_state, emitted}
use cs320_cluster_process_ma.Controller.Registry.{is_running, is_completed, finish_locked}
use cs320_cluster_process_ma.Controller.Failures.{detect_missed_heartbeats}
use cs320_cluster_process_ma.Controller.Placement.{schedule_ready}
use cs320_cluster_process_ma.Controller.Audit.{validate_invariants}

abbrev all_terminal : Dict String Process → Bool
unfolding is_terminal
all_terminal [] = true
all_terminal ((id, p) ∷ ps) = is_terminal p.state && all_terminal ps

abbrev fits_some : Dict String Node → Process → Bool
unfolding can_fit
fits_some [] p = false
fits_some ((id, n) ∷ ns) p =
    let rest = fits_some ns p in if can_fit (snapshot n) p then true else rest

-- What progressBlockReasonLocked answers after its loop.
abbrev block_reason : (has_ready has_blocked : Bool) → String
block_reason true _ = "NO_ONLINE_CAPACITY: no READY process fits an ONLINE node"
block_reason false true =
    "EXTERNALLY_BLOCKED: WAITING or PAUSED processes require an external command"
block_reason false false = ""

-- Its loop, with hasReady and hasExternallyBlocked.
unfoldable pub block_scan :
    Dict String Node → (has_ready has_blocked : Bool) → Dict String Process → String
unfolding can_fit fits_some
block_scan nodes has_ready has_blocked [] = block_reason has_ready has_blocked
block_scan nodes has_ready has_blocked ((id, p) ∷ ps) = elim p.state [
  | ProcessState.running ↦ ""
  | ProcessState.ready ↦
      let rest = block_scan nodes true has_blocked ps in if fits_some nodes p then "" else rest
  | ProcessState.waiting ↦ block_scan nodes has_ready true ps
  | ProcessState.paused ↦ block_scan nodes has_ready true ps
  | _ ↦ block_scan nodes has_ready has_blocked ps
]

module _ {F : Type 0} where
  unfoldable pub all_processes_terminal : Controller F → Bool
  unfolding all_terminal
  all_processes_terminal c =
      if ltb 0 (size c.pending_processes) then false else all_terminal c.processes

  unfoldable pub progress_block_reason : Controller F → String
  unfolding block_scan
  progress_block_reason c =
      if ltb 0 (size c.pending_processes)
      then ""
      else if ltb 0 (size c.scheduled_failures)
      then ""
      else block_scan c.nodes false false c.processes

  -- The end of the simulation, where one of three conditions holds.
  unfoldable pub conclude : Controller F → Controller F
  conclude c =
      if ltb 0 (size c.processes) && all_processes_terminal c
      then finish_locked "all processes reached a terminal state" c
      else if ltb_ℤ (pos 0) c.max_ticks && leb_ℤ c.max_ticks c.current_tick
      then finish_locked "maximum tick count reached" c
      else if progress_block_reason c == ""
      then c
      else finish_locked (progress_block_reason c) c

  -- The function `rollback` of Step. The scheduler is not part of it.
  abbrev pub rollback : Controller F → Controller F → Controller F
  rollback previous c = record c {
    state = previous.state;
    events = take (length previous.events) c.events;
    event_sequence = previous.event_sequence;
    pending_processes = previous.pending_processes;
    scheduled_failures = previous.scheduled_failures;
  }

  -- `if err != nil { rollback(); return err }`
  abbrev pub or_rollback : Controller F → Result Unit → Controller F → Result Unit × Controller F
  or_rollback previous (ok _) c = (ok tt, c)
  or_rollback previous (err e) c = (err e, rollback previous c)
  or_rollback previous panic c = (panic, c)

  -- Step's `if` on the status.
  abbrev pub resumed : Controller F → Controller F
  resumed c =
      if is_running c.simulation_status
      then c
      else emitted EventType.simulation_started "info" "" "" "simulation started"
          (set_state (λ s. record s { simulation_status = SimulationStatus.running }) c)

  -- The first statements of Step: the simulation runs, and the tick begins.
  unfoldable pub begin_tick : Controller F → Controller F
  begin_tick c =
      set_state (λ s. record s { current_tick = add_int s.current_tick (pos 1) }) (resumed c)

  module _ ⦃f : Float F⦄ where
    -- Step between the scheduled actions and the check of the invariants.
    unfoldable pub run_tick : Action (Controller F) Unit
    run_tick = do
      detect_missed_heartbeats
      schedule_ready
      λ c. (ok tt, sample_utilization c)
      execute_running
      λ c. (ok tt, conclude c)

    -- The check of the invariants at the end of Step.
    abbrev pub checked : Controller F → Result Unit × Controller F → Result Unit × Controller F
    checked previous (ok _, c) = or_rollback previous (validate_invariants c) c
    checked previous (err e, c) = (err e, c)
    checked previous (panic, c) = (panic, c)

    -- Step after applyScheduledLocked.
    abbrev pub after_scheduled :
        Controller F → Result Unit × Controller F → Result Unit × Controller F
    after_scheduled previous (ok _, c) = checked previous (run_tick c)
    after_scheduled previous (err e, c) = (err e, rollback previous c)
    after_scheduled previous (panic, c) = (panic, c)

    unfoldable pub step : Action (Controller F) Unit
    step c =
        if is_completed c.simulation_status
        then (err invalid_state_transition, c)
        else after_scheduled c (apply_scheduled (begin_tick c))

    -- What Steps does with the answer of one Step: none goes on.
    abbrev pub stops : Result Unit → Controller F → Option (Result Unit)
    stops (ok _) c = if is_completed c.simulation_status then some (ok tt) else none
    stops (err invalid_state_transition) c =
        if is_completed c.simulation_status
        then some (ok tt)
        else some (err invalid_state_transition)
    stops (err e) c = some (err e)
    stops panic c = some panic

    unfoldable pub steps_from : ℕ → Action (Controller F) Unit
    steps_from zero c = (ok tt, c)
    steps_from (suc count) c =
        let (result, after) = step c in
        let rest = steps_from count after in
        elim (stops result after) [ none ↦ rest | some answer ↦ (answer, after) ]

    unfoldable pub steps : ℤ → Action (Controller F) Unit
    steps count c =
        if leb_ℤ count (pos 0) then (err invalid_input, c) else steps_from (pos_part count) c
