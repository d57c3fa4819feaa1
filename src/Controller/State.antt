-- ===== src/Controller/State.antt =====
-- The state of internal/cluster/controller.go, its constructor, and what all methods share.
-- A pointer to a node or a process is its identifier, which is its key in the map: a method reads
-- the value, and each assignment through the pointer writes the new value back.
use cs320_cluster_process_ma.Base.{
  ℕ, ◌+◌, ◌%◌, ◌^◌, ℤ, pos, String, List, [], ◌∷◌, ◌++◌, ◌||◌, ◌==◌, string_eq, int_eq, ltb_ℤ,
  eqb_ℤ, if◌then◌else◌, Dict, lookup, insert, Float, event_id, Result, ok, err, panic, Action, get,
  lift, pure, modify, or_fail, ◌>>=◌, ◌>>◌, invalid_input, process_not_found,
}
use cs320_cluster_process_ma.Domain.Types.{ProcessState, EventType, Event}
use cs320_cluster_process_ma.Domain.Process.{Process, ProcessDefinition, transition}
use cs320_cluster_process_ma.Domain.Node.{Node}
use cs320_cluster_process_ma.Domain.Cluster.{Statistics, Cluster, new_cluster}
use cs320_cluster_process_ma.Domain.Scenario.{FailureDefinition}
use cs320_cluster_process_ma.Scheduler.{Scheduler, new_scheduler, name}

pub record Config : Type 0 where
  pub scheduler : String
  pub seed : ℤ
  pub heartbeat_timeout_ticks : ℤ
  pub max_nodes : ℤ
  pub max_processes : ℤ

pub record Controller (F : Type 0) : Type 0 where
  pub state : Cluster F
  pub open state use *
  pub scheduler : Scheduler
  pub events : List Event
  pub event_sequence : ℕ
  pub heartbeat_timeout_ticks : ℤ
  pub max_nodes : ℤ
  pub max_processes : ℤ
  pub pending_processes : Dict ℤ (List ProcessDefinition)
  pub scheduled_failures : Dict ℤ (List FailureDefinition)

abbrev pub default_config : Config
default_config = record {
  scheduler = "least-loaded";
  seed = pos 42;
  heartbeat_timeout_ticks = pos 0;
  max_nodes = pos 100;
  max_processes = pos 10_000;
}

-- The defaults that New puts in for an empty scheduler and for limits that are 0.
abbrev pub with_defaults : Config → Config
with_defaults c = record c {
  scheduler = if c.scheduler == "" then default_config.scheduler else c.scheduler;
  max_nodes = if eqb_ℤ c.max_nodes (pos 0) then default_config.max_nodes else c.max_nodes;
  max_processes =
      if eqb_ℤ c.max_processes (pos 0) then default_config.max_processes else c.max_processes;
}

module _ (F : Type 0) ⦃f : Float F⦄ where
  -- The controller that New returns for a checked configuration.
  abbrev pub fresh : Config → Scheduler → Controller F
  fresh c selected = record {
    state = new_cluster (name selected) c.seed;
    scheduler = selected;
    events = [];
    event_sequence = 0;
    heartbeat_timeout_ticks = c.heartbeat_timeout_ticks;
    max_nodes = c.max_nodes;
    max_processes = c.max_processes;
    pending_processes = [];
    scheduled_failures = [];
  }

  -- cluster.New
  unfoldable pub new_controller : Config → Result (Controller F)
  unfolding new_cluster name new_scheduler
  new_controller config =
      let c = with_defaults config in
      if ltb_ℤ c.max_nodes (pos 1)
        || ltb_ℤ c.max_processes (pos 1)
        || ltb_ℤ c.heartbeat_timeout_ticks (pos 0)
      then err invalid_input
      else elim (new_scheduler c.scheduler) [
        | ok selected ↦ ok (fresh c selected)
        | err e ↦ err e
        | panic ↦ panic
      ]

module _ {F : Type 0} where
  abbrev pub set_state : (Cluster F → Cluster F) → Controller F → Controller F
  set_state g c = record c { state = g c.state }

  -- An assignment through a pointer to a node.
  abbrev pub store_node : Node → Controller F → Controller F
  store_node n = set_state (λ s. record s { nodes = insert n.id n s.nodes })

  -- An assignment through a pointer to a process.
  abbrev pub store_process : Process → Controller F → Controller F
  store_process p = set_state (λ s. record s { processes = insert p.id p s.processes })

  abbrev pub set_statistics : (Statistics F → Statistics F) → Controller F → Controller F
  set_statistics g = set_state (λ s. record s { statistics = g s.statistics })

  -- The number of the next event.
  abbrev pub next_sequence : Controller F → ℕ
  next_sequence c = (c.event_sequence + 1) % 2 ^ 64

  -- The event that emitLocked appends.
  abbrev pub next_event : EventType → String → String → String → String → Controller F → Event
  next_event type severity process_id node_id message c = record {
    id = event_id (next_sequence c);
    tick = c.current_tick;
    type = type;
    severity = severity;
    process_id = process_id;
    node_id = node_id;
    message = message;
  }

  -- The controller after emitLocked.
  unfoldable pub emitted :
      EventType → String → String → String → String → Controller F → Controller F
  emitted type severity process_id node_id message c = record c {
    event_sequence = next_sequence c;
    events = c.events ++ next_event type severity process_id node_id message c ∷ [];
  }

  abbrev pub emit : EventType → String → String → String → String → Action (Controller F) Unit
  emit type severity process_id node_id message =
      modify (emitted type severity process_id node_id message)

  -- processLocked
  abbrev pub process_locked : String → Action (Controller F) Process
  process_locked id = do c ← get; or_fail (lookup id c.processes) process_not_found

  -- `process.Transition(to)` through the pointer; the process afterwards.
  abbrev pub transition_to : Process → ProcessState → Action (Controller F) Process
  transition_to p to = do q ← lift (transition p to); modify (store_process q); pure q
