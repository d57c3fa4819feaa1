-- ===== src/Controller/Registry.antt =====
-- internal/cluster/controller.go: nodes, the scheduler, and the status of the simulation.
use Prim.Native.String.{◌++◌}
use cs320_cluster_process_ma.Base.{
  pos, String, [], Bool, true, false, not, ◌||◌, string_eq, leb_ℤ, eqb_ℤ, if◌then◌else◌, size,
  lookup, has_key, delete, length, Float, Action, get, lift, pure, modify, fail_if, or_fail, ◌>>=◌,
  ◌>>◌, ltb, invalid_input, duplicate_node, node_not_found, invalid_state_transition,
}
use cs320_cluster_process_ma.Domain.Types.{SimulationStatus, EventType}
use cs320_cluster_process_ma.Domain.Node.{Node, NodeDefinition, new_node}
use cs320_cluster_process_ma.Domain.Cluster.{new_cluster}
use cs320_cluster_process_ma.Scheduler.{new_scheduler, name}
use cs320_cluster_process_ma.Controller.State.{Controller, set_state, store_node, emit, emitted}

abbrev pub is_running : SimulationStatus → Bool
is_running SimulationStatus.running = true
is_running _ = false

abbrev pub is_completed : SimulationStatus → Bool
is_completed SimulationStatus.completed = true
is_completed _ = false

-- The test of RemoveNode that a node still holds work.
abbrev pub is_occupied : Node → Bool
is_occupied n =
    ltb 0 (length n.running_process_ids)
    || not (eqb_ℤ n.cpu_allocated (pos 0))
    || not (eqb_ℤ n.memory_allocated_mb (pos 0))

module _ {F : Type 0} where
  unfoldable pub register_node : NodeDefinition → Action (Controller F) Node
  unfolding has_key
  register_node def = do
    c ← get
    fail_if (leb_ℤ c.max_nodes (pos (size c.nodes))) invalid_input
    node ← lift (new_node def c.current_tick)
    fail_if (has_key node.id c.nodes) duplicate_node
    modify (store_node node)
    emit EventType.node_registered "info" "" node.id "node registered"
    pure node

  unfoldable pub remove_node : String → Action (Controller F) Unit
  remove_node id = do
    c ← get
    node ← or_fail (lookup id c.nodes) node_not_found
    fail_if (is_occupied node) invalid_state_transition
    modify (set_state (λ s. record s { nodes = delete id s.nodes }))
    emit EventType.node_removed "info" "" id "node removed"

  unfoldable pub set_scheduler : String → Action (Controller F) Unit
  set_scheduler text = do
    selected ← lift (new_scheduler text)
    modify (λ c. record c { scheduler = selected })
    modify (set_state (λ s. record s { scheduler_name = name selected }))
    emit EventType.scheduler_changed "info" "" "" ("scheduler changed to " ++ name selected)

  unfoldable pub start : Controller F → Controller F
  start c =
      if is_running c.simulation_status
      then c
      else emitted EventType.simulation_started "info" "" "" "simulation started" (
          set_state
            (λ s. record s { simulation_status = SimulationStatus.running; finish_reason = "" }) c)

  unfoldable pub pause_simulation : Controller F → Controller F
  pause_simulation c =
      if is_running c.simulation_status
      then emitted EventType.simulation_paused "info" "" "" "simulation paused"
          (set_state (λ s. record s { simulation_status = SimulationStatus.paused }) c)
      else c

  unfoldable pub reset : ⦃f : Float F⦄ → Controller F → Controller F
  unfolding new_cluster
  reset c = emitted EventType.simulation_reset "info" "" "" "simulation reset" (record c {
    state = new_cluster (name c.scheduler) c.seed;
    events = [];
    event_sequence = 0;
    pending_processes = [];
    scheduled_failures = [];
  })

  -- finishLocked
  unfoldable pub finish_locked : String → Controller F → Controller F
  finish_locked reason c = emitted EventType.simulation_finished "info" "" "" reason (
      set_state
        (λ s. record s { simulation_status = SimulationStatus.completed; finish_reason = reason })
        c)

  unfoldable pub finish : String → Controller F → Controller F
  unfolding finish_locked
  finish reason c = if is_completed c.simulation_status then c else finish_locked reason c
