-- ===== src/Controller/Placement.antt =====
-- internal/cluster/lifecycle.go: scheduleReadyLocked.
use Prim.Native.String.{◌++◌}
use cs320_cluster_process_ma.Base.{
  lift, ℤ, pos, String, List, [], ◌∷◌, Bool, Option, none, some, ◌==◌, string_eq, ltb_ℤ, eqb_ℤ,
  add_int, sub_int, if◌then◌else◌, lookup, sort_by, before, Dict, Float, Error, Result, ok, err,
  panic, Action, get, pure, modify, ◌>>=◌, ◌>>◌, insufficient_resources,
}
use cs320_cluster_process_ma.Domain.Types.{ProcessState, EventType}
use cs320_cluster_process_ma.Domain.Process.{Process, transition}
use cs320_cluster_process_ma.Domain.Node.{Node, NodeSnapshot, snapshot, allocate?, release}
use cs320_cluster_process_ma.Scheduler.{select_node, order_ready}
use cs320_cluster_process_ma.Controller.State.{
  Controller, set_statistics, store_node, store_process, emit,
}
use cs320_cluster_process_ma.Controller.Processes.{is_ready}

-- The processes of the map in state READY.
abbrev pub ready_processes : Dict String Process → List Process
ready_processes [] = []
ready_processes ((id, p) ∷ ps) =
    let rest = ready_processes ps in if is_ready p.state then p ∷ rest else rest

-- The order of the ready queue before the scheduler's own: by submission, then by identifier.
abbrev pub submitted_before : Process → Process → Bool
submitted_before p q =
    if eqb_ℤ p.submitted_at_tick q.submitted_at_tick
    then before p.id q.id
    else ltb_ℤ p.submitted_at_tick q.submitted_at_tick

abbrev pub snapshots : Dict String Node → List NodeSnapshot
snapshots [] = []
snapshots ((id, n) ∷ ns) = snapshot n ∷ snapshots ns

-- nodeSnapshotsLocked
unfoldable pub node_snapshots : Dict String Node → List NodeSnapshot
unfolding sort_by
node_snapshots nodes = sort_by (λ a b. before a.id b.id) (snapshots nodes)

-- The loop that puts a node's new snapshot in the place of its old one.
abbrev pub refreshed : Node → List NodeSnapshot → List NodeSnapshot
refreshed node [] = []
refreshed node (s ∷ rest) =
    let later = refreshed node rest in if s.id == node.id then snapshot node ∷ rest else s ∷ later

-- `err.Error()` of an error that Allocate returns for process `id`.
abbrev pub allocate_error : Error → String → String
allocate_error insufficient_resources id = "insufficient resources: node cannot host process " ++ id
allocate_error _ id = "invalid input: process " ++ id ++ " is already allocated"

module _ {F : Type 0} where
  -- A process that stays in the queue.
  abbrev pub defer : String → String → String → String → Action (Controller F) Unit
  defer severity process_id node_id message = do
    modify (
        set_statistics
          (λ s. record s { scheduling_deferred = add_int s.scheduling_deferred (pos 1) }))
    emit EventType.scheduling_deferred severity process_id node_id message

  -- The first start of a process, or one more placement of it.
  abbrev pub mark_started : Option ℤ → Process → String → Action (Controller F) Process
  mark_started none p node_id = do
    c ← get
    modify (store_process (record p { started_at_tick = some c.current_tick }))
    emit EventType.process_started "info" p.id node_id "process started"
    pure (record p { started_at_tick = some c.current_tick })
  mark_started (some started) p node_id = do
    modify (set_statistics (λ s. record s { reschedulings = add_int s.reschedulings (pos 1) }))
    pure p

  -- The loop's body from the test of `process.StartedAtTick` on.
  unfoldable pub announce :
      Option ℤ
      → Process
      → Node
      → String
      → List NodeSnapshot
      → Action (Controller F) (List NodeSnapshot)
  announce started p node node_id nodes = do
    q ← mark_started started p node_id
    emit EventType.process_scheduled "info" q.id node_id "process scheduled"
    emit EventType.resource_allocated "info" q.id node_id "resources allocated"
    pure (refreshed node nodes)

  -- From `process.NodeID = nodeID` to the end of the loop's body.
  unfoldable pub run_on :
      Process → Node → String → List NodeSnapshot → Action (Controller F) (List NodeSnapshot)
  run_on p node node_id nodes = do
    c ← get
    let q = record p {
      node_id = node_id;
      waiting_ticks = add_int p.waiting_ticks (sub_int c.current_tick p.last_ready_at_tick);
    }
    modify (store_process q)
    announce q.started_at_tick q node node_id nodes

  -- `_ = node.Release(*process)` after a transition that failed.
  abbrev pub give_back : Node → Process → Controller F → Controller F
  give_back node p c = elim (release node p) [
    | ok freed ↦ store_node freed c
    | err _ ↦ c
    | panic ↦ c
  ]

  -- The loop's body once a node is selected.
  unfoldable pub place_on :
      Process → String → List NodeSnapshot → Action (Controller F) (List NodeSnapshot)
  place_on p node_id nodes c = elim (allocate? (lookup node_id c.nodes) p) [
    | err e ↦ (defer "warning" p.id node_id (allocate_error e p.id) >> pure nodes) c
    | panic ↦ (panic, c)
    | ok node ↦ elim (transition p ProcessState.running) [
      | err _ ↦ (ok nodes, give_back node p (store_node node c))
      | panic ↦ (panic, c)
      | ok q ↦
          (modify (store_node node) >> (modify (store_process q) >> run_on q node node_id nodes)) c
    ]
  ]

  -- The loop's body after SelectNode.
  unfoldable pub placing :
      Result String → Process → List NodeSnapshot → Action (Controller F) (List NodeSnapshot)
  placing (ok node_id) p nodes = place_on p node_id nodes
  placing (err _) p nodes = defer "info" p.id "" "no online node has enough resources" >> pure nodes
  placing panic p nodes = lift panic

  module _ ⦃f : Float F⦄ where
    -- The loop's body: the snapshots afterwards.
    unfoldable pub place : Process → List NodeSnapshot → Action (Controller F) (List NodeSnapshot)
    place p nodes c =
        let (answer, next) = select_node F c.scheduler p nodes in
        placing answer p nodes (record c { scheduler = next })

    unfoldable pub place_all : List Process → List NodeSnapshot → Action (Controller F) Unit
    place_all [] nodes = pure tt
    place_all (p ∷ ps) nodes = do later ← place p nodes; place_all ps later

    unfoldable pub schedule_ready : Action (Controller F) Unit
    schedule_ready c =
        let ready = sort_by submitted_before (ready_processes c.processes) in
        place_all (order_ready c.scheduler ready c.current_tick) (node_snapshots c.nodes) c
