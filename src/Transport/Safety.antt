-- ===== src/Transport/Safety.antt =====
-- internal/transport/http: the states that requests and the real-time loop reach.
use cs320_cluster_process_ma.Base.{
  ℤ, true, ◌≡◌, sym, inl, inr, none, some, Bool-cases, ok_inj, Result-cases, ok, Float, IsInt,
}
use cs320_cluster_process_ma.Domain.Scenario.{Scenario}
use cs320_cluster_process_ma.Controller.State.{Config, Controller, new_controller}
use cs320_cluster_process_ma.Controller.Scenario.{validate_scenario}
use cs320_cluster_process_ma.Controller.Scenario.Loading.{AreInts, load_scenario-IsConsistent}
use cs320_cluster_process_ma.Controller.Audit.{validate_invariants}
use cs320_cluster_process_ma.Controller.Invariant.Facts.{IsConsistent}
use cs320_cluster_process_ma.Controller.Consistency.Audit.{validate_invariants-accepts}
use cs320_cluster_process_ma.Controller.Consistency.Tick.{steps-IsConsistent}
use cs320_cluster_process_ma.Controller.Consistency.Registry.{
  register_node-IsConsistent, remove_node-IsConsistent, set_scheduler-IsConsistent,
  start-IsConsistent, pause_simulation-IsConsistent, reset-IsConsistent,
  new_controller-IsConsistent,
}
use cs320_cluster_process_ma.Controller.Consistency.Commands.{
  kill_process-IsConsistent, submit_process-IsConsistent, pause_process-IsConsistent,
  wait_process-IsConsistent, resume_process-IsConsistent, wake_process-IsConsistent,
}
use cs320_cluster_process_ma.Controller.Consistency.Failing.{fail_process-IsConsistent}
use cs320_cluster_process_ma.Controller.Consistency.NodeFailure.{fail_node-IsConsistent}
use cs320_cluster_process_ma.Controller.Consistency.NodeStatus.{
  change_node_status-IsConsistent, recover_node-IsConsistent, heartbeat-IsConsistent,
}
use cs320_cluster_process_ma.Engine
use cs320_cluster_process_ma.Engine.{
  Engine, Stops, loop_tick, new_engine, with_controller, if_valid,
}
use cs320_cluster_process_ma.Engine.Realtime.{Stops-IsConsistent, loop_tick-IsConsistent}
use cs320_cluster_process_ma.Transport.Simulation.{or_one}
use cs320_cluster_process_ma.Transport.{Request, handle}

-- The capacities of the nodes in a request are machine integers.
abbrev pub HasInts : Request → Type 0
HasInts (Request.create_node (some def)) = IsInt def.cpu_capacity × IsInt def.memory_capacity_mb
HasInts (Request.load_scenario (some s)) = AreInts s.nodes
HasInts _ = Unit {0}

-- The engine's controller satisfies the invariant.
abbrev pub IsSafe : {F : Type 0} → Engine F → Type 0
IsSafe e = IsConsistent e.controller

module _ {F : Type 0} ⦃f : Float F⦄ where
  start-IsSafe : (e : Engine F) → IsSafe e → IsSafe (Engine.start true e).1
  unfolding Engine.start
  start-IsSafe e inv = elim (Bool-cases e.realtime) [
    | inl on ↦ rw on inv
    | inr off ↦ rw off (start-IsConsistent e.controller inv)
  ]

  module _ (stop : Engine F → Engine F) (stops : (e : Engine F) → Stops e (stop e)) where
    stopped : (e : Engine F) → IsSafe e → IsSafe (stop e)
    stopped e inv = (Stops-IsConsistent e (stop e) (stops e) inv).1

    load_scenario-IsSafe :
        (s : Scenario) (e : Engine F)
        → AreInts s.nodes
        → IsSafe e
        → IsSafe (Engine.load_scenario stop s e).1
    unfolding Engine.load_scenario
    load_scenario-IsSafe s e ints inv = elim (Result-cases (validate_scenario s e.controller)) [
      | inl (_, good) ↦
          rw good (load_scenario-IsConsistent s (stop e).controller ints (stopped e inv))
      | inr (inl (_, bad)) ↦ rw bad inv
      | inr (inr crash) ↦ rw crash inv
    ]

    -- Each request keeps the invariant of the controller, whatever it is answered with. The
    -- capacities of the nodes in the request are machine integers, and a request that stops the
    -- loop may find it after any number of further ticks.
    pub handle-IsConsistent :
        (r : Request) (e : Engine F)
        → HasInts r
        → IsConsistent e.controller
        → IsConsistent (handle stop r e).1.controller
    unfolding handle Engine.pause Engine.reset Engine.run_steps
    handle-IsConsistent Request.health e ints inv = inv
    handle-IsConsistent Request.list_nodes e ints inv = inv
    handle-IsConsistent (Request.create_node none) e ints inv = inv
    handle-IsConsistent (Request.create_node (some def)) e ints inv =
        register_node-IsConsistent e.controller inv def ints.0 ints.1
    handle-IsConsistent (Request.get_node id) e ints inv = inv
    handle-IsConsistent (Request.delete_node id) e ints inv =
        remove_node-IsConsistent e.controller inv id
    handle-IsConsistent (Request.fail_node id) e ints inv =
        fail_node-IsConsistent e.controller inv id
    handle-IsConsistent (Request.recover_node id) e ints inv =
        recover_node-IsConsistent e.controller inv id
    handle-IsConsistent (Request.heartbeat id) e ints inv =
        heartbeat-IsConsistent e.controller inv id
    handle-IsConsistent (Request.change_node_status id none) e ints inv = inv
    handle-IsConsistent (Request.change_node_status id (some status)) e ints inv =
        change_node_status-IsConsistent e.controller inv id status
    handle-IsConsistent Request.list_processes e ints inv = inv
    handle-IsConsistent (Request.create_process none) e ints inv = inv
    handle-IsConsistent (Request.create_process (some def)) e ints inv =
        submit_process-IsConsistent e.controller inv def
    handle-IsConsistent (Request.get_process id) e ints inv = inv
    handle-IsConsistent (Request.pause_process id) e ints inv =
        pause_process-IsConsistent e.controller inv id
    handle-IsConsistent (Request.resume_process id) e ints inv =
        resume_process-IsConsistent e.controller inv id
    handle-IsConsistent (Request.wait_process id) e ints inv =
        wait_process-IsConsistent e.controller inv id
    handle-IsConsistent (Request.wake_process id) e ints inv =
        wake_process-IsConsistent e.controller inv id
    handle-IsConsistent (Request.kill_process id) e ints inv =
        kill_process-IsConsistent e.controller inv id
    handle-IsConsistent (Request.fail_process id) e ints inv =
        fail_process-IsConsistent e.controller inv id "process failed by API request"
    handle-IsConsistent Request.start_simulation e ints inv = start-IsSafe e inv
    handle-IsConsistent Request.pause_simulation e ints inv =
        pause_simulation-IsConsistent (stop e).controller (stopped e inv)
    handle-IsConsistent Request.reset_simulation e ints inv = reset-IsConsistent (stop e).controller
    handle-IsConsistent Request.simulation_status e ints inv = inv
    handle-IsConsistent (Request.step_simulation none) e ints inv = inv
    handle-IsConsistent (Request.step_simulation (some ticks)) e ints inv =
        steps-IsConsistent (or_one ticks) (stop e).controller (stopped e inv)
    handle-IsConsistent (Request.load_scenario none) e ints inv = inv
    handle-IsConsistent (Request.load_scenario (some s)) e ints inv =
        load_scenario-IsSafe s e ints inv
    handle-IsConsistent Request.get_scheduler e ints inv = inv
    handle-IsConsistent (Request.set_scheduler none) e ints inv = inv
    handle-IsConsistent (Request.set_scheduler (some text)) e ints inv =
        set_scheduler-IsConsistent e.controller inv text
    handle-IsConsistent Request.list_events e ints inv = inv
    handle-IsConsistent Request.get_metrics e ints inv = inv
    handle-IsConsistent (Request.export_report format) e ints inv = inv

  -- A server that New and NewHandler set up, after requests and ticks of the loop in any order.
  -- Each request may find the loop stopped by a different run of stopRealtime.
  pub data Reaches : Engine F → Type 0 where
    set_up :
        (config : Config) (c : Controller F) (duration : ℤ) (e : Engine F)
        → new_controller F config ≡ ok c
        → new_engine (some c) duration ≡ ok e
        → Reaches e
    ticked : (e : Engine F) → Reaches e → e.realtime ≡ true → Reaches (loop_tick e)
    served :
        (e : Engine F) (stop : Engine F → Engine F) (r : Request)
        → Reaches e
        → ((d : Engine F) → Stops d (stop d))
        → HasInts r
        → Reaches (handle stop r e).1

  set_up-IsSafe :
      (c : Controller F) (duration : ℤ) (e : Engine F)
      → IsConsistent c
      → new_engine (some c) duration ≡ ok e
      → IsSafe e
  unfolding new_engine
  set_up-IsSafe c duration e inv h = rw (sym (ok_inj _ e h)) inv

  Reaches-IsSafe : (e : Engine F) → Reaches e → IsSafe e
  Reaches-IsSafe _ (set_up config c duration e made built) =
      set_up-IsSafe c duration e (new_controller-IsConsistent F config c made) built
  Reaches-IsSafe _ (ticked e reach on) = loop_tick-IsConsistent e (Reaches-IsSafe e reach)
  Reaches-IsSafe _ (served e stop r reach stops ints) =
      handle-IsConsistent stop stops r e ints (Reaches-IsSafe e reach)

  -- From a controller that New returns and an engine around it, after requests and ticks of the
  -- real-time loop in any order, the program's own check of the invariants accepts the controller.
  -- The capacities of the nodes in the requests are machine integers, and a request that stops the
  -- loop may find it after any number of further ticks.
  pub Reaches-validate_invariants :
      (e : Engine F) → Reaches e → validate_invariants e.controller ≡ ok tt
  Reaches-validate_invariants e reach =
      validate_invariants-accepts e.controller (Reaches-IsSafe e reach)
