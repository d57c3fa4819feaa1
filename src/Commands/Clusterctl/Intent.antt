-- ===== src/Commands/Clusterctl/Intent.antt =====
-- What a command line of cmd/clusterctl/main.go asks of the API, by its usage.
use cs320_cluster_process_ma.Base.{
  pos, String, List, [], ◌∷◌, ◌==◌, string_eq, true, false, ◌≡◌, Option, some, leb, trim_space,
}
use cs320_cluster_process_ma.Base.Flags.{text, int, Flags, text_named, int_named, parse_flags}
use cs320_cluster_process_ma.Base.Urls.{every}
use cs320_cluster_process_ma.Base.Urls.Targets.{IsSegment, is_value_code}
use cs320_cluster_process_ma.Domain.Process.{ProcessDefinition}
use cs320_cluster_process_ma.Domain.Node.{NodeDefinition}
use cs320_cluster_process_ma.Transport.{Request}
use cs320_cluster_process_ma.Transport.Bodies.{
  Codec, max_request_body, decode_json, receive, restart_policy, node_status,
}
use cs320_cluster_process_ma.Commands.Answers.{done}
use cs320_cluster_process_ma.Commands.Clusterctl.{
  Machine, Order, command, or_id, node_flags, node_body, process_flags, process_body,
}

-- An identifier that is a segment of a path as it stands, and not blank.
pub record IsIdentifier (id : String) : Type 0 where
  pub segment : IsSegment id
  pub given : (trim_space id == "") ≡ false

module _ {J : Type 0} (m : Machine J) (codec : Codec J) where
  -- A body that the API reads as a whole.
  abbrev pub IsSmall : J → Type 0
  IsSmall body = leb (codec.size body) max_request_body ≡ true

  -- The node and the process that the flags describe.
  abbrev pub described_node : Flags → NodeDefinition
  described_node set = record {
    id = text_named "id" set;
    name = or_id (text_named "name" set) (text_named "id" set);
    cpu_capacity = int_named "cpu" set;
    memory_capacity_mb = int_named "memory" set;
  }

  abbrev pub described_process : Flags → ProcessDefinition
  described_process set = record {
    id = text_named "id" set;
    name = or_id (text_named "name" set) (text_named "id" set);
    priority = int_named "priority" set;
    cpu_request = int_named "cpu" set;
    memory_request_mb = int_named "memory" set;
    total_ticks = int_named "ticks" set;
    restart_policy = restart_policy (m.to_upper (text_named "restart" set));
    max_restarts = int_named "max-restarts" set;
    submit_at_tick = pos 0;
  }

  -- What the arguments of a command ask of the API.
  pub data Asks : List String → Request → Type 0 where
    add_node :
        (args rest : List String) (set : Flags)
        → parse_flags m.parse_int args (node_flags m codec) ≡ some (set, rest)
        → IsSmall (codec.marshal (node_body m codec set))
        → Asks ("node" ∷ "add" ∷ args) (Request.create_node (some (described_node set)))
    list_nodes : (args : List String) → Asks ("node" ∷ "list" ∷ args) Request.list_nodes
    fail_node :
        (id : String) → IsIdentifier id → Asks ("node" ∷ "fail" ∷ id ∷ []) (Request.fail_node id)
    recover_node :
        (id : String)
        → IsIdentifier id
        → Asks ("node" ∷ "recover" ∷ id ∷ []) (Request.recover_node id)
    heartbeat :
        (id : String)
        → IsIdentifier id
        → Asks ("node" ∷ "heartbeat" ∷ id ∷ []) (Request.heartbeat id)
    remove_node :
        (id : String)
        → IsIdentifier id
        → Asks ("node" ∷ "remove" ∷ id ∷ []) (Request.delete_node id)
    set_status :
        (args : List String) (set : Flags) (id : String)
        → parse_flags m.parse_int args (("status", text "") ∷ []) ≡ some (set, id ∷ [])
        → IsIdentifier id
        → IsSmall (codec.marshal (("status", text (m.to_upper (text_named "status" set))) ∷ []))
        → Asks ("node" ∷ "status" ∷ args) (
            Request.change_node_status id
              (some (node_status (m.to_upper (text_named "status" set)))))
    submit_process :
        (args rest : List String) (set : Flags)
        → parse_flags m.parse_int args (process_flags m codec) ≡ some (set, rest)
        → IsSmall (codec.marshal (process_body m codec set))
        → Asks ("process" ∷ "submit" ∷ args) (Request.create_process (some (described_process set)))
    list_processes : (args : List String) → Asks ("process" ∷ "list" ∷ args) Request.list_processes
    pause_process :
        (id : String)
        → IsIdentifier id
        → Asks ("process" ∷ "pause" ∷ id ∷ []) (Request.pause_process id)
    resume_process :
        (id : String)
        → IsIdentifier id
        → Asks ("process" ∷ "resume" ∷ id ∷ []) (Request.resume_process id)
    wait_process :
        (id : String)
        → IsIdentifier id
        → Asks ("process" ∷ "wait" ∷ id ∷ []) (Request.wait_process id)
    wake_process :
        (id : String)
        → IsIdentifier id
        → Asks ("process" ∷ "wake" ∷ id ∷ []) (Request.wake_process id)
    kill_process :
        (id : String)
        → IsIdentifier id
        → Asks ("process" ∷ "kill" ∷ id ∷ []) (Request.kill_process id)
    fail_process :
        (id : String)
        → IsIdentifier id
        → Asks ("process" ∷ "fail" ∷ id ∷ []) (Request.fail_process id)
    get_scheduler : (args : List String) → Asks ("scheduler" ∷ "get" ∷ args) Request.get_scheduler
    set_scheduler :
        (name : String)
        → (trim_space name == "") ≡ false
        → IsSmall (codec.marshal (("name", text name) ∷ []))
        → Asks ("scheduler" ∷ "set" ∷ name ∷ []) (Request.set_scheduler (some name))
    step :
        (args rest : List String) (set : Flags)
        → parse_flags m.parse_int args (("ticks", int (pos 1)) ∷ []) ≡ some (set, rest)
        → IsSmall (codec.marshal (("ticks", int (int_named "ticks" set)) ∷ []))
        → Asks
            ("simulation" ∷ "step" ∷ args)
            (Request.step_simulation (some (int_named "ticks" set)))
    start_simulation :
        (args : List String) → Asks ("simulation" ∷ "start" ∷ args) Request.start_simulation
    pause_simulation :
        (args : List String) → Asks ("simulation" ∷ "pause" ∷ args) Request.pause_simulation
    reset_simulation :
        (args : List String) → Asks ("simulation" ∷ "reset" ∷ args) Request.reset_simulation
    simulation_status :
        (args : List String) → Asks ("simulation" ∷ "status" ∷ args) Request.simulation_status
    load_scenario :
        (path : String) (content : J) (body : Option J)
        → (trim_space path == "") ≡ false
        → m.read_file path ≡ some content
        → m.reencode content ≡ some body
        → Asks
            ("simulation" ∷ "load" ∷ path ∷ [])
            (Request.load_scenario (decode_json codec codec.scenario body))
    show_report : (args : List String) → Asks ("report" ∷ "show" ∷ args) Request.get_metrics
    export_report :
        (args rest : List String) (set : Flags)
        → parse_flags m.parse_int args (("format", text "json") ∷ ("output", text "") ∷ [])
          ≡ some (set, rest)
        → every is_value_code (text_named "format" set) ≡ true
        → Asks ("report" ∷ "export" ∷ args) (Request.export_report (text_named "format" set))
    list_events :
        (action : String) (args : List String) → Asks ("events" ∷ action ∷ args) Request.list_events
    get_metrics :
        (action : String) (args : List String)
        → Asks ("metrics" ∷ action ∷ args) Request.get_metrics

  -- The command succeeds, and its call reaches the handler of a request.
  pub record IsReceived (args : List String) (r : Request) : Type 0 where
    pub order : Order J
    pub sent : command m codec args ≡ done order
    pub received : receive codec order.call ≡ some r
