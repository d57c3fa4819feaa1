-- ===== src/Transport/Bodies.antt =====
-- internal/transport/http/json.go: decodeJSON, and what each handler of router.go's routes reads of
-- its request. encoding/json is a parameter, `Codec`; the tags of the structs are written out.
use cs320_cluster_process_ma.Base.{
  ℕ, ℤ, String, List, [], ◌∷◌, ◌==◌, string_eq, Bool, true, false, ◌&&◌, ◌||◌, not, ◌≡◌, Option,
  none, some, leb, if◌then◌else◌,
}
use cs320_cluster_process_ma.Base.Flags.{Value, text, int, text_named, int_named, HasIntFields}
use cs320_cluster_process_ma.Base.Urls.{Target, parse_target, query_value}
use cs320_cluster_process_ma.Domain.Types.{RestartPolicy, NodeStatus}
use cs320_cluster_process_ma.Domain.Process.{ProcessDefinition}
use cs320_cluster_process_ma.Domain.Node.{NodeDefinition}
use cs320_cluster_process_ma.Domain.Scenario.{Scenario}
use cs320_cluster_process_ma.Transport.{Request}
use cs320_cluster_process_ma.Transport.Routes.{Endpoint, routes, select}

-- A field of a struct: a string or an integer of 64 bits, with the name of its tag.
pub data Tag : Type 0 where
  text_tag int_tag : String → Tag

-- encoding/json on inputs of the type J. `object` decodes a struct whose fields have these tags,
-- with DisallowUnknownFields, and leaves the rest of the input; a field that is missing is zero.
pub record Codec (J : Type 0) : Type 0 where
  pub marshal : List (String × Value) → J
  pub object : List Tag → J → Option (List Value × J)
  pub scenario : J → Option (Scenario × J)
  pub at_end : J → Bool
  pub size : J → ℕ

abbrev pub max_request_body : ℕ
max_request_body = 1048576

abbrev pub at_its_end : {J A : Type 0} → (J → Bool) → Option (A × J) → Option A
at_its_end at_end none = none
at_its_end at_end (some (a, rest)) = if at_end rest then some a else none

-- decodeJSON; a request without a body is an empty input, which is refused.
unfoldable pub decode_json : {J A : Type 0} → Codec J → (J → Option (A × J)) → Option J → Option A
decode_json codec decode none = none
decode_json codec decode (some body) =
    if leb (codec.size body) max_request_body then at_its_end codec.at_end (decode body) else none

-- The conversion of a text to a Go string type with named constants.
abbrev pub restart_policy : String → RestartPolicy
restart_policy name =
    if name == ""
    then RestartPolicy.unspecified
    else if name == "NEVER"
    then RestartPolicy.never
    else if name == "ON_FAILURE"
    then RestartPolicy.on_failure
    else RestartPolicy.unknown name

abbrev pub node_status : String → NodeStatus
node_status name =
    if name == "ONLINE"
    then NodeStatus.online
    else if name == "DRAINING"
    then NodeStatus.draining
    else if name == "OFFLINE"
    then NodeStatus.offline
    else if name == "FAILED"
    then NodeStatus.failed
    else if name == "RECOVERING"
    then NodeStatus.recovering
    else NodeStatus.unknown name

-- The structs, by their tags.
abbrev pub node_tags : List Tag
node_tags =
    text_tag "id" ∷ text_tag "name" ∷ int_tag "cpuCapacity" ∷ int_tag "memoryCapacityMB" ∷ []

abbrev pub process_tags : List Tag
process_tags =
    text_tag "id"
    ∷ text_tag "name"
    ∷ int_tag "priority"
    ∷ int_tag "cpuRequest"
    ∷ int_tag "memoryRequestMB"
    ∷ int_tag "totalTicks"
    ∷ text_tag "restartPolicy"
    ∷ int_tag "maxRestarts"
    ∷ int_tag "submitAtTick"
    ∷ []

-- The structs of decoded fields. The last clause is never reached: `object` returns a value of the
-- right kind for each tag.
abbrev to_node : List Value → Option NodeDefinition
to_node (text id ∷ text name ∷ int cpu ∷ int memory ∷ []) =
    some (record { id = id; name = name; cpu_capacity = cpu; memory_capacity_mb = memory })
to_node _ = none

abbrev to_process : List Value → Option ProcessDefinition
to_process
      (text id
        ∷ text name
        ∷ int priority
        ∷ int cpu
        ∷ int memory
        ∷ int total
        ∷ text policy
        ∷ int restarts
        ∷ int tick
        ∷ []) =
    some (record {
      id = id;
      name = name;
      priority = priority;
      cpu_request = cpu;
      memory_request_mb = memory;
      total_ticks = total;
      restart_policy = restart_policy policy;
      max_restarts = restarts;
      submit_at_tick = tick;
    })
to_process _ = none

abbrev to_text : List Value → Option String
to_text (text t ∷ []) = some t
to_text _ = none

abbrev to_int : List Value → Option ℤ
to_int (int n ∷ []) = some n
to_int _ = none

abbrev status_of : Option String → Option NodeStatus
status_of none = none
status_of (some name) = some (node_status name)

abbrev read : {A B : Type 0} → (A → Option B) → Option A → Option B
read f none = none
read f (some a) = f a

-- A request as it arrives.
pub record Call (J : Type 0) : Type 0 where
  pub method : String
  pub target : String
  pub body : Option J

module _ {J : Type 0} (codec : Codec J) where
  abbrev fields : List Tag → Option J → Option (List Value)
  fields tags = decode_json codec (codec.object tags)

  -- What the handler of an endpoint reads: PathValue("id"), the query and the body.
  unfoldable pub read_request : Endpoint → String → String → Option J → Request
  unfolding query_value decode_json
  read_request Endpoint.health id query body = Request.health
  read_request Endpoint.create_node id query body =
      Request.create_node (read to_node (fields node_tags body))
  read_request Endpoint.list_nodes id query body = Request.list_nodes
  read_request Endpoint.get_node id query body = Request.get_node id
  read_request Endpoint.delete_node id query body = Request.delete_node id
  read_request Endpoint.change_node_status id query body =
      Request.change_node_status id
        (status_of (read to_text (fields (text_tag "status" ∷ []) body)))
  read_request Endpoint.fail_node id query body = Request.fail_node id
  read_request Endpoint.recover_node id query body = Request.recover_node id
  read_request Endpoint.heartbeat id query body = Request.heartbeat id
  read_request Endpoint.create_process id query body =
      Request.create_process (read to_process (fields process_tags body))
  read_request Endpoint.list_processes id query body = Request.list_processes
  read_request Endpoint.get_process id query body = Request.get_process id
  read_request Endpoint.pause_process id query body = Request.pause_process id
  read_request Endpoint.resume_process id query body = Request.resume_process id
  read_request Endpoint.wait_process id query body = Request.wait_process id
  read_request Endpoint.wake_process id query body = Request.wake_process id
  read_request Endpoint.kill_process id query body = Request.kill_process id
  read_request Endpoint.fail_process id query body = Request.fail_process id
  read_request Endpoint.start_simulation id query body = Request.start_simulation
  read_request Endpoint.pause_simulation id query body = Request.pause_simulation
  read_request Endpoint.step_simulation id query body =
      Request.step_simulation (read to_int (fields (int_tag "ticks" ∷ []) body))
  read_request Endpoint.reset_simulation id query body = Request.reset_simulation
  read_request Endpoint.simulation_status id query body = Request.simulation_status
  read_request Endpoint.load_scenario id query body =
      Request.load_scenario (decode_json codec codec.scenario body)
  read_request Endpoint.get_scheduler id query body = Request.get_scheduler
  read_request Endpoint.set_scheduler id query body =
      Request.set_scheduler (read to_text (fields (text_tag "name" ∷ []) body))
  read_request Endpoint.list_events id query body = Request.list_events
  read_request Endpoint.get_metrics id query body = Request.get_metrics
  read_request Endpoint.export_report id query body =
      Request.export_report (query_value "format" query)

  abbrev pub read_selected : String → Option J → Option (Endpoint × String) → Option Request
  read_selected query body none = none
  read_selected query body (some (endpoint, id)) = some (read_request endpoint id query body)

  abbrev pub receive_at : String → Option J → Option Target → Option Request
  receive_at method body none = none
  receive_at method body (some target) =
      read_selected target.query body (select method target.segments routes)

  -- The request that reaches a handler; `none` where the mux answers itself (a path or a method
  -- without a route), and for a target outside `parse_target`.
  unfoldable pub receive : Call J → Option Request
  unfolding parse_target select read_request
  receive call = receive_at call.method call.body (parse_target call.target)

-- The documented behaviour of encoding/json on the fields of a struct: values by their names, in
-- the order of the tags.
abbrev pub values : List Tag → List (String × Value) → List Value
values [] fields = []
values (text_tag name ∷ tags) fields = text (text_named name fields) ∷ values tags fields
values (int_tag name ∷ tags) fields = int (int_named name fields) ∷ values tags fields

-- Whether a struct has a field of this name and kind.
abbrev has_tag : String → Value → List Tag → Bool
has_tag key value [] = false
has_tag key (text t) (text_tag name ∷ tags) =
    let rest = has_tag key (text t) tags in if key == name then true else rest
has_tag key (int n) (int_tag name ∷ tags) =
    let rest = has_tag key (int n) tags in if key == name then true else rest
has_tag key value (_ ∷ tags) = has_tag key value tags

abbrev has_field : String → List (String × Value) → Bool
has_field key [] = false
has_field key ((name, _) ∷ fields) = key == name || has_field key fields

-- Whether the fields are distinct and all of them are fields of the struct.
abbrev pub fits : List Tag → List (String × Value) → Bool
fits tags [] = true
fits tags ((key, value) ∷ fields) =
    not (has_field key fields) && has_tag key value tags && fits tags fields

-- What is relied on: an object whose fields all fit a struct decodes to their values.
abbrev pub DecodesObjects : {J : Type 0} → Codec J → Type 0
DecodesObjects {J} codec =
    (tags : List Tag) (fields : List (String × Value))
    → fits tags fields ≡ true
    → HasIntFields fields
    → at_its_end codec.at_end (codec.object tags (codec.marshal fields)) ≡ some (values tags fields)
