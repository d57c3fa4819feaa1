-- ===== src/Commands/Clusterctl/Routing.antt =====
-- The calls of cmd/clusterctl/main.go, received by the routes of internal/transport/http/router.go.
use Prim.Native.String.{◌++◌}
use cs320_cluster_process_ma.Base.{
  ℤ, pos, String, List, [], ◌∷◌, string_eq, true, ◌≡◌, refl, none, some, IsInt, arith,
}
use cs320_cluster_process_ma.Base.Flags.{
  Value, text, int, Flags, text_named, int_named, parse_flags, HasIntFields,
}
use cs320_cluster_process_ma.Base.Flags.Ints.{int_named-IsInt, parse_flags-HasIntFields}
use cs320_cluster_process_ma.Base.Urls.{every, split, is_clean_segment, parse_target}
use cs320_cluster_process_ma.Base.Urls.Targets.{
  IsSegment, is_path_code, item_target, action_target, value_target, query_value-equals,
}
use cs320_cluster_process_ma.Transport.{Request}
use cs320_cluster_process_ma.Transport.Bodies.{
  Codec, DecodesObjects, decode_json, receive, Tag, text_tag, int_tag, node_tags, process_tags,
  fits, values,
}
use cs320_cluster_process_ma.Commands.Answers.{done}
use cs320_cluster_process_ma.Commands.Clusterctl.{
  Machine, Order, order, required_argument, command, node_flags, node_body, process_flags,
  process_body,
}
use cs320_cluster_process_ma.Commands.Clusterctl.Intent.{Asks, IsSmall, IsReceived}

module _ {J : Type 0} (m : Machine J) (codec : Codec J) where
  reaches :
      {args : List String} {r : Request} (o : Order J)
      → command m codec args ≡ done o
      → receive codec o.call ≡ some r
      → IsReceived m codec args r
  reaches o sent received = record { order = o; sent = sent; received = received }

  node_target :
      (suffix action id : String)
      → every is_path_code suffix ≡ true
      → split b'/' suffix ≡ "" ∷ action ∷ []
      → is_clean_segment action ≡ true
      → IsSegment id
      → parse_target ("/api/v1/nodes/" ++ (id ++ suffix))
        ≡ some (record { segments = "api" ∷ "v1" ∷ "nodes" ∷ id ∷ action ∷ []; query = "" })
  unfolding every split
  node_target suffix action id hs ending acting h =
      action_target "/api/v1/nodes/" suffix "nodes" action id refl hs refl ending refl acting h

  process_target :
      (suffix action id : String)
      → every is_path_code suffix ≡ true
      → split b'/' suffix ≡ "" ∷ action ∷ []
      → is_clean_segment action ≡ true
      → IsSegment id
      → parse_target ("/api/v1/processes/" ++ (id ++ suffix))
        ≡ some (record { segments = "api" ∷ "v1" ∷ "processes" ∷ id ∷ action ∷ []; query = "" })
  unfolding every split
  process_target suffix action id hs ending acting h =
      action_target "/api/v1/processes/" suffix "processes" action id refl hs refl ending refl
        acting h

  -- A body of fields decodes to their values.
  decode_json-marshal :
      (tags : List Tag) (fields : List (String × Value))
      → DecodesObjects codec
      → fits tags fields ≡ true
      → HasIntFields fields
      → IsSmall m codec (codec.marshal fields)
      → decode_json codec (codec.object tags) (some (codec.marshal fields))
        ≡ some (values tags fields)
  unfolding decode_json
  decode_json-marshal tags fields decodes same ints small =
      rw (small, decodes tags fields same ints) refl

  -- strconv.ParseInt answers integers of 64 bits.
  abbrev pub ParsesInts : Type 0
  ParsesInts = (t : String) (n : ℤ) → m.parse_int t ≡ some n → IsInt n

  module _ (decodes : DecodesObjects codec) (ints : ParsesInts) where
    -- The integer flags of a set that was declared with 0 or 1.
    flag-IsInt :
        (args rest : List String) (declared set : Flags)
        → HasIntFields declared
        → parse_flags m.parse_int args declared ≡ some (set, rest)
        → (name : String) → IsInt (int_named name set)
    flag-IsInt args rest declared set h e name =
        int_named-IsInt name set
          (parse_flags-HasIntFields m.parse_int ints args rest declared set h e)

    -- A command line of clusterctl that asks for a request by the usage sends a call, and the
    -- routes and decodeJSON of the API read that request from it: the method, the path, the
    -- identifier, the query and the fields of the body. The decoder reads an object whose fields
    -- fit a struct by their names, strconv.ParseInt answers integers of 64 bits, the identifiers
    -- and the format need no escape in a target, and a body of flags has at most 1 MiB.
    pub Asks-IsReceived :
        (args : List String) (r : Request) → Asks m codec args r → IsReceived m codec args r
    unfolding command receive required_argument every split
    Asks-IsReceived _ _ (Asks.list_nodes args) =
        reaches (order "GET" "/api/v1/nodes" none "") refl refl
    Asks-IsReceived _ _ (Asks.list_processes args) =
        reaches (order "GET" "/api/v1/processes" none "") refl refl
    Asks-IsReceived _ _ (Asks.get_scheduler args) =
        reaches (order "GET" "/api/v1/scheduler" none "") refl refl
    Asks-IsReceived _ _ (Asks.start_simulation args) =
        reaches (order "POST" "/api/v1/simulation/start" none "") refl refl
    Asks-IsReceived _ _ (Asks.pause_simulation args) =
        reaches (order "POST" "/api/v1/simulation/pause" none "") refl refl
    Asks-IsReceived _ _ (Asks.reset_simulation args) =
        reaches (order "POST" "/api/v1/simulation/reset" none "") refl refl
    Asks-IsReceived _ _ (Asks.simulation_status args) =
        reaches (order "GET" "/api/v1/simulation/status" none "") refl refl
    Asks-IsReceived _ _ (Asks.show_report args) =
        reaches (order "GET" "/api/v1/reports/summary" none "") refl refl
    Asks-IsReceived _ _ (Asks.list_events action args) =
        reaches (order "GET" "/api/v1/events" none "") refl refl
    Asks-IsReceived _ _ (Asks.get_metrics action args) =
        reaches (order "GET" "/api/v1/metrics" none "") refl refl
    Asks-IsReceived _ _ (Asks.fail_node id h) =
        reaches (order "POST" ("/api/v1/nodes/" ++ (id ++ "/fail")) none "") (rw h.given refl)
          (rw (node_target "/fail" "fail" id refl refl refl h.segment) refl)
    Asks-IsReceived _ _ (Asks.recover_node id h) =
        reaches (order "POST" ("/api/v1/nodes/" ++ (id ++ "/recover")) none "") (rw h.given refl)
          (rw (node_target "/recover" "recover" id refl refl refl h.segment) refl)
    Asks-IsReceived _ _ (Asks.heartbeat id h) =
        reaches (order "POST" ("/api/v1/nodes/" ++ (id ++ "/heartbeat")) none "") (rw h.given refl)
          (rw (node_target "/heartbeat" "heartbeat" id refl refl refl h.segment) refl)
    Asks-IsReceived _ _ (Asks.pause_process id h) =
        reaches (order "POST" ("/api/v1/processes/" ++ (id ++ "/pause")) none "") (rw h.given refl)
          (rw (process_target "/pause" "pause" id refl refl refl h.segment) refl)
    Asks-IsReceived _ _ (Asks.resume_process id h) =
        reaches (order "POST" ("/api/v1/processes/" ++ (id ++ "/resume")) none "") (rw h.given refl)
          (rw (process_target "/resume" "resume" id refl refl refl h.segment) refl)
    Asks-IsReceived _ _ (Asks.wait_process id h) =
        reaches (order "POST" ("/api/v1/processes/" ++ (id ++ "/wait")) none "") (rw h.given refl)
          (rw (process_target "/wait" "wait" id refl refl refl h.segment) refl)
    Asks-IsReceived _ _ (Asks.wake_process id h) =
        reaches (order "POST" ("/api/v1/processes/" ++ (id ++ "/wake")) none "") (rw h.given refl)
          (rw (process_target "/wake" "wake" id refl refl refl h.segment) refl)
    Asks-IsReceived _ _ (Asks.kill_process id h) =
        reaches (order "POST" ("/api/v1/processes/" ++ (id ++ "/kill")) none "") (rw h.given refl)
          (rw (process_target "/kill" "kill" id refl refl refl h.segment) refl)
    Asks-IsReceived _ _ (Asks.fail_process id h) =
        reaches (order "POST" ("/api/v1/processes/" ++ (id ++ "/fail")) none "") (rw h.given refl)
          (rw (process_target "/fail" "fail" id refl refl refl h.segment) refl)
    Asks-IsReceived _ _ (Asks.remove_node id h) =
        reaches (order "DELETE" ("/api/v1/nodes/" ++ id) none "") (rw h.given refl)
          (rw (item_target "/api/v1/nodes/" "nodes" id refl refl refl h.segment) refl)
    Asks-IsReceived _ _ (Asks.set_scheduler name given small) =
        reaches
          (order "PUT" "/api/v1/scheduler" (some (codec.marshal (("name", text name) ∷ []))) "")
          (rw given refl)
          (rw
            (decode_json-marshal (text_tag "name" ∷ []) (("name", text name) ∷ []) decodes refl tt
              small)
            refl)
    Asks-IsReceived _ _ (Asks.load_scenario path content body given readable valid) =
        reaches (order "POST" "/api/v1/simulation/scenarios" body "")
          (rw (given, readable, valid) refl) refl
    Asks-IsReceived _ _ (Asks.export_report args rest set same plain) =
        reaches
          (order "GET" ("/api/v1/reports/export?format=" ++ text_named "format" set) none
            (text_named "output" set))
          (rw same refl)
          (rw
            (
              value_target "/api/v1/reports/export?format=" "/api/v1/reports/export" "format"
                  (text_named "format" set) ("api" ∷ "v1" ∷ "reports" ∷ "export" ∷ []) refl refl
                  refl plain refl refl,
              query_value-equals "format" (text_named "format" set) refl refl plain refl,
            )
            refl)
    Asks-IsReceived _ _ (Asks.step args rest set same small) =
        let fields : Flags = ("ticks", int (int_named "ticks" set)) ∷ [] in
        let small_ints =
          flag-IsInt args rest (("ticks", int (pos 1)) ∷ []) set (ground arith) same in
        reaches (order "POST" "/api/v1/simulation/step" (some (codec.marshal fields)) "")
          (rw same refl)
          (rw
            (decode_json-marshal (int_tag "ticks" ∷ []) fields decodes refl (small_ints "ticks", tt)
              small)
            refl)
    Asks-IsReceived _ _ (Asks.set_status args set id same h small) =
        let fields : Flags = ("status", text (m.to_upper (text_named "status" set))) ∷ [] in
        reaches
          (order "PATCH" ("/api/v1/nodes/" ++ (id ++ "/status")) (some (codec.marshal fields)) "")
          (rw (same, h.given) refl)
          (rw
            (
              node_target "/status" "status" id refl refl refl h.segment,
              decode_json-marshal (text_tag "status" ∷ []) fields decodes refl tt small,
            )
            refl)
    Asks-IsReceived _ _ (Asks.add_node args rest set same small) =
        let number = flag-IsInt args rest (node_flags m codec) set (ground arith) same in
        reaches (order "POST" "/api/v1/nodes" (some (codec.marshal (node_body m codec set))) "")
          (rw same refl)
          (rw
            (decode_json-marshal node_tags (node_body m codec set) decodes refl
              (number "cpu", (number "memory", tt)) small)
            refl)
    Asks-IsReceived _ _ (Asks.submit_process args rest set same small) =
        let number = flag-IsInt args rest (process_flags m codec) set (ground arith) same in
        reaches
          (order "POST" "/api/v1/processes" (some (codec.marshal (process_body m codec set))) "")
          (rw same refl)
          (rw
            (decode_json-marshal process_tags (process_body m codec set) decodes refl
              (
                number "cpu",
                (
                  number "memory",
                  (number "ticks", (number "priority", (number "max-restarts", tt))),
                ),
              )
              small)
            refl)
