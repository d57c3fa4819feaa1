-- ===== src/Commands/Clusterctl.antt =====
-- cmd/clusterctl/main.go. The arguments become an order, the call that `request` is to make; the
-- network, the files and strings.ToUpper are parameters.
pub mod Exchange
pub mod Intent
pub mod Routing
pub mod Delivery
use Prim.Native.String.{◌++◌}
use cs320_cluster_process_ma.Base.{
  ℕ, ℤ, pos, String, List, [], ◌∷◌, ◌==◌, string_eq, Bool, true, false, ◌||◌, not, Option, none,
  some, ltb, leb, nat_beq, trim_space, if◌then◌else◌,
}
use cs320_cluster_process_ma.Base.Flags.{
  Value, text, int, Flags, text_named, int_named, parse_flags,
}
use cs320_cluster_process_ma.Base.Urls.{trim_end}
use cs320_cluster_process_ma.Commands.Answers.{Answer, done, failed, or_fail, ◌>>=◌}
use cs320_cluster_process_ma.Transport.Bodies.{Codec, Call}

-- The errors: of flag.Parse, of usageError and requiredArgument, and of the calls.
pub data Failure : Type 0 where
  flags usage required file json network write : Failure
  api : ℕ → Failure

-- The arguments of the method `request`.
pub record Order (J : Type 0) : Type 0 where
  pub call : Call J
  pub output : String

-- strconv.ParseInt with base 0, strings.ToUpper, os.ReadFile, and json.Unmarshal into an `any`
-- that json.Marshal encodes again: `none` is an error, and `some none` the value null.
pub record Machine (J : Type 0) : Type 0 where
  pub parse_int : String → Option ℤ
  pub to_upper : String → String
  pub read_file : String → Option J
  pub reencode : J → Option (Option J)

-- requiredArgument
unfoldable pub required_argument : List String → Answer Failure String
required_argument (argument ∷ []) =
    if trim_space argument == "" then failed required else done argument
required_argument _ = failed required

-- `if *name == "" { *name = *id }`
abbrev pub or_id : String → String → String
or_id name id = if name == "" then id else name

abbrev one_of : String → List String → Bool
one_of action [] = false
one_of action (a ∷ actions) = action == a || one_of action actions

module _ {J : Type 0} where
  abbrev pub order : String → String → Option J → String → Order J
  order method target body output = record {
    call = record { method = method; target = target; body = body };
    output = output;
  }

  abbrev plain : String → String → Answer Failure (Order J)
  plain method target = done (order method target none "")

  module _ (m : Machine J) (codec : Codec J) where
    -- newFlags, the declarations, and Parse.
    abbrev parsed : Flags → List String → Answer Failure (Flags × List String)
    parsed declared args = or_fail (parse_flags m.parse_int args declared) flags

    abbrev send : String → String → List (String × Value) → Answer Failure (Order J)
    send method target fields = done (order method target (some (codec.marshal fields)) "")

    abbrev pub node_flags : Flags
    node_flags =
        ("id", text "") ∷ ("name", text "") ∷ ("cpu", int (pos 0)) ∷ ("memory", int (pos 0)) ∷ []

    abbrev pub node_body : Flags → List (String × Value)
    node_body set =
        let id = text_named "id" set in
        ("id", text id)
        ∷ ("name", text (or_id (text_named "name" set) id))
        ∷ ("cpuCapacity", int (int_named "cpu" set))
        ∷ ("memoryCapacityMB", int (int_named "memory" set))
        ∷ []

    -- client.node
    unfoldable pub node : String → List String → Answer Failure (Order J)
    unfolding parse_flags required_argument
    node action args =
        if action == "add"
        then (do (set, rest) ← parsed node_flags args; send "POST" "/api/v1/nodes" (node_body set))
        else if action == "list"
        then plain "GET" "/api/v1/nodes"
        else if one_of action ("fail" ∷ "recover" ∷ "heartbeat" ∷ [])
        then (do
          id ← required_argument args
          plain "POST" ("/api/v1/nodes/" ++ (id ++ ("/" ++ action))))
        else if action == "remove"
        then (do id ← required_argument args; plain "DELETE" ("/api/v1/nodes/" ++ id))
        else if action == "status"
        then (do
          (set, rest) ← parsed (("status", text "") ∷ []) args
          id ← required_argument rest
          send "PATCH" ("/api/v1/nodes/" ++ (id ++ "/status"))
              (("status", text (m.to_upper (text_named "status" set))) ∷ []))
        else failed usage

    abbrev pub process_flags : Flags
    process_flags =
        ("id", text "")
        ∷ ("name", text "")
        ∷ ("cpu", int (pos 0))
        ∷ ("memory", int (pos 0))
        ∷ ("ticks", int (pos 0))
        ∷ ("priority", int (pos 0))
        ∷ ("restart", text "NEVER")
        ∷ ("max-restarts", int (pos 0))
        ∷ []

    abbrev pub process_body : Flags → List (String × Value)
    process_body set =
        let id = text_named "id" set in
        ("id", text id)
        ∷ ("name", text (or_id (text_named "name" set) id))
        ∷ ("cpuRequest", int (int_named "cpu" set))
        ∷ ("memoryRequestMB", int (int_named "memory" set))
        ∷ ("totalTicks", int (int_named "ticks" set))
        ∷ ("priority", int (int_named "priority" set))
        ∷ ("restartPolicy", text (m.to_upper (text_named "restart" set)))
        ∷ ("maxRestarts", int (int_named "max-restarts" set))
        ∷ []

    -- client.process
    unfoldable pub process : String → List String → Answer Failure (Order J)
    unfolding parse_flags required_argument
    process action args =
        if action == "submit"
        then (do
          (set, rest) ← parsed process_flags args
          send "POST" "/api/v1/processes" (process_body set))
        else if action == "list"
        then plain "GET" "/api/v1/processes"
        else if one_of action ("pause" ∷ "resume" ∷ "wait" ∷ "wake" ∷ "kill" ∷ "fail" ∷ [])
        then (do
          id ← required_argument args
          plain "POST" ("/api/v1/processes/" ++ (id ++ ("/" ++ action))))
        else failed usage

    -- client.scheduler
    unfoldable pub scheduler : String → List String → Answer Failure (Order J)
    unfolding required_argument
    scheduler action args =
        if action == "get"
        then plain "GET" "/api/v1/scheduler"
        else if action == "set"
        then (do
          name ← required_argument args
          send "PUT" "/api/v1/scheduler" (("name", text name) ∷ []))
        else failed usage

    -- client.simulation
    unfoldable pub simulation : String → List String → Answer Failure (Order J)
    unfolding parse_flags required_argument
    simulation action args =
        if action == "step"
        then (do
          (set, rest) ← parsed (("ticks", int (pos 1)) ∷ []) args
          send "POST" "/api/v1/simulation/step" (("ticks", int (int_named "ticks" set)) ∷ []))
        else if one_of action ("start" ∷ "pause" ∷ "reset" ∷ [])
        then plain "POST" ("/api/v1/simulation/" ++ action)
        else if action == "status"
        then plain "GET" "/api/v1/simulation/status"
        else if action == "load"
        then (do
          path ← required_argument args
          content ← or_fail (m.read_file path) file
          scenario ← or_fail (m.reencode content) json
          done (order "POST" "/api/v1/simulation/scenarios" scenario ""))
        else failed usage

    -- client.report
    unfoldable pub report : String → List String → Answer Failure (Order J)
    unfolding parse_flags
    report action args =
        if action == "show"
        then plain "GET" "/api/v1/reports/summary"
        else if action == "export"
        then (do
          (set, rest) ← parsed (("format", text "json") ∷ ("output", text "") ∷ []) args
          done (
              order "GET" ("/api/v1/reports/export?format=" ++ text_named "format" set) none
                (text_named "output" set)))
        else failed usage

    -- The switch of run.
    unfoldable pub command : List String → Answer Failure (Order J)
    unfolding node process scheduler simulation report
    command (group ∷ action ∷ args) =
        if group == "node"
        then node action args
        else if group == "process"
        then process action args
        else if group == "scheduler"
        then scheduler action args
        else if group == "simulation"
        then simulation action args
        else if group == "report"
        then report action args
        else if group == "events"
        then plain "GET" "/api/v1/events"
        else if group == "metrics"
        then plain "GET" "/api/v1/metrics"
        else failed usage
    command _ = failed usage
