-- ===== src/Transport/Routes.antt =====
-- internal/transport/http/router.go: the table of routes, and json.go: decodeJSON. The patterns of
-- http.ServeMux are literal segments and `{id}`, and GET also serves HEAD.
pub mod Unique
use cs320_cluster_process_ma.Base.{
  ℕ, ℤ, pos, String, List, [], ◌∷◌, Bool, true, false, ◌&&◌, ◌||◌, Option, none, some, leb, ◌==◌,
  string_eq, if◌then◌else◌,
}
use cs320_cluster_process_ma.Base.Urls.{Target, parse_target, query_value}
use cs320_cluster_process_ma.Domain.Types.{RestartPolicy, NodeStatus}
use cs320_cluster_process_ma.Domain.Process.{ProcessDefinition}
use cs320_cluster_process_ma.Domain.Node.{NodeDefinition}
use cs320_cluster_process_ma.Domain.Scenario.{Scenario}
use cs320_cluster_process_ma.Transport.{Request}

pub data Segment : Type 0 where
  lit : String → Segment
  id : Segment

-- The methods of API that the routes name.
pub data Endpoint : Type 0 where
  health create_node list_nodes get_node delete_node change_node_status : Endpoint
  fail_node recover_node heartbeat : Endpoint
  create_process list_processes get_process pause_process resume_process : Endpoint
  wait_process wake_process kill_process fail_process : Endpoint
  start_simulation pause_simulation step_simulation reset_simulation : Endpoint
  simulation_status load_scenario : Endpoint
  get_scheduler set_scheduler list_events get_metrics export_report : Endpoint

pub record Route : Type 0 where
  pub method : String
  pub pattern : List Segment
  pub endpoint : Endpoint

abbrev route : String → List Segment → Endpoint → Route
route method pattern endpoint = record { method = method; pattern = pattern; endpoint = endpoint }

-- `/api/v1` before a path.
abbrev api : List Segment → List Segment
api rest = lit "api" ∷ lit "v1" ∷ rest

abbrev node_action : String → List Segment
node_action action = api (lit "nodes" ∷ id ∷ lit action ∷ [])

abbrev process_action : String → List Segment
process_action action = api (lit "processes" ∷ id ∷ lit action ∷ [])

abbrev simulation : String → List Segment
simulation action = api (lit "simulation" ∷ lit action ∷ [])

-- routes
abbrev pub routes : List Route
routes =
    route "GET" (lit "healthz" ∷ []) health
    ∷ route "POST" (api (lit "nodes" ∷ [])) create_node
    ∷ route "GET" (api (lit "nodes" ∷ [])) list_nodes
    ∷ route "GET" (api (lit "nodes" ∷ id ∷ [])) get_node
    ∷ route "DELETE" (api (lit "nodes" ∷ id ∷ [])) delete_node
    ∷ route "PATCH" (node_action "status") change_node_status
    ∷ route "POST" (node_action "fail") fail_node
    ∷ route "POST" (node_action "recover") recover_node
    ∷ route "POST" (node_action "heartbeat") heartbeat
    ∷ route "POST" (api (lit "processes" ∷ [])) create_process
    ∷ route "GET" (api (lit "processes" ∷ [])) list_processes
    ∷ route "GET" (api (lit "processes" ∷ id ∷ [])) get_process
    ∷ route "POST" (process_action "pause") pause_process
    ∷ route "POST" (process_action "resume") resume_process
    ∷ route "POST" (process_action "wait") wait_process
    ∷ route "POST" (process_action "wake") wake_process
    ∷ route "POST" (process_action "kill") kill_process
    ∷ route "POST" (process_action "fail") fail_process
    ∷ route "POST" (simulation "start") start_simulation
    ∷ route "POST" (simulation "pause") pause_simulation
    ∷ route "POST" (simulation "step") step_simulation
    ∷ route "POST" (simulation "reset") reset_simulation
    ∷ route "GET" (simulation "status") simulation_status
    ∷ route "POST" (simulation "scenarios") load_scenario
    ∷ route "GET" (api (lit "scheduler" ∷ [])) get_scheduler
    ∷ route "PUT" (api (lit "scheduler" ∷ [])) set_scheduler
    ∷ route "GET" (api (lit "events" ∷ [])) list_events
    ∷ route "GET" (api (lit "metrics" ∷ [])) get_metrics
    ∷ route "GET" (api (lit "reports" ∷ lit "summary" ∷ [])) get_metrics
    ∷ route "GET" (api (lit "reports" ∷ lit "export" ∷ [])) export_report
    ∷ []

abbrev pub found : String → Option String → Option String
found segment none = none
found segment (some _) = some segment

-- The value of `{id}` where a pattern matches a path, and the empty text where it has none.
unfoldable pub capture : List Segment → List String → Option String
capture [] [] = some ""
capture (lit text ∷ pattern) (segment ∷ path) =
    let rest = capture pattern path in if segment == text then rest else none
capture (id ∷ pattern) (segment ∷ path) = found segment (capture pattern path)
capture _ _ = none

unfoldable pub serves_method : String → String → Bool
serves_method method wanted = wanted == method || (method == "GET" && wanted == "HEAD")

abbrev pub accepted : Bool → Endpoint → Option String → Option (Endpoint × String)
accepted true endpoint (some value) = some (endpoint, value)
accepted _ endpoint _ = none

-- What a route makes of a method and a path.
unfoldable pub accept : String → List String → Route → Option (Endpoint × String)
unfolding serves_method capture
accept method path r = accepted (serves_method r.method method) r.endpoint (capture r.pattern path)

abbrev or_next :
    Option (Endpoint × String) → Option (Endpoint × String) → Option (Endpoint × String)
or_next none next = next
or_next (some result) next = some result

unfoldable pub select : String → List String → List Route → Option (Endpoint × String)
unfolding accept
select method path [] = none
select method path (r ∷ rs) =
    let rest = select method path rs in or_next (accept method path r) rest
