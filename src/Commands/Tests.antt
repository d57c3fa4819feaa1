-- ===== src/Commands/Tests.antt =====
-- Runs of the commands, and the theorems applied to them.
use cs320_cluster_process_ma.Base.{
  ◌≤◌, pos, String, List, [], ◌∷◌, Bool, true, false, Option, none, some, ◌≡◌, ◌↔◌, refl, arith,
  if◌then◌else◌, string_eq, trim_space, to_lower, decimal_int, lookup, int64,
}
use cs320_cluster_process_ma.Base.Numbers.{parse_int, parse_int-IsInt}
use cs320_cluster_process_ma.Base.Flags.{Value, text, int, Flags, parse_flags}
use cs320_cluster_process_ma.Base.Urls.{every}
use cs320_cluster_process_ma.Controller.State.{new_controller}
use cs320_cluster_process_ma.Controller.Tests.{unit_float, empty, empty-IsConsistent}
use cs320_cluster_process_ma.Scheduler.{new_scheduler, chosen, least_loaded, name}
use cs320_cluster_process_ma.Domain.Cluster.{new_cluster}
use cs320_cluster_process_ma.Controller.Processes.{kill_process}
use cs320_cluster_process_ma.Transport.Answers.{status_for_error}
use cs320_cluster_process_ma.Engine.{new_engine}
use cs320_cluster_process_ma.Engine.Files.{Source}
use cs320_cluster_process_ma.Transport.{Request, handle}
use cs320_cluster_process_ma.Transport.Bodies.{Codec, Tag, DecodesObjects, receive, values, fits}
use cs320_cluster_process_ma.Transport.Routes.{routes}
use cs320_cluster_process_ma.Transport.Routes.Unique.{takers, takers-routes}
use cs320_cluster_process_ma.Transport.Tests.{stop_now, stop_now_lem, small, server, busy}
use cs320_cluster_process_ma.Metrics.{build}
use cs320_cluster_process_ma.Metrics.Export.{Encoders, row}
use cs320_cluster_process_ma.Metrics.Export.Columns.{IsTabulated, row-IsTabulated}
use cs320_cluster_process_ma.Commands.Answers.{done, failed, Holds}
use cs320_cluster_process_ma.Commands.Clusterctl.{Machine, Failure}
use cs320_cluster_process_ma.Commands.Clusterctl.Exchange.{Network, Reply, run}
use cs320_cluster_process_ma.Commands.Clusterctl.Intent.{Asks, IsReceived, IsIdentifier}
use cs320_cluster_process_ma.Commands.Clusterctl.Routing.{Asks-IsReceived}
use cs320_cluster_process_ma.Commands.Clusterctl.Delivery.{LeadsTo, run-refused}
use cs320_cluster_process_ma.Commands.Server.{Configuration, boot, env, milliseconds}
use cs320_cluster_process_ma.Transport.Setup.{Api, new_handler}
use cs320_cluster_process_ma.Commands.Server.{int_from_env}
use cs320_cluster_process_ma.Commands.Server.Settings.{int_from_env-written, or_fallback}
use cs320_cluster_process_ma.Commands.Server.Environment.{boot-succeeds_iff}
use cs320_cluster_process_ma.Commands.Server.Boot.{IsBootable, IsBootable-boot, api_of}
use cs320_cluster_process_ma.Commands.Server.Started.{IsConfigured, boot-IsConfigured}
use cs320_cluster_process_ma.Commands.Simulator.{reported}
use cs320_cluster_process_ma.Commands.Simulator.Reporting.{
  DecodesInts, IsFinalReport, reported-IsFinalReport,
}

-- Bodies as the fields that they hold.
abbrev decode_fields : List Tag → Flags → Option (List Value × Flags)
decode_fields tags body = if fits tags body then some (values tags body, []) else none

abbrev is_nil : Flags → Bool
is_nil [] = true
is_nil _ = false

abbrev fields_codec : Codec Flags
fields_codec = record {
  marshal = λ fields. fields;
  object = decode_fields;
  scenario = λ body. some (small, []);
  at_end = is_nil;
  size = λ body. 0;
}

fields_codec-DecodesObjects : DecodesObjects fields_codec
fields_codec-DecodesObjects tags fields h ints = rw h refl

abbrev plain_machine : Machine Flags
plain_machine = record {
  parse_int = parse_int;
  to_upper = λ s. s;
  read_file = λ path. none;
  reencode = λ body. some (some body);
}

abbrev add_arguments : List String
add_arguments = "-id" ∷ "a" ∷ "-cpu=4" ∷ "--memory" ∷ "100" ∷ []

abbrev added : Flags
added = ("id", text "a") ∷ ("name", text "") ∷ ("cpu", int (pos 4)) ∷ ("memory", int (pos 100)) ∷ []

add_arguments_parse :
    parse_flags parse_int add_arguments
      (("id", text "") ∷ ("name", text "") ∷ ("cpu", int (pos 0)) ∷ ("memory", int (pos 0)) ∷ [])
    ≡ some (added, [])
unfolding parse_flags parse_int
add_arguments_parse = refl

Asks-IsReceived_example : IsReceived plain_machine fields_codec ("node" ∷ "add" ∷ add_arguments) (
    Request.create_node
      (some (record { id = "a"; name = "a"; cpu_capacity = pos 4; memory_capacity_mb = pos 100 })))
Asks-IsReceived_example =
    Asks-IsReceived plain_machine fields_codec fields_codec-DecodesObjects parse_int-IsInt
      ("node" ∷ "add" ∷ add_arguments) _
      (Asks.add_node add_arguments [] added add_arguments_parse refl)

takers-routes_example : takers "GET" ("api" ∷ "v1" ∷ "nodes" ∷ "a" ∷ []) routes ≤ 1
takers-routes_example = takers-routes "GET" ("api" ∷ "v1" ∷ "nodes" ∷ "a" ∷ [])

-- A network that hands each call to the API.
abbrev answered : Option Request → Option (Reply Flags)
answered none = some (record { status = 404; is_json = false; body = [] })
answered (some r) =
    some (record { status = (handle stop_now r server).0.status; is_json = true; body = [] })

abbrev direct_network : Network Flags
direct_network = record {
  exchange = λ base call. answered (receive fields_codec call);
  take = λ limit body. body;
  indent = λ body. some body;
  writes = λ path body. true;
}

direct_network-LeadsTo : (base : String) → LeadsTo stop_now fields_codec direct_network base server
direct_network-LeadsTo base call r h = rw h (_, refl, refl)

x-IsIdentifier : IsIdentifier "x"
unfolding every trim_space
x-IsIdentifier = record { segment = record { codes = refl; clean = refl }; given = refl }

killed_parse :
    parse_flags parse_int
      ("process" ∷ "kill" ∷ "x" ∷ [])
      (("server", text "http://localhost:8080") ∷ [])
    ≡ some (("server", text "http://localhost:8080") ∷ [], "process" ∷ "kill" ∷ "x" ∷ [])
unfolding parse_flags
killed_parse = refl

killed_run :
    run plain_machine fields_codec direct_network ("process" ∷ "kill" ∷ "x" ∷ [])
    ≡ failed (Failure.api 404)
unfolding run receive handle kill_process lookup status_for_error new_cluster trim_space
killed_run = refl

run-refused_example :
    (run plain_machine fields_codec direct_network ("process" ∷ "kill" ∷ "x" ∷ [])
      ≡ failed (Failure.api 404))
    ↔ ((404 ≡ (handle stop_now (Request.kill_process "x") server).0.status)
        × (400 ≤ 404)
        × ((handle stop_now (Request.kill_process "x") server).1 ≡ server))
run-refused_example =
    run-refused plain_machine fields_codec direct_network stop_now stop_now_lem
      ("process" ∷ "kill" ∷ "x" ∷ []) ("process" ∷ "kill" ∷ "x" ∷ [])
      (("server", text "http://localhost:8080") ∷ []) (Request.kill_process "x") server 404
      fields_codec-DecodesObjects parse_int-IsInt killed_parse
      (Asks.kill_process "x" x-IsIdentifier) (direct_network-LeadsTo "http://localhost:8080") tt
      empty-IsConsistent

-- An environment without variables.
abbrev no_variables : String → String
no_variables name = ""

no_variables-IsBootable : IsBootable no_variables
unfolding env parse_int decimal_int new_scheduler trim_space to_lower chosen
no_variables-IsBootable = record {
  duration = pos 500;
  timeout = pos 0;
  nodes = pos 100;
  processes = pos 10_000;
  seed = pos 42;
  scheduler = least_loaded;
  duration_read = refl;
  timeout_read = refl;
  nodes_read = refl;
  processes_read = refl;
  seed_read = refl;
  duration_positive = refl;
  timeout_natural = refl;
  nodes_natural = refl;
  processes_natural = refl;
  known = refl;
}

boot-succeeds_iff_example : IsBootable no_variables ↔ (
    (configuration : Configuration) × (api : Api Unit) × (boot Unit no_variables
      ≡ done (configuration, api)))
boot-succeeds_iff_example = boot-succeeds_iff Unit no_variables

-- Both sides hold there.
boot-no_variables :
    (configuration : Configuration) × (api : Api Unit) × (boot Unit no_variables
      ≡ done (configuration, api))
boot-no_variables = IsBootable-boot Unit no_variables no_variables-IsBootable

abbrev default_configuration : Configuration
default_configuration = record {
  port = "8080";
  log_level = "info";
  tick_duration = pos 500_000_000;
  heartbeat_timeout_ticks = pos 0;
  default_scheduler = "least-loaded";
  max_nodes = pos 100;
  max_processes = pos 10_000;
  seed = pos 42;
}

abbrev default_api : Api Unit
default_api = api_of Unit empty server

default_boot : boot Unit no_variables ≡ done (default_configuration, default_api)
unfolding boot env parse_int decimal_int new_scheduler trim_space to_lower chosen new_controller
    new_cluster name new_engine new_handler milliseconds int64
default_boot = refl

boot-IsConfigured_example : IsConfigured no_variables default_configuration default_api
boot-IsConfigured_example =
    boot-IsConfigured no_variables default_configuration default_api default_boot

abbrev small_source : Source Unit
small_source = record {
  open_file = λ path. some tt;
  limit = λ n reader. reader;
  decode = λ reader. some (small, tt);
}

small_source-DecodesInts : DecodesInts small_source
small_source-DecodesInts body rest s h =
    let same : small ≡ s = ground arith in
    rw (← same) ((omega arith, omega arith), (omega arith, omega arith), tt)

reported-IsFinalReport_example :
    Holds
      (IsFinalReport stop_now small_source parse_int ("-seed" ∷ "7" ∷ []))
      (reported stop_now small_source parse_int ("-seed" ∷ "7" ∷ []))
reported-IsFinalReport_example =
    reported-IsFinalReport stop_now stop_now_lem small_source small_source-DecodesInts parse_int
      ("-seed" ∷ "7" ∷ [])

abbrev text_encoders : Encoders Unit (List (List String))
text_encoders = record {
  format_float = λ x. "0.000000";
  csv_records = λ records. records;
  json = λ report. [];
}

row-IsTabulated_example : IsTabulated busy (row text_encoders (build busy))
row-IsTabulated_example = row-IsTabulated text_encoders busy (omega arith)

int_from_env-written_example :
    int_from_env no_variables "MAX_NODES" (pos 100) ≡ done (or_fallback none (pos 100))
int_from_env-written_example =
    int_from_env-written no_variables "MAX_NODES" (pos 100) none (omega arith, omega arith) tt refl
