-- ===== src/Commands/Server.antt =====
-- cmd/server/main.go. The environment is a function, with the empty text for a variable that is
-- not set; how the server ends is the parameter `Ending`. The timeouts of the http.Server and what
-- the logger prints are left out.
pub mod Boot
pub mod Started
pub mod Settings
pub mod Environment
use cs320_cluster_process_ma.Base.{
  ℕ, suc, ◌*◌, ◌-◌, ℤ, pos, negsuc, int64, leb_ℤ, String, ◌==◌, string_eq, Option, none, some,
  if◌then◌else◌, Float, Result, ok, err, panic, Error, decimal_int, Bool, true, false,
}
use cs320_cluster_process_ma.Base.Numbers.{parse_int}
use cs320_cluster_process_ma.Controller.State
use cs320_cluster_process_ma.Controller.State.{Controller, new_controller}
use cs320_cluster_process_ma.Engine.{Engine, new_engine}
use cs320_cluster_process_ma.Transport.Setup.{Pointer, Attached, Api, new_handler}
use cs320_cluster_process_ma.Commands.Answers.{
  Answer, done, failed, crashed, or_fail, or_error, fail_if, ◌>>=◌, ◌>>◌,
}

-- The errors, with the name of the variable where one is at fault.
pub data Failure : Type 0 where
  not_integer not_positive : String → Failure
  internal : Error → Failure
  listen shutdown : Failure

pub record Configuration : Type 0 where
  pub port : String
  pub log_level : String
  pub tick_duration : ℤ
  pub heartbeat_timeout_ticks : ℤ
  pub default_scheduler : String
  pub max_nodes : ℤ
  pub max_processes : ℤ
  pub seed : ℤ

-- `time.Duration(value) * time.Millisecond`, in nanoseconds.
unfoldable pub milliseconds : ℤ → ℤ
milliseconds (pos n) = int64 (pos (n * 1_000_000))
milliseconds (negsuc n) = int64 (negsuc (suc n * 1_000_000 - 1))

module _ (getenv : String → String) where
  unfoldable pub env : String → String → String
  env name fallback = if getenv name == "" then fallback else getenv name

  -- intFromEnv and int64FromEnv: `int` has 64 bits.
  unfoldable pub int_from_env : String → ℤ → Answer Failure ℤ
  unfolding env
  int_from_env name fallback =
      or_fail (parse_int (env name (decimal_int fallback))) (not_integer name)

  unfoldable pub duration_from_milliseconds : String → ℤ → Answer Failure ℤ
  unfolding int_from_env
  duration_from_milliseconds name fallback = do
    value ← int_from_env name fallback
    fail_if (leb_ℤ value (pos 0)) (not_positive name)
    done (milliseconds value)

  -- loadConfig
  unfoldable pub load_config : Answer Failure Configuration
  unfolding env int_from_env duration_from_milliseconds
  load_config = do
    tick_duration ← duration_from_milliseconds "TICK_DURATION_MS" (pos 500)
    heartbeat_timeout_ticks ← int_from_env "HEARTBEAT_TIMEOUT_TICKS" (pos 0)
    max_nodes ← int_from_env "MAX_NODES" (pos 100)
    max_processes ← int_from_env "MAX_PROCESSES" (pos 10_000)
    seed ← int_from_env "RANDOM_SEED" (pos 42)
    done (record {
      port = env "APP_PORT" "8080";
      log_level = env "LOG_LEVEL" "info";
      tick_duration = tick_duration;
      heartbeat_timeout_ticks = heartbeat_timeout_ticks;
      default_scheduler = env "DEFAULT_SCHEDULER" "least-loaded";
      max_nodes = max_nodes;
      max_processes = max_processes;
      seed = seed;
    })

abbrev pub cluster_config : Configuration → State.Config
cluster_config c = record {
  scheduler = c.default_scheduler;
  seed = c.seed;
  heartbeat_timeout_ticks = c.heartbeat_timeout_ticks;
  max_nodes = c.max_nodes;
  max_processes = c.max_processes;
}

-- How the select ends: by the signal, or by an error of ListenAndServe, that of a closed server
-- or another one; and whether Shutdown succeeds.
pub data Ending : Type 0 where
  signalled : (shut_down : Bool) → Ending
  served : (closed shut_down : Bool) → Ending

abbrev shut : Bool → Answer Failure Unit
shut true = done tt
shut false = failed shutdown

module _ (F : Type 0) ⦃f : Float F⦄ where
  -- run up to the http.Server. The controller is the first that the program allocates, and the
  -- engine and the handler are given the same pointer to it.
  unfoldable pub boot : (String → String) → Answer Failure (Configuration × Api F)
  unfolding load_config
  boot getenv = do
    configuration ← load_config getenv
    made ← or_error (new_controller F (cluster_config configuration)) internal
    let controller : Pointer F = record { address = 0; target = made }
    e ← or_error (new_engine (some controller.target) configuration.tick_duration) internal
    let simulation_engine : Attached F = record { address = controller.address; engine = e }
    api ← or_error (new_handler (some controller) (some simulation_engine)) internal
    done (configuration, api)

  -- run behind the select.
  abbrev pub ended : Ending → Answer Failure Unit
  ended (signalled shut_down) = shut shut_down
  ended (served false shut_down) = failed listen
  ended (served true shut_down) = shut shut_down

  -- run, with what serving the API at a port leads to.
  unfoldable pub run : (String → String) → (String → Api F → Ending) → Answer Failure Unit
  unfolding boot
  run getenv serve = do (configuration, api) ← boot getenv; ended (serve configuration.port api)
