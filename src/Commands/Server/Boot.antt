-- ===== src/Commands/Server/Boot.antt =====
-- cmd/server/main.go: an environment that the server can start in, and the start.
use cs320_cluster_process_ma.Base.{
  ℕ, ◌≤◌, ℤ, pos, negsuc, if◌then◌else◌, leb_ℤ, ltb_ℤ, eqb_ℤ, ◌==◌, string_eq, String, true, false,
  ◌≡◌, refl, ap, ok_inj, some, ok, Float, decimal_int, arith, inl, inr, Bool-cases,
}
use cs320_cluster_process_ma.Base.Numbers.{parse_int}
use cs320_cluster_process_ma.Scheduler.{Scheduler, new_scheduler}
use cs320_cluster_process_ma.Controller.State
use cs320_cluster_process_ma.Controller.State.{Controller, new_controller}
use cs320_cluster_process_ma.Engine.{Engine, new_engine}
use cs320_cluster_process_ma.Transport.Setup.{Api, new_handler}
use cs320_cluster_process_ma.Commands.Answers.{done}
use cs320_cluster_process_ma.Commands.Server.{
  Configuration, env, load_config, milliseconds, cluster_config, boot,
}

-- What New makes of the controller is what it keeps.
new_engine-controller :
    {F : Type 0} (c : Controller F) (duration : ℤ) (e : Engine F)
    → new_engine (some c) duration ≡ ok e
    → c ≡ e.controller
unfolding new_engine
new_engine-controller c duration e h = ap (λ d. d.controller) (ok_inj _ e h)

new_engine-accepts :
    {F : Type 0} (c : Controller F) (duration : ℤ)
    → (e : Engine F) × (new_engine (some c) duration ≡ ok e)
unfolding new_engine
new_engine-accepts c duration = (_, refl)

-- The variable, or the number that stands for it, is a number.
abbrev pub Reads : (String → String) → String → ℤ → ℤ → Type 0
Reads getenv name fallback value = parse_int (env getenv name (decimal_int fallback)) ≡ some value

-- An environment that the server can start in.
pub record IsBootable (getenv : String → String) : Type 0 where
  pub duration : ℤ
  pub timeout : ℤ
  pub nodes : ℤ
  pub processes : ℤ
  pub seed : ℤ
  pub scheduler : Scheduler
  pub duration_read : Reads getenv "TICK_DURATION_MS" (pos 500) duration
  pub timeout_read : Reads getenv "HEARTBEAT_TIMEOUT_TICKS" (pos 0) timeout
  pub nodes_read : Reads getenv "MAX_NODES" (pos 100) nodes
  pub processes_read : Reads getenv "MAX_PROCESSES" (pos 10_000) processes
  pub seed_read : Reads getenv "RANDOM_SEED" (pos 42) seed
  pub duration_positive : ltb_ℤ (pos 0) duration ≡ true
  pub timeout_natural : leb_ℤ (pos 0) timeout ≡ true
  pub nodes_natural : leb_ℤ (pos 0) nodes ≡ true
  pub processes_natural : leb_ℤ (pos 0) processes ≡ true
  pub known : new_scheduler (env getenv "DEFAULT_SCHEDULER" "least-loaded") ≡ ok scheduler

-- The configuration that it describes.
abbrev described : (getenv : String → String) → IsBootable getenv → Configuration
described getenv b = record {
  port = env getenv "APP_PORT" "8080";
  log_level = env getenv "LOG_LEVEL" "info";
  tick_duration = milliseconds b.duration;
  heartbeat_timeout_ticks = b.timeout;
  default_scheduler = env getenv "DEFAULT_SCHEDULER" "least-loaded";
  max_nodes = b.nodes;
  max_processes = b.processes;
  seed = b.seed;
}

not_above : (n : ℤ) → ltb_ℤ (pos 0) n ≡ true → leb_ℤ n (pos 0) ≡ false
not_above n h = ground arith

not_below : (n : ℤ) → leb_ℤ (pos 0) n ≡ true → ltb_ℤ n (pos 0) ≡ false
not_below n h = ground arith

-- A limit that is 0 becomes the default, which is positive.
limit_of_natural :
    (n : ℤ) (limit : ℕ)
    → leb_ℤ (pos 0) n ≡ true
    → 1 ≤ limit
    → ltb_ℤ (if eqb_ℤ n (pos 0) then pos limit else n) (pos 1) ≡ false
limit_of_natural (pos n) limit h k = ground arith
limit_of_natural (negsuc n) limit h k = ground arith

pub env_ne :
    (getenv : String → String) (name fallback : String)
    → (fallback == "") ≡ false
    → (env getenv name fallback == "") ≡ false
unfolding env
env_ne getenv name fallback h = elim (Bool-cases (getenv name == "")) [
  | inl e ↦ rw e h
  | inr e ↦ rw (e, e) refl
]

load_config-done :
    (getenv : String → String) (b : IsBootable getenv)
    → load_config getenv ≡ done (described getenv b)
unfolding load_config
load_config-done getenv b =
    rw
      (
        b.duration_read,
        not_above b.duration b.duration_positive,
        b.timeout_read,
        b.nodes_read,
        b.processes_read,
        b.seed_read,
      )
      refl

module _ (F : Type 0) ⦃f : Float F⦄ where
  -- The environment is all that New of internal/cluster can object to.
  new_controller-accepts :
      (config : State.Config) (s : Scheduler)
      → leb_ℤ (pos 0) config.heartbeat_timeout_ticks ≡ true
      → leb_ℤ (pos 0) config.max_nodes ≡ true
      → leb_ℤ (pos 0) config.max_processes ≡ true
      → (config.scheduler == "") ≡ false
      → new_scheduler config.scheduler ≡ ok s
      → (c : Controller F) × (new_controller F config ≡ ok c)
  unfolding new_controller
  new_controller-accepts config s h1 h2 h3 named known = (
    State.fresh F (State.with_defaults config) s,
    rw
        (
          limit_of_natural config.max_nodes 100 h2 (omega arith),
          limit_of_natural config.max_processes 10_000 h3 (omega arith),
          not_below config.heartbeat_timeout_ticks h1,
          named,
          known,
        )
        refl,
  )

  -- The API around a controller and its engine.
  abbrev pub api_of : Controller F → Engine F → Api F
  api_of c e = record {
    controller = record { address = 0; target = c };
    engine = record { address = 0; engine = e };
    metrics = record { address = 0; collector = record { provider = c } };
  }

  -- One direction: such an environment is enough.
  pub IsBootable-boot :
      (getenv : String → String)
      → IsBootable getenv
      → (configuration : Configuration) × (api : Api F) × (boot F getenv
          ≡ done (configuration, api))
  unfolding boot new_handler
  IsBootable-boot getenv b =
      let config = described getenv b in
      let (c, made) =
        new_controller-accepts (cluster_config config) b.scheduler b.timeout_natural b.nodes_natural
          b.processes_natural (env_ne getenv "DEFAULT_SCHEDULER" "least-loaded" refl) b.known in
      let (e, built) = new_engine-accepts c config.tick_duration in
      (config, api_of c e, rw (load_config-done getenv b, made, built) refl)
