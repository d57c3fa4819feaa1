-- ===== src/Commands/Server/Started.antt =====
-- cmd/server/main.go: what the environment makes of the server that it starts.
use cs320_cluster_process_ma.Base.{
  ℤ, pos, leb_ℤ, ltb_ℤ, eqb_ℤ, if◌then◌else◌, ◌==◌, string_eq, String, true, false, ◌||◌, ◌≡◌, refl,
  ap, Result, ok, ok_inj, invalid_input, Float, inl, inr, Bool-cases,
}
use cs320_cluster_process_ma.Scheduler.{Scheduler, new_scheduler, new_scheduler_cases}
use cs320_cluster_process_ma.Controller.State
use cs320_cluster_process_ma.Controller.State.{Controller, new_controller}
use cs320_cluster_process_ma.Domain.Cluster.{new_cluster}
use cs320_cluster_process_ma.Engine.{Engine, new_engine}
use cs320_cluster_process_ma.Transport.Setup.{Api, new_handler}
use cs320_cluster_process_ma.Transport.Safety.{Reaches}
use cs320_cluster_process_ma.Commands.Answers.{done, or_error, bind-done, or_error-done, done_inj}
use cs320_cluster_process_ma.Commands.Server.{
  Configuration, Failure, env, load_config, milliseconds, cluster_config, boot,
}
use cs320_cluster_process_ma.Commands.Server.Boot.{Reads, env_ne, api_of}
use cs320_cluster_process_ma.Commands.Server.Environment.{IsRead, load_config-IsRead, or_false}

-- A limit of the controller is the one of the environment, where 0 stands for the default.
pub record HasLimit (getenv : String → String) (name : String) (default limit : ℤ) : Type 0 where
  pub given : ℤ
  pub read : Reads getenv name default given
  pub kept : limit ≡ (if eqb_ℤ given (pos 0) then default else given)
  pub positive : ltb_ℤ limit (pos 1) ≡ false

-- The server that an environment describes: each setting is that of its variable, the engine is a
-- new one around the controller, and the handlers and the collector have that controller.
pub record IsConfigured {F : Type 0} ⦃f : Float F⦄ (getenv : String → String)
    (configuration : Configuration) (api : Api F) : Type 0 where
  pub port : configuration.port ≡ env getenv "APP_PORT" "8080"
  pub milliseconds_given : ℤ
  pub duration_read : Reads getenv "TICK_DURATION_MS" (pos 500) milliseconds_given
  pub duration_positive : ltb_ℤ (pos 0) milliseconds_given ≡ true
  pub duration : api.engine.engine.tick_duration ≡ (
      if leb_ℤ (milliseconds milliseconds_given) (pos 0)
      then pos 500_000_000
      else milliseconds milliseconds_given)
  pub timeout :
      Reads getenv "HEARTBEAT_TIMEOUT_TICKS"
        (pos 0)
        api.engine.engine.controller.heartbeat_timeout_ticks
  pub timeout_natural : ltb_ℤ api.engine.engine.controller.heartbeat_timeout_ticks (pos 0) ≡ false
  pub nodes : HasLimit getenv "MAX_NODES" (pos 100) api.engine.engine.controller.max_nodes
  pub processes :
      HasLimit getenv "MAX_PROCESSES" (pos 10_000) api.engine.engine.controller.max_processes
  pub seed : Reads getenv "RANDOM_SEED" (pos 42) api.engine.engine.controller.seed
  pub scheduler :
      new_scheduler (env getenv "DEFAULT_SCHEDULER" "least-loaded")
      ≡ ok api.engine.engine.controller.scheduler
  pub handlers : api.controller.address ≡ api.engine.address
  pub same : api.controller.target ≡ api.engine.engine.controller
  pub metrics : api.metrics.address ≡ api.engine.address
  pub reached : Reaches api.engine.engine

module _ {F : Type 0} ⦃f : Float F⦄ where
  -- A configuration that New accepts, and the controller that it makes of it.
  record IsMade (config : State.Config) (c : Controller F) : Type 0 where
    selected : Scheduler
    known : new_scheduler config.scheduler ≡ ok selected
    is_fresh : State.fresh F config selected ≡ c
    nodes : ltb_ℤ config.max_nodes (pos 1) ≡ false
    processes : ltb_ℤ config.max_processes (pos 1) ≡ false
    timeout : ltb_ℤ config.heartbeat_timeout_ticks (pos 0) ≡ false

  new_controller-IsMade :
      (config : State.Config) (c : Controller F)
      → new_controller F config ≡ ok c
      → IsMade (State.with_defaults config) c
  unfolding new_controller
  new_controller-IsMade config c h =
      let full = State.with_defaults config in
      elim (Bool-cases (
        ltb_ℤ full.max_nodes (pos 1)
        || ltb_ℤ full.max_processes (pos 1)
        || ltb_ℤ full.heartbeat_timeout_ticks (pos 0))) [
          | inl bad ↦
              let wrong : Result.err invalid_input ≡ ok c = rw bad at h in
              let no : ⊥ = cc in elim no [ ]
          | inr good ↦
              let (nodes, processes, timeout) =
                or_false (ltb_ℤ full.max_nodes (pos 1)) (ltb_ℤ full.max_processes (pos 1))
                  (ltb_ℤ full.heartbeat_timeout_ticks (pos 0)) good in
              elim (new_scheduler_cases full.scheduler) [
                | inl (s, e) ↦
                    let same : ok (State.fresh F full s) ≡ ok c = rw (good, e) at h in
                    record {
                      selected = s;
                      known = e;
                      is_fresh = ok_inj _ c same;
                      nodes = nodes;
                      processes = processes;
                      timeout = timeout;
                    }
                | inr unknown ↦
                    let wrong : Result.err invalid_input ≡ ok c = rw (good, unknown) at h in
                    let no : ⊥ = cc in elim no [ ]
              ]
        ]

  engine_around : Controller F → ℤ → Engine F
  engine_around c duration = record {
    controller = c;
    tick_duration = if leb_ℤ duration (pos 0) then pos 500_000_000 else duration;
    realtime = false;
  }

  made-IsConfigured :
      (getenv : String → String) (loaded : Configuration) (c : Controller F)
      → IsRead getenv loaded
      → IsMade (State.with_defaults (cluster_config loaded)) c
      → Reaches (engine_around c loaded.tick_duration)
      → IsConfigured getenv loaded (api_of F c (engine_around c loaded.tick_duration))
  unfolding engine_around new_cluster
  made-IsConfigured getenv loaded c r m reached =
      let (z, z_read, z_positive, z_kept) = r.duration in
      let named : (loaded.default_scheduler == "") ≡ false =
        rw r.scheduler (env_ne getenv "DEFAULT_SCHEDULER" "least-loaded" refl) in
      let known : new_scheduler loaded.default_scheduler ≡ ok m.selected = rw named at m.known in
      rw (← m.is_fresh) (record {
        port = r.port;
        milliseconds_given = z;
        duration_read = z_read;
        duration_positive = z_positive;
        duration = rw z_kept refl;
        timeout = r.timeout;
        timeout_natural = m.timeout;
        nodes = record {
          given = loaded.max_nodes;
          read = r.nodes;
          kept = refl;
          positive = m.nodes;
        };
        processes = record {
          given = loaded.max_processes;
          read = r.processes;
          kept = refl;
          positive = m.processes;
        };
        seed = r.seed;
        scheduler = rw (← r.scheduler) known;
        handlers = refl;
        same = refl;
        metrics = refl;
        reached = rw m.is_fresh reached;
      })

  -- A server that starts has the settings of its environment, each read from its own variable: the
  -- port, a positive duration of a tick (500 ms where the product with a millisecond has wrapped
  -- around to 0 or below), a timeout that is not negative, limits that are positive and for which 0
  -- stands for the default, the seed, and the scheduler. Its handlers and its collector hold the
  -- address of the engine's controller, and requests and ticks can go on from its engine.
  pub boot-IsConfigured :
      (getenv : String → String) (configuration : Configuration) (api : Api F)
      → boot F getenv ≡ done (configuration, api)
      → IsConfigured getenv configuration api
  unfolding boot new_handler new_engine engine_around
  boot-IsConfigured getenv configuration api h =
      let result : Configuration × Api F = (configuration, api) in
      let (loaded, read, h1) = bind-done (load_config getenv) _ result h in
      let (c, made, h2) =
        bind-done (or_error (new_controller F (cluster_config loaded)) Failure.internal) _ result
          h1 in
      let new = or_error-done (new_controller F (cluster_config loaded)) Failure.internal c made in
      rw (← ap (λ r. r.0) (done_inj _ result h2), ← ap (λ r. r.1) (done_inj _ result h2))
        (made-IsConfigured getenv loaded c (load_config-IsRead getenv loaded read)
          (new_controller-IsMade (cluster_config loaded) c new)
          (Reaches.set_up (cluster_config loaded) c loaded.tick_duration
            (engine_around c loaded.tick_duration) new refl))
