-- ===== src/Commands/Server/Environment.antt =====
-- cmd/server/main.go: the environments in which run reaches the http.Server.
use cs320_cluster_process_ma.Base.{
  ℕ, ℤ, pos, negsuc, leb_ℤ, ltb_ℤ, eqb_ℤ, if◌then◌else◌, ◌==◌, string_eq, String, Bool, true, false,
  ◌||◌, ◌≡◌, ◌↔◌, refl, Result, ok, invalid_input, Float, arith, inl, inr, Bool-cases, decimal_int,
  subst,
}
use cs320_cluster_process_ma.Base.Numbers.{parse_int}
use cs320_cluster_process_ma.Scheduler.{Scheduler, new_scheduler, new_scheduler_cases}
use cs320_cluster_process_ma.Controller.State
use cs320_cluster_process_ma.Controller.State.{Controller, new_controller}
use cs320_cluster_process_ma.Transport.Setup.{Api}
use cs320_cluster_process_ma.Commands.Answers.{
  Answer, done, or_error, bind-done, or_fail-done, or_error-done, done_inj,
}
use cs320_cluster_process_ma.Commands.Server.{
  Configuration, Failure, env, int_from_env, duration_from_milliseconds, load_config,
  cluster_config, boot, milliseconds,
}
use cs320_cluster_process_ma.Commands.Server.Boot.{IsBootable, IsBootable-boot, Reads, env_ne}

int_from_env-Reads :
    (getenv : String → String) (name : String) (fallback z : ℤ)
    → int_from_env getenv name fallback ≡ done z
    → Reads getenv name fallback z
unfolding int_from_env
int_from_env-Reads getenv name fallback z h =
    or_fail-done (parse_int (env getenv name (decimal_int fallback))) (Failure.not_integer name) z h

-- A duration that is read is a positive number of milliseconds.
duration-Reads :
    (getenv : String → String) (name : String) (fallback d : ℤ)
    → duration_from_milliseconds getenv name fallback ≡ done d
    → (z : ℤ) × Reads getenv name fallback z × (ltb_ℤ (pos 0) z ≡ true) × (milliseconds z ≡ d)
unfolding duration_from_milliseconds
duration-Reads getenv name fallback d h =
    let (z, read, rest) = bind-done (int_from_env getenv name fallback) _ d h in
    elim (Bool-cases (leb_ℤ z (pos 0))) [
      | inl low ↦
          let wrong : Answer.failed (Failure.not_positive name) ≡ done d = rw low at rest in
          let no : ⊥ = cc in elim no [ ]
      | inr high ↦
          let same : done (milliseconds z) ≡ done d = rw high at rest in
          (
            z,
            int_from_env-Reads getenv name fallback z read,
            ground (arith, high),
            done_inj (milliseconds z) d same,
          )
    ]

-- A limit that is below 1 even with its default is negative.
natural_of_limit :
    (n : ℤ) (limit : ℕ)
    → ltb_ℤ (if eqb_ℤ n (pos 0) then pos limit else n) (pos 1) ≡ false
    → leb_ℤ (pos 0) n ≡ true
natural_of_limit (pos n) limit h = ground arith
natural_of_limit (negsuc n) limit h = ground arith

pub or_false : (a b c : Bool) → (a || b || c) ≡ false → (a ≡ false) × (b ≡ false) × (c ≡ false)
or_false a b c h = ground arith

-- The configuration is what the environment says.
pub record IsRead (getenv : String → String) (c : Configuration) : Type 0 where
  pub port : c.port ≡ env getenv "APP_PORT" "8080"
  pub duration :
      (z : ℤ) × Reads getenv "TICK_DURATION_MS" (pos 500) z
      × (ltb_ℤ (pos 0) z ≡ true)
      × (milliseconds z ≡ c.tick_duration)
  pub timeout : Reads getenv "HEARTBEAT_TIMEOUT_TICKS" (pos 0) c.heartbeat_timeout_ticks
  pub nodes : Reads getenv "MAX_NODES" (pos 100) c.max_nodes
  pub processes : Reads getenv "MAX_PROCESSES" (pos 10_000) c.max_processes
  pub seed : Reads getenv "RANDOM_SEED" (pos 42) c.seed
  pub scheduler : c.default_scheduler ≡ env getenv "DEFAULT_SCHEDULER" "least-loaded"

pub load_config-IsRead :
    (getenv : String → String) (loaded : Configuration)
    → load_config getenv ≡ done loaded
    → IsRead getenv loaded
unfolding load_config
load_config-IsRead getenv loaded h =
    let (d, read_d, r1) =
      bind-done (duration_from_milliseconds getenv "TICK_DURATION_MS" (pos 500)) _ loaded h in
    let (t, read_t, r2) =
      bind-done (int_from_env getenv "HEARTBEAT_TIMEOUT_TICKS" (pos 0)) _ loaded r1 in
    let (n, read_n, r3) = bind-done (int_from_env getenv "MAX_NODES" (pos 100)) _ loaded r2 in
    let (p, read_p, r4) =
      bind-done (int_from_env getenv "MAX_PROCESSES" (pos 10_000)) _ loaded r3 in
    let (s, read_s, r5) = bind-done (int_from_env getenv "RANDOM_SEED" (pos 42)) _ loaded r4 in
    rw (← done_inj _ loaded r5) (record {
      port = refl;
      duration = duration-Reads getenv "TICK_DURATION_MS" (pos 500) d read_d;
      timeout = int_from_env-Reads getenv "HEARTBEAT_TIMEOUT_TICKS" (pos 0) t read_t;
      nodes = int_from_env-Reads getenv "MAX_NODES" (pos 100) n read_n;
      processes = int_from_env-Reads getenv "MAX_PROCESSES" (pos 10_000) p read_p;
      seed = int_from_env-Reads getenv "RANDOM_SEED" (pos 42) s read_s;
      scheduler = refl;
    })

module _ (F : Type 0) ⦃f : Float F⦄ where
  -- What New of internal/cluster asks of a configuration that names its scheduler.
  new_controller-requires :
      (config : State.Config) (c : Controller F)
      → (config.scheduler == "") ≡ false
      → new_controller F config ≡ ok c
      → (leb_ℤ (pos 0) config.heartbeat_timeout_ticks ≡ true)
        × (leb_ℤ (pos 0) config.max_nodes ≡ true)
        × (leb_ℤ (pos 0) config.max_processes ≡ true)
        × ((s : Scheduler) × (new_scheduler config.scheduler ≡ ok s))
  unfolding new_controller
  new_controller-requires config c named h =
      let full = State.with_defaults config in
      elim (Bool-cases (
        ltb_ℤ full.max_nodes (pos 1)
        || ltb_ℤ full.max_processes (pos 1)
        || ltb_ℤ full.heartbeat_timeout_ticks (pos 0))) [
          | inl bad ↦
              let wrong : Result.err invalid_input ≡ ok c = rw bad at h in
              let no : ⊥ = cc in elim no [ ]
          | inr good ↦
              let (nodes, processes, timeout) =
                or_false (ltb_ℤ full.max_nodes (pos 1)) (ltb_ℤ full.max_processes (pos 1))
                  (ltb_ℤ full.heartbeat_timeout_ticks (pos 0)) good in
              (
                ground (arith, timeout),
                natural_of_limit config.max_nodes 100 nodes,
                natural_of_limit config.max_processes 10_000 processes,
                elim (new_scheduler_cases config.scheduler) [
                  | inl found ↦ found
                  | inr unknown ↦
                      let wrong : Result.err invalid_input ≡ ok c =
                        rw (good, named, unknown) at h in
                      let no : ⊥ = cc in elim no [ ]
                ],
              )
        ]

  IsRead-IsBootable :
      (getenv : String → String) (loaded : Configuration) (c : Controller F)
      → IsRead getenv loaded
      → new_controller F (cluster_config loaded) ≡ ok c
      → IsBootable getenv
  IsRead-IsBootable getenv loaded c r made =
      let (z, z_read, z_positive, _) = r.duration in
      let named : (loaded.default_scheduler == "") ≡ false =
        rw r.scheduler (env_ne getenv "DEFAULT_SCHEDULER" "least-loaded" refl) in
      let (timeout, nodes, processes, (selected, known)) =
        new_controller-requires (cluster_config loaded) c named made in
      record {
        duration = z;
        timeout = loaded.heartbeat_timeout_ticks;
        nodes = loaded.max_nodes;
        processes = loaded.max_processes;
        seed = loaded.seed;
        scheduler = selected;
        duration_read = z_read;
        timeout_read = r.timeout;
        nodes_read = r.nodes;
        processes_read = r.processes;
        seed_read = r.seed;
        duration_positive = z_positive;
        timeout_natural = timeout;
        nodes_natural = nodes;
        processes_natural = processes;
        known = subst (λ text. new_scheduler text ≡ ok selected) r.scheduler known;
      }

  boot-IsBootable :
      (getenv : String → String) (configuration : Configuration) (api : Api F)
      → boot F getenv ≡ done (configuration, api)
      → IsBootable getenv
  unfolding boot
  boot-IsBootable getenv configuration api h =
      let result : Configuration × Api F = (configuration, api) in
      let (loaded, read, h1) = bind-done (load_config getenv) _ result h in
      let (c, made, _) =
        bind-done (or_error (new_controller F (cluster_config loaded)) Failure.internal) _ result
          h1 in
      IsRead-IsBootable getenv loaded c (load_config-IsRead getenv loaded read)
        (or_error-done (new_controller F (cluster_config loaded)) Failure.internal c made)

  -- The server starts in an environment exactly where its five numbers are decimal integers of 64
  -- bits or not set, with a positive duration, no negative timeout or limit, and a known scheduler.
  pub boot-succeeds_iff :
      (getenv : String → String)
      → IsBootable getenv ↔ (
          (configuration : Configuration) × (api : Api F) × (boot F getenv
            ≡ done (configuration, api)))
  boot-succeeds_iff getenv = (
    IsBootable-boot F getenv,
    λ (configuration, api, h). boot-IsBootable getenv configuration api h,
  )
