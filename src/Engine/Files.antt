-- ===== src/Engine/Files.antt =====
-- internal/engine/scenario_file.go. os.Open and the JSON decoder are parameters: the decoder leaves
-- the rest of its input, which DecodeScenario does not look at.
use cs320_cluster_process_ma.Base.{ℕ, Option, none, some, String, Result, ok, err, panic, Error}
use cs320_cluster_process_ma.Domain.Scenario.{Scenario}
use cs320_cluster_process_ma.Domain.Scenario.Validation.{validate}

-- The errors of the file, of the decoder, and of Validate.
pub data FileError : Type 0 where
  cannot_open cannot_decode : FileError
  invalid : Error → FileError

pub data Loaded : Type 0 where
  loaded : Scenario → Loaded
  refused : FileError → Loaded
  crashed : Loaded

pub record Source (J : Type 0) : Type 0 where
  pub open_file : String → Option J
  pub limit : ℕ → J → J
  pub decode : J → Option (Scenario × J)

abbrev pub max_scenario : ℕ
max_scenario = 4194304

abbrev pub if_valid : Result Unit → Scenario → Loaded
if_valid (ok _) s = loaded s
if_valid (err e) s = refused (invalid e)
if_valid panic s = crashed

abbrev pub decoded : {J : Type 0} → Option (Scenario × J) → Loaded
decoded none = refused cannot_decode
decoded (some (s, rest)) = if_valid (validate s) s

-- DecodeScenario
unfoldable pub decode_scenario : {J : Type 0} → Source J → J → Loaded
decode_scenario source reader = decoded (source.decode (source.limit max_scenario reader))

abbrev pub opened : {J : Type 0} → Source J → Option J → Loaded
opened source none = refused cannot_open
opened source (some reader) = decode_scenario source reader

-- LoadScenarioFile
unfoldable pub load_scenario_file : {J : Type 0} → Source J → String → Loaded
unfolding decode_scenario
load_scenario_file source path = opened source (source.open_file path)
