-- ===== src/Commands/Logging.antt =====
-- internal/logging/logger.go: the level that New selects. The handler of log/slog is left out.
use cs320_cluster_process_ma.Base.{
  ℕ, String, List, to_lower, trim_space, spells, ◌||◌, if◌then◌else◌, ◌≡◌, refl,
}

pub data Level : Type 0 where
  debug info warn error : Level

-- The switch of New.
abbrev level_named : List ℕ → Level
level_named key =
    if spells key "debug"
    then debug
    else if spells key "warn" || spells key "warning"
    then warn
    else if spells key "error"
    then error
    else info

unfoldable pub selected_level : String → Level
selected_level level = level_named (to_lower (trim_space level))

selected_level_tests :
    (selected_level " Warning\n" ≡ warn)
    × (selected_level "" ≡ info)
    × (selected_level "DEBUG" ≡ debug)
unfolding selected_level to_lower trim_space
selected_level_tests = (refl, refl, refl)
