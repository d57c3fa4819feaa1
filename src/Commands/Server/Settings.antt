-- ===== src/Commands/Server/Settings.antt =====
-- cmd/server/main.go: the numbers of the configuration.
use cs320_cluster_process_ma.Base.{
  ℤ, IsInt, String, ◌==◌, string_eq, false, ◌≡◌, ◌≢◌, refl, Option, none, some, inl, inr,
  Bool-cases, decimal_int, eq_iff,
}
use cs320_cluster_process_ma.Base.Numbers.RoundTrip.{parse_int-decimal_int, decimal_int-ne-nil}
use cs320_cluster_process_ma.Commands.Answers.{done}
use cs320_cluster_process_ma.Commands.Server.{env, int_from_env}

-- The text of a variable that is not set, or that a number was written to.
abbrev pub written : Option ℤ → String
written none = ""
written (some z) = decimal_int z

abbrev pub or_fallback : Option ℤ → ℤ → ℤ
or_fallback none fallback = fallback
or_fallback (some z) fallback = z

abbrev pub IsMachineInt : Option ℤ → Type 0
IsMachineInt none = Unit {0}
IsMachineInt (some z) = IsInt z

not_empty : (t : String) → t ≢ "" → (t == "") ≡ false
not_empty t h = elim (Bool-cases (t == "")) [ inl e ↦ absurd (h ((eq_iff t "").0 e)) | inr e ↦ e ]

-- A variable of the environment that holds the decimal text of an integer of 64 bits is read as
-- this integer, and one that is not set as its fallback.
pub int_from_env-written :
    (getenv : String → String) (name : String) (fallback : ℤ) (value : Option ℤ)
    → IsInt fallback
    → IsMachineInt value
    → getenv name ≡ written value
    → int_from_env getenv name fallback ≡ done (or_fallback value fallback)
unfolding int_from_env env
int_from_env-written getenv name fallback none h k e = rw (e, parse_int-decimal_int fallback h) refl
int_from_env-written getenv name fallback (some z) h k e =
    rw (e, not_empty (decimal_int z) (decimal_int-ne-nil z), parse_int-decimal_int z k) refl
