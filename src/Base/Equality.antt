-- ===== src/Base/Equality.antt =====
-- Boolean equality as an interface: texts, integers, and the keys of the program's maps.
use Prim.Native.String.{String}
use text.Mathlib.Text.{◌==◌ as str_eq}
use mathlib.Core.Path.{◌≡◌}
use mathlib.Core.Logic.{◌↔◌}
use mathlib.Core.Bool.{Bool, true}
use text.Mathlib.TextEquality.{eq_iff}
use cs320_cluster_process_ma.Base.Int.{ℤ, eqb_ℤ, eqb_ℤ_iff}

-- A test of equality on the keys of a map.
pub record Eq {ℓ} (K : Type ℓ) : Type ℓ where
  pub same : K → K → Bool
  pub same_iff : (x y : K) → (same x y ≡ true) ↔ (x ≡ y)

instance abbrev pub int_eq : Eq ℤ
int_eq = record { same_iff = eqb_ℤ_iff; same = eqb_ℤ }

instance abbrev pub string_eq : Eq String
string_eq = record { same_iff = eq_iff; same = str_eq }

infix 50 ◌==◌
abbrev pub ◌==◌ {ℓ} : {K : Type ℓ} ⦃test : Eq K⦄ (x y : K) → Bool
◌==◌ ⦃test⦄ x y = test.same x y
