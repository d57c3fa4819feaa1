-- ===== src/Base/Numbers.antt =====
-- What the program uses of Go's package strconv: ParseInt with base 10 and 64 bits, which Atoi is.
pub mod RoundTrip
use Prim.Native.Nat.{ℕ, zero, suc, ◌+◌, ◌-◌, ◌*◌}
use Prim.Native.Char.{code}
use Prim.Native.String
use Prim.Native.String.{String}
use mathlib.Core.Path.{◌≡◌, refl}
use mathlib.Core.Bool.{Bool, true, false, ◌&&◌}
use mathlib.Core.Option.{Option, none, some}
use native.Mathlib.Omega.{arith}
use cs320_cluster_process_ma.Base.Tests.{leb, nat_beq, if◌then◌else◌}
use cs320_cluster_process_ma.Base.Int.{ℤ, pos, negsuc, max_int, IsInt}

-- The number that decimal digits spell behind `n`.
abbrev pub digits : ℕ → String → Option ℕ
digits n String.[] = some n
digits n (String.◌∷◌ c s) =
    let rest = digits (n * 10 + (code c - b'0')) s in
    if leb b'0' (code c) && leb (code c) b'9' then rest else none

-- One or more digits.
abbrev pub unsigned : String → Option ℕ
unsigned String.[] = none
unsigned (String.◌∷◌ c s) = digits 0 (String.◌∷◌ c s)

abbrev pub positive : Option ℕ → Option ℤ
positive none = none
positive (some n) = if leb n max_int then some (pos n) else none

abbrev pub negative : Option ℕ → Option ℤ
negative none = none
negative (some zero) = some (pos 0)
negative (some (suc n)) = if leb n max_int then some (negsuc n) else none

unfoldable pub parse_int : String → Option ℤ
parse_int String.[] = none
parse_int (String.◌∷◌ c s) =
    if nat_beq (code c) b'-'
    then negative (unsigned s)
    else if nat_beq (code c) b'+'
    then positive (unsigned s)
    else positive (unsigned (String.◌∷◌ c s))

positive-IsInt : (o : Option ℕ) (z : ℤ) → positive o ≡ some z → IsInt z
positive-IsInt none z h = cc
positive-IsInt (some n) z h = ground arith

negative-IsInt : (o : Option ℕ) (z : ℤ) → negative o ≡ some z → IsInt z
negative-IsInt none z h = cc
negative-IsInt (some zero) z h = ground arith
negative-IsInt (some (suc n)) z h = ground arith

-- An accepted number is an integer of 64 bits.
pub parse_int-IsInt : (t : String) (z : ℤ) → parse_int t ≡ some z → IsInt z
unfolding parse_int
parse_int-IsInt String.[] z h = cc
parse_int-IsInt (String.◌∷◌ c s) z h = ground (
  arith,
  negative-IsInt (unsigned s) z,
  positive-IsInt (unsigned s) z,
  positive-IsInt (unsigned (String.◌∷◌ c s)) z,
)

parse_int_test :
    (parse_int "-9223372036854775808" ≡ some (negsuc max_int))
    × (parse_int "9223372036854775808" ≡ none)
    × (parse_int "+42" ≡ some (pos 42))
    × (parse_int "4x" ≡ none)
unfolding parse_int
parse_int_test = (refl, refl, refl, refl)
