-- ===== src/Base/Int.antt =====
-- Go's signed 64-bit integers: the integers over the native numbers, and `int64`, which reduces
-- a result to the range of the machine. Sums and orders go through the two parts of an integer.
use Prim.Native.Nat.{ℕ, suc, ◌+◌, ◌-◌, ◌/◌, ◌%◌, ◌^◌, ◌≤◌, ◌<◌}
use mathlib.Core.Path.{◌≡◌}
use mathlib.Core.Logic.{◌↔◌}
use mathlib.Core.Bool.{Bool, true}
use native.Mathlib.Omega.{arith}
use cs320_cluster_process_ma.Base.Tests.{ltb, leb, nat_beq, if◌then◌else◌}

-- `negsuc n` is -(n + 1).
pub data ℤ : Type 0 where
  pos : ℕ → ℤ
  negsuc : ℕ → ℤ

abbrev pub pos_part : ℤ → ℕ
pos_part (pos n) = n
pos_part (negsuc n) = 0

abbrev pub neg_part : ℤ → ℕ
neg_part (pos n) = 0
neg_part (negsuc n) = suc n

-- a - b, as an integer.
abbrev pub sub_ℕ : ℕ → ℕ → ℤ
sub_ℕ a b = if leb b a then pos (a - b) else negsuc (b - a - 1)

infixl 65 ◌+ℤ◌ ◌-ℤ◌
unfoldable pub ◌+ℤ◌ : ℤ → ℤ → ℤ
a +ℤ b = sub_ℕ (pos_part a + pos_part b) (neg_part a + neg_part b)

unfoldable pub ◌-ℤ◌ : ℤ → ℤ → ℤ
a -ℤ b = sub_ℕ (pos_part a + neg_part b) (neg_part a + pos_part b)

abbrev pub ltb_ℤ : ℤ → ℤ → Bool
ltb_ℤ a b = ltb (pos_part a + neg_part b) (pos_part b + neg_part a)

abbrev pub leb_ℤ : ℤ → ℤ → Bool
leb_ℤ a b = leb (pos_part a + neg_part b) (pos_part b + neg_part a)

abbrev pub eqb_ℤ : ℤ → ℤ → Bool
eqb_ℤ a b = nat_beq (pos_part a + neg_part b) (pos_part b + neg_part a)

pub eqb_ℤ_iff : (a b : ℤ) → (eqb_ℤ a b ≡ true) ↔ (a ≡ b)
eqb_ℤ_iff (pos a) (pos b) = ground arith
eqb_ℤ_iff (pos a) (negsuc b) = ground arith
eqb_ℤ_iff (negsuc a) (pos b) = ground arith
eqb_ℤ_iff (negsuc a) (negsuc b) = ground arith

-- The largest value of `int` and `int64`.
abbrev pub max_int : ℕ
max_int = 9223372036854775807

-- The values of `int` and `int64`.
abbrev pub IsInt : ℤ → Type 0
IsInt z = (pos_part z ≤ max_int) × (neg_part z ≤ max_int + 1)

-- The signed value of a 64-bit pattern.
abbrev to_signed : ℕ → ℤ
to_signed b = if leb b max_int then pos b else negsuc (2 ^ 64 - 1 - b)

-- Two's complement reduction of an exact result.
unfoldable pub int64 : ℤ → ℤ
int64 (pos n) = to_signed (n % 2 ^ 64)
int64 (negsuc n) = to_signed (2 ^ 64 - 1 - n % 2 ^ 64)

unfoldable pub add_int : ℤ → ℤ → ℤ
add_int a b = int64 (a +ℤ b)

unfoldable pub sub_int : ℤ → ℤ → ℤ
sub_int a b = int64 (a -ℤ b)

pub int64-pos : (n : ℕ) → n ≤ max_int → int64 (pos n) ≡ pos n
unfolding int64
int64-pos n h = ground arith

pub int64-negsuc : (n : ℕ) → n ≤ max_int → int64 (negsuc n) ≡ negsuc n
unfolding int64
int64-negsuc n h = ground arith

pub int64-IsInt : (z : ℤ) → IsInt (int64 z)
unfolding int64
int64-IsInt (pos n) = ground arith
int64-IsInt (negsuc n) = ground arith

pub add_int-pos : (a b : ℕ) → a + b ≤ max_int → add_int (pos a) (pos b) ≡ pos (a + b)
unfolding add_int ◌+ℤ◌
add_int-pos a b h = ground (arith, int64-pos (a + b))

pub sub_int-pos : (a b : ℕ) → b ≤ a → a ≤ max_int → sub_int (pos a) (pos b) ≡ pos (a - b)
unfolding sub_int ◌-ℤ◌
sub_int-pos a b le h = ground (arith, int64-pos (a - b))

pub sub_int-below : (a b : ℕ) → a < b → b ≤ max_int → sub_int (pos a) (pos b) ≡ negsuc (b - a - 1)
unfolding sub_int ◌-ℤ◌
sub_int-below a b lt h = ground (arith, int64-negsuc (b - a - 1))

-- Go's `/`, which truncates toward zero; the divisor is not zero.
unfoldable pub div_int : ℤ → ℤ → ℤ
unfolding int64
div_int (pos a) (pos b) = pos (a / b)
div_int (pos a) (negsuc b) = int64 (sub_ℕ 0 (a / suc b))
div_int (negsuc a) (pos b) = int64 (sub_ℕ 0 (suc a / b))
div_int (negsuc a) (negsuc b) = int64 (pos (suc a / suc b))
