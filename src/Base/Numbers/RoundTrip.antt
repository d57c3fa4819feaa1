-- ===== src/Base/Numbers/RoundTrip.antt =====
-- strconv.FormatInt and strconv.ParseInt with base 10, one after the other.
use Prim.Native.Nat.{ℕ, zero, suc, ◌+◌, ◌-◌, ◌*◌, ◌/◌, ◌%◌, ◌<◌}
use Prim.Native.Char.{code}
use Prim.Native.String.{String, slice, ◌++◌}
use mathlib.Core.Path.{◌≡◌, refl, ◌∙◌, ap, sym}
use mathlib.Core.Logic.{◌≢◌, inl, inr}
use mathlib.Core.Bool.{◌&&◌}
use mathlib.Core.Option.{some}
use native.Mathlib.Omega.{arith}
use text.Mathlib.TextLemmas.{cons-append, nil-append, append-ne-nil_of_right_ne-nil}
use cs320_cluster_process_ma.Base.Tests.{leb, ltb, Bool-cases}
use cs320_cluster_process_ma.Base.Int.{ℤ, pos, negsuc, IsInt}
use cs320_cluster_process_ma.Base.Text.{decimal, decimal_int}
use cs320_cluster_process_ma.Base.Numbers.{digits, unsigned, positive, parse_int}

-- Digits behind digits.
digits-append : (n k : ℕ) (s t : String) → digits n s ≡ some k → digits n (s ++ t) ≡ digits k t
digits-append n k String.[] t h = let same : n ≡ k = ground arith in rw (nil-append t, same) refl
digits-append n k (String.◌∷◌ c s) t h =
    elim (Bool-cases (leb b'0' (code c) && leb (code c) b'9')) [
      | inl e ↦
          rw (cons-append c s t, e) (digits-append (n * 10 + (code c - b'0')) k s t (ground arith))
      | inr e ↦ ground arith
    ]

abbrev digit : ℕ → String
digit d = slice "0123456789" d (d + 1)

digits-digit : (k d : ℕ) → d < 10 → digits k (digit d) ≡ some (k * 10 + d)
digits-digit k zero h = refl
digits-digit k (suc zero) h = refl
digits-digit k (suc (suc zero)) h = refl
digits-digit k (suc (suc (suc zero))) h = refl
digits-digit k (suc (suc (suc (suc zero)))) h = refl
digits-digit k (suc (suc (suc (suc (suc zero))))) h = refl
digits-digit k (suc (suc (suc (suc (suc (suc zero)))))) h = refl
digits-digit k (suc (suc (suc (suc (suc (suc (suc zero))))))) h = refl
digits-digit k (suc (suc (suc (suc (suc (suc (suc (suc zero)))))))) h = refl
digits-digit k (suc (suc (suc (suc (suc (suc (suc (suc (suc zero))))))))) h = refl
digits-digit k (suc (suc (suc (suc (suc (suc (suc (suc (suc (suc d)))))))))) h =
    let no : ⊥ = omega arith in elim no [ ]

-- The numbers of at most this many digits.
abbrev room : ℕ → ℕ
room zero = 1
room (suc fuel) = 10 * room fuel

digits-decimal : (fuel n : ℕ) → n < room fuel → digits 0 (decimal fuel n) ≡ some n
digits-decimal zero n h = ground arith
digits-decimal (suc fuel) n h = elim (Bool-cases (ltb n 10)) [
  | inl small ↦
      let same : n % 10 ≡ n = ground arith in
      rw small (digits-digit 0 (n % 10) (omega arith) ∙ ap some (omega arith))
  | inr large ↦ rw large (
      digits-append 0 (n / 10) (decimal fuel (n / 10)) (digit (n % 10))
        (digits-decimal fuel (n / 10) (omega arith))
      ∙ digits-digit (n / 10) (n % 10) (omega arith)
      ∙ ap some (omega arith))
]

digit-ne-nil : (d : ℕ) → d < 10 → digit d ≢ ""
digit-ne-nil d h e =
    let both : some 1 ≡ some (1 * 10 + d) = sym (ap (digits 1) e) ∙ digits-digit 1 d h in
    let same : 1 ≡ 1 * 10 + d = ground arith in omega arith

decimal-ne-nil : (fuel n : ℕ) → decimal (suc fuel) n ≢ ""
decimal-ne-nil fuel n = elim (Bool-cases (ltb n 10)) [
  | inl small ↦ rw small (digit-ne-nil (n % 10) (omega arith))
  | inr large ↦
      rw large (
        append-ne-nil_of_right_ne-nil (decimal fuel (n / 10)) (digit-ne-nil (n % 10) (omega arith)))
]

unsigned-digits : (s : String) (k : ℕ) → s ≢ "" → digits 0 s ≡ some k → unsigned s ≡ some k
unsigned-digits String.[] k ne h = absurd (ne refl)
unsigned-digits (String.◌∷◌ c s) k ne h = h

parse_int-digits :
    (s : String) (k : ℕ) → s ≢ "" → digits 0 s ≡ some k → parse_int s ≡ positive (some k)
unfolding parse_int
parse_int-digits String.[] k ne h = absurd (ne refl)
parse_int-digits (String.◌∷◌ c s) k ne h =
    elim (Bool-cases (leb b'0' (code c) && leb (code c) b'9')) [
      | inl e ↦ ground (arith, ap positive h)
      | inr e ↦ ground arith
    ]

-- A number that is written and read is the same again.
pub parse_int-decimal_int : (z : ℤ) → IsInt z → parse_int (decimal_int z) ≡ some z
unfolding decimal_int parse_int
parse_int-decimal_int (pos n) (h, _) =
    parse_int-digits (decimal 20 n) n (decimal-ne-nil 19 n) (digits-decimal 20 n (omega arith))
    ∙ ground arith
parse_int-decimal_int (negsuc n) (_, h) =
    rw
      (
        cons-append,
        nil-append,
        unsigned-digits (decimal 20 (suc n)) (suc n) (decimal-ne-nil 19 (suc n))
            (digits-decimal 20 (suc n) (omega arith)),
      )
      (ground arith)

pub decimal_int-ne-nil : (z : ℤ) → decimal_int z ≢ ""
unfolding decimal_int
decimal_int-ne-nil (pos n) = decimal-ne-nil 19 n
decimal_int-ne-nil (negsuc n) = append-ne-nil_of_right_ne-nil "-" (decimal-ne-nil 19 (suc n))
