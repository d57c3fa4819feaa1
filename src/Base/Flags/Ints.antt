-- ===== src/Base/Flags/Ints.antt =====
-- The integers of a set of flags, where strconv.ParseInt answers integers of 64 bits.
use mathlib.Core.Path.{◌≡◌, refl, subst}
use mathlib.Core.Logic.{◌⊎◌, inl, inr}
use mathlib.Core.Option.{Option, none, some}
use mathlib.Core.List.{List, [], ◌∷◌}
use Prim.Native.String.{String}
use native.Mathlib.Omega.{arith}
use cs320_cluster_process_ma.Base.Tests.{Bool-cases, Option-cases}
use cs320_cluster_process_ma.Base.Int.{ℤ, IsInt}
use cs320_cluster_process_ma.Base.Equality.{◌==◌, string_eq}
use cs320_cluster_process_ma.Base.Flags.{
  Value, Flags, Token, HasIntFields, set_value, set_flag, set_first, keep_first, int_value,
  parse_flags, int_named, token,
}
use cs320_cluster_process_ma.Base.Flags

pub int_named-IsInt :
    (name : String) (flags : Flags) → HasIntFields flags → IsInt (int_named name flags)
int_named-IsInt name [] h = ground arith
int_named-IsInt name ((key, Flags.text _) ∷ flags) h = int_named-IsInt name flags h
int_named-IsInt name ((key, Flags.int n) ∷ flags) h = elim (Bool-cases (key == name)) [
  | inl e ↦ rw e h.0
  | inr e ↦ rw e (int_named-IsInt name flags h.1)
]

abbrev AllInts : Option Flags → Type 0
AllInts none = Unit
AllInts (some flags) = HasIntFields flags

abbrev ParsedInts : Option (Flags × List String) → Type 0
ParsedInts none = Unit
ParsedInts (some (flags, arguments)) = HasIntFields flags

Token-cases :
    (t : Token)
    → (t ≡ Flags.operand)
      ⊎ (t ≡ Flags.terminator)
      ⊎ (t ≡ Flags.bad)
      ⊎ ((name : String) × (t ≡ Flags.flag name none))
      ⊎ ((name : String) × (given : String) × (t ≡ Flags.flag name (some given)))
Token-cases Flags.operand = inl refl
Token-cases Flags.terminator = inr (inl refl)
Token-cases Flags.bad = inr (inr (inl refl))
Token-cases (Flags.flag name none) = inr (inr (inr (inl (name, refl))))
Token-cases (Flags.flag name (some given)) = inr (inr (inr (inr (name, given, refl))))

module _ (parse_int : String → Option ℤ)
    (ints : (t : String) (n : ℤ) → parse_int t ≡ some n → IsInt n) where
  set_first-AllInts :
      (key : String) (n : ℤ) (given : String) (flags : Flags)
      → HasIntFields flags
      → AllInts (set_first parse_int key (set_value parse_int (Flags.int n) given) flags)
  set_first-AllInts key n given flags h = elim (Option-cases (parse_int given)) [
    | inl e ↦ rw e tt
    | inr (k, e) ↦ rw e (ints given k e, h)
  ]

  keep_text-AllInts :
      (key t : String) (o : Option Flags)
      → AllInts o
      → AllInts (keep_first parse_int (key, Flags.text t) o)
  keep_text-AllInts key t none h = tt
  keep_text-AllInts key t (some flags) h = h

  keep_int-AllInts :
      (key : String) (n : ℤ) (o : Option Flags)
      → IsInt n
      → AllInts o
      → AllInts (keep_first parse_int (key, Flags.int n) o)
  keep_int-AllInts key n none i h = tt
  keep_int-AllInts key n (some flags) i h = (i, h)

  set_flag-AllInts :
      (name given : String) (flags : Flags)
      → HasIntFields flags
      → AllInts (set_flag parse_int name given flags)
  set_flag-AllInts name given [] h = tt
  set_flag-AllInts name given ((key, Flags.text t) ∷ flags) h = elim (Bool-cases (key == name)) [
    | inl e ↦ rw e h
    | inr e ↦ rw e (
        keep_text-AllInts key t (set_flag parse_int name given flags)
          (set_flag-AllInts name given flags h))
  ]
  set_flag-AllInts name given ((key, Flags.int n) ∷ flags) h = elim (Bool-cases (key == name)) [
    | inl e ↦ rw e (set_first-AllInts key n given flags h.1)
    | inr e ↦ rw e (
        keep_int-AllInts key n (set_flag parse_int name given flags) h.0
          (set_flag-AllInts name given flags h.1))
  ]

  set_flag_cases :
      (name given : String) (flags : Flags)
      → HasIntFields flags
      → (set_flag parse_int name given flags ≡ none)
        ⊎ ((set : Flags) × HasIntFields set × (set_flag parse_int name given flags ≡ some set))
  set_flag_cases name given flags h = elim (Option-cases (set_flag parse_int name given flags)) [
    | inl e ↦ inl e
    | inr (set, e) ↦ inr (set, subst AllInts e (set_flag-AllInts name given flags h), e)
  ]

  parse_flags-ParsedInts :
      (arguments : List String) (flags : Flags)
      → HasIntFields flags
      → ParsedInts (parse_flags parse_int arguments flags)
  unfolding parse_flags
  parse_flags-ParsedInts [] flags h = h
  parse_flags-ParsedInts (argument ∷ []) flags h = elim (Token-cases (token argument)) [
    | inl e ↦ rw (parse_flags, e) h
    | inr (inl e) ↦ rw (parse_flags, e) h
    | inr (inr (inl e)) ↦ rw (parse_flags, e) tt
    | inr (inr (inr (inl (name, e)))) ↦ rw (parse_flags, e) tt
    | inr (inr (inr (inr (name, given, e)))) ↦ elim (set_flag_cases name given flags h) [
      | inl bad ↦ rw (parse_flags, e, bad) tt
      | inr (set, ints', good) ↦ rw (parse_flags, e, good) ints'
    ]
  ]
  parse_flags-ParsedInts (argument ∷ next ∷ rest) flags h = elim (Token-cases (token argument)) [
    | inl e ↦ rw (parse_flags, e) h
    | inr (inl e) ↦ rw (parse_flags, e) h
    | inr (inr (inl e)) ↦ rw (parse_flags, e) tt
    | inr (inr (inr (inl (name, e)))) ↦ elim (set_flag_cases name next flags h) [
      | inl bad ↦ rw (parse_flags, e, bad) tt
      | inr (set, ints', good) ↦ rw (parse_flags, e, good) (parse_flags-ParsedInts rest set ints')
    ]
    | inr (inr (inr (inr (name, given, e)))) ↦ elim (set_flag_cases name given flags h) [
      | inl bad ↦ rw (parse_flags, e, bad) tt
      | inr (set, ints', good) ↦
          rw (parse_flags, e, good) (parse_flags-ParsedInts (next ∷ rest) set ints')
    ]
  ]

  -- What Parse leaves in the flags are integers of 64 bits.
  pub parse_flags-HasIntFields :
      (arguments rest : List String) (flags set : Flags)
      → HasIntFields flags
      → parse_flags parse_int arguments flags ≡ some (set, rest)
      → HasIntFields set
  parse_flags-HasIntFields arguments rest flags set h e =
      subst ParsedInts e (parse_flags-ParsedInts arguments flags h)
