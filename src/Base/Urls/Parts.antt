-- ===== src/Base/Urls/Parts.antt =====
-- Texts put together, and what split, cut and a test on the characters make of them.
use Prim.Native.Char.{Char, code}
use Prim.Native.Nat.{ℕ}
use Prim.Native.String.{String, ◌++◌}
use mathlib.Core.Path.{◌≡◌, refl}
use mathlib.Core.Bool.{Bool, true, ◌&&◌, not}
use mathlib.Core.Logic.{inl, inr}
use mathlib.Core.List.{List, [], ◌∷◌}
use native.Mathlib.Omega.{arith}
use text.Mathlib.TextLemmas.{cons-append, nil-append}
use cs320_cluster_process_ma.Base.Equality.{string_eq}
use cs320_cluster_process_ma.Base.Tests.{nat_beq, Bool-cases}
use cs320_cluster_process_ma.Base.Urls.{push, split, cut, every}

pub every-append :
    (test : ℕ → Bool) (s t : String) → every test (s ++ t) ≡ (every test s && every test t)
unfolding every
every-append test String.[] t = rw nil-append refl
every-append test (String.◌∷◌ c s) t = rw (cons-append c s t, every-append test s t) (ground arith)

pub and_true : (a b : Bool) → (a && b) ≡ true → (a ≡ true) × (b ≡ true)
and_true a b h = ground arith

abbrev pub other_than : ℕ → ℕ → Bool
other_than separator c = not (nat_beq c separator)

-- The last part of the first list is the beginning of the first part of the second.
abbrev pub prepend : String → List String → List String
prepend s [] = s ∷ []
prepend s (part ∷ parts) = (s ++ part) ∷ parts

abbrev pub glue : List String → List String → List String
glue [] ys = ys
glue (x ∷ []) ys = prepend x ys
glue (x ∷ y ∷ xs) ys = x ∷ glue (y ∷ xs) ys

pub split_none :
    (separator : ℕ) (s : String)
    → every (other_than separator) s ≡ true
    → split separator s ≡ s ∷ []
unfolding split every
split_none separator String.[] h = refl
split_none separator (String.◌∷◌ c s) h =
    let ih = split_none separator s in
    elim (Bool-cases (nat_beq (code c) separator)) [
      | inl e ↦ ground arith
      | inr e ↦ rw (e, ih (ground arith)) refl
    ]

push-glue :
    (c : Char) (x : String) (xs ys : List String)
    → push c (glue (x ∷ xs) ys) ≡ glue (String.◌∷◌ c x ∷ xs) ys
push-glue c x [] [] = refl
push-glue c x [] (y ∷ ys) = rw (cons-append c x y) refl
push-glue c x (z ∷ xs) ys = refl

-- A text always has a first part.
split_parts :
    (separator : ℕ) (s : String) → (x : String) × (xs : List String) × (split separator s ≡ x ∷ xs)
unfolding split
split_parts separator String.[] = ("", [], refl)
split_parts separator (String.◌∷◌ c s) =
    let (x, xs, same) = split_parts separator s in
    elim (Bool-cases (nat_beq (code c) separator)) [
      | inl e ↦ ("", split separator s, rw e refl)
      | inr e ↦ (String.◌∷◌ c x, xs, rw (e, same) refl)
    ]

pub split-append :
    (separator : ℕ) (s t : String)
    → split separator (s ++ t) ≡ glue (split separator s) (split separator t)
unfolding split
split-append separator String.[] t =
    let (x, xs, same) = split_parts separator t in rw (nil-append t, same, nil-append x) refl
split-append separator (String.◌∷◌ c s) t =
    let (x, xs, same) = split_parts separator s in
    elim (Bool-cases (nat_beq (code c) separator)) [
      | inl e ↦ rw (cons-append c s t, e, split-append separator s t, same) refl
      | inr e ↦
          rw (cons-append c s t, e, split-append separator s t, same)
            (push-glue c x xs (split separator t))
    ]

pub cut_none :
    (separator : ℕ) (s : String) → every (other_than separator) s ≡ true → cut separator s ≡ (s, "")
unfolding cut every
cut_none separator String.[] h = refl
cut_none separator (String.◌∷◌ c s) h = elim (Bool-cases (nat_beq (code c) separator)) [
  | inl e ↦ ground arith
  | inr e ↦ rw (e, cut_none separator s (ground arith)) refl
]

-- A separator behind a text without one.
pub cut-append :
    (separator : ℕ) (s t : String)
    → every (other_than separator) s ≡ true
    → cut separator (s ++ t) ≡ (s ++ (cut separator t).0, (cut separator t).1)
unfolding cut every
cut-append separator String.[] t h = rw (nil-append t, nil-append (cut separator t).0) refl
cut-append separator (String.◌∷◌ c s) t h = elim (Bool-cases (nat_beq (code c) separator)) [
  | inl e ↦ ground arith
  | inr e ↦
      rw
        (
          cons-append c s t,
          e,
          cut-append separator s t (ground arith),
          cons-append c s (cut separator t).0,
        )
        refl
]

pub every-le :
    (t u : ℕ → Bool) (s : String)
    → ((c : ℕ) → t c ≡ true → u c ≡ true)
    → every t s ≡ true
    → every u s ≡ true
unfolding every
every-le t u String.[] h e = refl
every-le t u (String.◌∷◌ c s) h e =
    let both = and_true (t (code c)) (every t s) e in
    rw (h (code c) both.0, every-le t u s h both.1) refl
