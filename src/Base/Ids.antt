-- ===== src/Base/Ids.antt =====
-- Lists of identifiers: slices.Contains, and slices.Delete at slices.Index.
use Prim.Native.String.{String}
use mathlib.Core.Path.{◌≡◌, refl}
use mathlib.Core.Bool.{Bool, false, not, ◌||◌, ◌&&◌}
use mathlib.Core.List.{List, [], ◌∷◌, ◌++◌}
use native.Mathlib.Omega.{arith}
use text.Mathlib.TextEquality.{eq_iff}
use cs320_cluster_process_ma.Base.Tests.{if◌then◌else◌}
use cs320_cluster_process_ma.Base.Lists.{sort_by, insert_by}
use cs320_cluster_process_ma.Base.Equality.{◌==◌, string_eq}

unfoldable pub contains : List String → String → Bool
contains [] a = false
contains (x ∷ xs) a = x == a || contains xs a

unfoldable pub remove_first : List String → String → List String
remove_first [] a = []
remove_first (x ∷ xs) a = let rest = remove_first xs a in if x == a then xs else x ∷ rest

abbrev pub IsDistinct : List String → Type 0
IsDistinct [] = Unit {0}
IsDistinct (x ∷ xs) = (contains xs x ≡ false) × IsDistinct xs

pub contains-nil : (a : String) → contains [] a ≡ false
unfolding contains
contains-nil a = refl

pub contains-cons :
    (x a : String) (xs : List String) → contains (x ∷ xs) a ≡ (x == a || contains xs a)
unfolding contains
contains-cons x a xs = refl

pub contains-append :
    (xs ys : List String) (a : String) → contains (xs ++ ys) a ≡ (contains xs a || contains ys a)
unfolding contains
contains-append [] ys a = refl
contains-append (x ∷ xs) ys a = ground (arith, contains-append xs ys a)

pub contains-snoc :
    (xs : List String) (x a : String) → contains (xs ++ x ∷ []) a ≡ (contains xs a || x == a)
unfolding contains
contains-snoc xs x a = ground (arith, contains-append xs (x ∷ []) a)

pub IsDistinct-snoc :
    (xs : List String) (x : String)
    → IsDistinct xs
    → contains xs x ≡ false
    → IsDistinct (xs ++ x ∷ [])
unfolding contains
IsDistinct-snoc [] x d h = (refl, tt)
IsDistinct-snoc (y ∷ xs) x d h =
    ground (arith, contains-snoc xs x y, eq_iff x y, eq_iff y x, IsDistinct-snoc xs x d.1)

pub contains-remove_first :
    (xs : List String) (x a : String)
    → IsDistinct xs
    → contains (remove_first xs x) a ≡ (contains xs a && not (x == a))
unfolding contains remove_first
contains-remove_first [] x a d = refl
contains-remove_first (y ∷ xs) x a d =
    ground (arith, eq_iff y x, eq_iff y a, eq_iff x a, contains-remove_first xs x a d.1)

pub IsDistinct-remove_first :
    (xs : List String) (x : String) → IsDistinct xs → IsDistinct (remove_first xs x)
unfolding remove_first
IsDistinct-remove_first [] x d = tt
IsDistinct-remove_first (y ∷ xs) x d =
    ground (arith, contains-remove_first xs x y d.1, IsDistinct-remove_first xs x d.1)

module _ (less : String → String → Bool) where
  contains-insert_by :
      (x a : String) (xs : List String)
      → contains (insert_by less x xs) a ≡ (x == a || contains xs a)
  unfolding contains
  contains-insert_by x a [] = refl
  contains-insert_by x a (y ∷ ys) = ground (arith, contains-insert_by x a ys)

  pub contains-sort_by :
      (xs : List String) (a : String) → contains (sort_by less xs) a ≡ contains xs a
  unfolding contains sort_by
  contains-sort_by [] a = refl
  contains-sort_by (x ∷ xs) a =
      ground (arith, contains-insert_by x a (sort_by less xs), contains-sort_by xs a)

  IsDistinct-insert_by :
      (x : String) (xs : List String)
      → IsDistinct xs
      → contains xs x ≡ false
      → IsDistinct (insert_by less x xs)
  unfolding contains
  IsDistinct-insert_by x [] d h = (refl, tt)
  IsDistinct-insert_by x (y ∷ ys) d h =
      ground
        (arith, contains-insert_by x y ys, eq_iff x y, eq_iff y x, IsDistinct-insert_by x ys d.1)

  pub IsDistinct-sort_by : (xs : List String) → IsDistinct xs → IsDistinct (sort_by less xs)
  unfolding sort_by
  IsDistinct-sort_by [] d = tt
  IsDistinct-sort_by (x ∷ xs) d =
      IsDistinct-insert_by x (sort_by less xs) (IsDistinct-sort_by xs d.1)
        (ground (arith, contains-sort_by xs x))
