-- ===== src/Base/Maps.antt =====
-- Go's maps as association lists. A `range` loop over a map visits the entries in the order of
-- the list, which stands for whatever order the runtime picks.
use Prim.Native.Nat.{ℕ}
use mathlib.Core.Path.{◌≡◌, refl}
use mathlib.Core.Logic.{◌↔◌, ◌≢◌, ◌⊎◌}
use mathlib.Core.Bool.{Bool, true, false, not, ◌&&◌, ◌||◌}
use mathlib.Core.Option.{Option, none, some}
use mathlib.Core.List.{List, [], ◌∷◌}
use native.Mathlib.Omega.{arith}
use cs320_cluster_process_ma.Base.Tests.{if◌then◌else◌}
use cs320_cluster_process_ma.Base.Lists.{length}
use cs320_cluster_process_ma.Base.Equality.{Eq, ◌==◌, string_eq}
use cs320_cluster_process_ma.Base.Ids.{contains, IsDistinct}
use Prim.Native.String.{String}
use text.Mathlib.TextEquality.{eq_iff}

abbrev pub Dict : Type 0 → Type 0 → Type 0
Dict K V = List (K × V)

module _ {K V : Type 0} ⦃e : Eq K⦄ where
  unfoldable pub lookup : K → Dict K V → Option V
  lookup k [] = none
  lookup k ((j, v) ∷ m) = if j == k then some v else lookup k m

  unfoldable pub insert : K → V → Dict K V → Dict K V
  insert at value [] = (at, value) ∷ []
  insert at value ((other, old) ∷ rest) =
      if other == at then (other, value) ∷ rest else (other, old) ∷ insert at value rest

  unfoldable pub delete : K → Dict K V → Dict K V
  delete k [] = []
  delete k ((j, w) ∷ m) = let rest = delete k m in if j == k then rest else (j, w) ∷ rest

  unfoldable pub has_key : K → Dict K V → Bool
  unfolding lookup
  has_key k m = elim (lookup k m) [ none ↦ false | some v ↦ true ]

  pub lookup-insert :
      (at other : K) (value : V) (entries : Dict K V)
      → lookup other (insert at value entries)
        ≡ (if at == other then some value else lookup other entries)
  unfolding insert lookup
  lookup-insert at other value [] = refl
  lookup-insert at other value ((i, w) ∷ rest) = ground (
    arith,
    lookup-insert at other value rest,
    e.same_iff i at,
    e.same_iff at other,
    e.same_iff i other,
  )

  pub lookup-delete :
      (k j : K) (m : Dict K V) → lookup j (delete k m) ≡ (if k == j then none else lookup j m)
  unfolding lookup delete
  lookup-delete k j [] = ground arith
  lookup-delete k j ((i, w) ∷ m) =
      ground (arith, e.same_iff k j, e.same_iff i k, e.same_iff i j, lookup-delete k j m)

  pub has_key_iff :
      (k : K) (m : Dict K V) → (has_key k m ≡ true) ↔ ((v : V) × (lookup k m ≡ some v))
  unfolding has_key
  has_key_iff k m = ground arith

  pub insert-insert : (k : K) (v w : V) (m : Dict K V) → insert k v (insert k w m) ≡ insert k v m
  unfolding insert
  insert-insert k v w [] = ground (arith, e.same_iff k k)
  insert-insert k v w ((j, u) ∷ m) = ground (arith, e.same_iff j k, insert-insert k v w m)

  pub has_key-none : (k : K) (m : Dict K V) → has_key k m ≡ false → lookup k m ≡ none
  unfolding has_key
  has_key-none k m h = ground arith

module _ {K V : Type 0} where
  abbrev pub keys : Dict K V → List K
  keys [] = []
  keys ((k, v) ∷ m) = k ∷ keys m

  abbrev pub size : Dict K V → ℕ
  size m = length m

-- Keys are distinct: what a Go map guarantees, and what the operations keep.
module _ {V : Type 0} where
  abbrev pub HasDistinctKeys : Dict String V → Type 0
  HasDistinctKeys m = IsDistinct (keys m)

  pub contains-keys-insert :
      (k a : String) (v : V) (m : Dict String V)
      → contains (keys (insert k v m)) a ≡ (k == a || contains (keys m) a)
  unfolding insert contains
  contains-keys-insert k a v [] = refl
  contains-keys-insert k a v ((j, w) ∷ m) =
      ground (arith, eq_iff j k, eq_iff j a, eq_iff k a, contains-keys-insert k a v m)

  pub HasDistinctKeys-insert :
      (k : String) (v : V) (m : Dict String V) → HasDistinctKeys m → HasDistinctKeys (insert k v m)
  unfolding insert contains
  HasDistinctKeys-insert k v [] d = (refl, tt)
  HasDistinctKeys-insert k v ((j, w) ∷ m) d = ground (
    arith,
    eq_iff j k,
    eq_iff k j,
    contains-keys-insert k j v m,
    HasDistinctKeys-insert k v m d.1,
  )

  pub contains-keys-delete :
      (k a : String) (m : Dict String V)
      → contains (keys (delete k m)) a ≡ (contains (keys m) a && not (k == a))
  unfolding delete contains
  contains-keys-delete k a [] = refl
  contains-keys-delete k a ((j, w) ∷ m) =
      ground (arith, eq_iff j k, eq_iff j a, eq_iff k a, contains-keys-delete k a m)

  pub HasDistinctKeys-delete :
      (k : String) (m : Dict String V) → HasDistinctKeys m → HasDistinctKeys (delete k m)
  unfolding delete
  HasDistinctKeys-delete k [] d = tt
  HasDistinctKeys-delete k ((j, w) ∷ m) d =
      ground (arith, contains-keys-delete k j m, HasDistinctKeys-delete k m d.1)

  -- A lookup after an insertion finds the new value, or what was there under another key.
  pub lookup-insert_cases :
      (k j : String) (v w : V) (m : Dict String V)
      → lookup j (insert k v m) ≡ some w
      → (k ≡ j) × (w ≡ v) ⊎ (k ≢ j) × (lookup j m ≡ some w)
  lookup-insert_cases k j v w m h = ground (arith, lookup-insert k j v m, eq_iff k j)

  pub lookup-insert_self :
      (k : String) (v : V) (m : Dict String V) → lookup k (insert k v m) ≡ some v
  lookup-insert_self k v m = ground (arith, lookup-insert k k v m, eq_iff k k)

  pub lookup-insert_ne :
      (k j : String) (v : V) (m : Dict String V) → k ≢ j → lookup j (insert k v m) ≡ lookup j m
  lookup-insert_ne k j v m h = ground (arith, lookup-insert k j v m, eq_iff k j)

  -- A property of all entries.
  abbrev pub AllEntries : (String → V → Type 0) → Dict String V → Type 0
  AllEntries P [] = Unit {0}
  AllEntries P ((k, v) ∷ m) = P k v × AllEntries P m

  entries_shift :
      (j : String) (v : V) (all m : Dict String V)
      → contains (keys m) j ≡ false
      → AllEntries (λ k u. lookup k all ≡ some u) m
      → AllEntries (λ k u. lookup k ((j, v) ∷ all) ≡ some u) m
  unfolding lookup contains
  entries_shift j v all [] h e = tt
  entries_shift j v all ((i, w) ∷ m) h e =
      (ground (arith, eq_iff i j, eq_iff j i), entries_shift j v all m (ground arith) e.1)

  -- Each entry of a map is found under its key.
  pub entries_found :
      (m : Dict String V) → HasDistinctKeys m → AllEntries (λ k v. lookup k m ≡ some v) m
  unfolding lookup
  entries_found [] d = tt
  entries_found ((j, v) ∷ m) d =
      (ground (arith, eq_iff j j), entries_shift j v m m d.0 (entries_found m d.1))
