-- ===== src/Controller/Invariant/Totals.antt =====
-- The sum of a request over the processes that a node lists.
use cs320_cluster_process_ma.Base.{
  ℕ, ◌+◌, ◌≤◌, ℤ, pos_part, String, List, [], ◌∷◌, ◌++◌, true, false, ◌≡◌, refl, string_eq, Option,
  none, some, lookup, contains, remove_first, insert, Dict, arith, eq_iff, lookup-insert,
}
use cs320_cluster_process_ma.Domain.Process.{Process}

module _ (request : Process → ℤ) where
  abbrev pub amount : Option Process → ℕ
  amount none = 0
  amount (some p) = pos_part (request p)

  unfoldable pub total : Dict String Process → List String → ℕ
  total ps [] = 0
  total ps (id ∷ ids) = amount (lookup id ps) + total ps ids

  pub total-snoc :
      (ps : Dict String Process) (ids : List String) (id : String)
      → total ps (ids ++ id ∷ []) ≡ total ps ids + amount (lookup id ps)
  unfolding total
  total-snoc ps [] id = omega arith
  total-snoc ps (j ∷ ids) id = omega (arith, total-snoc ps ids id)

  pub total-remove_first :
      (ps : Dict String Process) (ids : List String) (id : String)
      → contains ids id ≡ true
      → total ps (remove_first ids id) + amount (lookup id ps) ≡ total ps ids
  unfolding total contains remove_first
  total-remove_first ps [] id h = ground arith
  total-remove_first ps (j ∷ ids) id h = ground (arith, eq_iff j id, total-remove_first ps ids id)

  -- A listed process asks for at most the total.
  pub amount-le-total :
      (ps : Dict String Process) (ids : List String) (id : String)
      → contains ids id ≡ true
      → amount (lookup id ps) ≤ total ps ids
  unfolding total contains
  amount-le-total ps [] id h = ground arith
  amount-le-total ps (j ∷ ids) id h = ground (arith, eq_iff j id, amount-le-total ps ids id)

  -- A write that keeps the amount of its key keeps every total.
  pub total-insert :
      (ps : Dict String Process) (ids : List String) (k : String) (p : Process)
      → amount (lookup k ps) ≡ pos_part (request p)
      → total (insert k p ps) ids ≡ total ps ids
  unfolding total
  total-insert ps [] k p h = refl
  total-insert ps (j ∷ ids) k p h =
      ground (arith, lookup-insert k j p ps, eq_iff k j, total-insert ps ids k p h)

  -- A write at a key that is not listed keeps the total.
  pub total-insert_unlisted :
      (ps : Dict String Process) (ids : List String) (k : String) (p : Process)
      → contains ids k ≡ false
      → total (insert k p ps) ids ≡ total ps ids
  unfolding total contains
  total-insert_unlisted ps [] k p h = refl
  total-insert_unlisted ps (j ∷ ids) k p h =
      ground
        (arith, lookup-insert k j p ps, eq_iff k j, eq_iff j k, total-insert_unlisted ps ids k p)
