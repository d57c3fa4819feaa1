-- ===== src/Scheduler/Order.antt =====
-- internal/scheduler/priority.go: the order of the ready processes.
use mathlib.Core.List.Permᴰ
use mathlib.Core.List.{Permᴰ}
use cs320_cluster_process_ma.Base.{
  ℤ, List, [], ◌∷◌, Bool, true, false, ◌≡◌, refl, inl, inr, Bool-cases, arith, ltb_ℤ, not, ◌||◌,
  ◌&&◌, insert_by, sort_by,
}
use cs320_cluster_process_ma.Domain.Process.{Process}
use cs320_cluster_process_ma.Scheduler.Priority
use cs320_cluster_process_ma.Scheduler.Priority.{effective_priority, goes_before}

-- A higher effective priority, or the same one and an earlier submission.
abbrev pub outranks : (interval tick : ℤ) → Process → Process → Bool
outranks interval tick a b =
    ltb_ℤ (effective_priority interval b tick) (effective_priority interval a tick)
    || (not (ltb_ℤ (effective_priority interval a tick) (effective_priority interval b tick))
        && ltb_ℤ a.submitted_at_tick b.submitted_at_tick)

module _ (interval tick : ℤ) where
  -- No process of the list outranks a given one.
  abbrev pub AreBehind : Process → List Process → Type 0
  AreBehind p [] = Unit {0}
  AreBehind p (q ∷ qs) = (outranks interval tick q p ≡ false) × AreBehind p qs

  -- No process stands anywhere behind one that it outranks.
  abbrev pub IsRanked : List Process → Type 0
  IsRanked [] = Unit {0}
  IsRanked (p ∷ ps) = AreBehind p ps × IsRanked ps

  outranks_asym :
      (a b : Process) → goes_before interval tick a b ≡ true → outranks interval tick b a ≡ false
  unfolding goes_before
  outranks_asym a b h = ground arith

  goes_before-outranks :
      (a b : Process) → goes_before interval tick a b ≡ false → outranks interval tick a b ≡ false
  unfolding goes_before
  goes_before-outranks a b h = ground arith

  outranks_trans :
      (a b c : Process)
      → outranks interval tick b a ≡ false
      → outranks interval tick c b ≡ false
      → outranks interval tick c a ≡ false
  outranks_trans a b c h k = ground arith

  AreBehind-trans :
      (a b : Process) (qs : List Process)
      → outranks interval tick b a ≡ false
      → AreBehind b qs
      → AreBehind a qs
  AreBehind-trans a b [] h k = tt
  AreBehind-trans a b (q ∷ qs) h (l, m) = (outranks_trans a b q h l, AreBehind-trans a b qs h m)

  AreBehind-insert_by :
      (a p : Process) (qs : List Process)
      → outranks interval tick p a ≡ false
      → AreBehind a qs
      → AreBehind a (insert_by (goes_before interval tick) p qs)
  AreBehind-insert_by a p [] h k = (h, tt)
  AreBehind-insert_by a p (q ∷ qs) h (l, m) = elim (Bool-cases (goes_before interval tick q p)) [
    | inl e ↦ rw e (l, AreBehind-insert_by a p qs h m)
    | inr e ↦ rw e (h, (l, m))
  ]

  insert_by-IsRanked :
      (p : Process) (qs : List Process)
      → IsRanked qs
      → IsRanked (insert_by (goes_before interval tick) p qs)
  insert_by-IsRanked p [] h = (tt, tt)
  insert_by-IsRanked p (q ∷ qs) (h, k) = elim (Bool-cases (goes_before interval tick q p)) [
    | inl e ↦ rw e (AreBehind-insert_by q p qs (outranks_asym q p e) h, insert_by-IsRanked p qs k)
    | inr e ↦
        let first = goes_before-outranks q p e in
        rw e ((first, AreBehind-trans p q qs first h), (h, k))
  ]

  sort_by-IsRanked : (ps : List Process) → IsRanked (sort_by (goes_before interval tick) ps)
  unfolding sort_by
  sort_by-IsRanked [] = tt
  sort_by-IsRanked (p ∷ ps) =
      insert_by-IsRanked p (sort_by (goes_before interval tick) ps) (sort_by-IsRanked ps)

module _ {A : Type 0} (less : A → A → Bool) where
  insert_by-Permᴰ : (x : A) (xs : List A) → Permᴰ (insert_by less x xs) (x ∷ xs)
  insert_by-Permᴰ x [] = Permᴰ.cons refl Permᴰ.nil
  insert_by-Permᴰ x (y ∷ ys) = elim (Bool-cases (less y x)) [
    | inl e ↦ rw e (Permᴰ.trans (Permᴰ.cons refl (insert_by-Permᴰ x ys)) (Permᴰ.swap refl refl))
    | inr e ↦ rw e (Permᴰ.refl (x ∷ y ∷ ys))
  ]

  sort_by-Permᴰ : (xs : List A) → Permᴰ (sort_by less xs) xs
  unfolding sort_by
  sort_by-Permᴰ [] = Permᴰ.nil
  sort_by-Permᴰ (x ∷ xs) =
      Permᴰ.trans (insert_by-Permᴰ x (sort_by less xs)) (Permᴰ.cons refl (sort_by-Permᴰ xs))

-- PriorityAware.OrderReady lists the same processes, and none stands anywhere behind one with a
-- lower effective priority, or with the same one and a later submission.
pub order_ready-IsRanked :
    (interval : ℤ) (ps : List Process) (tick : ℤ)
    → IsRanked interval tick (Priority.order_ready interval ps tick)
      × Permᴰ (Priority.order_ready interval ps tick) ps
unfolding Priority.order_ready
order_ready-IsRanked interval ps tick =
    (sort_by-IsRanked interval tick ps, sort_by-Permᴰ (goes_before interval tick) ps)
