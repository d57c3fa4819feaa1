-- ===== src/Scheduler/Selection.antt =====
-- internal/scheduler/round_robin.go and least_loaded.go: the answers of SelectNode.
use cs320_cluster_process_ma.Base.{
  ℕ, zero, suc, ◌+◌, ◌-◌, ◌%◌, ◌≤◌, ◌<◌, String, List, [], ◌∷◌, true, false, ◌&&◌, ap, ◌≡◌, refl,
  sym, ◌∙◌, ◌⊎◌, inl, inr, none, some, ◌==◌, string_eq, eq_iff, arith, length, get_elem?, Float, ok,
  err, no_schedulable_node, Bool-cases, Option-cases, subst, dec_lt,
}
use native.Mathlib.Nat.{mod-lt, mod-eq_of_lt, add-mod_right}
use cs320_cluster_process_ma.Domain.Process.{Process}
use cs320_cluster_process_ma.Domain.Node.{NodeSnapshot, can_fit}
use cs320_cluster_process_ma.Scheduler.RoundRobin
use cs320_cluster_process_ma.Scheduler.RoundRobin.{probe, by_id, answer}
use cs320_cluster_process_ma.Scheduler.LeastLoaded
use cs320_cluster_process_ma.Scheduler.LeastLoaded.{select_from, improves, load_score}

-- The process fits the node at an index.
abbrev FitsAt : List NodeSnapshot → Process → ℕ → Type 0
FitsAt ordered p i = (n : NodeSnapshot) × (get_elem? ordered i ≡ some n) × (can_fit n p ≡ true)

-- No node at an index fits the process.
abbrev MissesAt : List NodeSnapshot → Process → ℕ → Type 0
MissesAt ordered p i = (n : NodeSnapshot) → get_elem? ordered i ≡ some n → can_fit n p ≡ false

module _ (start : ℕ) (ordered : List NodeSnapshot) (p : Process) where
  abbrev at : ℕ → ℕ
  at offset = (start + offset) % length ordered

  fits_or_misses : (i : ℕ) → FitsAt ordered p i ⊎ MissesAt ordered p i
  fits_or_misses i = elim (Option-cases (get_elem? ordered i)) [
    | inl e ↦ inr (λ n h. ground arith)
    | inr (n, e) ↦ elim (Bool-cases (can_fit n p)) [
      | inl fits ↦ inl (n, e, fits)
      | inr full ↦ inr (λ m h. ground arith)
    ]
  ]

  probe-misses :
      (rounds offset : ℕ)
      → MissesAt ordered p (at offset)
      → probe start ordered p (suc rounds) offset ≡ probe start ordered p rounds (offset + 1)
  unfolding probe
  probe-misses rounds offset miss =
      elim (Option-cases (get_elem? ordered ((start + offset) % length ordered))) [
        | inl e ↦ rw (probe, e) refl
        | inr (n, e) ↦ rw (probe, e, miss n e) refl
      ]

  -- The misses go on from the next offset.
  more_misses :
      (offset last : ℕ)
      → MissesAt ordered p (at offset)
      → ((j : ℕ) → offset + 1 ≤ j → j < last → MissesAt ordered p (at j))
      → (j : ℕ) → offset ≤ j
      → j < last
      → MissesAt ordered p (at j)
  more_misses offset last miss rest j le lt = elim (dec_lt offset j) [
    | yes later ↦ rest j (omega arith) lt
    | no same ↦ let e : offset ≡ j = omega arith in subst (λ k. MissesAt ordered p (at k)) e miss
  ]

  -- The loop answers the first offset whose node fits.
  abbrev IsFirst : (offset i : ℕ) → Type 0
  IsFirst offset i =
      FitsAt ordered p i
      × ((last : ℕ) × (i ≡ at last)
          × (offset ≤ last)
          × ((j : ℕ) → offset ≤ j → j < last → MissesAt ordered p (at j)))

  probe-cases :
      (rounds offset : ℕ)
      → ((i : ℕ) × (probe start ordered p rounds offset ≡ some i) × IsFirst offset i)
        ⊎ (probe start ordered p rounds offset ≡ none)
          × ((j : ℕ) → offset ≤ j → j < offset + rounds → MissesAt ordered p (at j))
  unfolding probe
  probe-cases zero offset = inr (refl, λ j le lt. absurd (omega arith))
  probe-cases (suc rounds) offset = elim (fits_or_misses (at offset)) [
    | inl (n, e, fits) ↦
        let first : IsFirst offset (at offset) =
          ((n, e, fits), (offset, refl, omega arith, λ j le lt. absurd (omega arith))) in
        inl (at offset, rw (probe, e, fits) refl, first)
    | inr miss ↦
        let step = probe-misses rounds offset miss in
        elim (probe-cases rounds (offset + 1)) [
          | inl (i, e, (fits, (last, same, le, misses))) ↦
              let first : IsFirst offset i =
                (fits, (last, same, omega arith, more_misses offset last miss misses)) in
              inl (i, step ∙ e, first)
          | inr (e, misses) ↦ inr (
            step ∙ e,
            λ j le lt. more_misses offset (offset + 1 + rounds) miss misses j le (omega arith),
          )
        ]
  ]

-- An index is reached from any start, by an offset below the length.
reach : (start i len : ℕ) → start < len → i < len → (j : ℕ) × (j < len) × ((start + j) % len ≡ i)
reach start i len lt less = elim (dec_lt i start) [
  | no after ↦
      let sum : start + (i - start) ≡ i = omega arith in
      (i - start, omega arith, rw sum (mod-eq_of_lt less))
  | yes before_it ↦
      let sum : start + (i + len - start) ≡ i + len = omega arith in
      (i + len - start, omega arith, rw sum (add-mod_right i len ∙ mod-eq_of_lt less))
]

length-get_elem? :
    (nodes : List NodeSnapshot) (i : ℕ) (n : NodeSnapshot)
    → get_elem? nodes i ≡ some n
    → i < length nodes
length-get_elem? [] i n h = ground arith
length-get_elem? (m ∷ nodes) zero n h = omega arith
length-get_elem? (m ∷ nodes) (suc i) n h = omega (arith, length-get_elem? nodes i n h)

zero_or_positive : (n : ℕ) → (n ≡ 0) ⊎ ((m : ℕ) × (n ≡ suc m))
zero_or_positive zero = inl refl
zero_or_positive (suc m) = inr (m, refl)

-- The branch for a list that is not empty.
pick_second :
    {A : Type 0} (n m : ℕ) (a b : A) → n ≡ suc m → (elim n as (λ _. A) [ zero ↦ a | suc _ ↦ b ]) ≡ b
pick_second zero m a b h = absurd (omega arith)
pick_second (suc n) m a b h = refl

-- The two answers of RoundRobin.SelectNode: the first node that fits, in the cyclic order from the
-- cursor on, or an error.
abbrev pub IsCyclic : ℕ → Process → List NodeSnapshot → Type 0
IsCyclic cursor p nodes =
    ((i : ℕ) × (n : NodeSnapshot) × (RoundRobin.select_node cursor p nodes
        ≡ (ok n.id, (i + 1) % length (by_id nodes)))
      × (get_elem? (by_id nodes) i ≡ some n)
      × (can_fit n p ≡ true)
      × ((last : ℕ) × (i ≡ (cursor % length (by_id nodes) + last) % length (by_id nodes))
          × ((j : ℕ)
              → j < last
              → MissesAt (by_id nodes) p
                  ((cursor % length (by_id nodes) + j) % length (by_id nodes)))))
    ⊎ (RoundRobin.select_node cursor p nodes ≡ (err no_schedulable_node, cursor))
      × ((i : ℕ) → MissesAt (by_id nodes) p i)

-- RoundRobin.SelectNode over the nodes in the order of their identifiers. It answers the node at
-- the first index from the cursor on, cyclically, whose node fits, and the cursor moves behind that
-- index; or no node fits, and it answers an error and keeps the cursor. It never panics.
pub round_robin-IsCyclic :
    (cursor : ℕ) (p : Process) (nodes : List NodeSnapshot) → IsCyclic cursor p nodes
unfolding RoundRobin.select_node
round_robin-IsCyclic cursor p nodes = elim (zero_or_positive (length (by_id nodes))) [
  | inl empty ↦ inr (
    rw (RoundRobin.select_node, empty) refl,
    λ i n h. absurd (omega (arith, empty, length-get_elem? (by_id nodes) i n h)),
  )
  | inr (m, full) ↦
      let some_node : 0 < length (by_id nodes) = omega (arith, full) in
      let begin = cursor % length (by_id nodes) in
      let opened : RoundRobin.select_node cursor p nodes
          ≡ answer cursor (by_id nodes) (probe begin (by_id nodes) p (length (by_id nodes)) 0) =
        pick_second (length (by_id nodes)) m _ _ full in
      elim (probe-cases begin (by_id nodes) p (length (by_id nodes)) 0) [
        | inl (i, e, ((n, found, fits), (last, same, le, misses))) ↦
            let picked : answer cursor (by_id nodes) (some i)
                ≡ (ok n.id, (i + 1) % length (by_id nodes)) =
              rw (answer, found) refl in
            inl (
              i,
              n,
              opened ∙ (ap (answer cursor (by_id nodes)) e ∙ picked),
              found,
              fits,
              (last, same, λ j lt. misses j (omega arith) lt),
            )
        | inr (e, misses) ↦ inr (
          opened ∙ ap (answer cursor (by_id nodes)) e,
          λ i n h.
              let (j, below, at_i) =
                reach begin i (length (by_id nodes)) (mod-lt cursor some_node)
                  (length-get_elem? (by_id nodes) i n h) in
              misses j (omega arith) (omega arith) n (ap (λ k. get_elem? (by_id nodes) k) at_i ∙ h),
        )
      ]
]

module _ (F : Type 0) ⦃f : Float F⦄ where
  -- A node of the list that fits and has the identifier.
  abbrev pub IsCandidate : List NodeSnapshot → Process → String → Type 0
  IsCandidate nodes p id =
      (i : ℕ) × (n : NodeSnapshot) × (get_elem? nodes i ≡ some n)
      × (can_fit n p ≡ true)
      × (n.id ≡ id)

  IsCandidate-cons :
      (m : NodeSnapshot) (nodes : List NodeSnapshot) (p : Process) (id : String)
      → IsCandidate nodes p id
      → IsCandidate (m ∷ nodes) p id
  IsCandidate-cons m nodes p id (i, n, e, fits, same) = (suc i, n, e, fits, same)

  -- The answer of the loop is what it began with, or a node that fits.
  select_from-fits :
      (id : String) (score : F) (p : Process) (nodes : List NodeSnapshot)
      → (select_from F id score p nodes ≡ id) ⊎ IsCandidate nodes p (select_from F id score p nodes)
  unfolding select_from
  select_from-fits id score p [] = inl refl
  select_from-fits id score p (n ∷ nodes) =
      elim (Bool-cases (can_fit n p && improves F id score n)) [
        | inl e ↦
            let better : select_from F id score p (n ∷ nodes)
                ≡ select_from F n.id (load_score F n) p nodes =
              rw (select_from, e) refl in
            elim (select_from-fits n.id (load_score F n) p nodes) [
              | inl same ↦ inr (0, n, refl, ground arith, sym (better ∙ same))
              | inr found ↦ inr (rw better (IsCandidate-cons n nodes p _ found))
            ]
        | inr e ↦
            let worse : select_from F id score p (n ∷ nodes) ≡ select_from F id score p nodes =
              rw (select_from, e) refl in
            elim (select_from-fits id score p nodes) [
              | inl same ↦ inl (worse ∙ same)
              | inr found ↦ inr (rw worse (IsCandidate-cons n nodes p _ found))
            ]
      ]

  -- LeastLoaded.SelectNode answers the identifier of a node that fits the process, or the error
  -- for no schedulable node; it does nothing else.
  pub least_loaded_sound :
      (p : Process) (nodes : List NodeSnapshot)
      → ((id : String) × (LeastLoaded.select_node F p nodes ≡ ok id) × IsCandidate nodes p id)
        ⊎ (LeastLoaded.select_node F p nodes ≡ err no_schedulable_node)
  unfolding LeastLoaded.select_node
  least_loaded_sound p nodes = elim (Bool-cases (select_from F "" f.infinity p nodes == "")) [
    | inl none_found ↦ inr (rw none_found refl)
    | inr one_found ↦ elim (select_from-fits "" f.infinity p nodes) [
      | inl empty ↦
          absurd (cc (one_found, (eq_iff (select_from F "" f.infinity p nodes) "").1 empty))
      | inr found ↦ inl (select_from F "" f.infinity p nodes, rw one_found refl, found)
    ]
  ]
