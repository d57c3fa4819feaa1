-- ===== src/Controller/Scenario/Rounds.antt =====
-- internal/cluster/scenario.go: the loops of prepareScenario over the processes and the failures.
use mathlib.Core.List.{append_assoc, append-nil}
use cs320_cluster_process_ma.Base.{
  ◌+◌, ℤ, pos, negsuc, ltb_ℤ, eqb_ℤ, String, List, [], ◌∷◌, ◌++◌, true, false, ◌≡◌, refl, sym, ap,
  ◌∙◌, inl, inr, Bool-cases, Dict, lookup, insert, contains, contains-cons, string_eq, int_eq,
  arith, eq_iff, ok, err, some, none, subst, duplicate_process, not, on_ok, on_ok-ok, length,
  lookup-insert, lookup-insert_self, if◌then◌else◌, keep, size, trim_space, and_return-ok,
  eqb_ℤ_iff, Bool,
}
use cs320_cluster_process_ma.Domain.Types.{ProcessState}
use cs320_cluster_process_ma.Domain.Process.{
  Process, ProcessDefinition, new_process, transition, draft, validate,
}
use cs320_cluster_process_ma.Domain.Node.{Node}
use cs320_cluster_process_ma.Domain.Scenario.{FailureDefinition}
use cs320_cluster_process_ma.Domain.Scenario.Validation.{max_of}
use cs320_cluster_process_ma.Controller.Tick.Schedule.{or_empty}
use cs320_cluster_process_ma.Controller.Scenario.{
  Intake, append_at, admit, prepare_processes, target_error, prepare_failures,
}

lookup-append_at :
    {V : Type 0} (k tick : ℤ) (v : V) (m : Dict ℤ (List V))
    → or_empty (lookup tick (append_at k v m))
      ≡ or_empty (lookup tick m) ++ (if eqb_ℤ k tick then v ∷ [] else [])
lookup-append_at k tick v m =
    let w = or_empty (lookup k m) ++ v ∷ [] in
    elim (Bool-cases (eqb_ℤ k tick)) [
      | inl e ↦
          let same = (eqb_ℤ_iff k tick).0 e in
          rw (lookup-insert k tick w m, e) (ap (λ j. or_empty (lookup j m) ++ v ∷ []) same)
      | inr e ↦ rw (lookup-insert k tick w m, e) (sym (append-nil (or_empty (lookup tick m))))
    ]

-- The entries of a key grow by the elements with that key, in their order.
append_keep :
    {A : Type 0} (test : A → Bool) (old : List A) (x : A) (xs : List A)
    → (old ++ (if test x then x ∷ [] else [])) ++ keep test xs ≡ old ++ keep test (x ∷ xs)
append_keep test old x xs = elim (Bool-cases (test x)) [
  | inl e ↦ rw e (append_assoc old (x ∷ []) (keep test xs))
  | inr e ↦ rw e (ap (λ l. l ++ keep test xs) (append-nil old))
]

pub prepare_failures-planned :
    (ns : Dict String Node) (ids : List String) (planned : Dict ℤ (List FailureDefinition))
    (failures : List FailureDefinition) (done : Dict ℤ (List FailureDefinition)) (tick : ℤ)
    → prepare_failures ns ids planned failures ≡ ok done
    → or_empty (lookup tick done)
      ≡ or_empty (lookup tick planned) ++ keep (λ d. eqb_ℤ d.tick tick) failures
unfolding prepare_failures
prepare_failures-planned ns ids planned [] done tick h =
    let same : planned ≡ done = cc in
    ap (λ m. or_empty (lookup tick m)) (sym same)
    ∙ sym (append-nil (or_empty (lookup tick planned)))
prepare_failures-planned ns ids planned (failure ∷ failures) done tick h =
    let more = append_at failure.tick failure planned in
    let (u, fits, rest) =
      on_ok-ok (target_error failure ns ids failure.type)
        (λ _. prepare_failures ns ids more failures) done h in
    prepare_failures-planned ns ids more failures done tick rest
    ∙ ap (λ l. l ++ keep (λ d. eqb_ℤ d.tick tick) failures)
        (lookup-append_at failure.tick tick failure planned)
    ∙ append_keep (λ d. eqb_ℤ d.tick tick) (or_empty (lookup tick planned)) failure failures

-- A process that is ready from the start.
abbrev pub ready_draft : ProcessDefinition → Process
ready_draft def = record (draft def (pos 0)) { state = ProcessState.ready }

abbrev is_later : ProcessDefinition → Bool
is_later def = ltb_ℤ (pos 0) def.submit_at_tick

-- What a definition adds to the variables of the loop.
record IsAdmitted (def : ProcessDefinition) (t done : Intake) : Type 0 where
  pub pending :
      (tick : ℤ)
      → ltb_ℤ (pos 0) tick ≡ true
      → or_empty (lookup tick done.pending)
        ≡ or_empty (lookup tick t.pending)
          ++ (if eqb_ℤ def.submit_at_tick tick then def ∷ [] else [])
  pub ids : done.ids ≡ trim_space def.id ∷ t.ids
  pub processes : done.processes ≡ (
      if is_later def
      then t.processes
      else insert (trim_space def.id) (ready_draft def) t.processes)

max_of-past : (z : ℤ) → ltb_ℤ (pos 0) z ≡ false → max_of z (pos 0) ≡ pos 0
max_of-past (pos n) h = ground arith
max_of-past (negsuc n) h = ground arith

admit-IsAdmitted :
    (def : ProcessDefinition) (t : Intake)
    → (done : Intake) × (admit def (draft def (max_of def.submit_at_tick (pos 0))) t ≡ ok done)
      × IsAdmitted def t done
unfolding admit transition
admit-IsAdmitted def t = elim (Bool-cases (ltb_ℤ (pos 0) def.submit_at_tick)) [
  | inl later ↦ rw later (
    _,
    refl,
    record {
      pending = λ tick h. lookup-append_at def.submit_at_tick tick def t.pending;
      ids = refl;
      processes = rw later refl;
    },
  )
  | inr now ↦
      rw (now, max_of-past def.submit_at_tick now)
        (
          _,
          refl,
          record {
            pending = λ tick h. elim (Bool-cases (eqb_ℤ def.submit_at_tick tick)) [
              | inl e ↦ let no : ⊥ = ground arith in elim no [ ]
              | inr e ↦ rw e (sym (append-nil (or_empty (lookup tick t.pending))))
            ];
            ids = refl;
            processes = rw now refl;
          },
        )
]

-- One round of the loop over the processes.
prepare_processes-round :
    (t done : Intake) (def : ProcessDefinition) (defs : List ProcessDefinition)
    → prepare_processes t (def ∷ defs) ≡ ok done
    → (next : Intake) × IsAdmitted def t next
      × (contains t.ids (trim_space def.id) ≡ false)
      × (prepare_processes next defs ≡ ok done)
unfolding prepare_processes new_process
prepare_processes-round t done def defs h =
    let made = max_of def.submit_at_tick (pos 0) in
    let (p, good, rest) = on_ok-ok (new_process def made) _ done h in
    let (next, e, v) = admit-IsAdmitted def t in
    let same = and_return-ok (validate (draft def made)) (draft def made) p good in
    let goes_on =
      subst
        (λ q.
          (if contains t.ids q.id
            then err duplicate_process
            else on_ok (admit def q t) λ later. prepare_processes later defs)
          ≡ ok done)
        same rest in
    (next, v, ground (arith, goes_on), ground (arith, goes_on, e))

pub prepare_processes-pending :
    (t done : Intake) (defs : List ProcessDefinition) (tick : ℤ)
    → ltb_ℤ (pos 0) tick ≡ true
    → prepare_processes t defs ≡ ok done
    → or_empty (lookup tick done.pending)
      ≡ or_empty (lookup tick t.pending) ++ keep (λ d. eqb_ℤ d.submit_at_tick tick) defs
unfolding prepare_processes
prepare_processes-pending t done [] tick later h =
    let same : t ≡ done = cc in
    ap (λ u. or_empty (lookup tick u.pending)) (sym same)
    ∙ sym (append-nil (or_empty (lookup tick t.pending)))
prepare_processes-pending t done (def ∷ defs) tick later h =
    let (next, v, fresh, rest) = prepare_processes-round t done def defs h in
    prepare_processes-pending next done defs tick later rest
    ∙ ap (λ l. l ++ keep (λ d. eqb_ℤ d.submit_at_tick tick) defs) (v.pending tick later)
    ∙ append_keep (λ d. eqb_ℤ d.submit_at_tick tick) (or_empty (lookup tick t.pending)) def defs

-- What the rest of the loop leaves alone: the processes whose identifiers were seen.
prepare_processes-kept :
    (t done : Intake) (defs : List ProcessDefinition) (id : String)
    → prepare_processes t defs ≡ ok done
    → contains t.ids id ≡ true
    → lookup id done.processes ≡ lookup id t.processes
unfolding prepare_processes
prepare_processes-kept t done [] id h seen =
    let same : t ≡ done = cc in ap (λ u. lookup id u.processes) (sym same)
prepare_processes-kept t done (def ∷ defs) id h seen =
    let (next, v, fresh, rest) = prepare_processes-round t done def defs h in
    let k = trim_space def.id in
    let later = contains-cons k id t.ids in
    prepare_processes-kept next done defs id rest (ground (arith, v.ids, later))
    ∙ elim (Bool-cases (is_later def)) [
      | inl e ↦ rw (v.processes, e) refl
      | inr e ↦
          rw (v.processes, e)
            (ground (arith, lookup-insert k id (ready_draft def) t.processes, eq_iff k id))
    ]

-- Each definition without a later tick is a ready process under its identifier.
abbrev pub AreReady : Dict String Process → List ProcessDefinition → Type 0
AreReady ps [] = Unit {0}
AreReady ps (def ∷ defs) =
    (ltb_ℤ (pos 0) def.submit_at_tick ≡ false
      → lookup (trim_space def.id) ps ≡ some (ready_draft def))
    × AreReady ps defs

pub prepare_processes-AreReady :
    (t done : Intake) (defs : List ProcessDefinition)
    → prepare_processes t defs ≡ ok done
    → AreReady done.processes defs
prepare_processes-AreReady t done [] h = tt
prepare_processes-AreReady t done (def ∷ defs) h =
    let (next, v, fresh, rest) = prepare_processes-round t done def defs h in
    let k = trim_space def.id in
    let seen : contains next.ids k ≡ true =
      ground (arith, v.ids, contains-cons k k t.ids, eq_iff k k) in
    (
      λ now.
          prepare_processes-kept next done defs k rest seen
          ∙ rw (v.processes, now) (lookup-insert_self k (ready_draft def) t.processes),
      prepare_processes-AreReady next done defs rest,
    )

pub size-insert :
    {V : Type 0} (k : String) (v : V) (m : Dict String V)
    → lookup k m ≡ none
    → size (insert k v m) ≡ size m + 1
unfolding insert lookup
size-insert k v [] h = refl
size-insert k v ((j, w) ∷ m) h = ground (arith, size-insert k v m)

-- The number of definitions without a later tick.
abbrev pub immediate : List ProcessDefinition → List ProcessDefinition
immediate defs = keep (λ d. not (ltb_ℤ (pos 0) d.submit_at_tick)) defs

-- There are no other processes.
pub prepare_processes-size :
    (t done : Intake) (defs : List ProcessDefinition)
    → ((id : String) → contains t.ids id ≡ false → lookup id t.processes ≡ none)
    → prepare_processes t defs ≡ ok done
    → size done.processes ≡ size t.processes + length (immediate defs)
unfolding prepare_processes
prepare_processes-size t done [] seen h =
    let same : t ≡ done = cc in ap (λ u. size u.processes) (sym same) ∙ omega arith
prepare_processes-size t done (def ∷ defs) seen h =
    let (next, v, fresh, rest) = prepare_processes-round t done def defs h in
    let k = trim_space def.id in
    let more = size-insert k (ready_draft def) t.processes (seen k fresh) in
    let known : (id : String) → contains next.ids id ≡ false → lookup id next.processes ≡ none =
      λ id new. elim (Bool-cases (is_later def)) [
        | inl e ↦ rw (v.processes, e) (seen id (ground (arith, v.ids, contains-cons k id t.ids)))
        | inr e ↦
            rw (v.processes, e)
              (ground (
                arith,
                lookup-insert k id (ready_draft def) t.processes,
                v.ids,
                contains-cons k id t.ids,
                seen id,
              ))
      ] in
    prepare_processes-size next done defs known rest ∙ elim (Bool-cases (is_later def)) [
      | inl e ↦ rw (v.processes, e) refl
      | inr e ↦ rw (v.processes, e) (omega (arith, more))
    ]
