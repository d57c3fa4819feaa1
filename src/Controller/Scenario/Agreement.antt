-- ===== src/Controller/Scenario/Agreement.antt =====
-- internal/cluster/scenario.go: prepareScenario on a scenario that Scenario.Validate accepts.
use cs320_cluster_process_ma.Base.{
  ℤ, pos, ltb_ℤ, String, List, [], ◌∷◌, false, ◌≡◌, refl, inl, inr, Bool-cases, Dict, lookup,
  insert, has_key, contains, contains-cons, string_eq, int_eq, arith, ok, err, on_ok, on_ok-ok,
  Result-cases, Float, length, ◌||◌, ◌==◌, lookup-insert, if◌then◌else◌, invalid_input, Bool,
}
use cs320_cluster_process_ma.Domain.Process.{Process, ProcessDefinition, transition}
use cs320_cluster_process_ma.Domain.Node.{Node, NodeDefinition, draft}
use cs320_cluster_process_ma.Domain.Scenario.{FailureType, FailureDefinition, Scenario}
use cs320_cluster_process_ma.Domain.Scenario.Validation.{
  validate, check_nodes, check_processes, check_type, check_failures, failure_key, max_of,
}
use cs320_cluster_process_ma.Scheduler.{Scheduler, new_scheduler, new_scheduler_cases}
use cs320_cluster_process_ma.Controller.State.{Controller}
use cs320_cluster_process_ma.Controller.Scenario.{
  Prepared, Intake, no_intake, append_at, prepare_nodes, admit, prepare_processes, target_error,
  prepare_failures, prepare_state, prepare_scenario, validate_scenario,
}
use cs320_cluster_process_ma.Controller.Consistency.Registry.{new_node_cases}
use cs320_cluster_process_ma.Controller.Consistency.Commands.{new_process_cases, IsNew}

has_key-insert :
    {V : Type 0} (k id : String) (v : V) (m : Dict String V)
    → has_key id (insert k v m) ≡ (k == id || has_key id m)
unfolding has_key
has_key-insert k id v m = ground (arith, lookup-insert k id v m)

-- A list of identifiers and a map know the same identifiers.
abbrev Agree : {V : Type 0} → List String → Dict String V → Type 0
Agree ids m = (id : String) → contains ids id ≡ has_key id m

Agree-insert :
    {V : Type 0} (ids : List String) (m : Dict String V) (k : String) (v : V)
    → Agree ids m
    → Agree (k ∷ ids) (insert k v m)
Agree-insert ids m k v same id =
    ground (arith, same id, has_key-insert k id v m, contains-cons k id ids)

prepare_nodes-check_nodes :
    (seen : List String) (ns : Dict String Node) (defs : List NodeDefinition) (ids : List String)
    → Agree seen ns
    → check_nodes seen defs ≡ ok ids
    → (done : Dict String Node) × (prepare_nodes ns defs ≡ ok done) × Agree ids done
unfolding check_nodes prepare_nodes
prepare_nodes-check_nodes seen ns [] ids same h = (ns, refl, λ id. ground (arith, same id))
prepare_nodes-check_nodes seen ns (def ∷ defs) ids same h = elim (new_node_cases def (pos 0)) [
  | inl (e, bad) ↦ let no : ⊥ = ground arith in elim no [ ]
  | inr (good, sound) ↦
      let n = draft def (pos 0) in
      let (done, e, agree) =
        prepare_nodes-check_nodes (n.id ∷ seen) (insert n.id n ns) defs ids
          (Agree-insert seen ns n.id n same) (ground (arith, good)) in
      (done, ground (arith, good, same n.id, e), agree)
]

admit_answer :
    (def : ProcessDefinition) (p : Process) (t : Intake)
    → IsNew p
    → (later : Intake) × (admit def p t ≡ ok later) × (later.ids ≡ p.id ∷ t.ids)
unfolding admit transition
admit_answer def p t new = elim (Bool-cases (ltb_ℤ (pos 0) def.submit_at_tick)) [
  | inl later ↦ rw later (_, refl, refl)
  | inr now ↦ rw (now, new.state) (_, refl, refl)
]

prepare_processes-check_processes :
    (max_ticks : ℤ) (seen : Dict String ProcessDefinition) (t : Intake)
    (defs : List ProcessDefinition) (known : Dict String ProcessDefinition)
    → Agree t.ids seen
    → check_processes max_ticks seen defs ≡ ok known
    → (done : Intake) × (prepare_processes t defs ≡ ok done) × Agree done.ids known
unfolding check_processes prepare_processes
prepare_processes-check_processes max_ticks seen t [] known same h =
    (t, refl, λ id. ground (arith, same id))
prepare_processes-check_processes max_ticks seen t (def ∷ defs) known same h =
    elim (new_process_cases def (max_of def.submit_at_tick (pos 0))) [
      | inl (e, bad) ↦ let no : ⊥ = ground arith in elim no [ ]
      | inr (p, good, new) ↦
          let (later, e, ids) = admit_answer def p t new in
          let (done, f, agree) =
            prepare_processes-check_processes max_ticks (insert p.id def seen) later defs known
              (rw ids (Agree-insert t.ids seen p.id def same)) (ground (arith, good)) in
          let fresh : contains t.ids p.id ≡ false = ground (arith, good, same p.id) in
          (done, rw (good, fresh, e) f, agree)
    ]

target_error-check_type :
    (type : FailureType) (nodes : List String) (known : Dict String ProcessDefinition)
    (failure : FailureDefinition) (ns : Dict String Node) (ids : List String)
    → Agree nodes ns
    → Agree ids known
    → check_type type nodes known failure ≡ ok tt
    → target_error failure ns ids type ≡ ok tt
unfolding check_type has_key
target_error-check_type type nodes known failure ns ids same_nodes same_ids h =
    ground (arith, same_nodes failure.node_id, same_ids failure.process_id)

prepare_failures-check_failures :
    (max_ticks : ℤ) (nodes : List String) (known : Dict String ProcessDefinition)
    (seen : List String) (failures : List FailureDefinition) (ns : Dict String Node)
    (ids : List String) (planned : Dict ℤ (List FailureDefinition))
    → Agree nodes ns
    → Agree ids known
    → check_failures max_ticks nodes known seen failures ≡ ok tt
    → (done : _) × (prepare_failures ns ids planned failures ≡ ok done)
unfolding check_failures prepare_failures
prepare_failures-check_failures max_ticks nodes known seen [] ns ids planned a b h = (planned, refl)
prepare_failures-check_failures max_ticks nodes known seen (failure ∷ failures) ns ids planned a b
      h =
    let (u, fits, rest) =
      on_ok-ok (check_type failure.type nodes known failure)
        (λ _. check_failures max_ticks nodes known (failure_key failure ∷ seen) failures) tt
        (ground arith) in
    let target = target_error-check_type failure.type nodes known failure ns ids a b fits in
    let (done, e) =
      prepare_failures-check_failures max_ticks nodes known (failure_key failure ∷ seen) failures ns
        ids (append_at failure.tick failure planned) a b rest in
    (done, rw target e)

-- The configured limits.
abbrev pub exceeds_limits : {F : Type 0} → Scenario → Controller F → Bool
exceeds_limits s c =
    ltb_ℤ c.max_nodes (pos (length s.nodes)) || ltb_ℤ c.max_processes (pos (length s.processes))

validate-accepts :
    (s : Scenario)
    → validate s ≡ ok tt
    → (ids : List String) × (known : Dict String ProcessDefinition) × (check_nodes [] s.nodes
        ≡ ok ids)
      × (check_processes s.max_ticks [] s.processes ≡ ok known)
      × (check_failures s.max_ticks ids known [] s.failures ≡ ok tt)
unfolding validate
validate-accepts s h =
    let (ids, e, h1) =
      on_ok-ok (check_nodes [] s.nodes)
        (λ ids.
          on_ok (check_processes s.max_ticks [] s.processes)
            λ known. check_failures s.max_ticks ids known [] s.failures)
        tt (ground arith) in
    let (known, f, h2) =
      on_ok-ok (check_processes s.max_ticks [] s.processes)
        (λ known. check_failures s.max_ticks ids known [] s.failures) tt h1 in
    (ids, known, e, f, h2)

prepare_state-accepts :
    (F : Type 0) ⦃f : Float F⦄ (s : Scenario) (selected : Scheduler)
    → validate s ≡ ok tt
    → (prepared : Prepared F) × (prepare_state s selected ≡ ok prepared)
unfolding prepare_state contains has_key lookup
prepare_state-accepts F s selected h =
    let (ids, known, good_nodes, good_processes, good_failures) = validate-accepts s h in
    let (nodes, e, same_nodes) =
      prepare_nodes-check_nodes [] [] s.nodes ids (λ id. refl) good_nodes in
    let (intake, g, same_ids) =
      prepare_processes-check_processes s.max_ticks [] no_intake s.processes known (λ id. refl)
        good_processes in
    let (failures, k) =
      prepare_failures-check_failures s.max_ticks ids known [] s.failures nodes intake.ids []
        same_nodes same_ids good_failures in
    rw (e, g, k) (_, refl)

-- ValidateScenario answers what Scenario.Validate, the choice of the scheduler and the test of the
-- limits answer in turn: on a scenario that these accept, none of the later checks of
-- prepareScenario (nodes, processes, targets of failures) refuses.
pub validate_scenario-validate :
    {F : Type 0} ⦃f : Float F⦄ (s : Scenario) (c : Controller F)
    → validate_scenario s c
      ≡ on_ok (validate s) λ _.
        on_ok
          (new_scheduler s.scheduler)
          λ _. if exceeds_limits s c then err invalid_input else ok tt
unfolding validate_scenario prepare_scenario
validate_scenario-validate {F} s c = elim (Result-cases (validate s)) [
  | inl (_, e) ↦ elim (new_scheduler_cases s.scheduler) [
    | inl (selected, g) ↦ elim (Bool-cases (exceeds_limits s c)) [
      | inl above ↦ rw (e, g, above) refl
      | inr within ↦
          let (prepared, k) = prepare_state-accepts F s selected e in rw (e, g, within, k) refl
    ]
    | inr g ↦ rw (e, g) refl
  ]
  | inr (inl (_, e)) ↦ rw e refl
  | inr (inr e) ↦ rw e refl
]
