-- ===== src/Controller/Scenario/Loading.antt =====
-- internal/cluster/scenario.go: what LoadScenario leaves.
use cs320_cluster_process_ma.Base.{
  pos, ltb_ℤ, String, List, [], ◌∷◌, false, ◌≡◌, refl, inl, inr, Bool-cases, Dict, lookup, insert,
  has_key, has_key-none, contains, string_eq, int_eq, arith, ok, err, none, panic, IsCalm, Yields,
  on_ok, on_ok-Yields, Float, IsInt, length, ◌||◌, lookup-insert, Result, sort_by, before, keys,
  ◌∙◌,
}
use cs320_cluster_process_ma.Domain.Types.{ProcessState, EventType}
use cs320_cluster_process_ma.Domain.Process.{Process, ProcessDefinition, transition}
use cs320_cluster_process_ma.Domain.Node.{Node, NodeDefinition, draft}
use cs320_cluster_process_ma.Domain.Cluster.{new_cluster}
use cs320_cluster_process_ma.Domain.Scenario.{FailureType, FailureDefinition, Scenario}
use cs320_cluster_process_ma.Domain.Scenario.Validation.{validate, max_of}
use cs320_cluster_process_ma.Scheduler.{Scheduler, new_scheduler}
use cs320_cluster_process_ma.Controller.State.{Controller, emitted}
use cs320_cluster_process_ma.Controller.Scenario.{
  Prepared, Intake, no_intake, append_at, prepare_nodes, admit, prepare_processes, target_error,
  prepare_failures, prepare_state, prepare_scenario, validate_scenario, announce_nodes,
  announce_processes, installed, install, or_install, load_scenario,
}
use cs320_cluster_process_ma.Controller.Invariant.Facts.{IsConsistent, IsConsistentBut}
use cs320_cluster_process_ma.Controller.Invariant.Nodes.{add_node}
use cs320_cluster_process_ma.Controller.Invariant.Writes.{submit}
use cs320_cluster_process_ma.Controller.Consistency.Registry.{
  nil-IsConsistentBut, new_node_cases, draft-IsNodeConsistent,
}
use cs320_cluster_process_ma.Controller.Consistency.Commands.{new_process_cases, IsNew}
use cs320_cluster_process_ma.Controller.Scenario.Checks.{Any, validate-Any, new_scheduler-Any}
use cs320_cluster_process_ma.Controller.Outcome.Defs.{IsAtomic}

-- The capacities of the definitions are machine integers.
abbrev pub AreInts : List NodeDefinition → Type 0
AreInts [] = Unit {0}
AreInts (def ∷ defs) = IsInt def.cpu_capacity × IsInt def.memory_capacity_mb × AreInts defs

abbrev HoldsNodes : Dict String Node → Type 0
HoldsNodes ns = IsConsistentBut [] ns []

prepare_nodes-HoldsNodes :
    (ns : Dict String Node) (defs : List NodeDefinition)
    → AreInts defs
    → HoldsNodes ns
    → Yields HoldsNodes (prepare_nodes ns defs)
unfolding prepare_nodes
prepare_nodes-HoldsNodes ns [] ints inv = inv
prepare_nodes-HoldsNodes ns (def ∷ defs) (cpu, memory, ints) inv =
    elim (new_node_cases def (pos 0)) [
      | inl (e, bad) ↦ rw bad tt
      | inr (good, sound) ↦
          let n = draft def (pos 0) in
          elim (Bool-cases (has_key n.id ns)) [
            | inl twice ↦ rw (good, twice) tt
            | inr once ↦
                rw (good, once)
                  (prepare_nodes-HoldsNodes (insert n.id n ns) defs ints (
                    add_node ns [] n.id n (has_key-none n.id ns once) refl
                      (draft-IsNodeConsistent [] def (pos 0) sound cpu memory) inv))
          ]
    ]

-- The processes that were admitted are among the identifiers that were seen.
record IsTaken (ns : Dict String Node) (t : Intake) : Type 0 where
  pub consistent : IsConsistentBut [] ns t.processes
  pub seen : (id : String) → contains t.ids id ≡ false → lookup id t.processes ≡ none

admit-IsTaken :
    (ns : Dict String Node) (def : ProcessDefinition) (p : Process) (t : Intake)
    → IsNew p
    → contains t.ids p.id ≡ false
    → IsTaken ns t
    → Yields (IsTaken ns) (admit def p t)
unfolding admit transition contains
admit-IsTaken ns def p t new fresh v = elim (Bool-cases (ltb_ℤ (pos 0) def.submit_at_tick)) [
  | inl later ↦
      rw later (record { consistent = v.consistent; seen = λ id h. v.seen id (ground arith) })
  | inr now ↦
      rw (now, new.state)
        (record {
          consistent =
              submit ns t.processes p.id _ (v.seen p.id fresh) refl new.cpu new.memory refl new.node
                v.consistent;
          seen = λ id h. ground (
            arith,
            v.seen id,
            lookup-insert p.id id (record p { state = ProcessState.ready }) t.processes,
          );
        })
]

prepare_processes-IsTaken :
    (ns : Dict String Node) (t : Intake) (defs : List ProcessDefinition)
    → IsTaken ns t
    → Yields (IsTaken ns) (prepare_processes t defs)
unfolding prepare_processes
prepare_processes-IsTaken ns t [] v = v
prepare_processes-IsTaken ns t (def ∷ defs) v =
    elim (new_process_cases def (max_of def.submit_at_tick (pos 0))) [
      | inl (e, bad) ↦ rw bad tt
      | inr (p, good, new) ↦ elim (Bool-cases (contains t.ids p.id)) [
        | inl twice ↦ rw (good, twice) tt
        | inr once ↦
            rw (good, once)
              (on_ok-Yields (IsTaken ns) (IsTaken ns) (admit def p t)
                (λ later. prepare_processes later defs) (admit-IsTaken ns def p t new once v)
                (λ later w. prepare_processes-IsTaken ns later defs w))
      ]
    ]

target_error-Any :
    (failure : FailureDefinition) (ns : Dict String Node) (ids : List String) (t : FailureType)
    → Yields Any (target_error failure ns ids t)
target_error-Any failure ns ids t = ground arith

prepare_failures-Any :
    (ns : Dict String Node) (ids : List String) (planned : _) (failures : List FailureDefinition)
    → Yields Any (prepare_failures ns ids planned failures)
unfolding prepare_failures
prepare_failures-Any ns ids planned [] = tt
prepare_failures-Any ns ids planned (failure ∷ failures) =
    on_ok-Yields Any Any _ _ (target_error-Any failure ns ids failure.type)
      (λ _ _. prepare_failures-Any ns ids (append_at failure.tick failure planned) failures)

-- The controller that the loops prepare is consistent.
abbrev IsReady : {F : Type 0} → Prepared F → Type 0
IsReady prepared = IsConsistentBut [] prepared.state.nodes prepared.state.processes

module _ (F : Type 0) ⦃f : Float F⦄ where
  prepare_state-IsReady :
      (s : Scenario) (selected : Scheduler)
      → AreInts s.nodes
      → Yields IsReady (prepare_state {F = F} s selected)
  unfolding prepare_state new_cluster
  prepare_state-IsReady s selected ints =
      on_ok-Yields HoldsNodes IsReady (prepare_nodes [] s.nodes) _
        (prepare_nodes-HoldsNodes [] s.nodes ints nil-IsConsistentBut)
        λ nodes holds.
          on_ok-Yields (IsTaken nodes) IsReady (prepare_processes no_intake s.processes) _
            (prepare_processes-IsTaken nodes no_intake s.processes
              (record { consistent = holds; seen = λ id h. unfold lookup in refl }))
            λ intake taken.
              on_ok-Yields Any IsReady (prepare_failures nodes intake.ids [] s.failures) _
                (prepare_failures-Any nodes intake.ids [] s.failures) λ failures _. taken.consistent

module _ {F : Type 0} ⦃f : Float F⦄ where
  prepare_scenario-IsReady :
      (s : Scenario) (c : Controller F) → AreInts s.nodes → Yields IsReady (prepare_scenario s c)
  unfolding prepare_scenario
  prepare_scenario-IsReady s c ints =
      on_ok-Yields Any IsReady (validate s) _ (validate-Any s) λ _ _.
        on_ok-Yields Any IsReady (new_scheduler s.scheduler) _ (new_scheduler-Any s.scheduler)
          λ selected _.
            elim (Bool-cases (
              ltb_ℤ c.max_nodes (pos (length s.nodes))
              || ltb_ℤ c.max_processes (pos (length s.processes)))) [
                | inl above ↦ rw above tt
                | inr within ↦ rw within (prepare_state-IsReady F s selected ints)
              ]

  announce_nodes-state :
      (ids : List String) (c : Controller F) → (announce_nodes ids c).state ≡ c.state
  unfolding emitted
  announce_nodes-state [] c = refl
  announce_nodes-state (id ∷ ids) c =
      announce_nodes-state ids
        (emitted EventType.node_registered "info" "" id "node loaded from scenario" c)

  announce_processes-state :
      (ids : List String) (c : Controller F) → (announce_processes ids c).state ≡ c.state
  unfolding emitted
  announce_processes-state [] c = refl
  announce_processes-state (id ∷ ids) c =
      announce_processes-state ids
        (emitted EventType.process_submitted "info" id "" "process loaded from scenario" c)

  pub install-state :
      (s : Scenario) (prepared : Prepared F) (c : Controller F)
      → (install s prepared c).state ≡ prepared.state
  unfolding install emitted
  install-state s prepared c =
      let d = installed prepared c in
      announce_processes-state (sort_by before (keys d.processes))
        (announce_nodes (sort_by before (keys d.nodes)) d)
      ∙ announce_nodes-state (sort_by before (keys d.nodes)) d

  or_install-IsAtomic :
      (s : Scenario) (c : Controller F) (r : Result (Prepared F))
      → Yields IsReady r
      → IsAtomic c (or_install s r c)
  or_install-IsAtomic s c (ok prepared) ready = tt
  or_install-IsAtomic s c (err _) ready = refl
  or_install-IsAtomic s c panic ready = elim ready [ ]

  or_install-IsConsistent :
      (s : Scenario) (c : Controller F) (r : Result (Prepared F))
      → Yields IsReady r
      → IsConsistent c
      → IsConsistent (or_install s r c).1
  or_install-IsConsistent s c (ok prepared) ready inv = rw (install-state s prepared c) ready
  or_install-IsConsistent s c (err _) ready inv = inv
  or_install-IsConsistent s c panic ready inv = inv

  -- LoadScenario succeeds, or returns an error and leaves the controller as it was; it never
  -- panics. The capacities of the nodes in the scenario are machine integers.
  pub load_scenario-IsAtomic :
      (s : Scenario) (c : Controller F) → AreInts s.nodes → IsAtomic c (load_scenario s c)
  unfolding load_scenario
  load_scenario-IsAtomic s c ints =
      or_install-IsAtomic s c (prepare_scenario s c) (prepare_scenario-IsReady s c ints)

  -- LoadScenario keeps the invariant, for a scenario whose nodes have machine integers as
  -- capacities.
  pub load_scenario-IsConsistent :
      (s : Scenario) (c : Controller F)
      → AreInts s.nodes
      → IsConsistent c
      → IsConsistent (load_scenario s c).1
  unfolding load_scenario
  load_scenario-IsConsistent s c ints =
      or_install-IsConsistent s c (prepare_scenario s c) (prepare_scenario-IsReady s c ints)

  on_ok-IsCalm : (r : Result (Prepared F)) → Yields IsReady r → IsCalm (on_ok r λ _. Result.ok tt)
  on_ok-IsCalm (ok _) h = tt
  on_ok-IsCalm (err _) h = tt
  on_ok-IsCalm panic h = h

  pub validate_scenario-IsCalm :
      (s : Scenario) (c : Controller F) → AreInts s.nodes → IsCalm (validate_scenario s c)
  unfolding validate_scenario
  validate_scenario-IsCalm s c ints =
      on_ok-IsCalm (prepare_scenario s c) (prepare_scenario-IsReady s c ints)
