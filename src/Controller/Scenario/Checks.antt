-- ===== src/Controller/Scenario/Checks.antt =====
-- internal/domain/scenario.go and internal/scheduler/scheduler.go: the answers of the checks of a scenario.
use cs320_cluster_process_ma.Base.{
  ℤ, pos, String, List, [], ◌∷◌, inl, inr, Bool-cases, Dict, insert, contains, string_eq, int_eq,
  arith, Yields, on_ok-Yields,
}
use cs320_cluster_process_ma.Domain.Process.{ProcessDefinition}
use cs320_cluster_process_ma.Domain.Node.{NodeDefinition, draft}
use cs320_cluster_process_ma.Domain.Scenario.{FailureType, FailureDefinition, Scenario}
use cs320_cluster_process_ma.Domain.Scenario.Validation.{
  validate, check_nodes, check_processes, check_type, check_failures, failure_key, max_of,
}
use cs320_cluster_process_ma.Scheduler.{new_scheduler, new_scheduler_cases}
use cs320_cluster_process_ma.Controller.Consistency.Registry.{new_node_cases}
use cs320_cluster_process_ma.Controller.Consistency.Commands.{new_process_cases}

-- No more than an answer.
abbrev pub Any : {A : Type 0} → A → Type 0
Any a = Unit {0}

check_nodes-Any :
    (seen : List String) (defs : List NodeDefinition) → Yields Any (check_nodes seen defs)
unfolding check_nodes
check_nodes-Any seen [] = tt
check_nodes-Any seen (def ∷ defs) = elim (new_node_cases def (pos 0)) [
  | inl (e, bad) ↦ rw bad tt
  | inr (good, sound) ↦
      let n = draft def (pos 0) in
      elim (Bool-cases (contains seen n.id)) [
        | inl twice ↦ rw (good, twice) tt
        | inr once ↦ rw (good, once) (check_nodes-Any (n.id ∷ seen) defs)
      ]
]

check_processes-Any :
    (max_ticks : ℤ) (seen : Dict String ProcessDefinition) (defs : List ProcessDefinition)
    → Yields Any (check_processes max_ticks seen defs)
unfolding check_processes
check_processes-Any max_ticks seen [] = tt
check_processes-Any max_ticks seen (def ∷ defs) =
    elim (new_process_cases def (max_of def.submit_at_tick (pos 0))) [
      | inl (e, bad) ↦ rw bad tt
      | inr (p, good, new) ↦
          let rest = check_processes-Any max_ticks (insert p.id def seen) defs in
          rw good (ground arith)
    ]

check_type-Any :
    (type : FailureType) (nodes : List String) (processes : Dict String ProcessDefinition)
    (failure : FailureDefinition)
    → Yields Any (check_type type nodes processes failure)
unfolding check_type
check_type-Any type nodes processes failure = ground arith

check_failures-Any :
    (max_ticks : ℤ) (nodes : List String) (processes : Dict String ProcessDefinition)
    (seen : List String) (failures : List FailureDefinition)
    → Yields Any (check_failures max_ticks nodes processes seen failures)
unfolding check_failures
check_failures-Any max_ticks nodes processes seen [] = tt
check_failures-Any max_ticks nodes processes seen (failure ∷ failures) =
    let rest = check_failures-Any max_ticks nodes processes (failure_key failure ∷ seen) failures in
    let later =
      on_ok-Yields Any Any (check_type failure.type nodes processes failure)
        (λ _. check_failures max_ticks nodes processes (failure_key failure ∷ seen) failures)
        (check_type-Any failure.type nodes processes failure) (λ _ _. rest) in
    ground (arith, later)

pub validate-Any : (s : Scenario) → Yields Any (validate s)
unfolding validate
validate-Any s =
    let later =
      on_ok-Yields Any Any (check_nodes [] s.nodes) _ (check_nodes-Any [] s.nodes) λ nodes _.
        on_ok-Yields Any Any (check_processes s.max_ticks [] s.processes) _
          (check_processes-Any s.max_ticks [] s.processes)
          λ processes _. check_failures-Any s.max_ticks nodes processes [] s.failures in
    ground (arith, later)

pub new_scheduler-Any : (text : String) → Yields Any (new_scheduler text)
new_scheduler-Any text = elim (new_scheduler_cases text) [
  | inl (selected, e) ↦ rw e tt
  | inr e ↦ rw e tt
]
