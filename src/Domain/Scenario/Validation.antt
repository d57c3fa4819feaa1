-- ===== src/Domain/Scenario/Validation.antt =====
-- internal/domain/scenario.go: Scenario.Validate.
use Prim.Native.String.{◌++◌}
use cs320_cluster_process_ma.Base.{
  ℤ, pos, String, List, [], ◌∷◌, Dict, if◌then◌else◌, ltb_ℤ, leb_ℤ, ltb, length, lookup, has_key,
  insert, contains, trim_space, decimal_int, ◌==◌, string_eq, Option, none, some, Result, ok, err,
  on_ok, invalid_input, duplicate_node, duplicate_process, node_not_found, process_not_found, not,
}
use cs320_cluster_process_ma.Domain.Process.{ProcessDefinition, new_process}
use cs320_cluster_process_ma.Domain.Node.{NodeDefinition, new_node}
use cs320_cluster_process_ma.Domain.Scenario.{FailureType, FailureDefinition, Scenario}

-- Go's `max` of two integers.
abbrev pub max_of : ℤ → ℤ → ℤ
max_of a b = if ltb_ℤ a b then b else a

-- The loop over the nodes, with the identifiers of nodeIDs.
unfoldable pub check_nodes : List String → List NodeDefinition → Result (List String)
check_nodes seen [] = ok seen
check_nodes seen (def ∷ defs) = on_ok (new_node def (pos 0)) λ node.
    let rest = check_nodes (node.id ∷ seen) defs in
    if contains seen node.id then err duplicate_node else rest

-- The loop over the processes, with the map of their definitions.
unfoldable pub check_processes :
    (max_ticks : ℤ)
    → Dict String ProcessDefinition
    → List ProcessDefinition
    → Result (Dict String ProcessDefinition)
check_processes max_ticks seen [] = ok seen
check_processes max_ticks seen (def ∷ defs) =
    on_ok (new_process def (max_of def.submit_at_tick (pos 0))) λ process.
      let rest = check_processes max_ticks (insert process.id def seen) defs in
      if has_key process.id seen
      then err duplicate_process
      else if ltb_ℤ max_ticks def.submit_at_tick
      then err invalid_input
      else rest

-- `%s` of a FailureType.
abbrev pub type_text : FailureType → String
type_text FailureType.node = "NODE"
type_text FailureType.process = "PROCESS"
type_text (FailureType.unknown text) = text

-- The key by which a failure counts as a duplicate.
unfoldable pub failure_key : FailureDefinition → String
failure_key failure =
    type_text failure.type
    ++ ":"
    ++ failure.node_id
    ++ ":"
    ++ failure.process_id
    ++ ":"
    ++ decimal_int failure.tick

-- A failure of a process whose definition is looked up.
abbrev check_target : ℤ → Option ProcessDefinition → Result Unit
check_target tick none = err process_not_found
check_target tick (some def) =
    if ltb_ℤ tick (max_of def.submit_at_tick (pos 1)) then err invalid_input else ok tt

-- The `switch` on the type of a failure.
unfoldable pub check_type :
    FailureType → List String → Dict String ProcessDefinition → FailureDefinition → Result Unit
check_type FailureType.node nodes processes failure =
    if failure.node_id == ""
    then err invalid_input
    else if contains nodes failure.node_id
    then ok tt
    else err node_not_found
check_type FailureType.process nodes processes failure =
    if failure.process_id == ""
    then err invalid_input
    else check_target failure.tick (lookup failure.process_id processes)
check_type (FailureType.unknown _) nodes processes failure = err invalid_input

-- The loop over the failures, with failureKeys.
unfoldable pub check_failures :
    (max_ticks : ℤ)
    → List String
    → Dict String ProcessDefinition
    → (keys : List String) → List FailureDefinition
    → Result Unit
check_failures max_ticks nodes processes keys [] = ok tt
check_failures max_ticks nodes processes keys (failure ∷ failures) =
    let rest = check_failures max_ticks nodes processes (failure_key failure ∷ keys) failures in
    if leb_ℤ failure.tick (pos 0)
    then err invalid_input
    else if ltb_ℤ max_ticks failure.tick
    then err invalid_input
    else if contains keys (failure_key failure)
    then err invalid_input
    else on_ok (check_type failure.type nodes processes failure) λ _. rest

-- Scenario.Validate
unfoldable pub validate : Scenario → Result Unit
validate s =
    if trim_space s.name == ""
    then err invalid_input
    else if trim_space s.scheduler == ""
    then err invalid_input
    else if leb_ℤ s.max_ticks (pos 0)
    then err invalid_input
    else if not (ltb 0 (length s.nodes))
    then err invalid_input
    else on_ok (check_nodes [] s.nodes) λ nodes.
      on_ok (check_processes s.max_ticks [] s.processes)
        λ processes. check_failures s.max_ticks nodes processes [] s.failures
