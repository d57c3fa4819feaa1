-- ===== src/Controller/Audit.antt =====
-- internal/cluster/invariants.go: validateInvariantsLocked.
use cs320_cluster_process_ma.Base.{
  ℕ, ◌+◌, ℤ, pos, String, List, [], ◌∷◌, Bool, true, not, ◌&&◌, Option, none, some, ◌==◌, string_eq,
  eqb_ℤ, add_int, nat_beq, if◌then◌else◌, lookup, contains, Dict, Result, ok, err, panic,
  invariant_broken,
}
use cs320_cluster_process_ma.Domain.Process.{Process}
use cs320_cluster_process_ma.Domain.Node.{Node, validate}
use cs320_cluster_process_ma.Controller.State.{Controller}
use cs320_cluster_process_ma.Controller.Processes.{is_running}

-- The variables of the loop over one node's processes.
pub record Tally : Type 0 where
  pub expected_cpu : ℤ
  pub expected_memory : ℤ
  pub seen : List String
  -- The map `placements`, as the list of the increments made.
  pub placements : List String

abbrev pub counted : String → Process → Tally → Tally
counted id p t = record {
  expected_cpu = add_int t.expected_cpu p.cpu_request;
  expected_memory = add_int t.expected_memory p.memory_request_mb;
  seen = id ∷ t.seen;
  placements = id ∷ t.placements;
}

-- The number of increments made for a process.
unfoldable pub placed : String → List String → ℕ
placed id [] = 0
placed id (j ∷ js) = let rest = placed id js in if j == id then rest + 1 else rest

module _ (processes : Dict String Process) where
  -- The loop over a node's processes; `none` is an error.
  unfoldable pub tally : String → List String → Tally → Option Tally
  unfolding contains
  tally node_id [] t = some t
  tally node_id (id ∷ ids) t = elim (lookup id processes) [
    | none ↦ none
    | some p ↦
        let rest = tally node_id ids (counted id p t) in
        if contains t.seen id
        then none
        else if is_running p.state && p.node_id == node_id
        then rest
        else none
  ]

  -- The body of the loop over the nodes: the placements afterwards. Validate's error is wrapped
  -- with %w, so that its kind stays.
  unfoldable pub audit_node : String → Node → List String → Result (List String)
  audit_node node_id node placements = elim (validate node) [
    | err e ↦ err e
    | panic ↦ panic
    | ok _ ↦
        elim (tally node_id node.running_process_ids (record {
          expected_cpu = pos 0;
          expected_memory = pos 0;
          seen = [];
          placements = placements;
        })) [
          | none ↦ err invariant_broken
          | some t ↦
              if eqb_ℤ node.cpu_allocated t.expected_cpu
                && eqb_ℤ node.memory_allocated_mb t.expected_memory
              then ok t.placements
              else err invariant_broken
        ]
  ]

  unfoldable pub audit_nodes : Dict String Node → List String → Result (List String)
  audit_nodes [] placements = ok placements
  audit_nodes ((id, node) ∷ nodes) placements = elim (audit_node id node placements) [
    | err e ↦ err e
    | panic ↦ panic
    | ok more ↦ audit_nodes nodes more
  ]

-- The loop over the processes.
abbrev pub process_ok : List String → String → Process → Bool
process_ok placements id p =
    if is_running p.state
    then not (p.node_id == "") && nat_beq (placed id placements) 1
    else p.node_id == ""

unfoldable pub audit_processes : List String → Dict String Process → Bool
audit_processes placements [] = true
audit_processes placements ((id, p) ∷ ps) =
    process_ok placements id p && audit_processes placements ps

unfoldable pub validate_invariants : {F : Type 0} → Controller F → Result Unit
validate_invariants c = elim (audit_nodes c.processes c.nodes []) [
  | err e ↦ err e
  | panic ↦ panic
  | ok placements ↦ if audit_processes placements c.processes then ok tt else err invariant_broken
]
