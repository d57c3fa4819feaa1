-- ===== src/Controller/Invariant/Facts.antt =====
-- The predicates of the invariant.
use cs320_cluster_process_ma.Base.{
  refl, ap, ◌∙◌, Bool-cases, inl, inr, eq_iff, ℕ, ◌≤◌, ◌<◌, ℤ, pos, pos_part, max_int, String, List,
  [], true, false, ◌≡◌, ◌==◌, string_eq, some, lookup, contains, Dict, HasDistinctKeys, IsDistinct,
  trim_space,
}
use cs320_cluster_process_ma.Domain.Process.{Process}
use cs320_cluster_process_ma.Domain.Node.{Node}
use cs320_cluster_process_ma.Controller.State.{Controller}
use cs320_cluster_process_ma.Controller.Processes.{is_running}
use cs320_cluster_process_ma.Controller.Failures.{is_failed}
use cs320_cluster_process_ma.Controller.Invariant.Totals.{total}

-- Process `id` runs on node `k`.
abbrev pub IsHosted : Dict String Process → String → String → Type 0
IsHosted ps k id =
    (p : Process) × (lookup id ps ≡ some p) × (is_running p.state ≡ true) × (p.node_id ≡ k)

-- Node `k` lists process `id`.
abbrev pub IsHosting : Dict String Node → String → String → Type 0
IsHosting ns k id = (n : Node) × (lookup k ns ≡ some n) × (contains n.running_process_ids id ≡ true)

trim_space-empty : (trim_space "" == "") ≡ true
unfolding trim_space
trim_space-empty = refl

-- An identifier that Validate accepts is not empty.
pub identifier_named : (id k : String) → id ≡ k → (trim_space id == "") ≡ false → (k == "") ≡ false
identifier_named id k same h = elim (Bool-cases (k == "")) [
  | inl e ↦ cc (ap (λ s. trim_space s == "") (same ∙ (eq_iff k "").0 e), trim_space-empty)
  | inr e ↦ e
]

-- One resource of a node: the counter is the sum of the requests, and within the capacity.
pub record IsBalanced (allocated capacity : ℤ) (requested : ℕ) : Type 0 where
  pub counted : allocated ≡ pos requested
  pub fits : requested ≤ pos_part capacity
  pub nonempty : 0 < pos_part capacity
  pub machine : pos_part capacity ≤ max_int

pub record IsNodeConsistent (ps : Dict String Process) (k : String) (n : Node) : Type 0 where
  pub key : n.id ≡ k
  pub identified : (trim_space n.id == "") ≡ false
  pub named : (trim_space n.name == "") ≡ false
  pub cpu :
      IsBalanced n.cpu_allocated n.cpu_capacity
        (total (λ p. p.cpu_request) ps n.running_process_ids)
  pub memory :
      IsBalanced n.memory_allocated_mb n.memory_capacity_mb
        (total (λ p. p.memory_request_mb) ps n.running_process_ids)
  pub distinct : IsDistinct n.running_process_ids
  pub emptied : is_failed n.status ≡ true → n.running_process_ids ≡ []
  pub hosted : (id : String) → contains n.running_process_ids id ≡ true → IsHosted ps k id

-- `loose` are the running processes that have left their node in the middle of an operation.
pub record IsProcessConsistent (loose : List String) (ns : Dict String Node) (k : String)
    (p : Process) : Type 0 where
  pub key : p.id ≡ k
  pub cpu : 0 < pos_part p.cpu_request
  pub memory : 0 < pos_part p.memory_request_mb
  pub placed : contains loose k ≡ false → is_running p.state ≡ true → IsHosting ns p.node_id k
  pub unplaced : is_running p.state ≡ false → p.node_id ≡ ""
  pub still_running : contains loose k ≡ true → is_running p.state ≡ true

pub record IsConsistentBut (loose : List String) (ns : Dict String Node) (ps : Dict String Process)
    : Type 0 where
  pub node_keys : HasDistinctKeys ns
  pub process_keys : HasDistinctKeys ps
  pub nodes : (k : String) (n : Node) → lookup k ns ≡ some n → IsNodeConsistent ps k n
  pub processes :
      (k : String) (p : Process) → lookup k ps ≡ some p → IsProcessConsistent loose ns k p
  -- A loose process is listed by no node.
  pub unlisted :
      (k id : String) (n : Node)
      → lookup k ns ≡ some n
      → contains loose id ≡ true
      → contains n.running_process_ids id ≡ false
  pub known : (id : String) → contains loose id ≡ true → (p : Process) × (lookup id ps ≡ some p)

-- The invariant of the controller.
abbrev pub IsConsistent : {F : Type 0} → Controller F → Type 0
IsConsistent c = IsConsistentBut [] c.nodes c.processes
