-- ===== src/Controller/Consistency/Registry.antt =====
-- internal/cluster/controller.go: the nodes, the scheduler and the status, and the invariant.
use cs320_cluster_process_ma.Base.{
  panic, Error, leb_ℤ, pos, size, ℤ, pos_part, ◌<◌, String, [], false, ◌≡◌, refl, ◌⊎◌, inl, inr,
  lookup, has_key, has_key-none, arith, ok, err, Result, contains-nil, string_eq, Option-cases,
  Bool-cases, ◌==◌, trim_space, Float, IsInt,
}
use cs320_cluster_process_ma.Domain.Node.{Node, NodeDefinition, new_node, validate, draft}
use cs320_cluster_process_ma.Domain.Cluster.{new_cluster}
use cs320_cluster_process_ma.Scheduler.{new_scheduler}
use cs320_cluster_process_ma.Controller.State.{Config, Controller, emitted, new_controller}
use cs320_cluster_process_ma.Controller.Registry.{
  register_node, remove_node, is_occupied, set_scheduler, start, pause_simulation, reset, finish,
  finish_locked, is_running, is_completed,
}
use cs320_cluster_process_ma.Controller.Invariant.Totals.{total}
use cs320_cluster_process_ma.Controller.Invariant.Facts.{
  IsConsistent, IsConsistentBut, IsNodeConsistent,
}
use cs320_cluster_process_ma.Controller.Invariant.Nodes.{add_node, drop_node}

-- The empty maps are consistent.
pub nil-IsConsistentBut : IsConsistentBut [] [] []
unfolding lookup
nil-IsConsistentBut = record {
  node_keys = tt;
  process_keys = tt;
  nodes = λ k n e. cc;
  processes = λ k p e. cc;
  unlisted = λ k id n e l. cc;
  known = λ id l. cc (contains-nil id);
}

-- What Validate establishes of a node that hosts nothing.
pub record IsSound (n : Node) : Type 0 where
  pub identified : (trim_space n.id == "") ≡ false
  pub named : (trim_space n.name == "") ≡ false
  pub cpu : 0 < pos_part n.cpu_capacity
  pub memory : 0 < pos_part n.memory_capacity_mb

validate_cases :
    (n : Node) → ((e : Error) × (validate n ≡ err e)) ⊎ (validate n ≡ ok tt) × IsSound n
unfolding validate
validate_cases n = ground arith

-- NewNode fails, or returns the node that it built, which is sound.
pub new_node_cases :
    (def : NodeDefinition) (tick : ℤ)
    → ((e : Error) × (new_node def tick ≡ err e))
      ⊎ (new_node def tick ≡ ok (draft def tick)) × IsSound (draft def tick)
unfolding new_node
new_node_cases def tick = elim (validate_cases (draft def tick)) [
  | inl (e, bad) ↦ inl (e, rw bad refl)
  | inr (good, sound) ↦ inr (rw good refl, sound)
]

pub draft-IsNodeConsistent :
    (ps : _) (def : NodeDefinition) (tick : ℤ)
    → IsSound (draft def tick)
    → IsInt def.cpu_capacity
    → IsInt def.memory_capacity_mb
    → IsNodeConsistent ps (draft def tick).id (draft def tick)
unfolding total
draft-IsNodeConsistent ps def tick s cpu memory = record {
  key = refl;
  identified = s.identified;
  named = s.named;
  cpu = record { counted = refl; fits = omega arith; nonempty = s.cpu; machine = cpu.0 };
  memory = record { counted = refl; fits = omega arith; nonempty = s.memory; machine = memory.0 };
  distinct = tt;
  emptied = λ h. refl;
  hosted = λ id h. cc (contains-nil id);
}

module _ {F : Type 0} (c : Controller F) (inv : IsConsistent c) where
  -- RegisterNode keeps the invariant on every branch, for a definition whose capacities are machine
  -- integers.
  pub register_node-IsConsistent :
      (def : NodeDefinition)
      → IsInt def.cpu_capacity
      → IsInt def.memory_capacity_mb
      → IsConsistent (register_node def c).1
  unfolding register_node emitted
  register_node-IsConsistent def cpu memory =
      elim (Bool-cases (leb_ℤ c.max_nodes (pos (size c.nodes)))) [
        | inl full ↦ rw full inv
        | inr room ↦ elim (new_node_cases def c.current_tick) [
          | inl (e, bad) ↦ rw (room, bad) inv
          | inr (good, sound) ↦ elim (Bool-cases (has_key (draft def c.current_tick).id c.nodes)) [
            | inl twice ↦ rw (room, good, twice) inv
            | inr once ↦
                let n = draft def c.current_tick in
                rw (room, good, once)
                  (add_node c.nodes c.processes n.id n (has_key-none n.id c.nodes once) refl
                    (draft-IsNodeConsistent c.processes def c.current_tick sound cpu memory) inv)
          ]
        ]
      ]

  pub remove_node-IsConsistent : (id : String) → IsConsistent (remove_node id c).1
  unfolding remove_node emitted
  remove_node-IsConsistent id = elim (Option-cases (lookup id c.nodes)) [
    | inl e ↦ rw e inv
    | inr (n, e) ↦ elim (Bool-cases (is_occupied n)) [
      | inl busy ↦ rw (e, busy) inv
      | inr free ↦ rw (e, free) (drop_node c.nodes c.processes id n e (ground arith) inv)
    ]
  ]

  -- SetScheduler
  pub set_scheduler-IsConsistent : (text : String) → IsConsistent (set_scheduler text c).1
  unfolding set_scheduler emitted
  set_scheduler-IsConsistent text = by_answer (new_scheduler text) refl
    where
      by_answer : (r : Result _) → new_scheduler text ≡ r → IsConsistent (set_scheduler text c).1
      by_answer (ok selected) e = rw e inv
      by_answer (err _) e = rw e inv
      by_answer panic e = rw e inv

  pub finish_locked-IsConsistent : (reason : String) → IsConsistent (finish_locked reason c)
  unfolding finish_locked emitted
  finish_locked-IsConsistent reason = inv

  -- Finish
  pub finish-IsConsistent : (reason : String) → IsConsistent (finish reason c)
  unfolding finish
  finish-IsConsistent reason = elim (Bool-cases (is_completed c.simulation_status)) [
    | inl over ↦ rw over inv
    | inr going ↦ rw going (finish_locked-IsConsistent reason)
  ]

  -- Start
  pub start-IsConsistent : IsConsistent (start c)
  unfolding start emitted
  start-IsConsistent = elim (Bool-cases (is_running c.simulation_status)) [
    | inl on ↦ rw on inv
    | inr off ↦ rw off inv
  ]

  -- PauseSimulation
  pub pause_simulation-IsConsistent : IsConsistent (pause_simulation c)
  unfolding pause_simulation emitted
  pause_simulation-IsConsistent = elim (Bool-cases (is_running c.simulation_status)) [
    | inl on ↦ rw on inv
    | inr off ↦ rw off inv
  ]

-- Reset
pub reset-IsConsistent : {F : Type 0} ⦃f : Float F⦄ (c : Controller F) → IsConsistent (reset c)
unfolding reset emitted new_cluster
reset-IsConsistent c = nil-IsConsistentBut

-- Every controller that New returns satisfies the invariant.
pub new_controller-IsConsistent :
    (F : Type 0) ⦃f : Float F⦄ (config : Config) (c : Controller F)
    → new_controller F config ≡ ok c
    → IsConsistent c
unfolding new_controller new_cluster
new_controller-IsConsistent F config c h =
    let ns : c.nodes ≡ [] = ground arith in
    let ps : c.processes ≡ [] = ground arith in rw (ns, ps) nil-IsConsistentBut
