-- ===== src/Controller/Invariant/Nodes.antt =====
-- Moves that write one node.
use cs320_cluster_process_ma.Base.{
  String, List, [], true, false, ◌≡◌, ◌≢◌, refl, sym, ap, ◌∙◌, subst, inl, inr, ◌==◌, string_eq,
  none, some, lookup, insert, delete, contains, Dict, arith, eq_iff, lookup-insert,
  lookup-insert_cases, lookup-delete, HasDistinctKeys-delete, HasDistinctKeys-insert, contains-nil,
  Bool-cases,
}
use cs320_cluster_process_ma.Domain.Process.{Process}
use cs320_cluster_process_ma.Domain.Node.{Node}
use cs320_cluster_process_ma.Controller.Processes.{is_running}
use cs320_cluster_process_ma.Controller.Failures.{failed_node}
use cs320_cluster_process_ma.Controller.Invariant.Totals.{total}
use cs320_cluster_process_ma.Controller.Invariant.Facts.{
  IsHosted, IsHosting, IsNodeConsistent, IsProcessConsistent, IsConsistentBut,
}

-- A process is hosted by one node.
pub IsHosted-once :
    (ps : Dict String Process) (k j id : String) → IsHosted ps k id → IsHosted ps j id → k ≡ j
IsHosted-once ps k j id (p, e, w, at) (q, f, u, on) = ground arith

-- A process stays consistent where the nodes that host processes are kept.
pub process-carry :
    (loose : List String) (ns ms : Dict String Node) (k : String) (p : Process)
    → (IsHosting ns p.node_id k → IsHosting ms p.node_id k)
    → IsProcessConsistent loose ns k p
    → IsProcessConsistent loose ms k p
process-carry loose ns ms k p carry v = record {
  key = v.key;
  cpu = v.cpu;
  memory = v.memory;
  placed = λ l r. carry (v.placed l r);
  unplaced = v.unplaced;
  still_running = v.still_running;
}

module _ (ns : Dict String Node) (k : String) (n m : Node) (found : lookup k ns ≡ some n) where
  pub IsHosting-insert :
      (j id : String)
      → (contains n.running_process_ids id ≡ true → contains m.running_process_ids id ≡ true)
      → IsHosting ns j id
      → IsHosting (insert k m ns) j id
  IsHosting-insert j id lists (o, e, h) = elim (Bool-cases (k == j)) [
    | inl kj ↦ (m, ground (arith, lookup-insert k j m ns), lists (ground (arith, eq_iff k j)))
    | inr ne ↦ (o, ground (arith, lookup-insert k j m ns), h)
  ]

  -- A node is written whose work and capacities are as before.
  pub write_node :
      (loose : List String) (ps : Dict String Process)
      → m.running_process_ids ≡ n.running_process_ids
      → IsNodeConsistent ps k m
      → IsConsistentBut loose ns ps
      → IsConsistentBut loose (insert k m ns) ps
  write_node loose ps same w c = record {
    node_keys = HasDistinctKeys-insert k m ns c.node_keys;
    process_keys = c.process_keys;
    nodes = nodes;
    processes = λ j p e.
        process-carry loose ns (insert k m ns) j p (IsHosting-insert p.node_id j (λ h. rw same h))
          (c.processes j p e);
    unlisted = unlisted;
    known = c.known;
  }
    where
      nodes : (j : String) (o : Node) → lookup j (insert k m ns) ≡ some o → IsNodeConsistent ps j o
      nodes j o e = elim (lookup-insert_cases k j m o ns e) [
        | inl (kj, om) ↦ subst (λ i. IsNodeConsistent ps i o) kj (rw om w)
        | inr (ne, old) ↦ c.nodes j o old
      ]

      unlisted :
          (j id : String) (o : Node)
          → lookup j (insert k m ns) ≡ some o
          → contains loose id ≡ true
          → contains o.running_process_ids id ≡ false
      unlisted j id o e l = elim (lookup-insert_cases k j m o ns e) [
        | inl (kj, om) ↦ rw (om, same) (c.unlisted k id n found l)
        | inr (ne, old) ↦ c.unlisted j id o old l
      ]

-- A new node that hosts nothing.
pub add_node :
    (ns : Dict String Node) (ps : Dict String Process) (k : String) (m : Node)
    → lookup k ns ≡ none
    → m.running_process_ids ≡ []
    → IsNodeConsistent ps k m
    → IsConsistentBut [] ns ps
    → IsConsistentBut [] (insert k m ns) ps
add_node ns ps k m absent empty w c = record {
  node_keys = HasDistinctKeys-insert k m ns c.node_keys;
  process_keys = c.process_keys;
  nodes = nodes;
  processes =
      λ j p e. process-carry [] ns (insert k m ns) j p (carry p.node_id j) (c.processes j p e);
  unlisted = λ j id o e l. cc (contains-nil id);
  known = λ id l. cc (contains-nil id);
}
  where
    nodes : (j : String) (o : Node) → lookup j (insert k m ns) ≡ some o → IsNodeConsistent ps j o
    nodes j o e = elim (lookup-insert_cases k j m o ns e) [
      | inl (kj, om) ↦ subst (λ i. IsNodeConsistent ps i o) kj (rw om w)
      | inr (ne, old) ↦ c.nodes j o old
    ]

    carry : (j id : String) → IsHosting ns j id → IsHosting (insert k m ns) j id
    carry j id (o, e, h) = (o, ground (arith, lookup-insert k j m ns, eq_iff k j), h)

-- A node that hosts nothing is removed.
pub drop_node :
    (ns : Dict String Node) (ps : Dict String Process) (k : String) (n : Node)
    → lookup k ns ≡ some n
    → n.running_process_ids ≡ []
    → IsConsistentBut [] ns ps
    → IsConsistentBut [] (delete k ns) ps
drop_node ns ps k n found empty c = record {
  node_keys = HasDistinctKeys-delete k ns c.node_keys;
  process_keys = c.process_keys;
  nodes = λ j o e. c.nodes j o (ground (arith, lookup-delete k j ns));
  processes =
      λ j p e. process-carry [] ns (delete k ns) j p (carry p.node_id j) (c.processes j p e);
  unlisted = λ j id o e l. cc (contains-nil id);
  known = λ id l. cc (contains-nil id);
}
  where
    carry : (j id : String) → IsHosting ns j id → IsHosting (delete k ns) j id
    carry j id (o, e, h) = (
      o,
      ground (
        arith,
        lookup-delete k j ns,
        eq_iff k j,
        ap (λ (m : Node). contains m.running_process_ids id),
        contains-nil id,
      ),
      h,
    )

-- A node fails: what it hosted is loose.
pub clear_node :
    (ns : Dict String Node) (ps : Dict String Process) (k : String) (n : Node) (ids : List String)
    → lookup k ns ≡ some n
    → ((id : String) → contains ids id ≡ contains n.running_process_ids id)
    → IsConsistentBut [] ns ps
    → IsConsistentBut ids (insert k (failed_node n) ns) ps
unfolding total
clear_node ns ps k n ids found members c = record {
  node_keys = HasDistinctKeys-insert k (failed_node n) ns c.node_keys;
  process_keys = c.process_keys;
  nodes = nodes;
  processes = λ j p e. loosened j p (c.processes j p e) e;
  unlisted = unlisted;
  known = λ id l. listed id (v.hosted id (sym (members id) ∙ l));
}
  where
    v : IsNodeConsistent ps k n
    v = c.nodes k n found

    cleared : IsNodeConsistent ps k (failed_node n)
    cleared = record {
      key = v.key;
      identified = v.identified;
      named = v.named;
      cpu = record {
        counted = refl;
        fits = omega arith;
        nonempty = v.cpu.nonempty;
        machine = v.cpu.machine;
      };
      memory = record {
        counted = refl;
        fits = omega arith;
        nonempty = v.memory.nonempty;
        machine = v.memory.machine;
      };
      distinct = tt;
      emptied = λ h. refl;
      hosted = λ id h. cc (contains-nil id);
    }

    nodes :
        (j : String) (o : Node)
        → lookup j (insert k (failed_node n) ns) ≡ some o
        → IsNodeConsistent ps j o
    nodes j o e = elim (lookup-insert_cases k j (failed_node n) o ns e) [
      | inl (kj, om) ↦ subst (λ i. IsNodeConsistent ps i o) kj (rw om cleared)
      | inr (ne, old) ↦ c.nodes j o old
    ]

    listed : (id : String) → IsHosted ps k id → (p : Process) × (lookup id ps ≡ some p)
    listed id (p, e, w, at) = (p, e)

    running :
        (j : String) (p : Process)
        → lookup j ps ≡ some p
        → IsHosted ps k j
        → is_running p.state ≡ true
    running j p e (r, f, w, at) = ground arith

    apart :
        (j : String) (p : Process)
        → contains ids j ≡ false
        → IsHosting ns p.node_id j
        → IsHosting (insert k (failed_node n) ns) p.node_id j
    apart j p l (o, e, h) = (
      o,
      ground (arith, lookup-insert k p.node_id (failed_node n) ns, eq_iff k p.node_id, members j),
      h,
    )

    elsewhere :
        (j id : String) (o : Node)
        → IsHosted ps k id
        → IsNodeConsistent ps j o
        → k ≢ j
        → contains o.running_process_ids id ≡ false
    elsewhere j id o h w ne = elim (Bool-cases (contains o.running_process_ids id)) [
      | inl listed ↦ absurd (ne (IsHosted-once ps k j id h (w.hosted id listed)))
      | inr unlisted ↦ unlisted
    ]

    -- A process that is listed is running, on node `k`.
    loosened :
        (j : String) (p : Process)
        → IsProcessConsistent [] ns j p
        → lookup j ps ≡ some p
        → IsProcessConsistent ids (insert k (failed_node n) ns) j p
    loosened j p w e = record {
      key = w.key;
      cpu = w.cpu;
      memory = w.memory;
      placed = λ l r. apart j p l (w.placed (contains-nil j) r);
      unplaced = w.unplaced;
      still_running = λ l. running j p e (v.hosted j (sym (members j) ∙ l));
    }

    unlisted :
        (j id : String) (o : Node)
        → lookup j (insert k (failed_node n) ns) ≡ some o
        → contains ids id ≡ true
        → contains o.running_process_ids id ≡ false
    unlisted j id o e l = elim (lookup-insert_cases k j (failed_node n) o ns e) [
      | inl (kj, om) ↦ rw om (contains-nil id)
      | inr (ne, old) ↦ elsewhere j id o (v.hosted id (sym (members id) ∙ l)) (c.nodes j o old) ne
    ]
