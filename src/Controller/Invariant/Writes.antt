-- ===== src/Controller/Invariant/Writes.antt =====
-- Moves that write one process.
use cs320_cluster_process_ma.Base.{
  ◌<◌, pos_part, String, List, [], ◌∷◌, true, false, ◌≡◌, ◌≢◌, refl, sym, ap, ◌∙◌, subst, inl, inr,
  ◌==◌, string_eq, none, some, lookup, insert, contains, Dict, arith, eq_iff, lookup-insert,
  lookup-insert_cases, lookup-insert_ne, HasDistinctKeys-insert, contains-cons, contains-nil,
  Bool-cases,
}
use cs320_cluster_process_ma.Domain.Process.{Process}
use cs320_cluster_process_ma.Domain.Node.{Node}
use cs320_cluster_process_ma.Controller.Processes.{is_running}
use cs320_cluster_process_ma.Controller.Invariant.Totals.{total-insert, total-insert_unlisted}
use cs320_cluster_process_ma.Controller.Invariant.Facts.{
  IsHosted, IsNodeConsistent, IsProcessConsistent, IsConsistentBut,
}

-- The new value of a process keeps its identity and its requests.
pub record SameRequests (p q : Process) : Type 0 where
  pub id : q.id ≡ p.id
  pub cpu : q.cpu_request ≡ p.cpu_request
  pub memory : q.memory_request_mb ≡ p.memory_request_mb

pub IsHosted-insert_ne :
    (ps : Dict String Process) (k j id : String) (q : Process)
    → k ≢ id
    → IsHosted ps j id
    → IsHosted (insert k q ps) j id
IsHosted-insert_ne ps k j id q ne (r, e, w, n) = (r, lookup-insert_ne k id q ps ne ∙ e, w, n)

pub known-insert :
    (ps : Dict String Process) (k id : String) (q : Process)
    → (p : Process) × (lookup id ps ≡ some p)
    → (p : Process) × (lookup id (insert k q ps) ≡ some p)
known-insert ps k id q (p, e) = elim (Bool-cases (k == id)) [
  | inl h ↦ (q, ground (arith, lookup-insert k id q ps))
  | inr h ↦ (p, ground (arith, lookup-insert k id q ps))
]

module _ (ps : Dict String Process) (k : String) (p q : Process) (found : lookup k ps ≡ some p)
    (same : SameRequests p q) where
  -- A node that keeps its view of the processes stays consistent.
  pub node-insert :
      (j : String) (n : Node)
      → ((id : String)
          → contains n.running_process_ids id ≡ true
          → IsHosted ps j id
          → IsHosted (insert k q ps) j id)
      → IsNodeConsistent ps j n
      → IsNodeConsistent (insert k q ps) j n
  node-insert j n carry v = record {
    key = v.key;
    identified = v.identified;
    named = v.named;
    cpu =
        rw
          (total-insert (λ r. r.cpu_request) ps n.running_process_ids k q
            (rw (found, same.cpu) refl))
          v.cpu;
    memory =
        rw
          (total-insert (λ r. r.memory_request_mb) ps n.running_process_ids k q
            (rw (found, same.memory) refl))
          v.memory;
    distinct = v.distinct;
    emptied = v.emptied;
    hosted = λ id h. carry id h (v.hosted id h);
  }

  IsHosted-insert :
      (j id : String)
      → is_running q.state ≡ is_running p.state
      → q.node_id ≡ p.node_id
      → IsHosted ps j id
      → IsHosted (insert k q ps) j id
  IsHosted-insert j id run at (r, e, w, n) = elim (Bool-cases (k == id)) [
    | inl h ↦ (
      q,
      ground (arith, lookup-insert k id q ps),
      ground (arith, eq_iff k id),
      ground (arith, eq_iff k id),
    )
    | inr h ↦ (r, ground (arith, lookup-insert k id q ps), w, n)
  ]

  module _ (loose : List String) (ns : Dict String Node) where
    -- A process is written that runs where it ran, or does not run as before.
    pub write :
        is_running q.state ≡ is_running p.state
        → q.node_id ≡ p.node_id
        → IsConsistentBut loose ns ps
        → IsConsistentBut loose ns (insert k q ps)
    write run at c = record {
      node_keys = c.node_keys;
      process_keys = HasDistinctKeys-insert k q ps c.process_keys;
      nodes = λ j n e. node-insert j n (λ id h. IsHosted-insert j id run at) (c.nodes j n e);
      processes = processes;
      unlisted = c.unlisted;
      known = λ id l. known-insert ps k id q (c.known id l);
    }
      where
        v : IsProcessConsistent loose ns k p
        v = c.processes k p found

        written : IsProcessConsistent loose ns k q
        written = record {
          key = same.id ∙ v.key;
          cpu = rw same.cpu v.cpu;
          memory = rw same.memory v.memory;
          placed = λ l r. rw at (v.placed l (sym run ∙ r));
          unplaced = λ r. at ∙ v.unplaced (sym run ∙ r);
          still_running = λ l. run ∙ v.still_running l;
        }

        processes :
            (j : String) (r : Process)
            → lookup j (insert k q ps) ≡ some r
            → IsProcessConsistent loose ns j r
        processes j r e = elim (lookup-insert_cases k j q r ps e) [
          | inl (kj, rq) ↦ subst (λ i. IsProcessConsistent loose ns i r) kj (rw rq written)
          | inr (ne, old) ↦ c.processes j r old
        ]

    -- A loose process stops running, and is not loose any more.
    pub settle :
        contains loose k ≡ false
        → is_running q.state ≡ false
        → q.node_id ≡ ""
        → IsConsistentBut (k ∷ loose) ns ps
        → IsConsistentBut loose ns (insert k q ps)
    settle fresh run at c = record {
      node_keys = c.node_keys;
      process_keys = HasDistinctKeys-insert k q ps c.process_keys;
      nodes = λ j n e.
          node-insert j n (λ id h. IsHosted-insert_ne ps k j id q (apart j n id e h))
            (c.nodes j n e);
      processes = processes;
      unlisted = λ j id n e h. c.unlisted j id n e (ground (arith, contains-cons k id loose));
      known =
          λ id l. known-insert ps k id q (c.known id (ground (arith, contains-cons k id loose)));
    }
      where
        apart :
            (j : String) (n : Node) (id : String)
            → lookup j ns ≡ some n
            → contains n.running_process_ids id ≡ true
            → k ≢ id
        apart j n id e h = ground (arith, contains-cons k k loose, eq_iff k k, c.unlisted j k n)

        v : IsProcessConsistent (k ∷ loose) ns k p
        v = c.processes k p found

        written : IsProcessConsistent loose ns k q
        written = record {
          key = same.id ∙ v.key;
          cpu = rw same.cpu v.cpu;
          memory = rw same.memory v.memory;
          placed = λ l r. cc;
          unplaced = λ r. at;
          still_running = λ l. cc;
        }

        kept :
            (j : String) (r : Process)
            → k ≢ j
            → IsProcessConsistent (k ∷ loose) ns j r
            → IsProcessConsistent loose ns j r
        kept j r ne w = record {
          key = w.key;
          cpu = w.cpu;
          memory = w.memory;
          placed = λ l s. w.placed (ground (arith, contains-cons k j loose, eq_iff k j)) s;
          unplaced = w.unplaced;
          still_running = λ l. w.still_running (ground (arith, contains-cons k j loose));
        }

        processes :
            (j : String) (r : Process)
            → lookup j (insert k q ps) ≡ some r
            → IsProcessConsistent loose ns j r
        processes j r e = elim (lookup-insert_cases k j q r ps e) [
          | inl (kj, rq) ↦ subst (λ i. IsProcessConsistent loose ns i r) kj (rw rq written)
          | inr (ne, old) ↦ kept j r ne (c.processes j r old)
        ]

    -- A loose process is written that is still running.
    pub write_loose :
        contains loose k ≡ true
        → is_running q.state ≡ true
        → IsConsistentBut loose ns ps
        → IsConsistentBut loose ns (insert k q ps)
    write_loose is_loose run c = record {
      node_keys = c.node_keys;
      process_keys = HasDistinctKeys-insert k q ps c.process_keys;
      nodes = λ j n e.
          node-insert j n (λ id h. IsHosted-insert_ne ps k j id q (λ ki. apart j n e id ki h))
            (c.nodes j n e);
      processes = processes;
      unlisted = c.unlisted;
      known = λ id l. known-insert ps k id q (c.known id l);
    }
      where
        apart :
            (j : String) (n : Node)
            → lookup j ns ≡ some n
            → (id : String) → k ≡ id
            → contains n.running_process_ids id ≡ true
            → ⊥
        apart j n e id ki h =
            ground (arith, c.unlisted j k n e is_loose, ap (contains n.running_process_ids) ki)

        v : IsProcessConsistent loose ns k p
        v = c.processes k p found

        written : IsProcessConsistent loose ns k q
        written = record {
          key = same.id ∙ v.key;
          cpu = rw same.cpu v.cpu;
          memory = rw same.memory v.memory;
          placed = λ l r. cc;
          unplaced = λ r. cc;
          still_running = λ l. run;
        }

        processes :
            (j : String) (r : Process)
            → lookup j (insert k q ps) ≡ some r
            → IsProcessConsistent loose ns j r
        processes j r e = elim (lookup-insert_cases k j q r ps e) [
          | inl (kj, rq) ↦ subst (λ i. IsProcessConsistent loose ns i r) kj (rw rq written)
          | inr (ne, old) ↦ c.processes j r old
        ]

-- A new process that does not run.
pub submit :
    (ns : Dict String Node) (ps : Dict String Process) (k : String) (q : Process)
    → lookup k ps ≡ none
    → q.id ≡ k
    → 0 < pos_part q.cpu_request
    → 0 < pos_part q.memory_request_mb
    → is_running q.state ≡ false
    → q.node_id ≡ ""
    → IsConsistentBut [] ns ps
    → IsConsistentBut [] ns (insert k q ps)
submit ns ps k q absent key cpu memory run at c = record {
  node_keys = c.node_keys;
  process_keys = HasDistinctKeys-insert k q ps c.process_keys;
  nodes = λ j n e. grown j n (c.nodes j n e);
  processes = processes;
  unlisted = c.unlisted;
  known = λ id l. cc (contains-nil id);
}
  where
    apart : (j id : String) → IsHosted ps j id → k ≢ id
    apart j id (r, e, w, n) = λ h. ground (arith, ap (λ i. lookup i ps) h)

    unlisted :
        (j : String) (n : Node) → IsNodeConsistent ps j n → contains n.running_process_ids k ≡ false
    unlisted j n v = elim (Bool-cases (contains n.running_process_ids k)) [
      | inl h ↦ absurd (apart j k (v.hosted k h) refl)
      | inr h ↦ h
    ]

    grown : (j : String) (n : Node) → IsNodeConsistent ps j n → IsNodeConsistent (insert k q ps) j n
    grown j n v = record {
      key = v.key;
      identified = v.identified;
      named = v.named;
      cpu =
          rw
            (total-insert_unlisted (λ r. r.cpu_request) ps n.running_process_ids k q
              (unlisted j n v))
            v.cpu;
      memory =
          rw
            (total-insert_unlisted (λ r. r.memory_request_mb) ps n.running_process_ids k q
              (unlisted j n v))
            v.memory;
      distinct = v.distinct;
      emptied = v.emptied;
      hosted = λ id h. IsHosted-insert_ne ps k j id q (apart j id (v.hosted id h)) (v.hosted id h);
    }

    written : IsProcessConsistent [] ns k q
    written = record {
      key = key;
      cpu = cpu;
      memory = memory;
      placed = λ l r. cc;
      unplaced = λ r. at;
      still_running = λ l. cc (contains-nil k);
    }

    processes :
        (j : String) (r : Process)
        → lookup j (insert k q ps) ≡ some r
        → IsProcessConsistent [] ns j r
    processes j r e = elim (lookup-insert_cases k j q r ps e) [
      | inl (kj, rq) ↦ subst (λ i. IsProcessConsistent [] ns i r) kj (rw rq written)
      | inr (ne, old) ↦ c.processes j r old
    ]
