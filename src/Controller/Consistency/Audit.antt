-- ===== src/Controller/Consistency/Audit.antt =====
-- internal/cluster/invariants.go: validateInvariantsLocked, and the invariant.
use cs320_cluster_process_ma.Base.{
  ℕ, ◌+◌, ◌≤◌, ◌<◌, ℤ, pos, negsuc, pos_part, max_int, String, List, [], ◌∷◌, true, false, ◌≡◌,
  refl, ◌∙◌, inl, inr, some, string_eq, eqb_ℤ_iff, add_int, add_int-pos, if◌then◌else◌, lookup,
  contains, Dict, ok, Bool-cases, eq_iff, arith, keys, IsDistinct, HasDistinctKeys, AllEntries,
  entries_found, contains-nil,
}
use cs320_cluster_process_ma.Domain.Process.{Process}
use cs320_cluster_process_ma.Domain.Node.{Node, validate}
use cs320_cluster_process_ma.Controller.State.{Controller}
use cs320_cluster_process_ma.Controller.Processes.{is_running}
use cs320_cluster_process_ma.Controller.Audit.{
  Tally, counted, placed, tally, audit_node, audit_nodes, audit_processes, validate_invariants,
}
use cs320_cluster_process_ma.Controller.Invariant.Totals.{total}
use cs320_cluster_process_ma.Controller.Invariant.Facts.{
  IsConsistent, IsConsistentBut, IsHosted, IsNodeConsistent, identifier_named,
}

-- One if the list has the identifier.
abbrev once : List String → String → ℕ
once ids id = if contains ids id then 1 else 0

-- The outcome of the loop over a node's processes.
record IsTallied (ps : Dict String Process) (ids : List String) (t u : Tally) : Type 0 where
  cpu :
      (a : ℕ)
      → t.expected_cpu ≡ pos a
      → a + total (λ p. p.cpu_request) ps ids ≤ max_int
      → u.expected_cpu ≡ pos (a + total (λ p. p.cpu_request) ps ids)
  memory :
      (a : ℕ)
      → t.expected_memory ≡ pos a
      → a + total (λ p. p.memory_request_mb) ps ids ≤ max_int
      → u.expected_memory ≡ pos (a + total (λ p. p.memory_request_mb) ps ids)
  placements : (id : String) → placed id u.placements ≡ placed id t.placements + once ids id

-- The identifiers are new to the list.
abbrev AreNew : List String → List String → Type 0
AreNew seen [] = Unit {0}
AreNew seen (id ∷ ids) = (contains seen id ≡ false) × AreNew seen ids

AreNew-cons :
    (seen ids : List String) (x : String)
    → contains ids x ≡ false
    → AreNew seen ids
    → AreNew (x ∷ seen) ids
unfolding contains
AreNew-cons seen [] x h d = tt
AreNew-cons seen (id ∷ ids) x h d =
    (ground (arith, eq_iff x id, eq_iff id x), AreNew-cons seen ids x (ground arith) d.1)

AreNew-nil : (ids : List String) → AreNew [] ids
AreNew-nil [] = tt
AreNew-nil (id ∷ ids) = (contains-nil id, AreNew-nil ids)

-- One more request, where the sum stays in the range of the machine.
add_step :
    (e r : ℤ) (a n : ℕ)
    → 0 < pos_part r
    → e ≡ pos a
    → a + (pos_part r + n) ≤ max_int
    → add_int e r ≡ pos (a + pos_part r)
add_step e (pos r) a n h same le = rw same (add_int-pos a r (omega arith))
add_step e (negsuc r) a n h same le = ground arith

total_step :
    (request : Process → ℤ) (ps : Dict String Process) (id : String) (ids : List String)
    (p : Process) (found : lookup id ps ≡ some p) (expected final : ℤ) (a : ℕ)
    → 0 < pos_part (request p)
    → expected ≡ pos a
    → a + total request ps (id ∷ ids) ≤ max_int
    → (add_int expected (request p) ≡ pos (a + pos_part (request p))
        → a + pos_part (request p) + total request ps ids ≤ max_int
        → final ≡ pos (a + pos_part (request p) + total request ps ids))
    → final ≡ pos (a + total request ps (id ∷ ids))
unfolding total
total_step request ps id ids p found expected final a some_asked same le rest =
    let le' : a + (pos_part (request p) + total request ps ids) ≤ max_int = ground arith in
    let step = add_step expected (request p) a (total request ps ids) some_asked same le' in
    ground (arith, rest step (omega arith))

module _ (ns : Dict String Node) (ps : Dict String Process) (inv : IsConsistentBut [] ns ps) where
  tally-IsTallied :
      (k : String) (ids : List String) (t : Tally)
      → ((id : String) → contains ids id ≡ true → IsHosted ps k id)
      → IsDistinct ids
      → AreNew t.seen ids
      → (u : Tally) × (tally ps k ids t ≡ some u) × IsTallied ps ids t u
  unfolding tally contains total placed
  tally-IsTallied k [] t hosted d new = (
    t,
    refl,
    record {
      cpu = λ a same le. ground arith;
      memory = λ a same le. ground arith;
      placements = λ id. ground arith;
    },
  )
  tally-IsTallied k (id ∷ ids) t hosted d new =
      let (p, e, run, home) = hosted id (ground (arith, eq_iff id id)) in
      let at = (eq_iff p.node_id k).1 home in
      let v = inv.processes id p e in
      let (u, f, r) =
        tally-IsTallied k ids (counted id p t) (λ j h. hosted j (ground arith)) d.1
          (AreNew-cons t.seen ids id d.0 new.1) in
      let step : tally ps k (id ∷ ids) t ≡ tally ps k ids (counted id p t) =
        rw (tally, e, new.0, run, at) refl in
      (
        u,
        step ∙ f,
        record {
          cpu = λ a same le.
              total_step (λ q. q.cpu_request) ps id ids p e t.expected_cpu u.expected_cpu a v.cpu
                same le (r.cpu (a + pos_part p.cpu_request));
          memory = λ a same le.
              total_step (λ q. q.memory_request_mb) ps id ids p e t.expected_memory
                u.expected_memory a v.memory same le (r.memory (a + pos_part p.memory_request_mb));
          placements = λ j. ground (arith, r.placements j, d.0, eq_iff id j);
        },
      )

  node-validate : (k : String) (n : Node) → IsNodeConsistent ps k n → validate n ≡ ok tt
  unfolding validate
  node-validate k n w = ground (
    arith, w.identified, w.named, w.cpu.counted, w.cpu.fits, w.cpu.nonempty, w.memory.counted,
    w.memory.fits, w.memory.nonempty,
  )

  -- The loop's body accepts a consistent node, and counts its processes.
  audit_node-accepts :
      (k : String) (n : Node) (placements : List String)
      → IsNodeConsistent ps k n
      → (more : List String) × (audit_node ps k n placements ≡ ok more)
        × ((id : String) → placed id more ≡ placed id placements + once n.running_process_ids id)
  unfolding audit_node
  audit_node-accepts k n placements w =
      let t : Tally = record {
        expected_cpu = pos 0;
        expected_memory = pos 0;
        seen = [];
        placements = placements;
      } in
      let (u, f, r) =
        tally-IsTallied k n.running_process_ids t w.hosted w.distinct
          (AreNew-nil n.running_process_ids) in
      let cpu : n.cpu_allocated ≡ u.expected_cpu =
        ground (arith, w.cpu.counted, r.cpu 0 refl (omega (arith, w.cpu.fits, w.cpu.machine))) in
      let memory : n.memory_allocated_mb ≡ u.expected_memory = ground (
        arith,
        w.memory.counted,
        r.memory 0 refl (omega (arith, w.memory.fits, w.memory.machine)),
      ) in
      let same_cpu = (eqb_ℤ_iff n.cpu_allocated u.expected_cpu).1 cpu in
      let same_memory = (eqb_ℤ_iff n.memory_allocated_mb u.expected_memory).1 memory in
      (
        u.placements,
        rw (audit_node, node-validate k n w, f, same_cpu, same_memory) refl,
        r.placements,
      )

  -- The number of entries that list a process.
  abbrev hosts : Dict String Node → String → ℕ
  hosts [] id = 0
  hosts ((k, n) ∷ m) id = once n.running_process_ids id + hosts m id

  audit_nodes-accepts :
      (m : Dict String Node) (placements : List String)
      → AllEntries (λ k n. lookup k ns ≡ some n) m
      → (more : List String) × (audit_nodes ps m placements ≡ ok more)
        × ((id : String) → placed id more ≡ placed id placements + hosts m id)
  unfolding audit_nodes
  audit_nodes-accepts [] placements found = (placements, refl, λ id. omega arith)
  audit_nodes-accepts ((k, n) ∷ m) placements found =
      let (more, e, count) = audit_node-accepts k n placements (inv.nodes k n found.0) in
      let (final, f, sum) = audit_nodes-accepts m more found.1 in
      (final, rw (audit_nodes, e) f, λ id. omega (arith, count id, sum id))

  -- A running process is listed by its node's entry alone.
  hosts-running :
      (m : Dict String Node) (id : String) (p : Process)
      → lookup id ps ≡ some p
      → is_running p.state ≡ true
      → AllEntries (λ k n. lookup k ns ≡ some n) m
      → HasDistinctKeys m
      → hosts m id ≡ once (keys m) p.node_id
  unfolding contains
  hosts-running [] id p e run found d = refl
  hosts-running ((k, n) ∷ m) id p e run found d =
      let rest = hosts-running m id p e run found.1 d.1 in
      let (o, at, lists) = (inv.processes id p e).placed (contains-nil id) run in
      let host =
        λ (h : contains n.running_process_ids id ≡ true). (inv.nodes k n found.0).hosted id h in
      elim (Bool-cases (contains n.running_process_ids id)) [
        | inl h ↦ let (q, f, r, home) = host h in ground (arith, rest, d.0, eq_iff k p.node_id)
        | inr h ↦ ground (arith, rest, found.0, eq_iff k p.node_id)
      ]

  contains-keys :
      {V : Type 0} (m : Dict String V) (k : String) (v : V)
      → lookup k m ≡ some v
      → contains (keys m) k ≡ true
  unfolding lookup contains
  contains-keys [] k v e = ground arith
  contains-keys ((j, w) ∷ m) k v e = ground (arith, contains-keys m k v)

  audit_processes-accepts :
      (placements : List String) (m : Dict String Process)
      → ((id : String) → placed id placements ≡ hosts ns id)
      → AllEntries (λ k p. lookup k ps ≡ some p) m
      → audit_processes placements m ≡ true
  unfolding audit_processes
  audit_processes-accepts placements [] count found = refl
  audit_processes-accepts placements ((id, p) ∷ m) count found =
      let rest = audit_processes-accepts placements m count found.1 in
      let v = inv.processes id p found.0 in
      elim (Bool-cases (is_running p.state)) [
        | inl run ↦
            let (n, e, lists) = v.placed (contains-nil id) run in
            let w = inv.nodes p.node_id n e in
            let named = identifier_named n.id p.node_id w.key w.identified in
            let one =
              count id
              ∙ hosts-running ns id p found.0 run (entries_found ns inv.node_keys) inv.node_keys in
            let known = contains-keys ns p.node_id n e in
            let single : placed id placements ≡ 1 = ground (arith, one, known) in
            rw (run, named, single) rest
        | inr idle ↦ rw (idle, (eq_iff p.node_id "").1 (v.unplaced idle)) rest
      ]

-- The program's own check of the invariants accepts every controller that satisfies the invariant
-- of the proofs: its sums, its counts of placements and its tests all come out right, without
-- overflow.
pub validate_invariants-accepts :
    {F : Type 0} (c : Controller F) → IsConsistent c → validate_invariants c ≡ ok tt
unfolding validate_invariants placed
validate_invariants-accepts c inv =
    let (more, e, count) =
      audit_nodes-accepts c.nodes c.processes inv c.nodes []
        (entries_found c.nodes inv.node_keys) in
    let good =
      audit_processes-accepts c.nodes c.processes inv more c.processes
        (λ id. omega (arith, count id)) (entries_found c.processes inv.process_keys) in
    rw (validate_invariants, e, good) refl
