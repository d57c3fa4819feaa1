-- ===== src/Controller/Invariant/Resources.antt =====
-- Moves of resources between a node and a process: Node.Allocate and Node.Release in the maps.
use cs320_cluster_process_ma.Base.{
  ℕ, ◌+◌, ◌≤◌, ◌<◌, ℤ, pos, pos_part, negsuc, String, List, [], ◌∷◌, ◌++◌, true, false, ◌&&◌, ◌||◌,
  not, ◌≡◌, ◌≢◌, refl, sym, ap, ◌∙◌, subst, inl, inr, ◌==◌, string_eq, some, lookup, insert,
  contains, Dict, arith, eq_iff, lookup-insert, lookup-insert_cases, lookup-insert_self,
  HasDistinctKeys-insert, contains-cons, contains-nil, Bool-cases, add_int, sub_int, add_int-pos,
  sub_int-pos, contains-snoc, IsDistinct-snoc, contains-remove_first, IsDistinct-remove_first,
  remove_first, ok,
}
use cs320_cluster_process_ma.Domain.Process.{Process}
use cs320_cluster_process_ma.Domain.Node.{is_online, Node, allocate, release}
use cs320_cluster_process_ma.Controller.Processes.{is_running}
use cs320_cluster_process_ma.Controller.Invariant.Totals.{
  total, total-insert, total-snoc, total-remove_first, amount-le-total,
}
use cs320_cluster_process_ma.Controller.Invariant.Facts.{
  IsHosted, IsBalanced, IsNodeConsistent, IsProcessConsistent, IsConsistentBut,
}
use cs320_cluster_process_ma.Base.{ltb_ℤ, leb_ℤ}
use cs320_cluster_process_ma.Controller.Invariant.Writes.{
  SameRequests, node-insert, IsHosted-insert_ne,
}
use cs320_cluster_process_ma.Controller.Invariant.Nodes.{
  IsHosting-insert, IsHosted-once, process-carry,
}

pub IsBalanced-sub :
    (a limit req : ℤ) (t t' : ℕ)
    → IsBalanced a limit t
    → 0 < pos_part req
    → t' + pos_part req ≡ t
    → IsBalanced (sub_int a req) limit t'
IsBalanced-sub a limit (pos r) t t' b h e = record {
  counted = rw b.counted (ground (arith, sub_int-pos t r, b.fits, b.machine));
  fits = omega (arith, b.fits);
  nonempty = b.nonempty;
  machine = b.machine;
}
IsBalanced-sub a limit (negsuc r) t t' b h e = absurd (omega arith)

-- The test of CanFit for one resource leaves room for the request.
pub IsBalanced-add :
    (a limit req : ℤ) (t : ℕ)
    → IsBalanced a limit t
    → 0 < pos_part req
    → leb_ℤ req (sub_int limit a) ≡ true
    → IsBalanced (add_int a req) limit (t + pos_part req)
IsBalanced-add a (pos c) (pos r) t b h e = record {
  counted = rw b.counted (ground (arith, add_int-pos t r, room));
  fits = room;
  nonempty = b.nonempty;
  machine = b.machine;
}
  where
    fits_before : leb_ℤ (pos r) (sub_int (pos c) (pos t)) ≡ true
    fits_before = rw b.counted at e

    room : t + r ≤ c
    room = ground (arith, sub_int-pos c t b.fits b.machine)
IsBalanced-add a (negsuc c) (pos r) t b h e = absurd (omega (arith, b.nonempty))
IsBalanced-add a limit (negsuc r) t b h e = absurd (omega arith)

-- What a successful Allocate tells.
pub record Allocation (n : Node) (p : Process) (m : Node) : Type 0 where
  pub online : is_online n.status ≡ true
  pub cpu_fits : leb_ℤ p.cpu_request (sub_int n.cpu_capacity n.cpu_allocated) ≡ true
  pub memory_fits :
      leb_ℤ p.memory_request_mb (sub_int n.memory_capacity_mb n.memory_allocated_mb) ≡ true
  pub unlisted : contains n.running_process_ids p.id ≡ false
  pub result : m ≡ record n {
    cpu_allocated = add_int n.cpu_allocated p.cpu_request;
    memory_allocated_mb = add_int n.memory_allocated_mb p.memory_request_mb;
    running_process_ids = n.running_process_ids ++ p.id ∷ [];
  }

pub allocate-Allocation :
    (n : Node) (p : Process) (m : Node) → allocate n p ≡ ok m → Allocation n p m
unfolding allocate
allocate-Allocation n p m h = ground arith

-- The node that Release leaves.
abbrev pub freed : Node → Process → Node
freed n p = record n {
  cpu_allocated = sub_int n.cpu_allocated p.cpu_request;
  memory_allocated_mb = sub_int n.memory_allocated_mb p.memory_request_mb;
  running_process_ids = remove_first n.running_process_ids p.id;
}

pub enough :
    (a limit req : ℤ) (t : ℕ)
    → IsBalanced a limit t
    → 0 < pos_part req
    → pos_part req ≤ t
    → ltb_ℤ a req ≡ false
enough a limit (pos r) t b h le = rw b.counted (ground arith)
enough a limit (negsuc r) t b h le = absurd (omega arith)

module _ (ns : Dict String Node) (ps : Dict String Process) (k : String) (p : Process)
    (found : lookup k ps ≡ some p) (c : IsConsistentBut [] ns ps) where
  v : IsProcessConsistent [] ns k p
  v = c.processes k p found

  -- The process is found under its own identifier.
  itself : lookup p.id ps ≡ some p
  itself = ap (λ i. lookup i ps) v.key ∙ found

  -- Release of a running process succeeds.
  pub release_lem :
      (n : Node)
      → lookup p.node_id ns ≡ some n
      → contains n.running_process_ids k ≡ true
      → release n p ≡ ok (freed n p)
  unfolding release
  release_lem n e h = ground (
    arith,
    enough n.cpu_allocated n.cpu_capacity p.cpu_request _ w.cpu v.cpu
        (rw found at (amount-le-total (λ r. r.cpu_request) ps n.running_process_ids k h)),
    enough n.memory_allocated_mb n.memory_capacity_mb p.memory_request_mb _ w.memory v.memory
        (rw found at (amount-le-total (λ r. r.memory_request_mb) ps n.running_process_ids k h)),
    v.key,
  )
    where
      w : IsNodeConsistent ps p.node_id n
      w = c.nodes p.node_id n e

  module _ (q : Process) (same : SameRequests p q) (run : is_running q.state ≡ true) where
    -- A process gives up its node, and is loose until its state is written.
    pub released :
        (n : Node)
        → lookup p.node_id ns ≡ some n
        → contains n.running_process_ids k ≡ true
        → is_running p.state ≡ true
        → IsConsistentBut (k ∷ []) (insert p.node_id (freed n p) ns) (insert k q ps)
    released n e h was = record {
      node_keys = HasDistinctKeys-insert p.node_id (freed n p) ns c.node_keys;
      process_keys = HasDistinctKeys-insert k q ps c.process_keys;
      nodes = nodes;
      processes = processes;
      unlisted = unlisted;
      known = λ id l. (
        q,
        ground
            (arith, lookup-insert k id q ps, contains-cons k id [], contains-nil id, eq_iff k id),
      );
    }
      where
        w : IsNodeConsistent ps p.node_id n
        w = c.nodes p.node_id n e

        here : IsHosted ps p.node_id k
        here = (p, found, was, refl)

        ids : List String
        ids = remove_first n.running_process_ids p.id

        kept :
            (id : String) → contains ids id ≡ (contains n.running_process_ids id && not (k == id))
        kept id = rw v.key (contains-remove_first n.running_process_ids k id w.distinct)

        left :
            (request : Process → ℤ)
            → request q ≡ request p
            → total request (insert k q ps) ids + pos_part (request p)
              ≡ total request ps n.running_process_ids
        left request eq = rw (total-insert request ps ids k q (rw (found, eq) refl)) (
            rw itself at (
              total-remove_first request ps n.running_process_ids p.id
                (ap (contains n.running_process_ids) v.key ∙ h)))

        lighter : IsNodeConsistent (insert k q ps) p.node_id (freed n p)
        lighter = record {
          key = w.key;
          identified = w.identified;
          named = w.named;
          cpu =
              IsBalanced-sub n.cpu_allocated n.cpu_capacity p.cpu_request _ _ w.cpu v.cpu
                (left (λ r. r.cpu_request) same.cpu);
          memory =
              IsBalanced-sub n.memory_allocated_mb n.memory_capacity_mb p.memory_request_mb _ _
                w.memory v.memory (left (λ r. r.memory_request_mb) same.memory);
          distinct = IsDistinct-remove_first n.running_process_ids p.id w.distinct;
          emptied = λ failed. cc (w.emptied failed, contains-nil k);
          hosted = λ id l.
              IsHosted-insert_ne ps k p.node_id id q (ground (arith, kept id, eq_iff k id))
                (w.hosted id (ground (arith, kept id)));
        }

        apart :
            (j id : String) (o : Node)
            → lookup j ns ≡ some o
            → p.node_id ≢ j
            → contains o.running_process_ids id ≡ true
            → k ≢ id
        apart j id o f ne l = λ ki. ne (
            IsHosted-once ps p.node_id j k here
              (subst (IsHosted ps j) (sym ki) ((c.nodes j o f).hosted id l)))

        nodes :
            (j : String) (o : Node)
            → lookup j (insert p.node_id (freed n p) ns) ≡ some o
            → IsNodeConsistent (insert k q ps) j o
        nodes j o f = elim (lookup-insert_cases p.node_id j (freed n p) o ns f) [
          | inl (kj, om) ↦ subst (λ i. IsNodeConsistent (insert k q ps) i o) kj (rw om lighter)
          | inr (ne, old) ↦
              node-insert ps k p q found same j o
                (λ id l. IsHosted-insert_ne ps k j id q (apart j id o old ne l)) (c.nodes j o old)
        ]

        loosened : IsProcessConsistent (k ∷ []) (insert p.node_id (freed n p) ns) k q
        loosened = record {
          key = same.id ∙ v.key;
          cpu = rw same.cpu v.cpu;
          memory = rw same.memory v.memory;
          placed = λ l r. ground (arith, contains-cons k k [], eq_iff k k);
          unplaced = λ r. cc;
          still_running = λ l. run;
        }

        other :
            (j : String) (r : Process)
            → k ≢ j
            → IsProcessConsistent [] ns j r
            → IsProcessConsistent (k ∷ []) (insert p.node_id (freed n p) ns) j r
        other j r ne x = record {
          key = x.key;
          cpu = x.cpu;
          memory = x.memory;
          placed = λ l s.
              IsHosting-insert ns p.node_id n (freed n p) e r.node_id j
                (λ g. ground (arith, kept j, eq_iff k j)) (x.placed (contains-nil j) s);
          unplaced = x.unplaced;
          still_running = λ l. ground (arith, contains-cons k j [], contains-nil j, eq_iff k j);
        }

        processes :
            (j : String) (r : Process)
            → lookup j (insert k q ps) ≡ some r
            → IsProcessConsistent (k ∷ []) (insert p.node_id (freed n p) ns) j r
        processes j r f = elim (lookup-insert_cases k j q r ps f) [
          | inl (kj, rq) ↦
              subst (λ i. IsProcessConsistent (k ∷ []) (insert p.node_id (freed n p) ns) i r) kj
                (rw rq loosened)
          | inr (ne, old) ↦ other j r ne (c.processes j r old)
        ]

        absent :
            (j : String) (o : Node)
            → lookup j ns ≡ some o
            → p.node_id ≢ j
            → contains o.running_process_ids k ≡ false
        absent j o f ne = elim (Bool-cases (contains o.running_process_ids k)) [
          | inl l ↦ absurd (apart j k o f ne l refl)
          | inr l ↦ l
        ]

        unlisted :
            (j id : String) (o : Node)
            → lookup j (insert p.node_id (freed n p) ns) ≡ some o
            → contains (k ∷ []) id ≡ true
            → contains o.running_process_ids id ≡ false
        unlisted j id o f l =
            let ki : k ≡ id = ground (arith, contains-cons k id [], contains-nil id, eq_iff k id) in
            subst (λ i. contains o.running_process_ids i ≡ false) ki
              (elim (lookup-insert_cases p.node_id j (freed n p) o ns f) [
                | inl (kj, om) ↦ rw om (ground (arith, kept k, eq_iff k k))
                | inr (ne, old) ↦ absent j o old ne
              ])

    -- A process that does not run is placed on a node by a successful Allocate.
    pub placed :
        (nid : String) (n m : Node)
        → lookup nid ns ≡ some n
        → allocate n p ≡ ok m
        → is_running p.state ≡ false
        → q.node_id ≡ nid
        → IsConsistentBut [] (insert nid m ns) (insert k q ps)
    placed nid n m e alloc idle at = record {
      node_keys = HasDistinctKeys-insert nid m ns c.node_keys;
      process_keys = HasDistinctKeys-insert k q ps c.process_keys;
      nodes = nodes;
      processes = processes;
      unlisted = λ j id o f l. cc (contains-nil id);
      known = λ id l. cc (contains-nil id);
    }
      where
        w : IsNodeConsistent ps nid n
        w = c.nodes nid n e

        a : Allocation n p m
        a = allocate-Allocation n p m alloc

        ids : List String
        ids = n.running_process_ids ++ p.id ∷ []

        grown : (id : String) → contains ids id ≡ (contains n.running_process_ids id || k == id)
        grown id = rw v.key (contains-snoc n.running_process_ids k id)

        more :
            (request : Process → ℤ)
            → request q ≡ request p
            → total request (insert k q ps) ids
              ≡ total request ps n.running_process_ids + pos_part (request p)
        more request eq =
            rw (total-insert request ps ids k q (rw (found, eq) refl))
              (rw itself at (total-snoc request ps n.running_process_ids p.id))

        heavier : IsNodeConsistent (insert k q ps) nid m
        heavier = rw a.result (record {
          key = w.key;
          identified = w.identified;
          named = w.named;
          cpu = rw (more (λ r. r.cpu_request) same.cpu) (
              IsBalanced-add n.cpu_allocated n.cpu_capacity p.cpu_request _ w.cpu v.cpu a.cpu_fits);
          memory = rw (more (λ r. r.memory_request_mb) same.memory) (
              IsBalanced-add n.memory_allocated_mb n.memory_capacity_mb p.memory_request_mb _
                w.memory v.memory a.memory_fits);
          distinct = IsDistinct-snoc n.running_process_ids p.id w.distinct a.unlisted;
          emptied = λ failed. ground (arith, a.online);
          hosted = hosted;
        })
          where
            hosted : (id : String) → contains ids id ≡ true → IsHosted (insert k q ps) nid id
            hosted id l = elim (Bool-cases (k == id)) [
              | inl ki ↦ (q, ground (arith, lookup-insert k id q ps), run, at)
              | inr ne ↦
                  IsHosted-insert_ne ps k nid id q (ground (arith, eq_iff k id))
                    (w.hosted id (ground (arith, grown id)))
            ]

        apart :
            (j id : String) (o : Node)
            → lookup j ns ≡ some o
            → contains o.running_process_ids id ≡ true
            → k ≢ id
        apart j id o f l = λ ki. not_hosted ki ((c.nodes j o f).hosted id l)
          where
            not_hosted : k ≡ id → IsHosted ps j id → ⊥
            not_hosted ki (r, g, s, x) = ground (arith, ap (λ i. lookup i ps) ki)

        nodes :
            (j : String) (o : Node)
            → lookup j (insert nid m ns) ≡ some o
            → IsNodeConsistent (insert k q ps) j o
        nodes j o f = elim (lookup-insert_cases nid j m o ns f) [
          | inl (kj, om) ↦ subst (λ i. IsNodeConsistent (insert k q ps) i o) kj (rw om heavier)
          | inr (ne, old) ↦
              node-insert ps k p q found same j o
                (λ id l. IsHosted-insert_ne ps k j id q (apart j id o old l)) (c.nodes j o old)
        ]

        settled : IsProcessConsistent [] (insert nid m ns) k q
        settled = record {
          key = same.id ∙ v.key;
          cpu = rw same.cpu v.cpu;
          memory = rw same.memory v.memory;
          placed = λ l r.
              rw at
                (m, lookup-insert_self nid m ns, rw a.result (ground (arith, grown k, eq_iff k k)));
          unplaced = λ r. cc;
          still_running = λ l. run;
        }

        processes :
            (j : String) (r : Process)
            → lookup j (insert k q ps) ≡ some r
            → IsProcessConsistent [] (insert nid m ns) j r
        processes j r f = elim (lookup-insert_cases k j q r ps f) [
          | inl (kj, rq) ↦
              subst (λ i. IsProcessConsistent [] (insert nid m ns) i r) kj (rw rq settled)
          | inr (ne, old) ↦
              process-carry [] ns (insert nid m ns) j r
                (IsHosting-insert ns nid n m e r.node_id j
                  (λ g. rw a.result (ground (arith, grown j))))
                (c.processes j r old)
        ]
