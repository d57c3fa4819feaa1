-- ===== src/Controller/Consistency/Placement.antt =====
-- internal/cluster/lifecycle.go: the body of the loop in scheduleReadyLocked, and the invariant.
use cs320_cluster_process_ma.Base.{
  bind_at, panic, insufficient_resources, invalid_input, insert-insert, Error, ℤ, String, List, [],
  ◌∷◌, ◌++◌, true, false, ◌≡◌, refl, sym, ap, ◌∙◌, subst, ◌⊎◌, inl, inr, Option, none, some, lookup,
  insert, arith, ok, err, Result, contains, string_eq, eq_iff, Bool-cases, IsDistinct, Float,
  add_int, sub_int, lookup-insert_self, lookup-insert_ne, ◌≢◌,
}
use cs320_cluster_process_ma.Domain.Types.{ProcessState}
use cs320_cluster_process_ma.Domain.Process.{Process, transition, can_transition}
use cs320_cluster_process_ma.Domain.Node.{
  Node, NodeSnapshot, allocate?, allocate, can_fit, snapshot,
}
use cs320_cluster_process_ma.Scheduler.{select_node}
use cs320_cluster_process_ma.Controller.State.{Controller, emitted, store_process, store_node}
use cs320_cluster_process_ma.Controller.Processes.{is_running, is_ready}
use cs320_cluster_process_ma.Controller.Placement.{
  place_on, run_on, announce, place, place_all, placing,
}
use cs320_cluster_process_ma.Controller.Invariant.Facts.{IsConsistent, IsConsistentBut}
use cs320_cluster_process_ma.Controller.Invariant.Writes.{write}
use cs320_cluster_process_ma.Controller.Invariant.Resources.{placed, allocate-Allocation}

-- A placement keeps the invariant, and touches no other process.
pub record IsPlacement {F : Type 0} (p : Process) (c d : Controller F) : Type 0 where
  pub consistent : IsConsistent d
  pub others : (id : String) → p.id ≢ id → lookup id d.processes ≡ lookup id c.processes

-- The process that the loop writes first.
abbrev assigned : {F : Type 0} → Controller F → Process → String → Process
assigned c p node_id = record p {
  node_id = node_id;
  waiting_ticks = add_int p.waiting_ticks (sub_int c.current_tick p.last_ready_at_tick);
}

announce-IsPlacement :
    {F : Type 0} (c : Controller F) (p : Process) (n : Node) (node_id : String)
    (nodes : List NodeSnapshot) (started : Option ℤ)
    → lookup p.id c.processes ≡ some p
    → IsConsistent c
    → IsPlacement p c (announce started p n node_id nodes c).1
unfolding announce emitted
announce-IsPlacement c p n node_id nodes (some t) e inv = record {
  consistent = inv;
  others = λ id ne. refl;
}
announce-IsPlacement c p n node_id nodes none e inv =
    let q : Process = record p { started_at_tick = some c.current_tick } in
    record {
      consistent =
          write c.processes p.id p q e (record { id = refl; cpu = refl; memory = refl }) [] c.nodes
            refl refl inv;
      others = λ id ne. lookup-insert_ne p.id id q c.processes ne;
    }

-- The part of the loop after the transition.
run_on-IsPlacement :
    {F : Type 0} (c : Controller F) (p : Process) (n : Node) (node_id : String)
    (nodes : List NodeSnapshot)
    → IsConsistentBut [] c.nodes (insert p.id (assigned c p node_id) c.processes)
    → IsPlacement p c (run_on p n node_id nodes c).1
unfolding run_on
run_on-IsPlacement c p n node_id nodes inv =
    let q = assigned c p node_id in
    let result =
      announce-IsPlacement (store_process q c) q n node_id nodes p.started_at_tick
        (lookup-insert_self p.id q c.processes) inv in
    record {
      consistent = result.consistent;
      others = λ id ne. result.others id ne ∙ lookup-insert_ne p.id id q c.processes ne;
    }

pub ready_moves :
    (s : ProcessState)
    → is_ready s ≡ true
    → (can_transition s ProcessState.running ≡ true) × (is_running s ≡ false)
ready_moves s h = ground arith

-- The node that Allocate leaves.
abbrev loaded : Node → Process → Node
loaded n p = record n {
  cpu_allocated = add_int n.cpu_allocated p.cpu_request;
  memory_allocated_mb = add_int n.memory_allocated_mb p.memory_request_mb;
  running_process_ids = n.running_process_ids ++ p.id ∷ [];
}

-- Allocate refuses, or there is a node and it succeeds.
pub allocate?-cases :
    (o : Option Node) (p : Process)
    → ((e : Error) × (allocate? o p ≡ err e))
      ⊎ ((n : Node) × (m : Node) × (o ≡ some n) × (allocate n p ≡ ok m) × (allocate? o p ≡ ok m))
unfolding allocate? allocate
allocate?-cases none p = inl (insufficient_resources, refl)
allocate?-cases (some n) p = elim (Bool-cases (can_fit (snapshot n) p)) [
  | inr full ↦ inl (insufficient_resources, rw full refl)
  | inl fits ↦ elim (Bool-cases (contains n.running_process_ids p.id)) [
    | inl listed ↦ inl (invalid_input, rw (fits, listed) refl)
    | inr fresh ↦ inr (n, loaded n p, refl, rw (fits, fresh) refl, rw (fits, fresh) refl)
  ]
]

module _ {F : Type 0} (c : Controller F) (inv : IsConsistent c) (p : Process)
    (found : lookup p.id c.processes ≡ some p) (ready : is_ready p.state ≡ true) where
  place_on-IsPlacement :
      (node_id : String) (nodes : List NodeSnapshot)
      → IsPlacement p c (place_on p node_id nodes c).1
  unfolding place_on transition emitted
  place_on-IsPlacement node_id nodes = elim (allocate?-cases (lookup node_id c.nodes) p) [
    | inl (e, refused) ↦
        rw (refused, place_on) (record { consistent = inv; others = λ id ne. refl })
    | inr (n, m, e, fits, answer) ↦
        let a = allocate-Allocation n p m fits in
        let w = inv.nodes node_id n e in
        let key : m.id ≡ node_id = ap (λ (o : Node). o.id) a.result ∙ w.key in
        let (moves, idle) = ready_moves p.state ready in
        let q : Process = record p { state = ProcessState.running } in
        let d = store_process q (store_node m c) in
        let twice = λ (v : Process). insert-insert p.id v q c.processes in
        let hosted =
          placed c.nodes c.processes p.id p found inv (assigned c q node_id)
            (record { id = refl; cpu = refl; memory = refl }) refl node_id n m e fits idle refl in
        let result = run_on-IsPlacement d q m node_id nodes (
          subst
            (λ k.
              IsConsistentBut [] (insert k m c.nodes)
                (insert p.id (assigned c q node_id) (insert p.id q c.processes)))
            (sym key) (rw (twice _) hosted)) in
        let steps : place_on p node_id nodes c ≡ run_on q m node_id nodes d =
          rw (answer, moves, place_on) refl in
        rw steps (record {
          consistent = result.consistent;
          others = λ id ne. result.others id ne ∙ lookup-insert_ne p.id id q c.processes ne;
        })
  ]

-- The processes of the queue are in the map as they are, and ready.
abbrev pub AreQueued : {F : Type 0} → Controller F → List Process → Type 0
AreQueued c [] = Unit {0}
AreQueued c (p ∷ ps) =
    (lookup p.id c.processes ≡ some p) × (is_ready p.state ≡ true) × AreQueued c ps

abbrev pub ids_of : List Process → List String
ids_of [] = []
ids_of (p ∷ ps) = p.id ∷ ids_of ps

pub AreQueued-others :
    {F : Type 0} (p : Process) (c d : Controller F) (ps : List Process)
    → IsPlacement p c d
    → contains (ids_of ps) p.id ≡ false
    → AreQueued c ps
    → AreQueued d ps
unfolding contains
AreQueued-others p c d [] r h q = tt
AreQueued-others p c d (x ∷ ps) r h q = (
  r.others x.id (ground (arith, eq_iff x.id p.id)) ∙ q.0,
  q.1,
  AreQueued-others p c d ps r (ground arith) q.2,
)

module _ {F : Type 0} ⦃f : Float F⦄ where
  placing-IsPlacement :
      (answer : Result String) (c : Controller F) (p : Process) (nodes : List NodeSnapshot)
      → IsConsistent c
      → lookup p.id c.processes ≡ some p
      → is_ready p.state ≡ true
      → IsPlacement p c (placing answer p nodes c).1
  unfolding placing emitted
  placing-IsPlacement (ok node_id) c p nodes inv e ready =
      place_on-IsPlacement c inv p e ready node_id nodes
  placing-IsPlacement (err _) c p nodes inv e ready = record {
    consistent = inv;
    others = λ id ne. refl;
  }
  placing-IsPlacement panic c p nodes inv e ready = record {
    consistent = inv;
    others = λ id ne. refl;
  }

  pub place-IsPlacement :
      (c : Controller F) (p : Process) (nodes : List NodeSnapshot)
      → IsConsistent c
      → lookup p.id c.processes ≡ some p
      → is_ready p.state ≡ true
      → IsPlacement p c (place p nodes c).1
  unfolding place
  place-IsPlacement c p nodes inv e ready =
      let (answer, next) = select_node F c.scheduler p nodes in
      let r = placing-IsPlacement answer (record c { scheduler = next }) p nodes inv e ready in
      record { consistent = r.consistent; others = r.others }

  pub place_all-IsConsistent :
      (ps : List Process) (c : Controller F) (nodes : List NodeSnapshot)
      → IsConsistent c
      → AreQueued c ps
      → IsDistinct (ids_of ps)
      → IsConsistent (place_all ps nodes c).1
  unfolding place_all
  place_all-IsConsistent [] c nodes inv q d = inv
  place_all-IsConsistent (p ∷ ps) c nodes inv q d =
      let r = place-IsPlacement c p nodes inv q.0 q.1 in
      bind_at IsConsistent (place p nodes) (place_all ps) c r.consistent λ later.
        place_all-IsConsistent ps (place p nodes c).1 later r.consistent
          (AreQueued-others p c (place p nodes c).1 ps r d.0 q.2) d.1
