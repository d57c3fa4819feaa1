-- ===== src/Controller/Outcome/Placement.antt =====
-- internal/cluster/lifecycle.go: scheduleReadyLocked goes through its whole queue.
use cs320_cluster_process_ma.Base.{
  String, List, [], ◌∷◌, true, ◌≡◌, ◌⊎◌, refl, ap, inl, inr, Option, none, some, lookup, string_eq,
  Result, ok, err, panic, Error, Float, ℤ, IsDistinct,
}
use cs320_cluster_process_ma.Domain.Types.{ProcessState}
use cs320_cluster_process_ma.Domain.Process.{Process, transition}
use cs320_cluster_process_ma.Domain.Node.{Node, NodeSnapshot}
use cs320_cluster_process_ma.Scheduler.{Scheduler, select_node}
use cs320_cluster_process_ma.Scheduler.Selection.{round_robin-IsCyclic, least_loaded_sound}
use cs320_cluster_process_ma.Controller.State.{Controller}
use cs320_cluster_process_ma.Controller.Processes.{is_ready}
use cs320_cluster_process_ma.Controller.Placement.{
  announce, refreshed, run_on, place_on, placing, place, place_all, schedule_ready, node_snapshots,
}
use cs320_cluster_process_ma.Controller.Invariant.Facts.{IsConsistent}
use cs320_cluster_process_ma.Controller.Consistency.Placement.{
  AreQueued, AreQueued-others, ids_of, allocate?-cases, ready_moves, place-IsPlacement,
}
use cs320_cluster_process_ma.Controller.Consistency.Queue.{ready_queue, ready_queue_lem}
use cs320_cluster_process_ma.Controller.Outcome.Tick.{Runs}

-- A selection answers a node or an error.
select_node_cases :
    (F : Type 0) ⦃f : Float F⦄ (s : Scheduler) (p : Process) (nodes : List NodeSnapshot)
    → ((id : String) × ((select_node F s p nodes).0 ≡ ok id))
      ⊎ ((e : Error) × ((select_node F s p nodes).0 ≡ err e))
unfolding select_node
select_node_cases F (Scheduler.round_robin cursor) p nodes =
    elim (round_robin-IsCyclic cursor p nodes) [
      | inl (i, n, e, found, fits, first) ↦ inl (n.id, ap (λ r. r.0) e)
      | inr (e, none_fits) ↦ inr (_, ap (λ r. r.0) e)
    ]
select_node_cases F Scheduler.least_loaded p nodes = elim (least_loaded_sound F p nodes) [
  | inl (id, e, found) ↦ inl (id, e)
  | inr e ↦ inr (_, e)
]
select_node_cases F (Scheduler.priority_aware _) p nodes = elim (least_loaded_sound F p nodes) [
  | inl (id, e, found) ↦ inl (id, e)
  | inr e ↦ inr (_, e)
]

announce-answers :
    {F : Type 0} (started : Option ℤ) (p : Process) (n : Node) (node_id : String)
    (nodes : List NodeSnapshot) (c : Controller F)
    → (announce started p n node_id nodes c).0 ≡ ok (refreshed n nodes)
unfolding announce
announce-answers none p n node_id nodes c = refl
announce-answers (some _) p n node_id nodes c = refl

run_on-answers :
    {F : Type 0} (p : Process) (n : Node) (node_id : String) (nodes : List NodeSnapshot)
    (c : Controller F)
    → (run_on p n node_id nodes c).0 ≡ ok (refreshed n nodes)
unfolding run_on
run_on-answers p n node_id nodes c = announce-answers p.started_at_tick _ n node_id nodes _

place_on-answers :
    {F : Type 0} (p : Process) (node_id : String) (nodes : List NodeSnapshot) (c : Controller F)
    → is_ready p.state ≡ true
    → (later : List NodeSnapshot) × ((place_on p node_id nodes c).0 ≡ ok later)
unfolding place_on transition
place_on-answers p node_id nodes c ready = elim (allocate?-cases (lookup node_id c.nodes) p) [
  | inl (e, refused) ↦ (nodes, rw (place_on, refused) refl)
  | inr (n, m, e, fits, answer) ↦
      let (moves, idle) = ready_moves p.state ready in
      let q : Process = record p { state = ProcessState.running } in
      (refreshed m nodes, rw (place_on, answer, moves) (run_on-answers q m node_id nodes _))
]

module _ {F : Type 0} ⦃f : Float F⦄ where
  placing-answers :
      (r : Result String) (p : Process) (nodes : List NodeSnapshot) (c : Controller F)
      → ((id : String) × (r ≡ ok id)) ⊎ ((e : Error) × (r ≡ err e))
      → is_ready p.state ≡ true
      → (later : List NodeSnapshot) × ((placing r p nodes c).0 ≡ ok later)
  unfolding placing
  placing-answers (ok id) p nodes c h ready = place_on-answers p id nodes c ready
  placing-answers (err _) p nodes c h ready = (nodes, refl)
  placing-answers panic p nodes c h ready = elim h [ inl (id, e) ↦ cc | inr (e, e') ↦ cc ]

  place-answers :
      (p : Process) (nodes : List NodeSnapshot) (c : Controller F)
      → is_ready p.state ≡ true
      → (later : List NodeSnapshot) × ((place p nodes c).0 ≡ ok later)
  unfolding place
  place-answers p nodes c ready =
      placing-answers (select_node F c.scheduler p nodes).0 p nodes _
        (select_node_cases F c.scheduler p nodes) ready

  place_all-Runs :
      (ps : List Process) (c : Controller F) (nodes : List NodeSnapshot)
      → IsConsistent c
      → AreQueued c ps
      → IsDistinct (ids_of ps)
      → Runs (place_all ps nodes) c
  unfolding place_all
  place_all-Runs [] c nodes inv q d = refl
  place_all-Runs (p ∷ ps) c nodes inv q d =
      let (later, e) = place-answers p nodes c q.1 in
      let r = place-IsPlacement c p nodes inv q.0 q.1 in
      rw e (
        place_all-Runs ps (place p nodes c).1 later r.consistent
          (AreQueued-others p c (place p nodes c).1 ps r d.0 q.2) d.1)

  pub schedule_ready-Runs : (c : Controller F) → IsConsistent c → Runs schedule_ready c
  unfolding schedule_ready
  schedule_ready-Runs c inv =
      let (queued, distinct) = ready_queue_lem c inv in
      place_all-Runs (ready_queue c) c (node_snapshots c.nodes) inv queued distinct
