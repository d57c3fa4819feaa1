-- ===== src/Controller/Consistency/Queue.antt =====
-- internal/cluster/lifecycle.go: the queue of scheduleReadyLocked, and the invariant.
use cs320_cluster_process_ma.Base.{
  ℤ, String, List, [], ◌∷◌, Bool, true, false, ◌||◌, ◌≡◌, refl, ap, ◌∙◌, inl, inr, some, lookup,
  arith, contains, eq_iff, Bool-cases, ◌==◌, string_eq, IsDistinct, Float, Dict, keys,
  HasDistinctKeys, AllEntries, entries_found, insert_by, sort_by,
}
use cs320_cluster_process_ma.Domain.Process.{Process}
use cs320_cluster_process_ma.Scheduler.{Scheduler, order_ready}
use cs320_cluster_process_ma.Scheduler.Priority
use cs320_cluster_process_ma.Controller.State.{Controller}
use cs320_cluster_process_ma.Controller.Processes.{is_ready}
use cs320_cluster_process_ma.Controller.Placement.{
  ready_processes, submitted_before, node_snapshots, schedule_ready,
}
use cs320_cluster_process_ma.Controller.Invariant.Facts.{IsConsistent}
use cs320_cluster_process_ma.Controller.Consistency.Placement.{
  AreQueued, ids_of, place_all-IsConsistent,
}

module _ {F : Type 0} (c : Controller F) (inv : IsConsistent c) where
  -- The entries of `m` are entries of the map.
  abbrev Found : Dict String Process → Type 0
  Found m = AllEntries (λ k p. lookup k c.processes ≡ some p) m

  contains-ids_of :
      (m : Dict String Process) (k : String)
      → Found m
      → contains (keys m) k ≡ false
      → contains (ids_of (ready_processes m)) k ≡ false
  unfolding contains
  contains-ids_of [] k h l = refl
  contains-ids_of ((j, p) ∷ m) k h l =
      let key = (inv.processes j p h.0).key in
      let rest = contains-ids_of m k h.1 (ground arith) in
      elim (Bool-cases (is_ready p.state)) [
        | inl e ↦ rw e (rw key (rw rest (ground arith)))
        | inr e ↦ rw e rest
      ]

  ready_processes-IsDistinct :
      (m : Dict String Process)
      → Found m
      → HasDistinctKeys m
      → IsDistinct (ids_of (ready_processes m))
  ready_processes-IsDistinct [] h d = tt
  ready_processes-IsDistinct ((j, p) ∷ m) h d =
      let key = (inv.processes j p h.0).key in
      let rest = ready_processes-IsDistinct m h.1 d.1 in
      elim (Bool-cases (is_ready p.state)) [
        | inl e ↦ rw e (rw key (contains-ids_of m j h.1 d.0), rest)
        | inr e ↦ rw e rest
      ]

  ready_processes-AreQueued : (m : Dict String Process) → Found m → AreQueued c (ready_processes m)
  ready_processes-AreQueued [] h = tt
  ready_processes-AreQueued ((j, p) ∷ m) h =
      let key = (inv.processes j p h.0).key in
      let rest = ready_processes-AreQueued m h.1 in
      elim (Bool-cases (is_ready p.state)) [
        | inl e ↦ rw e (ap (λ i. lookup i c.processes) key ∙ h.0, e, rest)
        | inr e ↦ rw e rest
      ]

module _ (less : Process → Process → Bool) where
  AreQueued-insert_by :
      {F : Type 0} (c : Controller F) (p : Process) (ps : List Process)
      → lookup p.id c.processes ≡ some p
      → is_ready p.state ≡ true
      → AreQueued c ps
      → AreQueued c (insert_by less p ps)
  AreQueued-insert_by c p [] f r q = (f, r, tt)
  AreQueued-insert_by c p (x ∷ ps) f r q =
      let rest = AreQueued-insert_by c p ps f r q.2 in
      elim (Bool-cases (less x p)) [ inl e ↦ rw e (q.0, q.1, rest) | inr e ↦ rw e (f, r, q) ]

  AreQueued-sort_by :
      {F : Type 0} (c : Controller F) (ps : List Process)
      → AreQueued c ps
      → AreQueued c (sort_by less ps)
  unfolding sort_by
  AreQueued-sort_by c [] q = tt
  AreQueued-sort_by c (p ∷ ps) q =
      AreQueued-insert_by c p (sort_by less ps) q.0 q.1 (AreQueued-sort_by c ps q.2)

  contains-ids_of-insert_by :
      (k : String) (p : Process) (ps : List Process)
      → contains (ids_of (insert_by less p ps)) k ≡ (p.id == k || contains (ids_of ps) k)
  unfolding contains
  contains-ids_of-insert_by k p [] = refl
  contains-ids_of-insert_by k p (x ∷ ps) = ground (arith, contains-ids_of-insert_by k p ps)

  contains-ids_of-sort_by :
      (k : String) (ps : List Process)
      → contains (ids_of (sort_by less ps)) k ≡ contains (ids_of ps) k
  unfolding sort_by contains
  contains-ids_of-sort_by k [] = refl
  contains-ids_of-sort_by k (p ∷ ps) =
      ground (arith, contains-ids_of-insert_by k p (sort_by less ps), contains-ids_of-sort_by k ps)

  insert_by-IsDistinct :
      (p : Process) (ps : List Process)
      → contains (ids_of ps) p.id ≡ false
      → IsDistinct (ids_of ps)
      → IsDistinct (ids_of (insert_by less p ps))
  unfolding contains
  insert_by-IsDistinct p [] h d = (refl, tt)
  insert_by-IsDistinct p (x ∷ ps) h d =
      let rest = insert_by-IsDistinct p ps (ground arith) d.1 in
      elim (Bool-cases (less x p)) [
        | inl e ↦ rw e (
          ground (arith, contains-ids_of-insert_by x.id p ps, eq_iff p.id x.id, eq_iff x.id p.id),
          rest,
        )
        | inr e ↦ rw e (h, d)
      ]

  sort_by-IsDistinct :
      (ps : List Process) → IsDistinct (ids_of ps) → IsDistinct (ids_of (sort_by less ps))
  unfolding sort_by
  sort_by-IsDistinct [] d = tt
  sort_by-IsDistinct (p ∷ ps) d =
      insert_by-IsDistinct p (sort_by less ps) (contains-ids_of-sort_by p.id ps ∙ d.0)
        (sort_by-IsDistinct ps d.1)

-- The scheduler's own order keeps the queue a queue.
order_ready-queue :
    {F : Type 0} (c : Controller F) (s : Scheduler) (tick : ℤ) (ps : List Process)
    → AreQueued c ps
    → IsDistinct (ids_of ps)
    → AreQueued c (order_ready s ps tick) × IsDistinct (ids_of (order_ready s ps tick))
unfolding order_ready Priority.order_ready
order_ready-queue c (Scheduler.round_robin _) tick ps q d = (q, d)
order_ready-queue c Scheduler.least_loaded tick ps q d = (q, d)
order_ready-queue c (Scheduler.priority_aware interval) tick ps q d =
    (AreQueued-sort_by _ c ps q, sort_by-IsDistinct _ ps d)

-- The queue of scheduleReadyLocked.
abbrev pub ready_queue : {F : Type 0} → Controller F → List Process
ready_queue c =
    order_ready c.scheduler (sort_by submitted_before (ready_processes c.processes)) c.current_tick

-- It lists ready processes of the map, each once.
pub ready_queue_lem :
    {F : Type 0} (c : Controller F)
    → IsConsistent c
    → AreQueued c (ready_queue c) × IsDistinct (ids_of (ready_queue c))
ready_queue_lem c inv =
    let found = entries_found c.processes inv.process_keys in
    let ready = ready_processes c.processes in
    let sorted = sort_by submitted_before ready in
    order_ready-queue c c.scheduler c.current_tick sorted
      (AreQueued-sort_by submitted_before c ready
        (ready_processes-AreQueued c inv c.processes found))
      (sort_by-IsDistinct submitted_before ready
        (ready_processes-IsDistinct c inv c.processes found inv.process_keys))

-- scheduleReadyLocked keeps the invariant under every scheduler: placing the queue gives each
-- process that it starts to exactly one node, which has room for it, and no counter overflows or
-- exceeds its capacity.
pub schedule_ready-IsConsistent :
    {F : Type 0} ⦃f : Float F⦄ (c : Controller F)
    → IsConsistent c
    → IsConsistent (schedule_ready c).1
unfolding schedule_ready
schedule_ready-IsConsistent c inv =
    let (queued, distinct) = ready_queue_lem c inv in
    place_all-IsConsistent (ready_queue c) c (node_snapshots c.nodes) inv queued distinct
