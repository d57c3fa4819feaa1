-- ===== src/Controller/Invariant/Undo.antt =====
-- internal/domain/node.go: Allocate followed by Release.
use cs320_cluster_process_ma.Base.{
  ℕ, ◌+◌, ◌<◌, ℤ, pos_part, String, List, [], ◌∷◌, ◌++◌, true, false, ◌≡◌, refl, sym, ◌∙◌,
  string_eq, contains, remove_first, contains-snoc, arith, eq_iff, add_int, sub_int, ltb_ℤ, ok,
}
use cs320_cluster_process_ma.Domain.Process.{Process}
use cs320_cluster_process_ma.Domain.Node.{Node, allocate, release}
use cs320_cluster_process_ma.Controller.Invariant.Facts.{IsBalanced}
use cs320_cluster_process_ma.Controller.Invariant.Resources.{
  IsBalanced-add, IsBalanced-sub, allocate-Allocation, enough,
}

remove_first-snoc :
    (xs : List String) (x : String) → contains xs x ≡ false → remove_first (xs ++ x ∷ []) x ≡ xs
unfolding remove_first contains
remove_first-snoc [] x h = ground (arith, eq_iff x x)
remove_first-snoc (y ∷ xs) x h = ground (arith, remove_first-snoc xs x)

-- A resource that a node takes and gives back is as it was.
give-take :
    (a limit req : ℤ) (t : ℕ)
    → IsBalanced a limit t
    → 0 < pos_part req
    → IsBalanced (add_int a req) limit (t + pos_part req)
    → (sub_int (add_int a req) req ≡ a) × (ltb_ℤ (add_int a req) req ≡ false)
give-take a limit req t b h more = (
  (IsBalanced-sub (add_int a req) limit req (t + pos_part req) t more h refl).counted
      ∙ sym b.counted,
  enough (add_int a req) limit req (t + pos_part req) more h (omega arith),
)

-- What Allocate gives to a process, Release takes back: the node is the same again. The node's two
-- counters are within its capacities, and the requests are positive.
pub release-allocate :
    (n m : Node) (p : Process) (cpu memory : ℕ)
    → IsBalanced n.cpu_allocated n.cpu_capacity cpu
    → IsBalanced n.memory_allocated_mb n.memory_capacity_mb memory
    → 0 < pos_part p.cpu_request
    → 0 < pos_part p.memory_request_mb
    → allocate n p ≡ ok m
    → release m p ≡ ok n
unfolding release
release-allocate n m p cpu memory c b some_cpu some_memory h =
    let a = allocate-Allocation n p m h in
    let (same_cpu, enough_cpu) =
      give-take n.cpu_allocated n.cpu_capacity p.cpu_request cpu c some_cpu
        (IsBalanced-add n.cpu_allocated n.cpu_capacity p.cpu_request cpu c some_cpu a.cpu_fits) in
    let (same_memory, enough_memory) =
      give-take n.memory_allocated_mb n.memory_capacity_mb p.memory_request_mb memory b some_memory
        (IsBalanced-add n.memory_allocated_mb n.memory_capacity_mb p.memory_request_mb memory b
          some_memory a.memory_fits) in
    let listed : contains (n.running_process_ids ++ p.id ∷ []) p.id ≡ true =
      ground (arith, contains-snoc n.running_process_ids p.id p.id, eq_iff p.id p.id) in
    let gone = remove_first-snoc n.running_process_ids p.id a.unlisted in
    rw (a.result, listed, enough_cpu, enough_memory, same_cpu, same_memory, gone) refl
