-- ===== src/Scheduler/RoundRobin.antt =====
-- internal/scheduler/round_robin.go. The cursor is never negative.
use cs320_cluster_process_ma.Base.{
  ℕ, zero, suc, ◌+◌, ◌%◌, String, List, Option, none, some, length, get_elem?, sort_by, before,
  if◌then◌else◌, Result, ok, err, panic, no_schedulable_node,
}
use cs320_cluster_process_ma.Domain.Process.{Process}
use cs320_cluster_process_ma.Domain.Node.{NodeSnapshot, can_fit}

abbrev pub by_id : List NodeSnapshot → List NodeSnapshot
unfolding sort_by
by_id nodes = sort_by (λ a b. before a.id b.id) nodes

-- The `for offset := range ordered` loop, with the offsets that are left. An index beyond the
-- list would panic.
unfoldable pub probe :
    (start : ℕ) (ordered : List NodeSnapshot) → Process → (rounds offset : ℕ) → Option ℕ
unfolding can_fit
probe start ordered p zero offset = none
probe start ordered p (suc rounds) offset =
    let index = (start + offset) % length ordered in
    let rest = probe start ordered p rounds (offset + 1) in
    elim (get_elem? ordered index) [
      | none ↦ rest
      | some node ↦ if can_fit node p then some index else rest
    ]

-- The answer for the index that the loop found, and the new cursor.
abbrev pub answer : ℕ → List NodeSnapshot → Option ℕ → Result String × ℕ
answer cursor ordered none = (err no_schedulable_node, cursor)
answer cursor ordered (some index) = elim (get_elem? ordered index) [
  | none ↦ (panic, cursor)
  | some node ↦ (ok node.id, (index + 1) % length ordered)
]

unfoldable pub select_node : ℕ → Process → List NodeSnapshot → Result String × ℕ
unfolding probe
select_node cursor p nodes =
    let ordered = by_id nodes in
    elim (length ordered) [
      | zero ↦ (err no_schedulable_node, cursor)
      | suc _ ↦ answer cursor ordered (probe (cursor % length ordered) ordered p (length ordered) 0)
    ]
