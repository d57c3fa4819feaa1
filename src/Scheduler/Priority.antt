-- ===== src/Scheduler/Priority.antt =====
-- internal/scheduler/priority.go
use cs320_cluster_process_ma.Base.{
  ℤ, pos, List, Bool, true, false, ltb_ℤ, leb_ℤ, add_int, sub_int, div_int, before, sort_by,
  if◌then◌else◌,
}
use cs320_cluster_process_ma.Domain.Process.{Process}

-- The aging interval that NewPriorityAware stores.
unfoldable pub new_aging_interval : ℤ → ℤ
new_aging_interval interval = if leb_ℤ interval (pos 0) then pos 5 else interval

unfoldable pub effective_priority : ℤ → Process → ℤ → ℤ
effective_priority interval p tick =
    let waited = sub_int tick p.last_ready_at_tick in
    add_int p.priority (div_int (if ltb_ℤ waited (pos 0) then pos 0 else waited) interval)

-- The comparison of OrderReady answers -1: `a` goes before `b`.
unfoldable pub goes_before : ℤ → ℤ → Process → Process → Bool
unfolding effective_priority
goes_before interval tick a b =
    let a_priority = effective_priority interval a tick in
    let b_priority = effective_priority interval b tick in
    if ltb_ℤ b_priority a_priority
    then true
    else if ltb_ℤ a_priority b_priority
    then false
    else if ltb_ℤ a.submitted_at_tick b.submitted_at_tick
    then true
    else if ltb_ℤ b.submitted_at_tick a.submitted_at_tick
    then false
    else before a.id b.id

unfoldable pub order_ready : ℤ → List Process → ℤ → List Process
unfolding goes_before sort_by
order_ready interval processes tick = sort_by (goes_before interval tick) processes
