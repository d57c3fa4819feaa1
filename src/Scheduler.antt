-- ===== src/Scheduler.antt =====
-- internal/scheduler: an interface with three implementations, as one data type; a method matches
-- on the constructor.
pub mod RoundRobin
pub mod LeastLoaded
pub mod Priority
pub mod Selection
pub mod Service
pub mod Order
use cs320_cluster_process_ma.Base.{
  ℤ, pos, ℕ, String, List, Bool, ◌||◌, if◌then◌else◌, Float, to_lower, trim_space, spells, Result,
  ok, err, invalid_input, ◌≡◌, ◌⊎◌, refl, inl, inr, Bool-cases,
}
use cs320_cluster_process_ma.Domain.Process.{Process}
use cs320_cluster_process_ma.Domain.Node.{NodeSnapshot}
use RoundRobin
use LeastLoaded
use Priority

-- A RoundRobin has its cursor, a PriorityAware its AgingInterval.
pub data Scheduler : Type 0 where
  round_robin : ℕ → Scheduler
  least_loaded : Scheduler
  priority_aware : ℤ → Scheduler

unfoldable pub name : Scheduler → String
name (round_robin _) = "round-robin"
name least_loaded = "least-loaded"
name (priority_aware _) = "priority-aware"

-- The `switch` of scheduler.New on the name, trimmed and in lower case.
unfoldable pub chosen : List ℕ → Result Scheduler
unfolding Priority.new_aging_interval
chosen key =
    if spells key "" || spells key "round-robin" || spells key "rr"
    then ok (round_robin 0)
    else if spells key "least-loaded" || spells key "least_loaded" || spells key "leastloaded"
    then ok least_loaded
    else if spells key "priority-aware" || spells key "priority" || spells key "priority_aware"
    then ok (priority_aware (Priority.new_aging_interval (pos 5)))
    else err invalid_input

-- scheduler.New
unfoldable pub new_scheduler : String → Result Scheduler
new_scheduler text = chosen (to_lower (trim_space text))

chosen_cases :
    (key : List ℕ) → ((s : Scheduler) × (chosen key ≡ ok s)) ⊎ (chosen key ≡ err invalid_input)
unfolding chosen
chosen_cases key =
    elim (Bool-cases (spells key "" || spells key "round-robin" || spells key "rr")) [
      | inl a ↦ inl (round_robin 0, rw a refl)
      | inr a ↦
          elim (Bool-cases
            (spells key "least-loaded" || spells key "least_loaded" || spells key "leastloaded")) [
              | inl b ↦ inl (least_loaded, rw (a, b) refl)
              | inr b ↦
                  elim (Bool-cases (
                    spells key "priority-aware"
                    || spells key "priority"
                    || spells key "priority_aware")) [
                      | inl d ↦
                          inl (
                            priority_aware (Priority.new_aging_interval (pos 5)),
                            rw (a, b, d) refl,
                          )
                      | inr d ↦ inr (rw (a, b, d) refl)
                    ]
            ]
    ]

-- It knows the name, or refuses it.
pub new_scheduler_cases :
    (text : String)
    → ((s : Scheduler) × (new_scheduler text ≡ ok s)) ⊎ (new_scheduler text ≡ err invalid_input)
unfolding new_scheduler
new_scheduler_cases text = chosen_cases (to_lower (trim_space text))

-- The method SelectNode: the answer, and the scheduler afterwards.
unfoldable pub select_node :
    (F : Type 0) ⦃f : Float F⦄ → Scheduler → Process → List NodeSnapshot → Result String × Scheduler
select_node F (round_robin cursor) p nodes =
    let (answer, next) = RoundRobin.select_node cursor p nodes in (answer, round_robin next)
select_node F ⦃f⦄ least_loaded p nodes = (LeastLoaded.select_node F p nodes, least_loaded)
select_node F ⦃f⦄ (priority_aware interval) p nodes =
    (LeastLoaded.select_node F p nodes, priority_aware interval)

-- OrderReady, for a scheduler that is a ProcessOrderer.
unfoldable pub order_ready : Scheduler → List Process → ℤ → List Process
unfolding Priority.order_ready
order_ready (priority_aware interval) processes tick = Priority.order_ready interval processes tick
order_ready _ processes tick = processes
