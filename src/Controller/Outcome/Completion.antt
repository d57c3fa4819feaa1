-- ===== src/Controller/Outcome/Completion.antt =====
-- internal/cluster/lifecycle.go: the end of Steps at the tick limit.
use cs320_cluster_process_ma.Base.{
  ℕ, zero, suc, ◌+◌, ◌≤◌, ◌<◌, max_int, pos, true, false, string_eq, int_eq, ◌≡◌, refl, sym, ap,
  ◌∙◌, inl, inr, Bool-cases, Result-cases, arith, Result, ok, err, panic, Error, Float, IsCalm,
  subst, ◌⊎◌, invalid_state_transition, none, some,
}
use cs320_cluster_process_ma.Controller.State.{Controller}
use cs320_cluster_process_ma.Controller.Registry.{is_completed}
use cs320_cluster_process_ma.Controller.Tick.{step, steps_from, stops}
use cs320_cluster_process_ma.Controller.Invariant.Facts.{IsConsistent}
use cs320_cluster_process_ma.Controller.Consistency.Tick.{step-IsConsistent}
use cs320_cluster_process_ma.Controller.Outcome.Defs.{IsAtomic→IsCalm}
use cs320_cluster_process_ma.Controller.Outcome.Step.{step-IsAtomic}
use cs320_cluster_process_ma.Controller.Outcome.Clock.{step-continues}

-- A round that ends Steps without an error leaves a completed simulation.
stops_cases :
    {F : Type 0} ⦃f : Float F⦄ (r : Result Unit) (d : Controller F)
    → (stops r d ≡ none) × (r ≡ ok tt) × (is_completed d.simulation_status ≡ false)
      ⊎ ((answer : Result Unit) × (stops r d ≡ some answer)
          × (answer ≡ ok tt → is_completed d.simulation_status ≡ true)
          × (IsCalm r → IsCalm answer))
stops_cases (ok _) d = elim (Bool-cases (is_completed d.simulation_status)) [
  | inl over ↦ rw over (inr (_, refl, λ h. refl, λ k. tt))
  | inr going ↦ rw going (inl (refl, refl, refl))
]
stops_cases (err invalid_state_transition) d =
    elim (Bool-cases (is_completed d.simulation_status)) [
      | inl over ↦ rw over (inr (_, refl, λ h. refl, λ k. tt))
      | inr going ↦ rw going (inr (_, refl, λ h. cc, λ k. tt))
    ]
stops_cases (err _) d = inr (_, refl, λ h. cc, λ k. tt)
stops_cases panic d = inr (panic, refl, λ h. cc, λ k. k)

module _ {F : Type 0} ⦃f : Float F⦄ where
  -- One round of Steps: it ends the call, or it is a tick and the rest of the call follows.
  steps_from-round :
      (n : ℕ) (c : Controller F)
      → (steps_from (suc n) c).0 ≡ ok tt
      → (is_completed (steps_from (suc n) c).1.simulation_status ≡ true)
        ⊎ ((step c).0 ≡ ok tt)
          × (steps_from (suc n) c ≡ steps_from n (step c).1)
          × (is_completed (step c).1.simulation_status ≡ false)
  unfolding steps_from
  steps_from-round n c h = elim (stops_cases (step c).0 (step c).1) [
    | inl (e, good, going) ↦ inr (good, rw (e, steps_from) refl, going)
    | inr (answer, e, completes, calm) ↦ inl (rw (e, steps_from) (completes (cc (h, e))))
  ]

  steps_from-completes :
      (n t limit : ℕ) (c : Controller F)
      → c.current_tick ≡ pos t
      → c.max_ticks ≡ pos limit
      → t < limit
      → limit ≤ max_int
      → limit ≤ t + n
      → (steps_from n c).0 ≡ ok tt
      → is_completed (steps_from n c).1.simulation_status ≡ true
  steps_from-completes zero t limit c now most early machine enough h =
      let no : ⊥ = omega arith in elim no [ ]
  steps_from-completes (suc n) t limit c now most early machine enough h =
      elim (steps_from-round n c h) [
        | inl over ↦ over
        | inr (good, same, going) ↦
            let (v, later) = step-continues t limit c now most early machine good going in
            rw same (
              steps_from-completes n (t + 1) limit (step c).1 v.0 v.1 later machine (omega arith)
                (ap (λ r. r.0) (sym same) ∙ h))
      ]

  steps_from-IsCalm : (n : ℕ) (c : Controller F) → IsConsistent c → IsCalm (steps_from n c).0
  unfolding steps_from
  steps_from-IsCalm zero c inv = tt
  steps_from-IsCalm (suc n) c inv = elim (stops_cases (step c).0 (step c).1) [
    | inl (e, good, going) ↦
        rw (e, steps_from) (steps_from-IsCalm n (step c).1 (step-IsConsistent c inv))
    | inr (answer, e, completes, calm) ↦
        rw (e, steps_from) (calm (IsAtomic→IsCalm step c (step-IsAtomic c inv)))
  ]

  -- The loop of Steps, given at least as many rounds as ticks are left before the limit, leaves a
  -- completed simulation or answers an error; it never panics. The controller is consistent, its
  -- tick is below its limit, and the limit is a positive machine integer.
  pub steps_from-ends :
      (n t limit : ℕ) (c : Controller F)
      → IsConsistent c
      → c.current_tick ≡ pos t
      → c.max_ticks ≡ pos limit
      → t < limit
      → limit ≤ max_int
      → limit ≤ t + n
      → (is_completed (steps_from n c).1.simulation_status ≡ true)
        ⊎ ((e : Error) × ((steps_from n c).0 ≡ err e))
  steps_from-ends n t limit c inv now most early machine enough =
      elim (Result-cases (steps_from n c).0) [
        | inl (_, good) ↦ inl (steps_from-completes n t limit c now most early machine enough good)
        | inr (inl bad) ↦ inr bad
        | inr (inr crash) ↦
            let no : ⊥ = subst IsCalm crash (steps_from-IsCalm n c inv) in elim no [ ]
      ]
