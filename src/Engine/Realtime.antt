-- ===== src/Engine/Realtime.antt =====
-- internal/engine/engine.go: the loop of the real-time engine.
use cs320_cluster_process_ma.Base.{
  ℕ, zero, suc, ◌+◌, ◌≤◌, ◌<◌, max_int, pos, false, ◌≡◌, refl, ap, ◌∙◌, arith, inl, inr, Bool-cases,
  if◌then◌else◌, Result, ok, err, panic, Float, ◌⊎◌,
}
use cs320_cluster_process_ma.Controller.State.{Controller}
use cs320_cluster_process_ma.Controller.Registry.{is_completed}
use cs320_cluster_process_ma.Controller.Tick.{step}
use cs320_cluster_process_ma.Controller.Invariant.Facts.{IsConsistent}
use cs320_cluster_process_ma.Controller.Consistency.Tick.{step-IsConsistent}
use cs320_cluster_process_ma.Controller.Outcome.Clock.{step-continues}
use cs320_cluster_process_ma.Engine.{
  Engine, loop_tick, after_tick, Stops, idle, cancelled, continued,
}

module _ {F : Type 0} ⦃f : Float F⦄ where
  after_tick-IsConsistent :
      (e : Engine F) (r : Result Unit) (c : Controller F)
      → IsConsistent c
      → IsConsistent (after_tick e (r, c)).controller
  after_tick-IsConsistent e (ok _) c inv = inv
  after_tick-IsConsistent e (err _) c inv = inv
  after_tick-IsConsistent e panic c inv = inv

  pub loop_tick-IsConsistent :
      (e : Engine F) → IsConsistent e.controller → IsConsistent (loop_tick e).controller
  unfolding loop_tick
  loop_tick-IsConsistent e inv =
      let (r, c) = step e.controller in
      after_tick-IsConsistent e r c (step-IsConsistent e.controller inv)

  -- stops
  pub Stops-IsConsistent :
      (e d : Engine F)
      → Stops e d
      → IsConsistent e.controller
      → (d.realtime ≡ false) × IsConsistent d.controller
  Stops-IsConsistent _ _ (idle e off) inv = (off, inv)
  Stops-IsConsistent _ _ (cancelled e on) inv = (refl, inv)
  Stops-IsConsistent _ _ (continued e d on rest) inv =
      Stops-IsConsistent (loop_tick e) d rest (loop_tick-IsConsistent e inv)

  -- The rounds of the loop, as long as it runs.
  unfoldable pub loop_ticks : ℕ → Engine F → Engine F
  loop_ticks zero e = e
  loop_ticks (suc n) e = let rest = loop_ticks n (loop_tick e) in if e.realtime then rest else e

  loop_ticks-off : (n : ℕ) (e : Engine F) → e.realtime ≡ false → loop_ticks n e ≡ e
  unfolding loop_ticks
  loop_ticks-off zero e off = refl
  loop_ticks-off (suc n) e off = rw (off, loop_ticks) refl

  after_tick_cases :
      (e : Engine F) (r : Result Unit) (c : Controller F)
      → ((after_tick e (r, c)).realtime ≡ false)
        ⊎ (r ≡ ok tt)
          × (is_completed c.simulation_status ≡ false)
          × ((after_tick e (r, c)).controller ≡ c)
  after_tick_cases e (ok _) c = elim (Bool-cases (is_completed c.simulation_status)) [
    | inl over ↦ inl (rw over refl)
    | inr going ↦ inr (refl, going, refl)
  ]
  after_tick_cases e (err _) c = inl refl
  after_tick_cases e panic c = inl refl

  -- The loop of the real-time engine has ended after as many ticks as are left before the limit,
  -- for a positive limit that is a machine integer and above the current tick.
  pub loop_ticks-halts :
      (n t limit : ℕ) (e : Engine F)
      → e.controller.current_tick ≡ pos t
      → e.controller.max_ticks ≡ pos limit
      → t < limit
      → limit ≤ max_int
      → limit ≤ t + n
      → (loop_ticks n e).realtime ≡ false
  unfolding loop_ticks loop_tick
  loop_ticks-halts zero t limit e now most early machine enough =
      let no : ⊥ = omega arith in elim no [ ]
  loop_ticks-halts (suc n) t limit e now most early machine enough = elim (Bool-cases e.realtime) [
    | inr off ↦ rw (off, loop_ticks) refl
    | inl on ↦
        let (r, c) = step e.controller in
        elim (after_tick_cases e r c) [
          | inl ended ↦
              rw (on, loop_ticks)
                (ap (λ d. d.realtime) (loop_ticks-off n (loop_tick e) ended) ∙ ended)
          | inr (good, going, same) ↦
              let (v, later) =
                step-continues t limit e.controller now most early machine good going in
              rw (on, loop_ticks)
                (loop_ticks-halts n (t + 1) limit (loop_tick e)
                  (ap (λ d. d.current_tick) same ∙ v.0) (ap (λ d. d.max_ticks) same ∙ v.1) later
                  machine (omega arith))
        ]
  ]
