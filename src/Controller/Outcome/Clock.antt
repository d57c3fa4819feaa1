-- ===== src/Controller/Outcome/Clock.antt =====
-- internal/cluster/lifecycle.go: the tick counter and the tick limit in Step and Steps.
use cs320_cluster_process_ma.Base.{
  ℕ, ◌+◌, ◌≤◌, ◌<◌, max_int, ℤ, pos, add_int, int64, ◌+ℤ◌, ltb_ℤ, leb_ℤ, ltb, size, true, false,
  ◌&&◌, ◌==◌, string_eq, int_eq, ◌≡◌, refl, sym, ◌∙◌, inl, inr, Bool-cases, arith, Result, ok, err,
  panic, Action, ◌>>=◌, and_then, Keeps, Float, ◌⊎◌,
}
use cs320_cluster_process_ma.Controller.State.{Controller, emitted}
use cs320_cluster_process_ma.Controller.Registry.{is_running, is_completed, finish_locked}
use cs320_cluster_process_ma.Controller.Audit.{validate_invariants}
use cs320_cluster_process_ma.Controller.Failures.{detect_missed_heartbeats}
use cs320_cluster_process_ma.Controller.Placement.{schedule_ready, node_snapshots}
use cs320_cluster_process_ma.Controller.Consistency.Queue.{ready_queue}
use cs320_cluster_process_ma.Controller.Tick.Execution.{execute_running}
use cs320_cluster_process_ma.Controller.Tick.Sampling.{sample_utilization}
use cs320_cluster_process_ma.Controller.Tick.Schedule.{apply_scheduled}
use cs320_cluster_process_ma.Controller.Tick.{
  begin_tick, conclude, run_tick, step, or_rollback, checked, after_scheduled,
  all_processes_terminal, progress_block_reason,
}
use cs320_cluster_process_ma.Controller.Frame.{IsStable, fail_late-Keeps}
use cs320_cluster_process_ma.Controller.Frame.Tick.{
  apply_scheduled-Keeps, execute-Keeps, place_all-Keeps,
}

-- The tick counter and the limit of a controller.
abbrev pub IsTimed : {F : Type 0} → (tick limit : ℤ) → Controller F → Type 0
IsTimed tick limit c = (c.current_tick ≡ tick) × (c.max_ticks ≡ limit)

IsTimed-IsStable : {F : Type 0} (tick limit : ℤ) → IsStable {F = F} (IsTimed tick limit)
unfolding emitted
IsTimed-IsStable tick limit = record {
  node = λ n c h. h;
  process = λ p c h. h;
  statistics = λ g c h. h;
  status = λ s reason c h. h;
  pending = λ m c h. h;
  failures = λ m c h. h;
  event = λ type severity p n message c h. h;
}

-- A success leaves a state with a property.
abbrev pub Ends : {S A : Type 0} → (S → Type 0) → Result A × S → Type 0
Ends Q (ok _, s) = Q s
Ends Q (err _, s) = Unit {0}
Ends Q (panic, s) = Unit {0}

module _ {S A B : Type 0} (P Q : S → Type 0) where
  and_then-Ends :
      (r : Result A) (f : A → Action S B) (s : S)
      → P s
      → ((a : A) (t : S) → P t → Ends Q (f a t))
      → Ends Q (and_then r f s)
  and_then-Ends (ok a) f s h k = k a s h
  and_then-Ends (err e) f s h k = tt
  and_then-Ends panic f s h k = tt

  bind-Ends :
      (m : Action S A) (f : A → Action S B) (s : S)
      → P (m s).1
      → ((a : A) (t : S) → P t → Ends Q (f a t))
      → Ends Q ((m >>= f) s)
  bind-Ends m f s h k = let (r, t) = m s in and_then-Ends r f t h k

-- The tick that a limit ends is the last one.
pub record IsTick {F : Type 0} (tick limit : ℤ) (c : Controller F) : Type 0 where
  pub timed : IsTimed tick limit c
  pub last :
      (ltb_ℤ (pos 0) limit && leb_ℤ limit tick) ≡ true → is_completed c.simulation_status ≡ true

module _ {F : Type 0} (tick limit : ℤ) where
  conclude-IsTick : (c : Controller F) → IsTimed tick limit c → IsTick tick limit (conclude c)
  unfolding conclude finish_locked emitted
  conclude-IsTick c (now, most) =
      elim (Bool-cases (ltb 0 (size c.processes) && all_processes_terminal c)) [
        | inl over ↦ rw over (record { timed = (now, most); last = λ h. refl })
        | inr going ↦
            elim (Bool-cases (ltb_ℤ (pos 0) c.max_ticks && leb_ℤ c.max_ticks c.current_tick)) [
              | inl late ↦ rw (going, late) (record { timed = (now, most); last = λ h. refl })
              | inr early ↦
                  let no : (ltb_ℤ (pos 0) limit && leb_ℤ limit tick) ≡ false =
                    rw (sym now, sym most) early in
                  elim (Bool-cases (progress_block_reason c == "")) [
                    | inl free ↦
                        rw (going, early, free) (record { timed = (now, most); last = λ h. cc })
                    | inr blocked ↦
                        rw (going, early, blocked)
                          (record { timed = (now, most); last = λ h. refl })
                  ]
            ]
      ]

  detect-Keeps : Keeps (IsTimed {F = F} tick limit) detect_missed_heartbeats
  unfolding detect_missed_heartbeats
  detect-Keeps c h = elim (Bool-cases (leb_ℤ c.heartbeat_timeout_ticks (pos 0))) [
    | inl off ↦ rw off h
    | inr on ↦ rw on (fail_late-Keeps (IsTimed tick limit) (IsTimed-IsStable tick limit) _ c h)
  ]

  module _ ⦃f : Float F⦄ where
    run_tick-IsTick :
        (c : Controller F) → IsTimed tick limit c → Ends (IsTick tick limit) (run_tick c)
    unfolding run_tick sample_utilization schedule_ready execute_running
    run_tick-IsTick c h =
        let P = IsTimed {F = F} tick limit in
        let Q = IsTick {F = F} tick limit in
        let stable = IsTimed-IsStable tick limit in
        bind-Ends P Q detect_missed_heartbeats _ c (detect-Keeps c h) λ _ d k.
          bind-Ends P Q schedule_ready _ d
            (place_all-Keeps P stable (λ next e l. l) (ready_queue d) (node_snapshots d.nodes) d k)
            λ _ e l.
              bind-Ends P Q execute_running _ (sample_utilization e)
                (execute-Keeps P stable _ (sample_utilization e) l) λ _ g m. conclude-IsTick g m

    or_rollback-IsTick :
        (previous c : Controller F) (audit : Result Unit)
        → IsTick tick limit c
        → Ends (IsTick tick limit) (or_rollback previous audit c)
    or_rollback-IsTick previous c (ok _) h = h
    or_rollback-IsTick previous c (err _) h = tt
    or_rollback-IsTick previous c panic h = tt

    checked-IsTick :
        (previous : Controller F) (r : Result Unit × Controller F)
        → Ends (IsTick tick limit) r
        → Ends (IsTick tick limit) (checked previous r)
    checked-IsTick previous (ok _, c) h = or_rollback-IsTick previous c (validate_invariants c) h
    checked-IsTick previous (err _, c) h = tt
    checked-IsTick previous (panic, c) h = tt

    after_scheduled-IsTick :
        (previous : Controller F) (r : Result Unit) (c : Controller F)
        → IsTimed tick limit c
        → Ends (IsTick tick limit) (after_scheduled previous (r, c))
    after_scheduled-IsTick previous (ok _) c h =
        checked-IsTick previous (run_tick c) (run_tick-IsTick c h)
    after_scheduled-IsTick previous (err _) c h = tt
    after_scheduled-IsTick previous panic c h = tt

begin_tick-IsTimed :
    {F : Type 0} (c : Controller F)
    → IsTimed (add_int c.current_tick (pos 1)) c.max_ticks (begin_tick c)
unfolding begin_tick emitted
begin_tick-IsTimed c = elim (Bool-cases (is_running c.simulation_status)) [
  | inl on ↦ rw on (refl, refl)
  | inr off ↦ rw off (refl, refl)
]

Ends-ok : {S A : Type 0} (Q : S → Type 0) (r : Result A × S) (a : A) → Ends Q r → r.0 ≡ ok a → Q r.1
Ends-ok Q (ok _, s) a h e = h
Ends-ok Q (err _, s) a h e = cc
Ends-ok Q (panic, s) a h e = cc

next_tick : (t : ℕ) → t < max_int → add_int (pos t) (pos 1) ≡ pos (t + 1)
unfolding add_int int64 ◌+ℤ◌
next_tick t h = ground arith

Nat-cases : (a b : ℕ) → (a ≤ b) ⊎ (b < a)
Nat-cases a b = elim (Bool-cases (ltb b a)) [
  | inl e ↦ inr (ground arith)
  | inr e ↦ inl (ground arith)
]

module _ {F : Type 0} ⦃f : Float F⦄ where
  -- step clock
  pub step-IsTick :
      (c : Controller F)
      → (step c).0 ≡ ok tt
      → IsTick (add_int c.current_tick (pos 1)) c.max_ticks (step c).1
  unfolding step
  step-IsTick c h =
      let tick = add_int c.current_tick (pos 1) in
      let limit = c.max_ticks in
      let b = begin_tick c in
      let timed =
        apply_scheduled-Keeps (IsTimed tick limit) (IsTimed-IsStable tick limit) b
          (begin_tick-IsTimed c) in
      elim (Bool-cases (is_completed c.simulation_status)) [
        | inl over ↦ let no : ⊥ = ground arith in elim no [ ]
        | inr going ↦
            let (r, d) = apply_scheduled b in
            Ends-ok (IsTick tick limit) (step c) tt
              (rw (step, going) (after_scheduled-IsTick tick limit c r d timed)) h
      ]

  -- A tick that does not complete the simulation comes before the limit.
  pub step-continues :
      (t limit : ℕ) (c : Controller F)
      → c.current_tick ≡ pos t
      → c.max_ticks ≡ pos limit
      → t < limit
      → limit ≤ max_int
      → (step c).0 ≡ ok tt
      → is_completed (step c).1.simulation_status ≡ false
      → IsTimed (pos (t + 1)) (pos limit) (step c).1 × (t + 1 < limit)
  step-continues t limit c now most early machine good going =
      let v = step-IsTick c good in
      let tick : add_int c.current_tick (pos 1) ≡ pos (t + 1) =
        rw now (next_tick t (omega arith)) in
      let expired : limit ≤ t + 1
          → (ltb_ℤ (pos 0) c.max_ticks && leb_ℤ c.max_ticks (add_int c.current_tick (pos 1)))
            ≡ true =
        λ le. rw (most, tick) (ground arith) in
      let later : t + 1 < limit = elim (Nat-cases limit (t + 1)) [
        | inl le ↦ let no : ⊥ = cc (v.last (expired le)) in elim no [ ]
        | inr lt ↦ lt
      ] in
      ((v.timed.0 ∙ tick, v.timed.1 ∙ most), later)
