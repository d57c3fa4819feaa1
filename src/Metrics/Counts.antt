-- ===== src/Metrics/Counts.antt =====
-- internal/metrics/report.go: the counters and the maximum of a report.
use cs320_cluster_process_ma.Base.{
  ℕ, ◌+◌, ◌≤◌, max_int, ℤ, pos, pos_part, String, [], ◌∷◌, Bool, true, false, not, ◌≡◌, refl, sym,
  ap, ◌∙◌, inl, inr, arith, Bool-cases, some, leb_ℤ, add_int, int64, ◌+ℤ◌, if◌then◌else◌, size,
  Dict, lookup, string_eq, ◌==◌, Float,
}
use cs320_cluster_process_ma.Domain.Types.{ProcessState}
use cs320_cluster_process_ma.Domain.Process.{Process}
use cs320_cluster_process_ma.Domain.Cluster.{Cluster}
use cs320_cluster_process_ma.Controller.Processes.{is_ready, is_running, is_paused, is_waiting}
use cs320_cluster_process_ma.Metrics.{
  Report, Tally, no_tally, one_more, raised, tallied, tally, observed_waiting_ticks, build, is_some,
}

-- The number of processes that pass a test.
abbrev pub count_if : (Process → Bool) → Dict String Process → ℕ
count_if test [] = 0
count_if test ((id, p) ∷ ps) = let rest = count_if test ps in if test p then 1 + rest else rest

one_more-pos : (n : ℕ) → n + 1 ≤ max_int → one_more (pos n) ≡ pos (n + 1)
unfolding add_int int64 ◌+ℤ◌
one_more-pos n h = ground arith

-- A counter of the loop that goes up by one where a test holds.
IsCounter : (Tally → ℤ) → (Process → Bool) → Type 0
IsCounter field test =
    (tick : ℤ) (p : Process) (t : Tally)
    → field (tallied tick p t) ≡ (if test p then one_more (field t) else field t)

counter_lem :
    (field : Tally → ℤ) (test : Process → Bool)
    → IsCounter field test
    → (tick : ℤ) (ps : Dict String Process) (t : Tally) (n : ℕ) → field t ≡ pos n
    → n + size ps ≤ max_int
    → field (tally tick ps t) ≡ pos (n + count_if test ps)
unfolding tally IsCounter
counter_lem field test goes tick [] t n e h = e ∙ ap pos (omega arith)
counter_lem field test goes tick ((id, p) ∷ ps) t n e h = elim (Bool-cases (test p)) [
  | inl hit ↦
      let next : field (tallied tick p t) ≡ pos (n + 1) =
        rw (goes tick p t, hit, e) (one_more-pos n (omega arith)) in
      counter_lem field test goes tick ps (tallied tick p t) (n + 1) next (omega arith)
      ∙ rw hit (ap pos (omega arith))
  | inr miss ↦
      let next : field (tallied tick p t) ≡ pos n = rw (goes tick p t, miss) e in
      counter_lem field test goes tick ps (tallied tick p t) n next (omega arith) ∙ rw miss refl
]

abbrev pub has_started : Process → Bool
has_started p = is_some p.started_at_tick

abbrev pub is_new : ProcessState → Bool
is_new ProcessState.new = true
is_new _ = false

abbrev pub is_terminated : ProcessState → Bool
is_terminated ProcessState.terminated = true
is_terminated _ = false

abbrev pub is_failed : ProcessState → Bool
is_failed ProcessState.failed = true
is_failed _ = false

abbrev pub is_killed : ProcessState → Bool
is_killed ProcessState.killed = true
is_killed _ = false

started-IsCounter : IsCounter (λ t. t.started) has_started
unfolding IsCounter tallied
started-IsCounter tick p t = ground arith

never_started-IsCounter : IsCounter (λ t. t.never_started) (λ p. not (has_started p))
unfolding IsCounter tallied
never_started-IsCounter tick p t = ground arith

ready-IsCounter : IsCounter (λ t. t.ready) (λ p. is_ready p.state)
unfolding IsCounter tallied
ready-IsCounter tick p t = ground arith

running-IsCounter : IsCounter (λ t. t.running) (λ p. is_running p.state)
unfolding IsCounter tallied
running-IsCounter tick p t = ground arith

paused-IsCounter : IsCounter (λ t. t.paused) (λ p. is_paused p.state)
unfolding IsCounter tallied
paused-IsCounter tick p t = ground arith

waiting-IsCounter : IsCounter (λ t. t.waiting) (λ p. is_waiting p.state)
unfolding IsCounter tallied
waiting-IsCounter tick p t = ground arith

terminated-IsCounter : IsCounter (λ t. t.terminated) (λ p. is_terminated p.state)
unfolding IsCounter tallied
terminated-IsCounter tick p t = ground arith

failed-IsCounter : IsCounter (λ t. t.failed) (λ p. is_failed p.state)
unfolding IsCounter tallied
failed-IsCounter tick p t = ground arith

killed-IsCounter : IsCounter (λ t. t.killed) (λ p. is_killed p.state)
unfolding IsCounter tallied
killed-IsCounter tick p t = ground arith

-- A counter of the whole loop.
total_lem :
    (field : Tally → ℤ) (test : Process → Bool)
    → IsCounter field test
    → field no_tally ≡ pos 0
    → (tick : ℤ) (ps : Dict String Process) → size ps ≤ max_int
    → field (tally tick ps no_tally) ≡ pos (count_if test ps)
total_lem field test goes zero tick ps h =
    counter_lem field test goes tick ps no_tally 0 zero (omega arith) ∙ ap pos (omega arith)

split_starts :
    (ps : Dict String Process)
    → count_if has_started ps + count_if (λ p. not (has_started p)) ps ≡ size ps
split_starts [] = refl
split_starts ((id, p) ∷ ps) = ground (arith, split_starts ps)

split_states :
    (ps : Dict String Process)
    → count_if (λ p. is_new p.state) ps
        + count_if (λ p. is_ready p.state) ps
        + count_if (λ p. is_running p.state) ps
        + count_if (λ p. is_paused p.state) ps
        + count_if (λ p. is_waiting p.state) ps
        + count_if (λ p. is_terminated p.state) ps
        + count_if (λ p. is_failed p.state) ps
        + count_if (λ p. is_killed p.state) ps
      ≡ size ps
split_states [] = refl
split_states ((id, p) ∷ ps) = ground (arith, split_states ps)

-- Each counter of a report counts what its name says, and the counters add up.
pub record IsCounted {F : Type 0} (ps : Dict String Process) (r : Report F) : Type 0 where
  pub started : r.started_processes ≡ pos (count_if has_started ps)
  pub never_started : r.never_started_processes ≡ pos (count_if (λ p. not (has_started p)) ps)
  pub ready : r.ready_processes ≡ pos (count_if (λ p. is_ready p.state) ps)
  pub running : r.running_processes ≡ pos (count_if (λ p. is_running p.state) ps)
  pub paused : r.paused_processes ≡ pos (count_if (λ p. is_paused p.state) ps)
  pub waiting : r.waiting_processes ≡ pos (count_if (λ p. is_waiting p.state) ps)
  pub terminated : r.terminated_processes ≡ pos (count_if (λ p. is_terminated p.state) ps)
  pub failed : r.failed_processes ≡ pos (count_if (λ p. is_failed p.state) ps)
  pub killed : r.killed_processes ≡ pos (count_if (λ p. is_killed p.state) ps)
  pub starts_add_up : add_int r.started_processes r.never_started_processes ≡ r.submitted_processes
  -- All but the processes that were never made ready.
  pub states_add_up :
      count_if (λ p. is_new p.state) ps
        + pos_part r.ready_processes
        + pos_part r.running_processes
        + pos_part r.paused_processes
        + pos_part r.waiting_processes
        + pos_part r.terminated_processes
        + pos_part r.failed_processes
        + pos_part r.killed_processes
      ≡ size ps

add_counts : (a b n : ℕ) → a + b ≡ n → n ≤ max_int → add_int (pos a) (pos b) ≡ pos n
unfolding add_int int64 ◌+ℤ◌
add_counts a b n e h = ground arith

-- Each counter of a report that Build makes is the number of the processes that its name says; the
-- started and the never started ones add up to the submitted ones, and so do the counters of the
-- states and the number of new processes. There are at most as many processes as the largest
-- machine integer.
pub build-IsCounted :
    {F : Type 0} ⦃f : Float F⦄ (c : Cluster F)
    → size c.processes ≤ max_int
    → IsCounted c.processes (build c)
unfolding build
build-IsCounted c h =
    let ps = c.processes in
    let tick = c.current_tick in
    let a = total_lem (λ t. t.started) has_started started-IsCounter refl tick ps h in
    let b =
      total_lem (λ t. t.never_started) (λ p. not (has_started p)) never_started-IsCounter refl tick
        ps h in
    let ready = total_lem (λ t. t.ready) (λ p. is_ready p.state) ready-IsCounter refl tick ps h in
    let running =
      total_lem (λ t. t.running) (λ p. is_running p.state) running-IsCounter refl tick ps h in
    let paused =
      total_lem (λ t. t.paused) (λ p. is_paused p.state) paused-IsCounter refl tick ps h in
    let waiting =
      total_lem (λ t. t.waiting) (λ p. is_waiting p.state) waiting-IsCounter refl tick ps h in
    let terminated =
      total_lem (λ t. t.terminated) (λ p. is_terminated p.state) terminated-IsCounter refl tick ps
        h in
    let failed =
      total_lem (λ t. t.failed) (λ p. is_failed p.state) failed-IsCounter refl tick ps h in
    let killed =
      total_lem (λ t. t.killed) (λ p. is_killed p.state) killed-IsCounter refl tick ps h in
    record {
      started = a;
      never_started = b;
      ready = ready;
      running = running;
      paused = paused;
      waiting = waiting;
      terminated = terminated;
      failed = failed;
      killed = killed;
      starts_add_up = rw (a, b) (add_counts _ _ (size ps) (split_starts ps) h);
      states_add_up =
          rw (ready, running, paused, waiting, terminated, failed, killed) (split_states ps);
    }

raised_bounds :
    (highest value : ℤ)
    → (leb_ℤ highest (raised highest value) ≡ true) × (leb_ℤ value (raised highest value) ≡ true)
raised_bounds highest value = ground arith

leb_ℤ_trans : (a b c : ℤ) → leb_ℤ a b ≡ true → leb_ℤ b c ≡ true → leb_ℤ a c ≡ true
leb_ℤ_trans a b c h k = ground arith

tallied-maximum :
    (tick : ℤ) (p : Process) (t : Tally)
    → (tallied tick p t).maximum_all ≡ raised t.maximum_all (observed_waiting_ticks p tick)
unfolding tallied
tallied-maximum tick p t = ground arith

tally-grows :
    (tick : ℤ) (ps : Dict String Process) (t : Tally)
    → leb_ℤ t.maximum_all (tally tick ps t).maximum_all ≡ true
unfolding tally
tally-grows tick [] t = ground arith
tally-grows tick ((id, p) ∷ ps) t =
    let up = (raised_bounds t.maximum_all (observed_waiting_ticks p tick)).0 in
    leb_ℤ_trans t.maximum_all (tallied tick p t).maximum_all _ (rw (tallied-maximum tick p t) up)
      (tally-grows tick ps (tallied tick p t))

tally-covers :
    (tick : ℤ) (ps : Dict String Process) (t : Tally) (id : String) (p : Process)
    → lookup id ps ≡ some p
    → leb_ℤ (observed_waiting_ticks p tick) (tally tick ps t).maximum_all ≡ true
unfolding tally lookup
tally-covers tick [] t id p e = cc
tally-covers tick ((j, q) ∷ ps) t id p e = elim (Bool-cases (j == id)) [
  | inl here ↦
      let same : q ≡ p = ground arith in
      let up = (raised_bounds t.maximum_all (observed_waiting_ticks q tick)).1 in
      rw (sym same) (
        leb_ℤ_trans (observed_waiting_ticks q tick) (tallied tick q t).maximum_all _
          (rw (tallied-maximum tick q t) up) (tally-grows tick ps (tallied tick q t)))
  | inr there ↦ tally-covers tick ps (tallied tick q t) id p (ground arith)
]

-- The waiting time that Build observes of a process of the cluster is not negative, and is at most
-- the maximum waiting time of the report.
pub build-maximum_waiting :
    {F : Type 0} ⦃f : Float F⦄ (c : Cluster F) (id : String) (p : Process)
    → lookup id c.processes ≡ some p
    → (leb_ℤ (pos 0) (observed_waiting_ticks p c.current_tick) ≡ true)
      × (leb_ℤ
            (observed_waiting_ticks p c.current_tick)
            (build c).maximum_waiting_ticks_all_submitted
          ≡ true)
unfolding build observed_waiting_ticks
build-maximum_waiting c id p e =
    (ground arith, tally-covers c.current_tick c.processes no_tally id p e)
