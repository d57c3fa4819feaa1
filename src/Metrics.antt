-- ===== src/Metrics.antt =====
-- internal/metrics: report.go and collector.go.
pub mod Counts
pub mod Export
use cs320_cluster_process_ma.Base.{
  ℤ, pos, String, List, [], ◌∷◌, Bool, true, false, ◌&&◌, not, Option, none, some, ltb, ltb_ℤ,
  add_int, sub_int, if◌then◌else◌, size, Dict, Float, Result, ok, err, invalid_input,
}
use cs320_cluster_process_ma.Domain.Types.{ProcessState}
use cs320_cluster_process_ma.Domain.Process.{Process}
use cs320_cluster_process_ma.Domain.Cluster.{Cluster}
use cs320_cluster_process_ma.Controller.State.{Controller}
use cs320_cluster_process_ma.Controller.Processes.{is_ready}
use cs320_cluster_process_ma.Controller.Tick.Sampling.{int_total}
use cs320_cluster_process_ma.Controller.Views

pub record Report (F : Type 0) : Type 0 where
  pub scenario_name : String
  pub seed : ℤ
  pub scheduler : String
  pub node_count : ℤ
  pub submitted_processes : ℤ
  pub started_processes : ℤ
  pub never_started_processes : ℤ
  pub ready_processes : ℤ
  pub running_processes : ℤ
  pub paused_processes : ℤ
  pub waiting_processes : ℤ
  pub terminated_processes : ℤ
  pub failed_processes : ℤ
  pub killed_processes : ℤ
  pub restarts : ℤ
  pub average_waiting_ticks_started : F
  pub average_waiting_ticks_all_submitted : F
  pub maximum_waiting_ticks_started : ℤ
  pub maximum_waiting_ticks_all_submitted : ℤ
  pub average_turnaround_ticks : F
  pub throughput_per_tick : F
  pub success_rate : F
  pub current_cpu_utilization : F
  pub current_memory_utilization : F
  pub average_cpu_utilization : F
  pub average_memory_utilization : F
  pub load_balance_std_dev : F
  pub scheduling_deferrals : ℤ
  pub node_failures : ℤ
  pub reschedulings : ℤ
  pub total_ticks : ℤ
  pub finish_reason : String

abbrev is_some : {A : Type 0} → Option A → Bool
is_some none = false
is_some (some _) = true

abbrev or_else : Option ℤ → ℤ → ℤ
or_else none tick = tick
or_else (some finished) tick = finished

-- `if value > highest { highest = value }`
abbrev pub raised : (highest value : ℤ) → ℤ
raised highest value = if ltb_ℤ highest value then value else highest

-- observedWaitingTicks
unfoldable pub observed_waiting_ticks : Process → ℤ → ℤ
observed_waiting_ticks p tick =
    let queued =
      if is_ready p.state && ltb_ℤ p.last_ready_at_tick tick
      then add_int p.waiting_ticks (sub_int tick p.last_ready_at_tick)
      else p.waiting_ticks in
    let elapsed = sub_int (or_else p.finished_at_tick tick) p.submitted_at_tick in
    let waited =
      if not (is_some p.started_at_tick) && not (is_ready p.state)
      then raised queued elapsed
      else queued in
    if ltb_ℤ waited (pos 0) then pos 0 else waited

-- The variables of Build's loop: those of the report and the local ones.
pub record Tally : Type 0 where
  pub restarts : ℤ
  pub waiting_all : ℤ
  pub maximum_all : ℤ
  pub started : ℤ
  pub never_started : ℤ
  pub waiting_started : ℤ
  pub maximum_started : ℤ
  pub turnaround : ℤ
  pub turnaround_samples : ℤ
  pub ready : ℤ
  pub running : ℤ
  pub paused : ℤ
  pub waiting : ℤ
  pub terminated : ℤ
  pub failed : ℤ
  pub killed : ℤ

abbrev pub no_tally : Tally
no_tally = record {
  restarts = pos 0;
  waiting_all = pos 0;
  maximum_all = pos 0;
  started = pos 0;
  never_started = pos 0;
  waiting_started = pos 0;
  maximum_started = pos 0;
  turnaround = pos 0;
  turnaround_samples = pos 0;
  ready = pos 0;
  running = pos 0;
  paused = pos 0;
  waiting = pos 0;
  terminated = pos 0;
  failed = pos 0;
  killed = pos 0;
}

-- `x++`
abbrev pub one_more : ℤ → ℤ
one_more n = add_int n (pos 1)

abbrev pub with_waiting : Process → ℤ → Tally → Tally
with_waiting p waited t = record t {
  restarts = add_int t.restarts p.restart_count;
  waiting_all = add_int t.waiting_all waited;
  maximum_all = raised t.maximum_all waited;
}

abbrev pub with_start : Option ℤ → ℤ → Tally → Tally
with_start none waited t = record t { never_started = one_more t.never_started }
with_start (some _) waited t = record t {
  started = one_more t.started;
  waiting_started = add_int t.waiting_started waited;
  maximum_started = raised t.maximum_started waited;
}

abbrev pub with_finish : Option ℤ → Process → Tally → Tally
with_finish none p t = t
with_finish (some finished) p t = record t {
  turnaround = add_int t.turnaround (sub_int finished p.submitted_at_tick);
  turnaround_samples = one_more t.turnaround_samples;
}

-- The `switch` on the state.
abbrev pub with_state : ProcessState → Tally → Tally
with_state ProcessState.ready t = record t { ready = one_more t.ready }
with_state ProcessState.running t = record t { running = one_more t.running }
with_state ProcessState.paused t = record t { paused = one_more t.paused }
with_state ProcessState.waiting t = record t { waiting = one_more t.waiting }
with_state ProcessState.terminated t = record t { terminated = one_more t.terminated }
with_state ProcessState.failed t = record t { failed = one_more t.failed }
with_state ProcessState.killed t = record t { killed = one_more t.killed }
with_state _ t = t

-- The body of the loop.
unfoldable pub tallied : ℤ → Process → Tally → Tally
unfolding observed_waiting_ticks
tallied tick p t =
    let waited = observed_waiting_ticks p tick in
    with_state p.state (
      with_finish p.finished_at_tick p
        (with_start p.started_at_tick waited (with_waiting p waited t)))

unfoldable pub tally : ℤ → Dict String Process → Tally → Tally
tally tick [] t = t
tally tick ((id, p) ∷ ps) t = tally tick ps (tallied tick p t)

pub record Collector (F : Type 0) : Type 0 where
  pub provider : Controller F

-- NewCollector, whose provider may be nil.
unfoldable pub new_collector : {F : Type 0} → Option (Controller F) → Result (Collector F)
new_collector none = err invalid_input
new_collector (some c) = ok (record { provider = c })

module _ {F : Type 0} ⦃f : Float F⦄ where
  open f use {of_int, div}

  -- `if count > 0 { ratio = float64(total) / float64(count) }`
  abbrev ratio : (total count : ℤ) → F
  ratio total count =
      if ltb_ℤ (pos 0) count then div (of_int total) (of_int count) else of_int (pos 0)

  abbrev mean : F → ℤ → F
  mean sum count = if ltb_ℤ (pos 0) count then div sum (of_int count) else of_int (pos 0)

  -- currentUtilization
  unfoldable pub current_utilization : Cluster F → F × F
  current_utilization c = (
    ratio (int_total (λ n. n.cpu_allocated) (pos 0) c.nodes)
        (int_total (λ n. n.cpu_capacity) (pos 0) c.nodes),
    ratio (int_total (λ n. n.memory_allocated_mb) (pos 0) c.nodes)
        (int_total (λ n. n.memory_capacity_mb) (pos 0) c.nodes),
  )

  -- Build on a pointer that is not nil.
  unfoldable pub build : Cluster F → Report F
  unfolding tally current_utilization
  build c =
      let t = tally c.current_tick c.processes no_tally in
      let submitted = pos (size c.processes) in
      let samples = c.statistics.utilization_samples in
      let (cpu, memory) = current_utilization c in
      record {
        scenario_name = c.scenario_name;
        seed = c.seed;
        scheduler = c.scheduler_name;
        node_count = pos (size c.nodes);
        submitted_processes = submitted;
        started_processes = t.started;
        never_started_processes = t.never_started;
        ready_processes = t.ready;
        running_processes = t.running;
        paused_processes = t.paused;
        waiting_processes = t.waiting;
        terminated_processes = t.terminated;
        failed_processes = t.failed;
        killed_processes = t.killed;
        restarts = t.restarts;
        average_waiting_ticks_started = ratio t.waiting_started t.started;
        average_waiting_ticks_all_submitted = ratio t.waiting_all submitted;
        maximum_waiting_ticks_started = t.maximum_started;
        maximum_waiting_ticks_all_submitted = t.maximum_all;
        average_turnaround_ticks = ratio t.turnaround t.turnaround_samples;
        throughput_per_tick = ratio t.terminated c.current_tick;
        success_rate = ratio t.terminated submitted;
        current_cpu_utilization = cpu;
        current_memory_utilization = memory;
        average_cpu_utilization = mean c.statistics.cpu_utilization_sum samples;
        average_memory_utilization = mean c.statistics.memory_utilization_sum samples;
        load_balance_std_dev = mean c.statistics.load_balance_std_dev_sum samples;
        scheduling_deferrals = c.statistics.scheduling_deferred;
        node_failures = c.statistics.node_failures;
        reschedulings = c.statistics.reschedulings;
        total_ticks = c.current_tick;
        finish_reason = c.finish_reason;
      }

  -- Collector.Current
  unfoldable pub current : Controller F → Report F
  unfolding build
  current c = build (Views.snapshot c)
