-- ===== src/Metrics/Export.antt =====
-- internal/metrics/export.go. The quoting of encoding/csv, the encoding of encoding/json and
-- strconv.FormatFloat are parameters.
pub mod Columns
use cs320_cluster_process_ma.Base.{String, List, [], ◌∷◌, decimal_int}
use cs320_cluster_process_ma.Metrics.{Report}

-- The columns of WriteCSV.
abbrev pub header : List String
header =
    "scenario" ∷ "seed" ∷ "scheduler" ∷ "nodes" ∷ "submitted_processes" ∷ "started_processes"
    ∷ "never_started_processes" ∷ "terminated" ∷ "failed" ∷ "killed" ∷ "restarts"
    ∷ "average_waiting_ticks_started" ∷ "average_waiting_ticks_all_submitted"
    ∷ "maximum_waiting_ticks_started" ∷ "maximum_waiting_ticks_all_submitted"
    ∷ "average_turnaround_ticks" ∷ "throughput_per_tick" ∷ "success_rate"
    ∷ "average_cpu_utilization" ∷ "average_memory_utilization" ∷ "load_balance_stddev"
    ∷ "scheduling_deferrals" ∷ "node_failures" ∷ "reschedulings" ∷ "total_ticks" ∷ "finish_reason"
    ∷ []

-- formatFloat, the records of encoding/csv, and json.Encoder with its indentation.
pub record Encoders (F O : Type 0) : Type 0 where
  pub format_float : F → String
  pub csv_records : List (List String) → O
  pub json : Report F → O

module _ {F O : Type 0} (encoders : Encoders F O) where
  -- The row of WriteCSV; formatFloat is the field `format_float`.
  unfoldable pub row : Report F → List String
  row report =
      report.scenario_name
      ∷ decimal_int report.seed
      ∷ report.scheduler
      ∷ decimal_int report.node_count
      ∷ decimal_int report.submitted_processes
      ∷ decimal_int report.started_processes
      ∷ decimal_int report.never_started_processes
      ∷ decimal_int report.terminated_processes
      ∷ decimal_int report.failed_processes
      ∷ decimal_int report.killed_processes
      ∷ decimal_int report.restarts
      ∷ encoders.format_float report.average_waiting_ticks_started
      ∷ encoders.format_float report.average_waiting_ticks_all_submitted
      ∷ decimal_int report.maximum_waiting_ticks_started
      ∷ decimal_int report.maximum_waiting_ticks_all_submitted
      ∷ encoders.format_float report.average_turnaround_ticks
      ∷ encoders.format_float report.throughput_per_tick
      ∷ encoders.format_float report.success_rate
      ∷ encoders.format_float report.average_cpu_utilization
      ∷ encoders.format_float report.average_memory_utilization
      ∷ encoders.format_float report.load_balance_std_dev
      ∷ decimal_int report.scheduling_deferrals
      ∷ decimal_int report.node_failures
      ∷ decimal_int report.reschedulings
      ∷ decimal_int report.total_ticks
      ∷ report.finish_reason
      ∷ []

  -- WriteCSV and WriteJSON, to a writer that does not fail.
  unfoldable pub write_csv : Report F → O
  unfolding row
  write_csv report = encoders.csv_records (header ∷ row report ∷ [])

  unfoldable pub write_json : Report F → O
  write_json report = encoders.json report
