-- ===== src/Metrics/Export/Columns.antt =====
-- internal/metrics/export.go: the row of WriteCSV under its header.
use cs320_cluster_process_ma.Base.{
  ◌≤◌, max_int, pos, String, List, ◌∷◌, Option, none, some, ◌≡◌, ap, Float, size, ◌==◌, string_eq,
  if◌then◌else◌, decimal_int, not, refl,
}
use cs320_cluster_process_ma.Domain.Cluster.{Cluster}
use cs320_cluster_process_ma.Metrics.{build}
use cs320_cluster_process_ma.Metrics.Counts.{
  count_if, has_started, is_terminated, is_failed, is_killed, build-IsCounted,
}
use cs320_cluster_process_ma.Metrics.Export.{Encoders, header, row}

-- The value of a row under the name of a column.
abbrev pub column : String → List String → List String → Option String
column name (title ∷ titles) (value ∷ values) =
    let rest = column name titles values in if title == name then some value else rest
column name _ _ = none

-- Columns that count the processes of a cluster.
pub record IsTabulated {F : Type 0} (c : Cluster F) (values : List String) : Type 0 where
  pub scheduler : column "scheduler" header values ≡ some c.scheduler_name
  pub ticks : column "total_ticks" header values ≡ some (decimal_int c.current_tick)
  pub nodes : column "nodes" header values ≡ some (decimal_int (pos (size c.nodes)))
  pub submitted :
      column "submitted_processes" header values ≡ some (decimal_int (pos (size c.processes)))
  pub started :
      column "started_processes" header values
      ≡ some (decimal_int (pos (count_if has_started c.processes)))
  pub never_started :
      column "never_started_processes" header values
      ≡ some (decimal_int (pos (count_if (λ p. not (has_started p)) c.processes)))
  pub terminated :
      column "terminated" header values
      ≡ some (decimal_int (pos (count_if (λ p. is_terminated p.state) c.processes)))
  pub failed :
      column "failed" header values
      ≡ some (decimal_int (pos (count_if (λ p. is_failed p.state) c.processes)))
  pub killed :
      column "killed" header values
      ≡ some (decimal_int (pos (count_if (λ p. is_killed p.state) c.processes)))

-- In the CSV report of a cluster, the columns for the scheduler, the ticks and the nodes are the
-- cluster's, and those for the submitted, started, never started, terminated, failed and killed
-- processes are the numbers of such processes. There are at most as many processes as the largest
-- machine integer.
pub row-IsTabulated :
    {F O : Type 0} ⦃f : Float F⦄ (encoders : Encoders F O) (c : Cluster F)
    → size c.processes ≤ max_int
    → IsTabulated c (row encoders (build c))
unfolding row build
row-IsTabulated encoders c h =
    let counted = build-IsCounted c h in
    record {
      scheduler = refl;
      ticks = refl;
      nodes = refl;
      submitted = refl;
      started = ap (λ n. some (decimal_int n)) counted.started;
      never_started = ap (λ n. some (decimal_int n)) counted.never_started;
      terminated = ap (λ n. some (decimal_int n)) counted.terminated;
      failed = ap (λ n. some (decimal_int n)) counted.failed;
      killed = ap (λ n. some (decimal_int n)) counted.killed;
    }
