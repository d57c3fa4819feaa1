-- ===== src/Domain/Cluster.antt =====
-- internal/domain/cluster.go. `F` is the type of float64, a parameter of the development.
use cs320_cluster_process_ma.Base.{ℤ, pos, String, Dict, [], Float}
use cs320_cluster_process_ma.Domain.Types.{SimulationStatus}
use cs320_cluster_process_ma.Domain.Process.{Process}
use cs320_cluster_process_ma.Domain.Node.{Node}

pub record Statistics (F : Type 0) : Type 0 where
  pub cpu_utilization_sum : F
  pub memory_utilization_sum : F
  pub load_balance_std_dev_sum : F
  pub utilization_samples : ℤ
  pub scheduling_deferred : ℤ
  pub node_failures : ℤ
  pub reschedulings : ℤ

pub record Cluster (F : Type 0) : Type 0 where
  pub nodes : Dict String Node
  pub processes : Dict String Process
  pub scheduler_name : String
  pub current_tick : ℤ
  pub simulation_status : SimulationStatus
  pub scenario_name : String
  pub seed : ℤ
  pub finish_reason : String
  pub max_ticks : ℤ
  pub statistics : Statistics F

unfoldable pub new_cluster : {F : Type 0} ⦃f : Float F⦄ → String → ℤ → Cluster F
new_cluster ⦃f⦄ scheduler_name seed = record {
  nodes = [];
  processes = [];
  scheduler_name = scheduler_name;
  current_tick = pos 0;
  simulation_status = SimulationStatus.idle;
  scenario_name = "";
  seed = seed;
  finish_reason = "";
  max_ticks = pos 0;
  statistics = record {
    cpu_utilization_sum = f.of_int (pos 0);
    memory_utilization_sum = f.of_int (pos 0);
    load_balance_std_dev_sum = f.of_int (pos 0);
    utilization_samples = pos 0;
    scheduling_deferred = pos 0;
    node_failures = pos 0;
    reschedulings = pos 0;
  };
}
