-- ===== src/Controller/Tests.antt =====
-- Runs of the controller on a small cluster, and the theorems applied to it.
use cs320_cluster_process_ma.Base.{
  pos, [], ◌∷◌, true, false, Float, some, ok, refl, ◌≡◌, lookup, string_eq, insert, delete, has_key,
  contains, sort_by, event_id, trim_space, add_int, sub_int, int64, ◌+ℤ◌, ◌-ℤ◌, arith,
}
use cs320_cluster_process_ma.Domain.Types.{is_terminal, RestartPolicy, NodeStatus}
use cs320_cluster_process_ma.Domain.Process
use cs320_cluster_process_ma.Domain.Process.{ProcessDefinition, new_process, transition}
use cs320_cluster_process_ma.Domain.Node.{
  Node, NodeDefinition, new_node, validate, can_fit, allocate, allocate?,
}
use cs320_cluster_process_ma.Domain.Cluster.{new_cluster}
use cs320_cluster_process_ma.Scheduler.{Scheduler, select_node, order_ready}
use cs320_cluster_process_ma.Scheduler.LeastLoaded
use cs320_cluster_process_ma.Scheduler.LeastLoaded.{select_from, improves, load_score}
use cs320_cluster_process_ma.Controller.State.{Controller, default_config, fresh, emitted}
use cs320_cluster_process_ma.Controller.Registry.{register_node}
use cs320_cluster_process_ma.Controller.Processes.{submit_process}
use cs320_cluster_process_ma.Controller.Failures.{detect_missed_heartbeats}
use cs320_cluster_process_ma.Controller.Placement.{
  node_snapshots, announce, run_on, place_on, placing, place, place_all, schedule_ready,
}
use cs320_cluster_process_ma.Controller.Tick.{
  step, begin_tick, run_tick, conclude, all_processes_terminal, progress_block_reason, block_scan,
}
use cs320_cluster_process_ma.Controller.Tick.Execution.{worked, execute, execute_running}
use cs320_cluster_process_ma.Controller.Tick.Sampling.{sample_utilization}
use cs320_cluster_process_ma.Controller.Tick.Schedule.{
  apply_scheduled, apply_pending, apply_failures,
}
use cs320_cluster_process_ma.Controller.Audit.{
  validate_invariants, audit_nodes, audit_node, audit_processes, tally, placed,
}
use cs320_cluster_process_ma.Controller.Consistency.Tick.{step-IsConsistent}
use cs320_cluster_process_ma.Controller.Consistency.Audit.{validate_invariants-accepts}
use cs320_cluster_process_ma.Controller.Consistency.NodeFailure.{fail_node_locked-Succeeds}
use cs320_cluster_process_ma.Controller.Consistency.Queue.{schedule_ready-IsConsistent}
use cs320_cluster_process_ma.Controller.Invariant.Undo.{release-allocate}
use cs320_cluster_process_ma.Controller.Outcome.Effects.Kill.{IsKill, kill_process-IsKill}
use cs320_cluster_process_ma.Controller.Outcome.Effects.Fail.{IsFailure, fail_process-IsFailure}
use cs320_cluster_process_ma.Controller.Outcome.Effects.Submit.{
  IsSubmission, submit_process-IsSubmission,
}
use cs320_cluster_process_ma.Controller.Consistency.Commands.{submit_process-IsConsistent}
use cs320_cluster_process_ma.Controller.Consistency.Registry.{
  register_node-IsConsistent, new_controller-IsConsistent,
}
use cs320_cluster_process_ma.Controller.Consistency.Schedule.{apply_scheduled-IsConsistent}
use cs320_cluster_process_ma.Controller.Invariant.Facts.{IsConsistent, IsBalanced}
use cs320_cluster_process_ma.Controller.Consistency.Failing.{Succeeds}
use cs320_cluster_process_ma.Controller.State.{new_controller}
use cs320_cluster_process_ma.Domain.Process.{draft}
use cs320_cluster_process_ma.Domain.Node.{release}
use cs320_cluster_process_ma.Scheduler.{new_scheduler, chosen}
use cs320_cluster_process_ma.Base.{to_lower}
use cs320_cluster_process_ma.Controller.Processes.{kill_process}
use cs320_cluster_process_ma.Controller.Failures.{fail_process, fail_node_locked}
use cs320_cluster_process_ma.Scheduler.Selection.{IsCyclic, round_robin-IsCyclic}
use cs320_cluster_process_ma.Domain.Node.{snapshot}

-- Numbers of one value in the place of float64.
instance pub unit_float : Float Unit
unit_float = record {
  of_int = λ z. tt;
  half = tt;
  infinity = tt;
  add = λ a b. tt;
  sub = λ a b. tt;
  mul = λ a b. tt;
  div = λ a b. tt;
  sqrt = λ a. tt;
  lt = λ a b. false;
  eq = λ a b. true;
}

abbrev pub node_a : NodeDefinition
node_a = record { id = "a"; name = "node a"; cpu_capacity = pos 4; memory_capacity_mb = pos 512 }

abbrev pub job : ProcessDefinition
job = record {
  id = "p";
  name = "job";
  priority = pos 1;
  cpu_request = pos 2;
  memory_request_mb = pos 256;
  total_ticks = pos 3;
  restart_policy = RestartPolicy.on_failure;
  max_restarts = pos 1;
  submit_at_tick = pos 0;
}

-- A controller with no node and no process, one node, one ready process, one running process.
abbrev pub empty : Controller Unit
empty = fresh Unit default_config Scheduler.least_loaded

abbrev pub with_node : Controller Unit
with_node = (register_node node_a empty).1

abbrev pub with_job : Controller Unit
with_job = (submit_process job with_node).1

abbrev pub running : Controller Unit
running = (step with_job).1

-- Node `a` while it hosts the job, and the job while it runs there.
abbrev busy_node : Node
busy_node = record {
  id = "a";
  name = "node a";
  status = NodeStatus.online;
  cpu_capacity = pos 4;
  memory_capacity_mb = pos 512;
  cpu_allocated = pos 2;
  memory_allocated_mb = pos 256;
  running_process_ids = "p" ∷ [];
  last_heartbeat_tick = pos 0;
}

busy_node_found : lookup "a" running.nodes ≡ some busy_node
unfolding step begin_tick apply_scheduled apply_pending apply_failures run_tick
    detect_missed_heartbeats schedule_ready node_snapshots place_all place placing place_on run_on
    announce select_node LeastLoaded.select_node select_from improves load_score can_fit contains
    sort_by emitted event_id execute_running execute worked conclude all_processes_terminal
    progress_block_reason block_scan is_terminal validate_invariants audit_nodes audit_node tally
    placed audit_processes register_node new_node validate trim_space has_key lookup insert delete
    submit_process new_process Process.validate transition allocate? allocate add_int sub_int int64
    ◌+ℤ◌ ◌-ℤ◌ order_ready sample_utilization new_cluster unit_float
busy_node_found = refl

pub made : new_controller Unit default_config ≡ ok empty
unfolding new_controller new_scheduler chosen to_lower trim_space
made = refl

pub empty-IsConsistent : IsConsistent empty
empty-IsConsistent = new_controller-IsConsistent Unit default_config empty made

pub with_node-IsConsistent : IsConsistent with_node
with_node-IsConsistent =
    register_node-IsConsistent empty empty-IsConsistent node_a (omega arith, omega arith)
      (omega arith, omega arith)

with_job-IsConsistent : IsConsistent with_job
with_job-IsConsistent = submit_process-IsConsistent with_node with_node-IsConsistent job

pub running-IsConsistent : IsConsistent running
running-IsConsistent = step-IsConsistent with_job with_job-IsConsistent

-- A node without a process, and the same node once the job is allocated.
abbrev pub idle_node : Node
idle_node = record busy_node {
  cpu_allocated = pos 0;
  memory_allocated_mb = pos 0;
  running_process_ids = [];
}

abbrev loaded_node : Node
loaded_node = busy_node

idle_cpu : IsBalanced idle_node.cpu_allocated idle_node.cpu_capacity 0
idle_cpu = record {
  counted = refl;
  fits = omega arith;
  nonempty = omega arith;
  machine = omega arith;
}

idle_memory : IsBalanced idle_node.memory_allocated_mb idle_node.memory_capacity_mb 0
idle_memory = record {
  counted = refl;
  fits = omega arith;
  nonempty = omega arith;
  machine = omega arith;
}

allocated : allocate idle_node (draft job (pos 0)) ≡ ok loaded_node
unfolding allocate can_fit contains add_int sub_int int64 ◌+ℤ◌ ◌-ℤ◌ trim_space
allocated = refl

step-IsConsistent_example : IsConsistent (step running).1
step-IsConsistent_example = step-IsConsistent running running-IsConsistent

validate_invariants-accepts_example : validate_invariants running ≡ ok tt
validate_invariants-accepts_example = validate_invariants-accepts running running-IsConsistent

fail_node_locked-Succeeds_example : Succeeds [] (fail_node_locked busy_node "power cut") running
fail_node_locked-Succeeds_example =
    fail_node_locked-Succeeds running running-IsConsistent "a" busy_node "power cut" busy_node_found
      refl

schedule_ready-IsConsistent_example : IsConsistent (schedule_ready with_job).1
schedule_ready-IsConsistent_example = schedule_ready-IsConsistent with_job with_job-IsConsistent

release-allocate_example : release loaded_node (draft job (pos 0)) ≡ ok idle_node
release-allocate_example =
    release-allocate idle_node loaded_node (draft job (pos 0)) 0 0 idle_cpu idle_memory
      (omega arith) (omega arith) allocated

fail_process-IsFailure_example :
    IsFailure running "p" "broken"
      (fail_process "p" "broken" running).0
      (fail_process "p" "broken" running).1
fail_process-IsFailure_example = fail_process-IsFailure running running-IsConsistent "p" "broken"

kill_process-IsKill_example :
    IsKill running "p" (kill_process "p" running).0 (kill_process "p" running).1
kill_process-IsKill_example = kill_process-IsKill running running-IsConsistent "p"

submit_process-IsSubmission_example :
    IsSubmission with_node job (submit_process job with_node).0 (submit_process job with_node).1
submit_process-IsSubmission_example =
    submit_process-IsSubmission with_node with_node-IsConsistent job

register_node-IsConsistent_example : IsConsistent (register_node node_a empty).1
register_node-IsConsistent_example =
    register_node-IsConsistent empty empty-IsConsistent node_a (omega arith, omega arith)
      (omega arith, omega arith)

apply_scheduled-IsConsistent_example : IsConsistent (apply_scheduled running).1
apply_scheduled-IsConsistent_example = apply_scheduled-IsConsistent running running-IsConsistent

round_robin-IsCyclic_example : IsCyclic 1 (draft job (pos 0)) (snapshot idle_node ∷ [])
round_robin-IsCyclic_example = round_robin-IsCyclic 1 (draft job (pos 0)) (snapshot idle_node ∷ [])
