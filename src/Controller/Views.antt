-- ===== src/Controller/Views.antt =====
-- internal/cluster: the methods of the controller that only read. A clone is the value itself.
use cs320_cluster_process_ma.Base.{
  String, List, [], ◌∷◌, Dict, lookup, string_eq, sort_by, before, Result, Option, none, some, ok,
  err, node_not_found, process_not_found, Error,
}
use cs320_cluster_process_ma.Domain.Types.{Event}
use cs320_cluster_process_ma.Domain.Process.{Process}
use cs320_cluster_process_ma.Domain.Node.{Node}
use cs320_cluster_process_ma.Domain.Cluster.{Cluster}
use cs320_cluster_process_ma.Scheduler
use cs320_cluster_process_ma.Controller.State.{Controller}

-- The values of a map, which a loop collects.
abbrev pub values : {V : Type 0} → Dict String V → List V
values [] = []
values ((k, v) ∷ m) = v ∷ values m

abbrev found : {A : Type 0} → Error → Option A → Result A
found e none = err e
found e (some a) = ok a

module _ {F : Type 0} where
  unfoldable pub snapshot : Controller F → Cluster F
  snapshot c = c.state

  unfoldable pub events : Controller F → List Event
  events c = c.events

  unfoldable pub node : String → Controller F → Result Node
  node id c = found node_not_found (lookup id c.nodes)

  unfoldable pub nodes : Controller F → List Node
  nodes c = sort_by (λ a b. before a.id b.id) (values c.nodes)

  unfoldable pub process : String → Controller F → Result Process
  process id c = found process_not_found (lookup id c.processes)

  unfoldable pub processes : Controller F → List Process
  processes c = sort_by (λ a b. before a.id b.id) (values c.processes)

  unfoldable pub scheduler_name : Controller F → String
  scheduler_name c = Scheduler.name c.scheduler
