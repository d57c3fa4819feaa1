-- ===== src/Domain.antt =====
-- internal/domain: the process, the node, the cluster and the scenario.
pub mod Types
pub mod Process
pub mod Node
pub mod Cluster
pub mod Scenario
