-- ===== src/Domain/Scenario.antt =====
-- internal/domain/scenario.go: the types; the child has Validate.
pub mod Validation
use cs320_cluster_process_ma.Base.{ℤ, String, List}
use cs320_cluster_process_ma.Domain.Process.{ProcessDefinition}
use cs320_cluster_process_ma.Domain.Node.{NodeDefinition}

-- `unknown` is any other text.
pub data FailureType : Type 0 where
  node process : FailureType
  unknown : String → FailureType

pub record FailureDefinition : Type 0 where
  pub tick : ℤ
  pub type : FailureType
  pub node_id : String
  pub process_id : String
  pub message : String

pub record Scenario : Type 0 where
  pub name : String
  pub seed : ℤ
  pub scheduler : String
  pub tick_duration_ms : ℤ
  pub max_ticks : ℤ
  pub nodes : List NodeDefinition
  pub processes : List ProcessDefinition
  pub failures : List FailureDefinition
