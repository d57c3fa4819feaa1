-- ===== src/Base/Floats.antt =====
-- float64 as a parameter: the operations that the program uses. No law is assumed here; the laws
-- that a theorem needs are its hypotheses.
use cs320_cluster_process_ma.Base.Int.{ℤ}
use mathlib.Core.Bool.{Bool}

pub record Float (F : Type 0) : Type 0 where
  pub of_int : ℤ → F
  pub half : F
  pub infinity : F
  pub add : F → F → F
  pub sub : F → F → F
  pub mul : F → F → F
  pub div : F → F → F
  pub sqrt : F → F
  pub lt : F → F → Bool
  pub eq : F → F → Bool
