-- ===== src/Transport/Setup.antt =====
-- internal/transport/http/router.go: API and NewHandler. The mux is the table of Transport/Routes.
use cs320_cluster_process_ma.Base.{ℕ, Option, none, some, Result, ok, err, invalid_input, on_ok}
use cs320_cluster_process_ma.Controller.State.{Controller}
use cs320_cluster_process_ma.Metrics.{Collector, new_collector}
use cs320_cluster_process_ma.Engine.{Engine}

-- A pointer to a controller: the address where it lies, and what lies there.
pub record Pointer (F : Type 0) : Type 0 where
  pub address : ℕ
  pub target : Controller F

-- An engine with the address of its controller, which is the field `controller` of the engine.
pub record Attached (F : Type 0) : Type 0 where
  pub address : ℕ
  pub engine : Engine F

-- A collector with the address of its provider.
pub record Collecting (F : Type 0) : Type 0 where
  pub address : ℕ
  pub collector : Collector F

pub record Api (F : Type 0) : Type 0 where
  pub controller : Pointer F
  pub engine : Attached F
  pub metrics : Collecting F

-- NewHandler, whose arguments may be nil.
unfoldable pub new_handler :
    {F : Type 0} → Option (Pointer F) → Option (Attached F) → Result (Api F)
unfolding new_collector
new_handler none e = err invalid_input
new_handler (some p) none = err invalid_input
new_handler (some p) (some e) = on_ok (new_collector (some p.target)) λ collector. ok (record {
  controller = p;
  engine = e;
  metrics = record { address = p.address; collector = collector };
})
