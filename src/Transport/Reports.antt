-- ===== src/Transport/Reports.antt =====
-- internal/transport/http/reports.go. The two formats of an export hold the same report.
use cs320_cluster_process_ma.Base.{String, ◌||◌, ◌==◌, string_eq, if◌then◌else◌, Float}
use cs320_cluster_process_ma.Controller.Views
use cs320_cluster_process_ma.Metrics
use cs320_cluster_process_ma.Engine.{Engine}
use cs320_cluster_process_ma.Transport.Answers.{Body, Response, view, write}

module _ {F : Type 0} where
  abbrev pub list_events : Engine F → Response F × Engine F
  list_events = view λ c. write 200 (Body.events (Views.events c))

  module _ ⦃f : Float F⦄ where
    abbrev pub get_metrics : Engine F → Response F × Engine F
    get_metrics = view λ c. write 200 (Body.report (Metrics.current c))

    -- The query parameter `format`, which is empty where it is missing.
    abbrev pub export_report : String → Engine F → Response F × Engine F
    export_report format = view λ c.
        if format == "" || format == "json" || format == "csv"
        then write 200 (Body.report (Metrics.current c))
        else write 400 Body.error
