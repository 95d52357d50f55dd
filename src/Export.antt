-- ===== src/Export.antt =====
-- include/task_engine/metrics_exporter.hpp: MetricsExporter. An export is what its `<<` stream, in
-- their order; a counter is printed in decimal, since `std::fixed` concerns floating point only.
mod Tests
pub mod Reading
use nexus_task.Prelude.{ℕ, List, [], ◌∷◌, ◌++◌}
use nexus_task.Text.{Bytes, codes, show_number}
use nexus_task.Monitor.Snapshot.{MetricsSnapshot}

pub data Piece : Type 0 where
  words : Bytes → Piece
  number : ℕ → Piece

-- `oss << … << …; return oss.str();`
unfoldable pub stream : List Piece → Bytes
stream [] = []
stream (words s ∷ ps) = s ++ stream ps
stream (number n ∷ ps) = show_number n ++ stream ps

unfoldable pub json_pieces : MetricsSnapshot → List Piece
json_pieces m =
    words (codes "{\n")
    ∷ words (codes "  \"tasks_submitted\": ")
    ∷ number m.tasks_submitted
    ∷ words (codes ",\n")
    ∷ words (codes "  \"tasks_completed\": ")
    ∷ number m.tasks_completed
    ∷ words (codes ",\n")
    ∷ words (codes "  \"tasks_failed\": ")
    ∷ number m.tasks_failed
    ∷ words (codes ",\n")
    ∷ words (codes "  \"tasks_retried\": ")
    ∷ number m.tasks_retried
    ∷ words (codes ",\n")
    ∷ words (codes "  \"tasks_cancelled\": ")
    ∷ number m.tasks_cancelled
    ∷ words (codes ",\n")
    ∷ words (codes "  \"total_execution_time_us\": ")
    ∷ number m.total_execution_time_us
    ∷ words (codes ",\n")
    ∷ words (codes "  \"max_execution_time_us\": ")
    ∷ number m.max_execution_time_us
    ∷ words (codes ",\n")
    ∷ words (codes "  \"min_execution_time_us\": ")
    ∷ number m.min_execution_time_us
    ∷ words (codes ",\n")
    ∷ words (codes "  \"total_queue_wait_time_us\": ")
    ∷ number m.total_queue_wait_time_us
    ∷ words (codes ",\n")
    ∷ words (codes "  \"inflight_tasks\": ")
    ∷ number m.inflight_tasks
    ∷ words (codes ",\n")
    ∷ words (codes "  \"peak_inflight\": ")
    ∷ number m.peak_inflight
    ∷ words (codes "\n")
    ∷ words (codes "}")
    ∷ []

unfoldable pub to_json : MetricsSnapshot → Bytes
to_json m = stream (json_pieces m)

unfoldable pub prometheus_pieces : Bytes → MetricsSnapshot → List Piece
prometheus_pieces prefix m =
    words (codes "# HELP ")
    ∷ words prefix
    ∷ words (codes "_tasks_submitted Total number of tasks submitted\n")
    ∷ words (codes "# TYPE ")
    ∷ words prefix
    ∷ words (codes "_tasks_submitted counter\n")
    ∷ words prefix
    ∷ words (codes "_tasks_submitted ")
    ∷ number m.tasks_submitted
    ∷ words (codes "\n\n")
    ∷ words (codes "# HELP ")
    ∷ words prefix
    ∷ words (codes "_tasks_completed Total number of tasks completed\n")
    ∷ words (codes "# TYPE ")
    ∷ words prefix
    ∷ words (codes "_tasks_completed counter\n")
    ∷ words prefix
    ∷ words (codes "_tasks_completed ")
    ∷ number m.tasks_completed
    ∷ words (codes "\n\n")
    ∷ words (codes "# HELP ")
    ∷ words prefix
    ∷ words (codes "_tasks_failed Total number of tasks failed\n")
    ∷ words (codes "# TYPE ")
    ∷ words prefix
    ∷ words (codes "_tasks_failed counter\n")
    ∷ words prefix
    ∷ words (codes "_tasks_failed ")
    ∷ number m.tasks_failed
    ∷ words (codes "\n\n")
    ∷ words (codes "# HELP ")
    ∷ words prefix
    ∷ words (codes "_inflight_tasks Current number of inflight tasks\n")
    ∷ words (codes "# TYPE ")
    ∷ words prefix
    ∷ words (codes "_inflight_tasks gauge\n")
    ∷ words prefix
    ∷ words (codes "_inflight_tasks ")
    ∷ number m.inflight_tasks
    ∷ words (codes "\n\n")
    ∷ words (codes "# HELP ")
    ∷ words prefix
    ∷ words (codes "_peak_inflight Peak number of inflight tasks\n")
    ∷ words (codes "# TYPE ")
    ∷ words prefix
    ∷ words (codes "_peak_inflight gauge\n")
    ∷ words prefix
    ∷ words (codes "_peak_inflight ")
    ∷ number m.peak_inflight
    ∷ words (codes "\n")
    ∷ []

unfoldable pub to_prometheus : MetricsSnapshot → Bytes → Bytes
to_prometheus m prefix = stream (prometheus_pieces prefix m)

unfoldable pub csv_pieces : MetricsSnapshot → List Piece
csv_pieces m =
    words (codes "metric,value\n")
    ∷ words (codes "tasks_submitted,")
    ∷ number m.tasks_submitted
    ∷ words (codes "\n")
    ∷ words (codes "tasks_completed,")
    ∷ number m.tasks_completed
    ∷ words (codes "\n")
    ∷ words (codes "tasks_failed,")
    ∷ number m.tasks_failed
    ∷ words (codes "\n")
    ∷ words (codes "tasks_retried,")
    ∷ number m.tasks_retried
    ∷ words (codes "\n")
    ∷ words (codes "tasks_cancelled,")
    ∷ number m.tasks_cancelled
    ∷ words (codes "\n")
    ∷ words (codes "total_execution_time_us,")
    ∷ number m.total_execution_time_us
    ∷ words (codes "\n")
    ∷ words (codes "max_execution_time_us,")
    ∷ number m.max_execution_time_us
    ∷ words (codes "\n")
    ∷ words (codes "min_execution_time_us,")
    ∷ number m.min_execution_time_us
    ∷ words (codes "\n")
    ∷ words (codes "total_queue_wait_time_us,")
    ∷ number m.total_queue_wait_time_us
    ∷ words (codes "\n")
    ∷ words (codes "inflight_tasks,")
    ∷ number m.inflight_tasks
    ∷ words (codes "\n")
    ∷ words (codes "peak_inflight,")
    ∷ number m.peak_inflight
    ∷ words (codes "\n")
    ∷ []

unfoldable pub to_csv : MetricsSnapshot → Bytes
to_csv m = stream (csv_pieces m)
