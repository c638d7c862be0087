-- ===== src/Metrics.antt =====
-- process_service/internal/metrics (and its copy under submit_service): the recorder of Prometheus
-- counters, and the metrics server.
pub mod Counts
mod Recorder
pub mod Collectors
pub mod Server
pub mod Totals
pub mod Registry
pub use Counts.*
unfoldable pub use Counts.{count, increments}
pub use Recorder.*
unfoldable pub use Recorder.{
  get_processed_tasks_total, get_mem_used, get_active_tasks_total, get_unavailable_total,
  get_submitted_tasks_total, get_task_errors_total, get_timeouts_total, get_metrics,
  inc_processed_tasks, inc_http_response_status, inc_task_error, inc_task_timeout, add_active_tasks,
  dec_active_tasks, observe_task_duration, add_inflight_requests,
}
