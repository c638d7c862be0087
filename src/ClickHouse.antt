-- ===== src/ClickHouse.antt =====
-- The parts of internal/repository that the two services share: clickhouse.go, logs_repo.go,
-- metrics_repo.go and hook.go.
mod Storage
mod Writer
mod Tables
pub mod Retries
pub mod Sampling
pub mod Keys
pub use Storage.*
unfoldable pub use Storage.{has_key, add_not_processed_task, get_all_not_processed_tasks}
unfoldable pub use Writer.{put}
pub use Writer.*
unfoldable pub use Writer.{exec, write_metrics, write_log, post_logs_or_metrics_with_retries, fire}
unfoldable pub use Tables.{exec_all, new_client, ensure_tables, new_service, on_tick, sample}
pub use Tables.*
