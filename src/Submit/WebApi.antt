-- ===== src/Submit/WebApi.antt =====
-- submit_service/internal/web-api: the HTTP handlers and their server.
mod Http
mod Numbers
mod Load
mod Tasks
mod Server
pub mod Positive
pub mod Submission
pub mod Leak
pub mod Admission
pub mod Bounds
pub mod Drain
pub mod Resume
pub mod Routes
pub mod Answers
pub mod Exhaustion
pub mod CpuLoad
pub use Http.*
unfoldable pub use Http.{http_error, write_header}
pub use Numbers.*
pub use Load.*
pub use Tasks.*
unfoldable pub use Tasks.{submit_task, resume_task, start_task_processing}
pub use Server.*
unfoldable pub use Numbers.{parse_positive_int}
unfoldable pub use Server.{handle_readiness, log_metrics, new, route, start, stop}
