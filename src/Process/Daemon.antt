-- ===== src/Process/Daemon.antt =====
-- process_service/internal/daemon/daemon.go: the workers and the handler of a task.
mod Handler
mod Lifecycle
pub mod Balance
pub mod Batch
pub mod Shutdown
pub mod Calm
pub mod Pool
pub mod Progress
pub mod Keeping
pub mod Books
pub mod Accounts
pub mod Deliveries
pub mod Losses
pub mod Handling
pub mod Report
pub mod Rounds
pub mod Simulated
pub use Handler.*
unfoldable pub use Handler.{handle_task, wg_add, wg_done}
pub use Lifecycle.*
unfoldable pub use Lifecycle.{
  new, new_writer, ensure_group, spawn_workers, start, stop, cancel_workers, wait, log_all,
  formatted, final_report, log_final_metrics,
}
