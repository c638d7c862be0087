-- ===== src/Process/Tasks.antt =====
-- process_service/internal/repository/task_repo.go and internal/services/task_service.go: tasks in
-- ClickHouse.
mod Repo
pub mod Service
pub mod Rows
pub use Repo.*
unfoldable pub use Repo.{
  get_all_not_processed_tasks, update_task_status, mark_task_invalid, insert_task, get_task_by_id,
}
