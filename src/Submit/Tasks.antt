-- ===== src/Submit/Tasks.antt =====
-- submit_service/internal/repository/task_repo.go and internal/services/task_service.go
mod Repo
mod Service
pub mod Reading
pub use Repo.{TaskRepository, TaskDto}
pub use Service.*
unfoldable pub use Service.{
  get_all_not_processed_tasks, update_task_status, insert_task, get_task_by_id,
  get_task_status_by_task_id,
}
