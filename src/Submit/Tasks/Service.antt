-- ===== src/Submit/Tasks/Service.antt =====
-- internal/services/task_service.go
use shortcut.Prelude.{List, [], ◌∷◌, ◌++◌, Option, none, some}
use shortcut.Runtime.{Env, Exec, pure, panics, ◌>>=◌, Uuid}
use shortcut.Submit.Domain.{TaskStatus, Task}
use shortcut.Submit.Tasks.Repo.{TaskRepository, TaskDto}
use shortcut.Submit.Tasks.Repo

pub record TaskService : Type 0 where
  pub task_repo : TaskRepository

abbrev to_task : TaskDto → Uuid → Task
to_task t task_id = record { id = task_id; status = t.status; payload = t.payload }

-- One row: its task is added if the id parses.
abbrev pub add_parsed : TaskDto → Option Uuid → List Task → List Task
add_parsed t none tasks = tasks
add_parsed t (some task_id) tasks = tasks ++ to_task t task_id ∷ []

module _ (env : Env) where
  unfoldable pub collect : List TaskDto → List Task → List Task
  collect [] tasks = tasks
  collect (t ∷ ts) tasks = collect ts (add_parsed t (env.uuid_parse t.id) tasks)

  unfoldable pub get_all_not_processed_tasks : TaskService → Exec (List Task)
  unfolding Repo.get_all_not_processed_tasks collect
  get_all_not_processed_tasks s = do
    tasks_db ← Repo.get_all_not_processed_tasks env s.task_repo
    pure (collect tasks_db [])

  unfoldable pub update_task_status : TaskService → Uuid → TaskStatus → Exec (Unit {0})
  unfolding Repo.update_task_status
  update_task_status s task_id status = Repo.update_task_status env s.task_repo task_id status

  unfoldable pub insert_task : TaskService → Task → Exec (Unit {0})
  unfolding Repo.insert_task
  insert_task s task = Repo.insert_task env s.task_repo task

  found_task : Option TaskDto → Exec (Option Task)
  found_task none = pure none
  found_task (some t) = elim (env.uuid_parse t.id) [
    | none ↦ panics "uuid: Parse"
    | some task_id ↦ pure (some (to_task t task_id))
  ]

  unfoldable pub get_task_by_id : TaskService → Uuid → Exec (Option Task)
  unfolding Repo.get_task_by_id found_task
  get_task_by_id s task_id = Repo.get_task_by_id env s.task_repo task_id >>= found_task

  abbrev status_of : Option TaskDto → TaskStatus
  status_of none = ""
  status_of (some t) = t.status

  unfoldable pub get_task_status_by_task_id : TaskService → Uuid → Exec TaskStatus
  unfolding Repo.get_task_by_id
  get_task_status_by_task_id s task_id = do
    task_dto ← Repo.get_task_by_id env s.task_repo task_id
    pure (status_of task_dto)
