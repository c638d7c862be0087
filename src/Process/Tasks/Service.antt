-- ===== src/Process/Tasks/Service.antt =====
-- internal/services/task_service.go
use shortcut.Prelude.{Bytes, String, List, [], ◌∷◌, ◌++◌, Option, none, some}
use shortcut.Runtime.{Env, Exec, pure, panics, ◌>>=◌, Uuid}
use shortcut.Process.Domain.{TaskStatus, Task}
use shortcut.Process.Tasks.Repo.{TaskRepository, TaskDto}
use shortcut.Process.Tasks.Repo

pub record TaskService : Type 0 where
  pub task_repo : TaskRepository

abbrev to_task : TaskDto → Uuid → Task
to_task t task_id = record {
  id = task_id;
  status = t.status;
  payload = t.payload;
  failed_payload = t.failed_payload;
}

-- One row: its task is added if the id parses.
abbrev pub add_parsed : TaskDto → Option Uuid → List Task → List Task
add_parsed t none tasks = tasks
add_parsed t (some task_id) tasks = tasks ++ to_task t task_id ∷ []

module _ (env : Env) where
  -- The loop over the rows: an id that does not parse is passed over.
  unfoldable pub collect : List TaskDto → List Task → List Task
  collect [] tasks = tasks
  collect (t ∷ ts) tasks = collect ts (add_parsed t (env.uuid_parse t.id) tasks)

  unfoldable pub get_all_not_processed_tasks : TaskService → Exec (List Task)
  unfolding Repo.get_all_not_processed_tasks collect
  get_all_not_processed_tasks s = do
    tasks_db ← Repo.get_all_not_processed_tasks env s.task_repo
    pure (collect tasks_db [])

  unfoldable pub update_task_status : TaskService → Uuid → TaskStatus → Exec (Unit {0})
  unfolding Repo.update_task_status
  update_task_status s task_id status = Repo.update_task_status env s.task_repo task_id status

  unfoldable pub insert_task : TaskService → Task → Exec (Unit {0})
  unfolding Repo.insert_task
  insert_task s task = Repo.insert_task env s.task_repo task

  -- `uuid.MustParse` panics where `Parse` fails.
  found_task : Option TaskDto → Exec (Option Task)
  found_task none = pure none
  found_task (some t) = elim (env.uuid_parse t.id) [
    | none ↦ panics "uuid: Parse"
    | some task_id ↦ pure (some (to_task t task_id))
  ]

  unfoldable pub get_task_by_id : TaskService → Uuid → Exec (Option Task)
  unfolding Repo.get_task_by_id found_task
  get_task_by_id s task_id = Repo.get_task_by_id env s.task_repo task_id >>= found_task

  unfoldable pub mark_task_invalid : TaskService → Uuid → Option Bytes → String → Exec (Unit {0})
  unfolding Repo.mark_task_invalid
  mark_task_invalid s task_id failed_payload reason =
      Repo.mark_task_invalid env s.task_repo task_id failed_payload reason
