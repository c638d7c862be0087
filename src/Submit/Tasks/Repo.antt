-- ===== src/Submit/Tasks/Repo.antt =====
-- task_repo.go. Each method does nothing if the repository has no service behind it.
use shortcut.Prelude.{ℕ, Bytes, String, List, [], ◌∷◌, ◌++◌, Option, none, some, ◌⊎◌, inl, inr}
use shortcut.Runtime.{
  Call, Env, Error, Exec, call, returned, tell, try, pure, raise, gets, ◌>>=◌, ◌>>◌, Arg, Uuid,
  Level,
}
use shortcut.ClickHouse.{Service, exec}
use shortcut.Submit.Domain.{TaskStatus, Task, status_failed}

abbrev time_format : String
time_format = "2006-01-02 15:04:05"

pub record TaskRepository : Type 0 where
  pub s : Option Service

-- `ts` is none where Go has the zero time.
pub record TaskDto : Type 0 where
  pub id : Bytes
  pub status : TaskStatus
  pub payload : Option Bytes
  pub ts : Option ℕ

unfoldable pub scan_rows : List (Error ⊎ Bytes) → List TaskDto → Exec (List TaskDto)
scan_rows [] tasks = pure tasks
scan_rows (inl e ∷ rows) tasks = tell (Call.log Level.error "Failed to scan task ID") >> raise e
scan_rows (inr id ∷ rows) tasks =
    scan_rows rows
      (tasks ++ record { id = id; status = status_failed; payload = none; ts = none } ∷ [])

module _ (env : Env) where
  abbrev logged_exec : String → List Arg → String → Exec (Unit {0})
  logged_exec sql args complaint =
      try (exec env sql args) (λ e. tell (Call.log Level.error complaint) >> raise e) pure

  guarded : Option Service → Exec (Unit {0}) → Exec (Unit {0})
  guarded none m = pure tt
  guarded (some s) m = m

  unfoldable pub query_not_processed : Option Service → Exec (List TaskDto)
  unfolding scan_rows
  query_not_processed none = pure []
  query_not_processed (some s) =
      try
        (call (Call.query "SELECT id FROM tasks WHERE status = $1" (Arg.text status_failed ∷ []))
          (λ h. returned (env.query_reply h)))
        (λ e. tell (Call.log Level.error "Failed to query not processed tasks") >> raise e)
        (λ rows. scan_rows rows [])

  unfoldable pub get_all_not_processed_tasks : TaskRepository → Exec (List TaskDto)
  unfolding query_not_processed
  get_all_not_processed_tasks r = query_not_processed r.s

  unfoldable pub update_task_status : TaskRepository → Uuid → TaskStatus → Exec (Unit {0})
  unfolding guarded exec
  update_task_status r task_id status = guarded r.s (
      logged_exec "ALTER TABLE tasks UPDATE status = $1 WHERE id = $2 SETTINGS mutations_sync = 1"
        (Arg.text status ∷ Arg.uuid task_id ∷ []) "Failed to update task %s status to %s")

  unfoldable pub insert_task : TaskRepository → Task → Exec (Unit {0})
  unfolding guarded exec
  insert_task r task = guarded r.s (do
    now ← gets (λ w. env.now w.history)
    logged_exec "INSERT INTO tasks (id, status, payload, ts) VALUES ($1, $2, $3, $4)"
        (Arg.uuid task.id
          ∷ Arg.text task.status
          ∷ Arg.nullable task.payload
          ∷ Arg.time time_format now
          ∷ [])
        "Failed to insert task %s with status %s")

  -- It always returns nil: the lookup is not written yet.
  unfoldable pub get_task_by_id : TaskRepository → Uuid → Exec (Option TaskDto)
  get_task_by_id r task_id = pure none
