-- ===== src/Submit/WebApi/Tasks.antt =====
-- task_handler.go
use shortcut.Prelude.{
  ℕ, ◌+◌, ◌-◌, Bytes, String, [], ◌∷◌, Option, none, some, ltb, ◌==◌, str_eq, if◌then◌else◌, ◌||◌,
}
use shortcut.Runtime.{Env, Exec, ok, blocked, try, deferring, pure, gets, modify, ◌>>=◌, ◌>>◌, Uuid}
use shortcut.Submit.Metrics.{inc_http_response_status}
use shortcut.Submit.Domain.{
  Task, status_failed, status_processing, status_pending, status_processed,
}
use shortcut.Submit.Tasks.{TaskService, insert_task, update_task_status, get_task_by_id}
use shortcut.Submit.Bus.{produce_task}
use shortcut.Submit.WebApi.Http.{Request, http_error, write_header}

-- The capacity of the channel `sem`.
abbrev pub max_tasks : ℕ
max_tasks = 100

-- `TaskHandler`; the channel stands in the world, and the bus is the producer.
pub record TaskHandler : Type 0 where
  pub task_service : TaskService

-- `NewTaskHandler`; the new channel is empty, as in the world of a new process.
abbrev pub new_task_handler : TaskService → TaskHandler
new_task_handler task_service = record { task_service = task_service }

-- `<-th.sem` waits for a token.
unfoldable pub release : Exec (Unit {0})
release w = if w.sem == 0 then (blocked, w) else (ok tt, record w { sem = w.sem - 1 })

-- `th.sem <- struct{}{}`, in the branch of the `select` that has room.
unfoldable pub acquire : Exec (Unit {0})
acquire = modify (λ w. record w { sem = w.sem + 1 })

-- An error answer that is counted.
unfoldable pub fail : String → ℕ → Exec (Unit {0})
unfolding http_error inc_http_response_status
fail text code = http_error text code >> inc_http_response_status code

module _ (env : Env) (th : TaskHandler) where
  -- The branch where the task is stored and the bus has refused it.
  unfoldable pub not_produced : Task → Exec (Unit {0})
  unfolding update_task_status fail
  not_produced task = do
    try (update_task_status env th.task_service task.id status_pending)
        (λ _. fail "Failed to update task status to failed" 500) pure
    fail "Failed to produce task" 500

  -- The body of `startTaskProcessing` under its deferred release.
  unfoldable pub store_and_produce : Task → Exec (Unit {0})
  unfolding insert_task produce_task not_produced fail
  store_and_produce task =
      try (insert_task env th.task_service task) (λ _. fail "Failed to insert task" 500)
        (λ _. try (produce_task env task) (λ _. not_produced task) pure)

  unfoldable pub start_task_processing : Task → Exec (Unit {0})
  unfolding release store_and_produce
  start_task_processing task = deferring release (store_and_produce task)

  -- What `SubmitTask` does with a token in its hand.
  unfoldable pub with_token : Bytes → Exec (Unit {0})
  unfolding fail start_task_processing inc_http_response_status write_header
  with_token [] = fail "Payload is required" 400
  with_token (b ∷ bs) = do
    id ← gets (λ w. env.uuid_new w.history)
    start_task_processing (record { id = id; status = status_processing; payload = some (b ∷ bs) })
    inc_http_response_status 202
    write_header 202

  unfoldable pub submit_task : Request → Exec (Unit {0})
  unfolding acquire with_token http_error fail
  submit_task r w =
      if w.shutting_down
      then http_error "shutting down" 503 w
      else if ltb w.sem max_tasks
      then (acquire >> with_token r.payload) w
      else fail "Task queue is full, try again later" 503 w

  -- The `switch` of `ResumeTask`.
  unfoldable pub resume_found : Task → Exec (Unit {0})
  unfolding update_task_status start_task_processing http_error write_header
  resume_found task =
      if str_eq task.status status_failed || str_eq task.status status_pending
      then try (update_task_status env th.task_service task.id status_pending)
          (λ _. http_error "Failed to update task status" 500)
          (λ _. start_task_processing task >> write_header 202)
      else if str_eq task.status status_processing
      then http_error "Task is already in progress or pending" 400
      else if str_eq task.status status_processed
      then http_error "Task is already processed" 400
      else http_error "Only failed tasks can be resumed" 400

  unfoldable pub resume_loaded : Option Task → Exec (Unit {0})
  unfolding resume_found http_error
  resume_loaded none = http_error "Task not found" 404
  resume_loaded (some task) = resume_found task

  unfoldable resume_id : Option Uuid → Exec (Unit {0})
  unfolding get_task_by_id resume_loaded http_error
  resume_id none = http_error "Invalid task ID" 400
  resume_id (some task_id) =
      try (get_task_by_id env th.task_service task_id) (λ _. http_error "Failed to get task" 500)
        resume_loaded

  unfoldable pub resume_task : Request → Exec (Unit {0})
  unfolding resume_id http_error
  resume_task r w =
      if w.shutting_down
      then http_error "shutting down" 503 w
      else resume_id (env.uuid_parse (r.query "id")) w
