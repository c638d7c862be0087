-- ===== src/Submit/Daemon.antt =====
-- submit_service/internal/daemon/daemon.go: a daemon that main.go does not build. Its workers
-- consume with submit_service/internal/bus/redis.go.
pub mod Lifecycle
use shortcut.Prelude.{
  ℕ, ◌-◌, Bool, true, false, List, [], ◌∷◌, Option, none, some, ◌==◌, str_eq, if◌then◌else◌,
}
use shortcut.Runtime.{
  Call, Env, Error, equals, is_deadline, Exec, ok, panic, try, deferring, pure, raise, tell, ◌>>◌,
  Level,
}
use shortcut.Submit.Metrics.{inc_processed_tasks, inc_task_timeout}
use shortcut.Submit.Domain.{Task, status_failed}
use shortcut.Submit.Tasks.{TaskService, update_task_status}
use shortcut.Submit.Bus.{consume_tasks}

-- `Wg.Done()`; no `Wg.Add` goes before it.
unfoldable pub wg_done : Exec (Unit {0})
wg_done w =
    if w.wait_group == 0
    then (panic "sync: negative WaitGroup counter", w)
    else (ok tt, record w { wait_group = w.wait_group - 1 })

module _ (env : Env) (task_srv : TaskService) where
  -- The goroutine of `process`: an error goes to `errChan`, else `doneProcessing` is closed.
  unfoldable pub processing : Task → Exec (Unit {0})
  unfolding update_task_status
  processing task =
      if str_eq task.status status_failed
      then update_task_status env task_srv task.id status_failed
      else pure tt

  -- The end of the context, if the `select` takes that branch.
  unfoldable pub cut_short : Error → Exec (Unit {0})
  unfolding inc_task_timeout
  cut_short e =
      if equals e is_deadline
      then inc_task_timeout >> tell (Call.log Level.warn "task processing timed out")
      else pure tt

  -- `process`: `ended` says how the context ended, if that is what the `select` sees.
  unfoldable pub process : Option Error → ℕ → Task → Exec (Unit {0})
  unfolding wg_done processing cut_short inc_processed_tasks
  process ended worker_id task = deferring wg_done (do
    tell (Call.log Level.info "start processing")
    elim ended [
      | some e ↦ cut_short e
      | none ↦ try (processing task) raise (λ _. inc_processed_tasks true)
    ])

  -- `worker` over the rounds of its loop: is the context done when the round begins? The error of
  -- a round is dropped.
  unfoldable pub worker : ℕ → List Bool → Exec (Unit {0})
  unfolding consume_tasks process
  worker worker_id [] = pure tt
  worker worker_id (true ∷ _) = tell (Call.log Level.info "stopped by context done")
  worker worker_id (false ∷ rounds) =
      try (consume_tasks env (process none) worker_id) (λ _. pure tt) pure
      >> worker worker_id rounds
