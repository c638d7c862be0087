-- ===== src/Process/Daemon/Handler.antt =====
-- `handleTask`.
use shortcut.Prelude.{ℕ, ◌+◌, ◌-◌, true, none, some, if◌then◌else◌, ◌==◌, ◌||◌}
use shortcut.Runtime.{
  Call, Env, Error, is_error, as_custom, is_deadline, is_canceled, Exec, ok, panic, call, checked,
  try, deferring, pure, raise, gets, modify, tell, ◌>>=◌, ◌>>◌, Level,
}
use shortcut.Metrics.{
  inc_processed_tasks, inc_task_error, inc_task_timeout, add_active_tasks, dec_active_tasks,
  observe_task_duration,
}
use shortcut.ClickHouse.{add_not_processed_task}
use shortcut.Process.Domain.{Task}

-- `Wg.Add(1)` and `Wg.Done()`
unfoldable pub wg_add : Exec (Unit {0})
wg_add = modify (λ w. record w { wait_group = w.wait_group + 1 })

unfoldable pub wg_done : Exec (Unit {0})
wg_done w =
    if w.wait_group == 0
    then (panic "sync: negative WaitGroup counter", w)
    else (ok tt, record w { wait_group = w.wait_group - 1 })

-- The counters of a failed call: `errors.As` a `*CustomError`, and `errors.Is` the end of a
-- context.
unfoldable pub count_custom : Error → Exec (Unit {0})
unfolding inc_task_error as_custom
count_custom e = elim (as_custom e) [
  | none ↦ pure tt
  | some m ↦ tell (Call.log Level.error "External API error") >> inc_task_error
]

unfoldable pub count_timeout : Error → Exec (Unit {0})
unfolding inc_task_timeout is_error
count_timeout e =
    if is_error e is_deadline || is_error e is_canceled then inc_task_timeout else pure tt

module _ (env : Env) where
  -- What `handleTask` does with an error of the API.
  unfoldable pub not_processed : Task → Error → Exec (Unit {0})
  unfolding count_custom count_timeout add_not_processed_task
  not_processed task e = do
    count_custom e
    count_timeout e
    add_not_processed_task (env.uuid_string task.id)
    raise e

  -- The deferred function that closes the measurement.
  unfoldable pub measured : ℕ → Exec (Unit {0})
  unfolding observe_task_duration dec_active_tasks
  measured started_at = do
    now ← gets (λ w. env.now w.history)
    observe_task_duration (now - started_at)
    dec_active_tasks 1

  unfoldable pub handle_task : ℕ → Task → Exec (Unit {0})
  unfolding wg_add wg_done measured not_processed add_active_tasks inc_processed_tasks
  handle_task worker_id task = do
    wg_add
    deferring wg_done (do
      tell (Call.log Level.info "start processing")
      add_active_tasks 1
      started_at ← gets (λ w. env.now w.history)
      deferring (measured started_at) (
          try
            (call (Call.get_something (env.uuid_string task.id) worker_id)
              (λ h. checked (env.api_reply h)))
            (not_processed task) (λ _. inc_processed_tasks true)))
