-- ===== src/Process/Daemon/Lifecycle.antt =====
-- `New`, `Start`, `worker` and `Stop`.
use shortcut.Prelude.{
  ℕ, zero, suc, ◌+◌, String, Bool, true, false, List, [], ◌∷◌, Option, none, some, inl, inr,
  if◌then◌else◌, ◌==◌, ◌||◌, str_eq, length, Bytes, ◌⊎◌,
}
use shortcut.Runtime.{
  Call, Env, Error, is_error, is_redis_nil, error_text, Exec, ok, panic, blocked, call, checked,
  try, pure, modify, tell, ◌>>=◌, ◌>>◌, Level, Field,
}
use shortcut.Metrics.{get_metrics}
use shortcut.ClickHouse.{get_all_not_processed_tasks, put}
use shortcut.Process.Dlq.{MinIo, new_min_io}
use shortcut.Process.Dlq
use shortcut.Process.Bus.{Consumer, StatusHook, Decoder, new_consumer, consume_tasks}
use shortcut.Process.Daemon.Handler.{handle_task}

-- `Daemon`: its wait group, the context of its workers and its queue stand in the world.
pub record Daemon : Type 0 where
  pub num_workers : ℕ
  pub queue_size : ℕ
  pub consumer : Consumer

module _ (env : Env) where
  -- The writer stays nil if MinIO cannot be set up.
  unfoldable pub new_writer : Option Dlq.Config → Exec (Option (Option MinIo))
  unfolding new_min_io
  new_writer conf =
      try (new_min_io env conf)
        (λ _. tell (Call.log Level.warn "failed to initialize minio dlq storage") >> pure none)
        (λ m. pure (some (some m)))

  -- A group that is there already is no reason for a warning.
  unfoldable pub ensure_group : Exec (Unit {0})
  unfolding is_error error_text
  ensure_group =
      try (call (Call.x_group_create "tasks" "task_group" "$") (λ h. checked (env.redis_reply h)))
        (λ e.
          if is_error e is_redis_nil
            || str_eq (error_text e) "BUSYGROUP Consumer Group name already exists"
          then pure tt
          else tell (Call.log Level.warn "failed to ensure redis stream consumer group"))
        pure

  unfoldable pub new : Option Dlq.Config → ℕ → ℕ → StatusHook → Exec Daemon
  unfolding new_writer ensure_group new_consumer
  new conf num_workers queue_size status_hook = do
    writer ← new_writer conf
    ensure_group
    pure (record {
      num_workers = num_workers;
      queue_size = queue_size;
      consumer = new_consumer writer (status_hook ∷ []);
    })

  -- The loop of `Start`: worker `i + 1` in round `i`.
  unfoldable pub spawn_workers : ℕ → ℕ → Exec (Unit {0})
  spawn_workers zero i = pure tt
  spawn_workers (suc left) i =
      tell (Call.spawn "worker" ((i + 1) ∷ [])) >> spawn_workers left (i + 1)

  unfoldable pub start : Daemon → Exec (Unit {0})
  unfolding spawn_workers
  start d = modify (λ w. record w { worker_ctx = some false }) >> spawn_workers d.num_workers 0

  -- `worker` over the rounds of its loop: is the context done when the round begins?
  unfoldable pub worker : Decoder → Daemon → ℕ → List Bool → Exec (Unit {0})
  unfolding consume_tasks handle_task
  worker unmarshal d worker_id [] = pure tt
  worker unmarshal d worker_id (true ∷ _) = tell (Call.log Level.info "stopped by context done")
  worker unmarshal d worker_id (false ∷ rounds) =
      try (consume_tasks env unmarshal (handle_task env) d.consumer worker_id)
        (λ _. tell (Call.log Level.error "error consuming tasks")) pure
      >> worker unmarshal d worker_id rounds

  -- The first text of `logFinalMetrics`, behind `json.MarshalIndent`.
  unfoldable pub formatted : Error ⊎ Bytes → Exec Bytes
  formatted (inl e) = tell (Call.log Level.error "Failed to format metrics") >> pure []
  formatted (inr text) = pure text

  -- The map that `logFinalMetrics` makes.
  unfoldable pub final_report : Exec (List (String × Field))
  unfolding get_metrics get_all_not_processed_tasks put
  final_report = do
    metrics ← get_metrics env
    counted ← get_all_not_processed_tasks env
    listed ← get_all_not_processed_tasks env
    pure (
        put "not_processed_tasks" (Field.list listed)
          (put "not_processed_tasks_count" (Field.number (length counted)) metrics))

  unfoldable pub log_final_metrics : Exec (Unit {0})
  unfolding final_report formatted
  log_final_metrics = do
    report ← final_report
    text ← formatted (env.marshal report)
    tell (Call.log_text Level.info text)

  -- `workerCancel()`, nil before `Start`.
  unfoldable pub cancel_workers : Exec (Unit {0})
  cancel_workers w = elim w.worker_ctx [
    | none ↦ (panic "invalid memory address or nil pointer dereference", w)
    | some _ ↦ (ok tt, record w { worker_ctx = some true })
  ]

  -- `<-doneCh`: it is closed when the wait group is at 0. Seen alone, with no other goroutine to
  -- bring the group down, the wait has no end.
  unfoldable pub wait : Exec (Unit {0})
  wait w = if w.wait_group == 0 then (ok tt, w) else (blocked, w)

  abbrev pub totals : List String
  totals =
      "submitted tasks:" ∷ "unavailable service:" ∷ "errors:" ∷ "timeouts:" ∷ "active tasks:"
      ∷ "All workers have stopped" ∷ []

  unfoldable pub log_all : List String → Exec (Unit {0})
  log_all [] = pure tt
  log_all (m ∷ ms) = tell (Call.log Level.info m) >> log_all ms

  unfoldable pub stop : Exec (Unit {0})
  unfolding cancel_workers wait log_all log_final_metrics
  stop = do cancel_workers; wait; log_all totals; log_final_metrics
