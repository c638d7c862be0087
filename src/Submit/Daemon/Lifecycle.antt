-- ===== src/Submit/Daemon/Lifecycle.antt =====
-- `New`, `Start` and `Stop` of the daemon.
use shortcut.Prelude.{
  ℕ, zero, suc, ◌+◌, String, Bytes, true, false, List, [], ◌∷◌, none, some, ◌⊎◌, inl, inr, ◌==◌,
  if◌then◌else◌,
}
use shortcut.Runtime.{
  Call, Env, Error, Exec, ok, panic, blocked, pure, modify, tell, ◌>>=◌, ◌>>◌, Level,
}
use shortcut.Submit.Metrics.{get_metrics}

-- `Daemon`: its wait group and the context of its workers stand in the world. `New` leaves its task
-- service nil.
pub record Daemon : Type 0 where
  pub num_workers : ℕ
  pub queue_size : ℕ

unfoldable pub new : ℕ → ℕ → Daemon
new num_workers queue_size = record { num_workers = num_workers; queue_size = queue_size }

-- The loop of `Start`: worker `i + 1` in round `i`.
unfoldable pub spawn_workers : ℕ → ℕ → Exec (Unit {0})
spawn_workers zero i = pure tt
spawn_workers (suc left) i = tell (Call.spawn "worker" ((i + 1) ∷ [])) >> spawn_workers left (i + 1)

unfoldable pub start : Daemon → Exec (Unit {0})
unfolding spawn_workers
start d = modify (λ w. record w { worker_ctx = some false }) >> spawn_workers d.num_workers 0

-- `workerCancel()`, nil before `Start`.
unfoldable pub cancel_workers : Exec (Unit {0})
cancel_workers w = elim w.worker_ctx [
  | none ↦ (panic "invalid memory address or nil pointer dereference", w)
  | some _ ↦ (ok tt, record w { worker_ctx = some true })
]

-- `<-doneCh`, closed when the wait group is at 0, seen with no other goroutine.
unfoldable pub wait : Exec (Unit {0})
wait w = if w.wait_group == 0 then (ok tt, w) else (blocked, w)

unfoldable pub log_all : List String → Exec (Unit {0})
log_all [] = pure tt
log_all (m ∷ ms) = tell (Call.log Level.info m) >> log_all ms

-- The error of `json.MarshalIndent`.
unfoldable pub formatted : Error ⊎ Bytes → Exec Bytes
formatted (inl e) = tell (Call.log Level.error "Failed to format metrics") >> pure []
formatted (inr text) = pure text

module _ (env : Env) where
  unfoldable pub log_final_metrics : Exec (Unit {0})
  unfolding get_metrics formatted
  log_final_metrics = do
    metrics ← get_metrics env
    text ← formatted (env.marshal metrics)
    tell (Call.log_text Level.info text)

  unfoldable pub stop : Exec (Unit {0})
  unfolding cancel_workers wait log_all log_final_metrics
  stop = do
    cancel_workers
    wait
    log_all (
        "submitted tasks:" ∷ "unavailable service:" ∷ "errors:" ∷ "timeouts:" ∷ "active tasks:"
        ∷ "All workers have stopped" ∷ [])
    log_final_metrics
