-- ===== src/Process/Daemon/Calm.antt =====
-- Making the daemon and stopping it keep every predicate that calls other than a `go` statement
-- keep.
use shortcut.Prelude.{arith, refl, ℕ, String, List, [], ◌∷◌, Option, ◌⊎◌, inl, inr, Bytes}
use shortcut.Runtime.{Call, Env, Error, pure, tell, call, checked, Level}
use shortcut.Runtime.Keeps.{
  Keeps, OnCalls, keeps, >>=-Keeps, try-Keeps, pure-Keeps, if-Keeps, silent-Keeps,
}
use shortcut.Metrics.{get_metrics}
use shortcut.Wiring.Calm.{Calm, tell-Calm, call-Calm}
use shortcut.Process.Dlq
use shortcut.Process.Dlq.{new_min_io}
use shortcut.Process.Bus.{StatusHook}
use shortcut.Process.Daemon.Lifecycle.{
  new_writer, ensure_group, new, cancel_workers, wait, log_all, formatted, log_final_metrics, stop,
}

module _ (K : List Call → Type 0) (grow : (c : Call) → Calm c → (h : List Call) → K h → K (c ∷ h))
    (env : Env) where
  new_min_io-Keeps : (conf : Option Dlq.Config) → Keeps (OnCalls K) (new_min_io env conf)
  unfolding new_min_io
  new_min_io-Keeps conf = search (keeps, call-Calm)

  new_writer-Keeps : (conf : Option Dlq.Config) → Keeps (OnCalls K) (new_writer env conf)
  unfolding new_writer
  new_writer-Keeps conf = search (keeps, tell-Calm, new_min_io-Keeps)

  ensure_group-Keeps : Keeps (OnCalls K) (ensure_group env)
  unfolding ensure_group
  ensure_group-Keeps =
      try-Keeps (OnCalls K)
        (call (Call.x_group_create "tasks" "task_group" "$") (λ h. checked (env.redis_reply h))) _
        pure
        (call-Calm K grow (Call.x_group_create "tasks" "task_group" "$")
          (λ h. checked (env.redis_reply h)) tt)
        (λ e. if-Keeps (OnCalls K) _ (pure tt) _ (pure-Keeps (OnCalls K) tt) (
          tell-Calm K grow (Call.log Level.warn "failed to ensure redis stream consumer group") tt))
        (λ a. pure-Keeps (OnCalls K) a)

  pub daemon_new-Keeps :
      (conf : Option Dlq.Config) (num_workers queue_size : ℕ) (hook : StatusHook)
      → Keeps (OnCalls K) (new env conf num_workers queue_size hook)
  unfolding new
  daemon_new-Keeps conf n q hook = search (keeps, new_writer-Keeps, ensure_group-Keeps)

  log_all-Keeps : (ms : List String) → Keeps (OnCalls K) (log_all env ms)
  unfolding log_all
  log_all-Keeps [] = pure-Keeps (OnCalls K) tt
  log_all-Keeps (m ∷ ms) =
      >>=-Keeps (OnCalls K) (tell (Call.log Level.info m)) (λ _. log_all env ms)
        (tell-Calm K grow (Call.log Level.info m) tt) (λ _. log_all-Keeps ms)

  formatted-Keeps : (r : Error ⊎ Bytes) → Keeps (OnCalls K) (formatted env r)
  unfolding formatted
  formatted-Keeps (inl e) =
      >>=-Keeps (OnCalls K) (tell (Call.log Level.error "Failed to format metrics")) (λ _. pure [])
        (tell-Calm K grow (Call.log Level.error "Failed to format metrics") tt)
        (λ _. pure-Keeps (OnCalls K) [])
  formatted-Keeps (inr text) = pure-Keeps (OnCalls K) text

  get_metrics-Keeps : Keeps (OnCalls K) (get_metrics env)
  unfolding get_metrics
  get_metrics-Keeps = silent-Keeps K (get_metrics env) (λ w. refl)

  log_final_metrics-Keeps : Keeps (OnCalls K) (log_final_metrics env)
  unfolding log_final_metrics
  log_final_metrics-Keeps = search (keeps, tell-Calm, get_metrics-Keeps, formatted-Keeps) depth 12

  cancel_workers-Keeps : Keeps (OnCalls K) (cancel_workers env)
  unfolding cancel_workers
  cancel_workers-Keeps = silent-Keeps K (cancel_workers env) (λ w. ground arith)

  wait-Keeps : Keeps (OnCalls K) (wait env)
  unfolding wait
  wait-Keeps = silent-Keeps K (wait env) (λ w. ground arith)

  pub daemon_stop-Keeps : Keeps (OnCalls K) (stop env)
  unfolding stop
  daemon_stop-Keeps =
      search (keeps, log_all-Keeps, log_final_metrics-Keeps, cancel_workers-Keeps, wait-Keeps)
