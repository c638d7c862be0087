-- ===== src/Metrics/Recorder.antt =====
-- metrics.go: `Recorder`. Its counters live in the Prometheus client, so a method is a call to it,
-- and a total is read from it; a failed read counts as 0.
use shortcut.Prelude.{
  ℕ, Bytes, codes, itoa, Bool, true, false, String, List, [], ◌∷◌, ◌⊎◌, inl, inr,
}
use shortcut.Runtime.{
  Call, Env, Error, Exec, ◌>>=◌, pure, gets, tell, Counter, Gauge, task_counter, status_counter,
  error_counter, mem_used, active_tasks, http_requests_inflight, Field,
}

abbrev pub or_zero : Error ⊎ ℕ → ℕ
or_zero (inl _) = 0
or_zero (inr n) = n

-- `strconv.FormatBool`
abbrev pub format_bool : Bool → Bytes
format_bool true = codes "true"
format_bool false = codes "false"

unfoldable pub inc_processed_tasks : Bool → Exec (Unit {0})
inc_processed_tasks processed = tell (Call.counter_inc task_counter (format_bool processed))

unfoldable pub inc_http_response_status : ℕ → Exec (Unit {0})
inc_http_response_status status_code = tell (Call.counter_inc status_counter (itoa status_code))

unfoldable pub inc_task_error : Exec (Unit {0})
inc_task_error = tell (Call.counter_inc error_counter (codes "error"))

unfoldable pub inc_task_timeout : Exec (Unit {0})
inc_task_timeout = tell (Call.counter_inc error_counter (codes "timeout"))

unfoldable pub add_active_tasks : ℕ → Exec (Unit {0})
add_active_tasks count = tell (Call.gauge_add active_tasks count)

unfoldable pub dec_active_tasks : ℕ → Exec (Unit {0})
dec_active_tasks count = tell (Call.gauge_sub active_tasks count)

unfoldable pub observe_task_duration : ℕ → Exec (Unit {0})
observe_task_duration duration = tell (Call.observe duration)

unfoldable pub add_inflight_requests : ℕ → Exec (Unit {0})
add_inflight_requests quantity = tell (Call.gauge_add http_requests_inflight quantity)

module _ (env : Env) where
  unfoldable counter_total : Counter → Bytes → Exec ℕ
  counter_total c l = gets (λ w. or_zero (env.counter_value w.history c l))

  unfoldable gauge_total : Gauge → Exec ℕ
  gauge_total g = gets (λ w. or_zero (env.gauge_value w.history g))

  unfoldable pub get_processed_tasks_total : Exec ℕ
  unfolding counter_total
  get_processed_tasks_total = counter_total task_counter (codes "true")

  unfoldable pub get_mem_used : Exec ℕ
  unfolding gauge_total
  get_mem_used = gauge_total mem_used

  unfoldable pub get_active_tasks_total : Exec ℕ
  unfolding gauge_total
  get_active_tasks_total = gauge_total active_tasks

  unfoldable pub get_unavailable_total : Exec ℕ
  unfolding counter_total
  get_unavailable_total = counter_total status_counter (codes "503")

  unfoldable pub get_submitted_tasks_total : Exec ℕ
  unfolding counter_total
  get_submitted_tasks_total = counter_total status_counter (codes "202")

  unfoldable pub get_task_errors_total : Exec ℕ
  unfolding counter_total
  get_task_errors_total = counter_total error_counter (codes "error")

  unfoldable pub get_timeouts_total : Exec ℕ
  unfolding counter_total
  get_timeouts_total = counter_total error_counter (codes "timeout")

  unfoldable pub get_metrics : Exec (List (String × Field))
  unfolding get_mem_used get_active_tasks_total get_unavailable_total get_submitted_tasks_total
      get_task_errors_total get_timeouts_total get_processed_tasks_total
  get_metrics = do
    mem ← get_mem_used
    active ← get_active_tasks_total
    unavailable ← get_unavailable_total
    submitted ← get_submitted_tasks_total
    errors ← get_task_errors_total
    timeouts ← get_timeouts_total
    processed ← get_processed_tasks_total
    pure (
        ("mem_used_bytes", Field.number mem)
        ∷ ("active_tasks", Field.number active)
        ∷ ("unavailable_total", Field.number unavailable)
        ∷ ("submitted_tasks_total", Field.number submitted)
        ∷ ("task_errors_total", Field.number errors)
        ∷ ("timeouts_total", Field.number timeouts)
        ∷ ("processed_tasks_total", Field.number processed)
        ∷ [])
