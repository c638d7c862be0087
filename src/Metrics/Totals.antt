-- ===== src/Metrics/Totals.antt =====
-- What the totals of the recorder say of the increments made.
use shortcut.Prelude.{◌<◌, ◌^◌, ◌≡◌, refl, [], ◌∷◌, codes, Bytes}
use shortcut.Runtime.{
  Env, World, ok, Counter, mem_used, active_tasks, task_counter, status_counter, error_counter,
  Field,
}
use shortcut.Metrics.Counts.{count, IsPrometheus}
use shortcut.Metrics.Recorder.{get_metrics, or_zero}

-- While every count fits a `float64` exactly, the report holds under each name the number of
-- increments made with the label that the name stands for, and reading it changes nothing.
pub get_metrics-count :
    (env : Env) (w : World)
    → IsPrometheus env
    → ((c : Counter) (l : Bytes) → count c l w.history < 2 ^ 53)
    → get_metrics env w ≡ (
      ok (
          ("mem_used_bytes", Field.number (or_zero (env.gauge_value w.history mem_used)))
          ∷ ("active_tasks", Field.number (or_zero (env.gauge_value w.history active_tasks)))
          ∷ ("unavailable_total", Field.number (count status_counter (codes "503") w.history))
          ∷ ("submitted_tasks_total", Field.number (count status_counter (codes "202") w.history))
          ∷ ("task_errors_total", Field.number (count error_counter (codes "error") w.history))
          ∷ ("timeouts_total", Field.number (count error_counter (codes "timeout") w.history))
          ∷ ("processed_tasks_total", Field.number (count task_counter (codes "true") w.history))
          ∷ []),
      w,
    )
unfolding get_metrics
get_metrics-count env w p small =
    rw
      (
        p.counts w.history status_counter (codes "503") (small status_counter (codes "503")),
        p.counts w.history status_counter (codes "202") (small status_counter (codes "202")),
        p.counts w.history error_counter (codes "error") (small error_counter (codes "error")),
        p.counts w.history error_counter (codes "timeout") (small error_counter (codes "timeout")),
        p.counts w.history task_counter (codes "true") (small task_counter (codes "true")),
      )
      refl
