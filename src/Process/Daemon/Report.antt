-- ===== src/Process/Daemon/Report.antt =====
-- The numbers that `logFinalMetrics` reports once the workers are done.

use shortcut.Prelude.{
  ℕ, ◌-◌, ◌≤◌, ◌<◌, ◌^◌, ◌∙◌, Bytes, codes, length, List, String, [], ◌∷◌, ◌≡◌, inr, ap, refl,
  arith,
}
use shortcut.Runtime.{
  Call, Env, World, ok, Counter, mem_used, active_tasks, task_counter, status_counter,
  error_counter, Field,
}
use shortcut.ClickHouse.{has_key}
use shortcut.Metrics.Counts.{count, IsPrometheus}
use shortcut.Metrics.{or_zero}
use shortcut.Process.Queue.{Shows}
use shortcut.Process.Queue.Refinement.{VisitsEachKey}
use shortcut.Process.Daemon.Books.{tally, added, removed, answered_well, failed_ids, IsBalanced}
use shortcut.Process.Daemon.Lifecycle.{final_report}

-- What Prometheus documents of a gauge: its value is what was added less what was taken. A
-- `float64` is exact below 2 ^ 53.
pub record IsGauge (env : Env) : Type 0 where
  pub level :
      (h : List Call)
      → tally removed h ≤ tally added h
      → tally added h < 2 ^ 53
      → env.gauge_value h active_tasks ≡ inr (tally added h - tally removed h)

-- The report when no task is active: as many tasks processed as calls of the API were answered by
-- nil, and the tasks not processed.
abbrev pub report : Env → World → List Bytes → List (String × Field)
report env w shown =
    ("mem_used_bytes", Field.number (or_zero (env.gauge_value w.history mem_used)))
    ∷ ("active_tasks", Field.number 0)
    ∷ ("unavailable_total", Field.number (count status_counter (codes "503") w.history))
    ∷ ("submitted_tasks_total", Field.number (count status_counter (codes "202") w.history))
    ∷ ("task_errors_total", Field.number (count error_counter (codes "error") w.history))
    ∷ ("timeouts_total", Field.number (count error_counter (codes "timeout") w.history))
    ∷ ("processed_tasks_total", Field.number (answered_well env w.history))
    ∷ ("not_processed_tasks_count", Field.number (length shown))
    ∷ ("not_processed_tasks", Field.list shown)
    ∷ []

-- If counters and gauges work as Prometheus documents them and stay below 2 ^ 53, and a `range` over
-- a map visits every key once, then from balanced books with no task in work the report of
-- `logFinalMetrics` is made with no change of the state and is exact: no active task, as many
-- processed tasks as calls of the API were answered by nil, and as the tasks not processed those of
-- the other calls, each once, with their number.
pub final_report-exact :
    (env : Env) (w : World)
    → IsPrometheus env
    → IsGauge env
    → VisitsEachKey env
    → ((c : Counter) (l : Bytes) → count c l w.history < 2 ^ 53)
    → tally added w.history < 2 ^ 53
    → IsBalanced env 0 w
    → (shown : List Bytes) × (final_report env w ≡ (ok (report env w shown), w))
      × Shows shown (λ id. has_key id (failed_ids env w.history))
unfolding final_report
final_report-exact env w p g v small few b =
    let active : env.gauge_value w.history active_tasks ≡ inr 0 =
      g.level w.history (omega (arith, b.entered, b.left)) few
      ∙ ap (λ (n : ℕ). inr n) (omega (arith, b.entered, b.left)) in
    let counted = λ (c : Counter) (l : Bytes). p.counts w.history c l (small c l) in
    let shown = env.map_order w.history w.storage in
    (
      shown,
      rw
          (
            active,
            counted status_counter (codes "503"),
            counted status_counter (codes "202"),
            counted error_counter (codes "error"),
            counted error_counter (codes "timeout"),
            counted task_counter (codes "true"),
            b.processed,
          )
          refl,
      record {
        once = v.once w.history w.storage b.once;
        same = λ id. v.same w.history w.storage id ∙ b.unprocessed id;
      },
    )
