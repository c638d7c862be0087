-- ===== src/Process/Daemon/Simulated.antt =====
-- `handleTask` of daemon.go, whose API is the simulated one of process_service/extapi/client.go.
use shortcut.Prelude.{
  ℕ, ◌+◌, Bytes, codes, bytes_eq, Bool, Option, none, some, ◌≡◌, refl, arith, ◌||◌, ◌&&◌, ◌==◌, ltb,
  if◌then◌else◌, ◌∙◌,
}
use shortcut.Runtime.{
  Env, Error, custom, deadline_exceeded, canceled, World, Outcome, ok, err, panic, blocked, checked,
  task_counter, error_counter, is_error, as_custom,
}
use shortcut.ClickHouse.{insert_key}
use shortcut.Metrics.Counts.{count, increments}
use shortcut.Process.Domain.{Task}
use shortcut.Process.ExtApi.{Ctx, get_something}
use shortcut.Process.ExtApi.Deadline.{processing_timeout}
use shortcut.Process.Daemon.Handler.{handle_task}
use shortcut.Process.Daemon.Balance.{started, handled, handle_task-handled}

-- `processingCtx`
abbrev pub processing_ctx : Option ℕ → Ctx
processing_ctx cancelled_at = record { deadline = processing_timeout; cancelled_at = cancelled_at }

-- What becomes of a task: the call fails by itself, the context ends before the call does, or the
-- task is processed.
pub data Fate : Type 0 where
  fails times_out ends_cancelled is_processed : Fate

-- What ends the context of `handleTask` first: the cancellation of the workers, at a time of the
-- call in milliseconds, or the timeout.
abbrev pub limit : Option ℕ → ℕ × Fate
limit none = (processing_timeout, times_out)
limit (some t) =
    if ltb t processing_timeout then (t, ends_cancelled) else (processing_timeout, times_out)

-- The fate by the draws: one draw in ten fails, and any other call sleeps for a second and more.
abbrev pub fate : Option ℕ → ℕ → ℕ → Bool → Fate
fate cancelled_at sleep_draw fail_draw context_first =
    let (t, by) = limit cancelled_at in
    let slept = 1000 + sleep_draw in
    if fail_draw == 0
    then fails
    else if ltb t slept || (t == slept) && context_first
    then by
    else is_processed

abbrev pub verdict : Fate → Option Error
verdict fails = some (custom "External API simulated failure")
verdict times_out = some deadline_exceeded
verdict ends_cancelled = some canceled
verdict is_processed = none

-- The error that a caller of `GetSomething` sees.
abbrev pub seen : Outcome (Unit {0}) → Option Error
seen (ok _) = none
seen (err e) = some e
seen (panic _) = none
seen blocked = none

-- One for the counter that a fate increments.
abbrev pub as_processed : Fate → ℕ
as_processed is_processed = 1
as_processed fails = 0
as_processed times_out = 0
as_processed ends_cancelled = 0

abbrev pub as_error : Fate → ℕ
as_error fails = 1
as_error times_out = 0
as_error ends_cancelled = 0
as_error is_processed = 0

abbrev pub as_timeout : Fate → ℕ
as_timeout times_out = 1
as_timeout ends_cancelled = 1
as_timeout fails = 0
as_timeout is_processed = 0

-- What the handler returns and leaves behind for a fate.
pub record Settles (f : Fate) (id : Bytes) (w : World) (x : Outcome (Unit {0}) × World)
    : Type 0 where
  pub returns : x.0 ≡ checked (verdict f)
  pub processed :
      count task_counter (codes "true") x.1.history
      ≡ as_processed f + count task_counter (codes "true") w.history
  pub errors :
      count error_counter (codes "error") x.1.history
      ≡ as_error f + count error_counter (codes "error") w.history
  pub timeouts :
      count error_counter (codes "timeout") x.1.history
      ≡ as_timeout f + count error_counter (codes "timeout") w.history
  pub kept : x.1.storage ≡ (if as_processed f == 1 then w.storage else insert_key id w.storage)

seen-fate :
    (cancelled_at : Option ℕ) (sleep_draw fail_draw : ℕ) (context_first : Bool) (v : World)
    → seen (get_something (processing_ctx cancelled_at) sleep_draw fail_draw context_first v).0
      ≡ verdict (fate cancelled_at sleep_draw fail_draw context_first)
unfolding get_something
seen-fate none s f b v = ground arith
seen-fate (some t) s f b v = ground arith

module _ (env : Env) (worker_id : ℕ) (task : Task) (w : World) where
  handled-Settles :
      (f : Fate)
      → Settles f
          (env.uuid_string task.id)
          w
          (checked (verdict f), handled env worker_id task w (verdict f))
  unfolding count increments bytes_eq is_error as_custom
  handled-Settles fails = record {
    returns = refl;
    processed = ground arith;
    errors = ground arith;
    timeouts = ground arith;
    kept = refl;
  }
  handled-Settles times_out = record {
    returns = refl;
    processed = ground arith;
    errors = ground arith;
    timeouts = ground arith;
    kept = refl;
  }
  handled-Settles ends_cancelled = record {
    returns = refl;
    processed = ground arith;
    errors = ground arith;
    timeouts = ground arith;
    kept = refl;
  }
  handled-Settles is_processed = record {
    returns = refl;
    processed = ground arith;
    errors = ground arith;
    timeouts = ground arith;
    kept = refl;
  }

  -- If the API answers as the simulated one does under the handler's timeout of three seconds, for
  -- any draws and any time at which the workers are cancelled, then the handler returns and counts
  -- each task once: a call that was drawn to fail as an error, one that outlasts the timeout or the
  -- cancellation as a timeout, any other as processed. The error is returned, and the task is kept
  -- among those not processed unless it was processed.
  pub handle_task-Settles :
      (cancelled_at : Option ℕ) (sleep_draw fail_draw : ℕ) (context_first : Bool) (v : World)
      → env.api_reply (started env worker_id task w.history)
        ≡ seen (get_something (processing_ctx cancelled_at) sleep_draw fail_draw context_first v).0
      → Settles
          (fate cancelled_at sleep_draw fail_draw context_first)
          (env.uuid_string task.id)
          w
          (handle_task env worker_id task w)
  handle_task-Settles c s f b v e =
      rw (handle_task-handled env worker_id task w, e ∙ seen-fate c s f b v)
        (handled-Settles (fate c s f b))
