-- ===== src/Process/Daemon/Balance.antt =====
-- What `handleTask` leaves behind, however the API answers.
use shortcut.Prelude.{
  ℕ, ◌-◌, Bytes, codes, List, ◌∷◌, Option, none, some, ◌≡◌, arith, true, false, Bool, Option-cases,
  inl, inr, String, ◌||◌,
}
use shortcut.Runtime.{
  Call, Env, Error, World, Level, task_counter, error_counter, active_tasks, as_custom, is_error,
  is_deadline, is_canceled, checked,
}
use shortcut.ClickHouse.{insert_key}
use shortcut.Process.Domain.{Task}
use shortcut.Process.Daemon.Handler.{handle_task}

-- The counters of an answer: one for a task that was processed, one for an error of the API itself,
-- and one for the end of the context.
abbrev pub custom_calls : Option String → List Call → List Call
custom_calls none h = h
custom_calls (some _) h =
    Call.counter_inc error_counter (codes "error") ∷ Call.log Level.error "External API error" ∷ h

abbrev pub timeout_calls : Bool → List Call → List Call
timeout_calls true h = Call.counter_inc error_counter (codes "timeout") ∷ h
timeout_calls false h = h

abbrev pub recorded : Option Error → List Call → List Call
recorded none h = Call.counter_inc task_counter (codes "true") ∷ h
recorded (some e) h =
    timeout_calls (is_error e is_deadline || is_error e is_canceled) (custom_calls (as_custom e) h)

-- A task whose call failed is kept among those not processed.
abbrev pub kept : Option Error → Bytes → List Bytes → List Bytes
kept none id ids = ids
kept (some _) id ids = insert_key id ids

module _ (env : Env) (worker_id : ℕ) (task : Task) where
  -- The calls up to the one of the API.
  abbrev pub started : List Call → List Call
  started h =
      Call.get_something (env.uuid_string task.id) worker_id
      ∷ Call.gauge_add active_tasks 1
      ∷ Call.log Level.info "start processing"
      ∷ h

  -- The world after the handler, for an answer of the API.
  abbrev pub handled : World → Option Error → World
  handled w answer =
      let begin =
        env.now
          (Call.gauge_add active_tasks 1 ∷ Call.log Level.info "start processing" ∷ w.history) in
      let calls = recorded answer (started w.history) in
      record w {
        history = Call.gauge_sub active_tasks 1 ∷ Call.observe (env.now calls - begin) ∷ calls;
        storage = kept answer (env.uuid_string task.id) w.storage;
      }

  -- The handler never panics and never blocks: it returns the answer of the API. The wait group and
  -- the active tasks are back where they were, the duration is observed once, the counters are
  -- those of the answer, and the task is kept as not processed exactly if the answer is an error.
  pub handle_task-handled :
      (w : World)
      → let answer = env.api_reply (started w.history) in
        handle_task env worker_id task w ≡ (checked answer, handled w answer)
  unfolding handle_task
  handle_task-handled w = elim (Option-cases (env.api_reply (started w.history))) [
    | inl e ↦ ground arith
    | inr (x, e) ↦ elim (Option-cases (as_custom x)) [
      | inl f ↦ ground arith
      | inr (m, f) ↦ ground arith
    ]
  ]
