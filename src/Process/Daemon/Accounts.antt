-- ===== src/Process/Daemon/Accounts.antt =====
-- What the metrics and the list of tasks that were not processed say of the calls made to the API.
use shortcut.Prelude.{
  ℕ, String, Bytes, bytes_eq_refl, codes, List, ◌∷◌, Option, none, some, ◌⊎◌, inl, inr, ◌≡◌, refl,
  sym, ap, ◌∙◌, arith, Bool, true, false, ◌||◌,
}
use shortcut.Runtime.{
  Call, Env, Error, World, XStream, task_counter, error_counter, as_custom, is_error, is_deadline,
  is_canceled, Level, redis_nil,
}
use shortcut.Runtime.Keeps.{Keeps}
use shortcut.ClickHouse.{has_key}
use shortcut.ClickHouse.Keys.{insert_key_lem}
use shortcut.Metrics.Counts.{count, increments}
use shortcut.Process.Domain.{Task}
use shortcut.Process.Tasks.{TaskRepository}
use shortcut.Process.Dlq.{MinIo}
use shortcut.Process.Bus.{Decoder, consume_tasks}
use shortcut.Process.Daemon.Batch.{consumer, calls_to_read}
use shortcut.Process.Bus.Flat.{messages_of, as_one_batch, consume_tasks_flat}
use shortcut.Process.Daemon.Handler.{handle_task}
use shortcut.Process.Daemon.Books.{
  tally, api_calls, added, removed, observed, answered_well, failed_ids, IsBalanced,
}
use shortcut.Process.Daemon.Balance.{
  handle_task-handled, started, handled, recorded, custom_calls, timeout_calls,
}
use shortcut.Process.Daemon.Lifecycle.{Daemon, worker}
use shortcut.Process.Daemon.Keeping.{Plain, with_call, consume_messages-Keeps, worker-Keeps}

-- What counters of errors and lines of the log do not change, the record of a failed call does not.
pub recorded-same {ℓ} :
    {X : Type ℓ} (g : List Call → X) (e : Error) (h : List Call)
    → ((l : Bytes) (h : List Call) → g (Call.counter_inc error_counter l ∷ h) ≡ g h)
    → ((l : Level) (m : String) (h : List Call) → g (Call.log l m ∷ h) ≡ g h)
    → g (recorded (some e) h) ≡ g h
recorded-same g e h a b =
    timed_out (is_error e is_deadline || is_error e is_canceled) ∙ custom (as_custom e)
  where
    custom : (o : Option String) → g (custom_calls o h) ≡ g h
    custom none = refl
    custom (some m) = a (codes "error") _ ∙ b Level.error "External API error" h

    timed_out :
        (t : Bool)
        → g (timeout_calls t (custom_calls (as_custom e) h)) ≡ g (custom_calls (as_custom e) h)
    timed_out false = refl
    timed_out true = a (codes "timeout") _

recorded-tally :
    (f : Call → ℕ) (e : Error) (h : List Call)
    → ((l : Bytes) → f (Call.counter_inc error_counter l) ≡ 0)
    → ((l : Level) (m : String) → f (Call.log l m) ≡ 0)
    → tally f (recorded (some e) h) ≡ tally f h
unfolding tally
recorded-tally f e h a b =
    recorded-same (tally f) e h (λ l h. omega (arith, a l)) (λ l m h. omega (arith, b l m))

module _ (env : Env) where
  -- A call that the books do not see.
  pub record IsUnseen (c : Call) (h : List Call) : Type 0 where
    pub same_calls : api_calls c ≡ 0
    pub same_added : added c ≡ 0
    pub same_removed : removed c ≡ 0
    pub same_observed : observed c ≡ 0
    pub same_well : answered_well env (c ∷ h) ≡ answered_well env h
    pub same_failed : failed_ids env (c ∷ h) ≡ failed_ids env h
    pub same_count : count task_counter (codes "true") (c ∷ h) ≡ count task_counter (codes "true") h

  pub Plain-IsUnseen : (c : Call) → Plain c → (h : List Call) → IsUnseen c h
  unfolding answered_well failed_ids count increments
  Plain-IsUnseen (Call.x_read_group _ _ _ _) q h = absurd q
  Plain-IsUnseen (Call.get_something _ _) q h = absurd q
  Plain-IsUnseen (Call.gauge_add _ _) q h = absurd q
  Plain-IsUnseen (Call.gauge_sub _ _) q h = absurd q
  Plain-IsUnseen (Call.observe _) q h = absurd q
  Plain-IsUnseen (Call.counter_inc _ _) q h = absurd q
  Plain-IsUnseen (Call.log l m) q h = record {
    same_calls = refl;
    same_added = refl;
    same_removed = refl;
    same_observed = refl;
    same_well = refl;
    same_failed = refl;
    same_count = refl;
  }
  Plain-IsUnseen _ q h = record {
    same_calls = refl;
    same_added = refl;
    same_removed = refl;
    same_observed = refl;
    same_well = refl;
    same_failed = refl;
    same_count = refl;
  }

  module _ (n : ℕ) where
    IsBalanced-unseen :
        (c : Call) (w : World)
        → IsUnseen c w.history
        → IsBalanced env n w
        → IsBalanced env n (with_call c w)
    unfolding tally
    IsBalanced-unseen c w u b = record {
      in_work = b.in_work;
      entered = omega (arith, b.entered, u.same_added, u.same_calls);
      left = omega (arith, b.left, u.same_removed, u.same_calls);
      measured = omega (arith, b.measured, u.same_observed, u.same_calls);
      processed = u.same_count ∙ b.processed ∙ sym u.same_well;
      once = b.once;
      unprocessed = λ id. b.unprocessed id ∙ ap (has_key id) (sym u.same_failed);
    }

    handled-IsBalanced :
        (worker_id : ℕ) (task : Task) (w : World) (answer : Option Error)
        → env.api_reply (started env worker_id task w.history) ≡ answer
        → IsBalanced env n w
        → IsBalanced env n (handled env worker_id task w answer)
    unfolding tally answered_well failed_ids count increments has_key
    handled-IsBalanced worker_id task w none e b = record {
      in_work = b.in_work;
      entered = omega (arith, b.entered);
      left = omega (arith, b.left);
      measured = omega (arith, b.measured);
      processed = ground (arith, e, b.processed, bytes_eq_refl (codes "true"));
      once = b.once;
      unprocessed = λ id. b.unprocessed id ∙ ground (arith, e);
    }
    handled-IsBalanced worker_id task w (some x) e b =
        let h = started env worker_id task w.history in
        let (single, has) = insert_key_lem (env.uuid_string task.id) w.storage b.once in
        let calls = recorded-tally api_calls x h (λ l. refl) (λ l m. refl) in
        record {
          in_work = b.in_work;
          entered =
              omega (arith, b.entered, recorded-tally added x h (λ l. refl) (λ l m. refl), calls);
          left = omega (arith, b.left, recorded-tally removed x h (λ l. refl) (λ l m. refl), calls);
          measured =
              omega
                (arith, b.measured, recorded-tally observed x h (λ l. refl) (λ l m. refl), calls);
          processed =
              recorded-same (count task_counter (codes "true")) x h (λ l h. refl) (λ l m h. refl)
              ∙ b.processed
              ∙ ground (arith, e)
              ∙ sym (recorded-same (answered_well env) x h (λ l h. refl) (λ l m h. refl));
          once = single;
          unprocessed = λ id.
              has id
              ∙ ground (arith, e, b.unprocessed id)
              ∙ ap (has_key id)
                  (sym (recorded-same (failed_ids env) x h (λ l h. refl) (λ l m h. refl)));
        }

    handle_task-IsBalanced :
        (worker_id : ℕ) (task : Task) → Keeps (IsBalanced env n) (handle_task env worker_id task)
    handle_task-IsBalanced worker_id task = record {
      kept = λ w b. rw handle_task-handled (
          handled-IsBalanced worker_id task w (env.api_reply (started env worker_id task w.history))
            refl b);
    }

    IsBalanced-grow :
        (c : Call) → Plain c → (w : World) → IsBalanced env n w → IsBalanced env n (with_call c w)
    IsBalanced-grow c q w = IsBalanced-unseen c w (Plain-IsUnseen c q w.history)

    module _ (unmarshal : Decoder) (writer : Option (Option MinIo)) (r : TaskRepository)
        (worker_id : ℕ) where
      read-IsBalanced :
          (w : World)
          → IsBalanced env n w
          → IsBalanced env n
              (record w { history = calls_to_read env unmarshal writer r worker_id w })
      unfolding answered_well failed_ids count increments
      read-IsBalanced w = IsBalanced-unseen _ w (record {
        same_calls = refl;
        same_added = refl;
        same_removed = refl;
        same_observed = refl;
        same_well = refl;
        same_failed = refl;
        same_count = refl;
      })

      one_batch-IsBalanced :
          (reply : Error ⊎ List XStream) (w : World)
          → IsBalanced env n w
          → IsBalanced env n
              (as_one_batch env unmarshal
                (handle_task env)
                (consumer env unmarshal writer r worker_id)
                worker_id
                reply
                w).1
      unfolding as_one_batch
      one_batch-IsBalanced (inl redis_nil) w b = b
      one_batch-IsBalanced (inl e) w b = b
      one_batch-IsBalanced (inr ss) w b =
          (consume_messages-Keeps (IsBalanced env n) IsBalanced-grow env handle_task-IsBalanced
              unmarshal writer r worker_id (messages_of ss)).kept
            w b

      consume_tasks-IsBalanced : Keeps (IsBalanced env n) (
          consume_tasks env unmarshal
            (handle_task env)
            (consumer env unmarshal writer r worker_id)
            worker_id)
      consume_tasks-IsBalanced = record {
        kept = λ w b.
            rw
              (consume_tasks_flat env unmarshal (handle_task env)
                (consumer env unmarshal writer r worker_id) worker_id w)
              (one_batch-IsBalanced _ _ (read-IsBalanced w b));
      }

      -- A worker with the daemon's own consumer and handler keeps the books in balance over any
      -- number of rounds, whatever Redis, MinIO, ClickHouse and the API answer and whatever the
      -- messages hold: if they were in balance, then also behind its rounds the wait group is what
      -- it was, each call of the API was added to the active tasks, taken from them and measured
      -- once, the tasks counted as processed are as many as the calls answered by nil, and the
      -- tasks kept as not processed are those of the other calls, each once.
      pub worker-IsBalanced :
          (d : Daemon) (rounds : List Bool) (w : World)
          → d.consumer ≡ consumer env unmarshal writer r worker_id
          → IsBalanced env n w
          → IsBalanced env n (worker env unmarshal d worker_id rounds w).1
      worker-IsBalanced d rounds w e =
          (worker-Keeps (IsBalanced env n) (λ l m. IsBalanced-grow (Call.log l m) tt) env unmarshal
              d worker_id rounds (rw e consume_tasks-IsBalanced)).kept
            w
