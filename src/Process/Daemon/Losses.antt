-- ===== src/Process/Daemon/Losses.antt =====
-- No message is lost without a line in the log.
use mathlib.Core.List.{reverse, reverse_aux}
use shortcut.Prelude.{
  ℕ, suc, ◌+◌, ◌≤◌, String, str_eq, Bytes, codes, List, [], ◌∷◌, ◌++◌, length, length-append, map,
  Option, none, some, ◌⊎◌, inl, inr, ◌≡◌, refl, ap, ◌∙◌, arith, Bool, true, false, if◌then◌else◌,
  ◌||◌,
}
use shortcut.Runtime.{
  Call, error_counter, Env, Error, Exec, World, Outcome, Returns, ok, err, panic, blocked,
  on_result, try, tell, pure, XMessage, XStream, redis_nil, Level, as_custom, is_error, is_deadline,
  is_canceled,
}
use shortcut.Runtime.Keeps.{Keeps}
use shortcut.Process.Domain.{Task}
use shortcut.Process.Tasks.{TaskRepository}
use shortcut.Process.Dlq.{MinIo}
use shortcut.Process.Bus.{Decoder, consume_tasks}
use shortcut.Process.Bus.Acks.{acks}
use shortcut.Process.Bus.Flat.{messages_of, as_one_batch, consume_tasks_flat}
use shortcut.Process.Daemon.Batch.{consumer, calls_to_read, delivered, consume_tasks_prefix}
use shortcut.Process.Daemon.Handler.{handle_task}
use shortcut.Process.Daemon.Balance.{
  handle_task-handled, started, handled, recorded, custom_calls, timeout_calls,
}
use shortcut.Process.Daemon.Lifecycle.{Daemon, worker}
use shortcut.Process.Daemon.Keeping.{Plain, with_call, consume_messages-Keeps, rounds-Keeps}
use shortcut.Process.Daemon.Progress.{consume_tasks-IsTotal}
use shortcut.Process.Daemon.Deliveries.{delivered_ids, AsksNew, consume_tasks-Reads}

-- The rounds of a worker that were logged as failed.
unfoldable pub error_lines : List Call → ℕ
error_lines [] = 0
error_lines (Call.log l m ∷ h) =
    let n = error_lines h in if str_eq m "error consuming tasks" then suc n else n
error_lines (_ ∷ h) = error_lines h

error_lines-cons : (c : Call) (h : List Call) → error_lines h ≤ error_lines (c ∷ h)
unfolding error_lines
error_lines-cons (Call.log l m) h = ground arith
error_lines-cons (Call.listen a) h = omega arith
error_lines-cons _ h = omega arith

error_lines-recorded :
    (o : Option Error) (h : List Call) → error_lines h ≤ error_lines (recorded o h)
error_lines-recorded none h = error_lines-cons _ h
error_lines-recorded (some e) h = omega (
  arith,
  custom (as_custom e),
  timed_out (is_error e is_deadline || is_error e is_canceled) (custom_calls (as_custom e) h),
)
  where
    custom : (o : Option String) → error_lines h ≤ error_lines (custom_calls o h)
    custom none = omega arith
    custom (some m) = omega (
      arith,
      error_lines-cons (Call.log Level.error "External API error") h,
      error_lines-cons (Call.counter_inc error_counter (codes "error"))
          (Call.log Level.error "External API error" ∷ h),
    )

    timed_out : (t : Bool) (h : List Call) → error_lines h ≤ error_lines (timeout_calls t h)
    timed_out false h = omega arith
    timed_out true h = error_lines-cons (Call.counter_inc error_counter (codes "timeout")) h

-- What Redis documents of COUNT: a read of one stream delivers at most so many messages, if it is
-- positive.
pub record RespectsCount (env : Env) : Type 0 where
  pub few :
      (g : String) (c : Bytes) (n : ℕ) (s : String) (h : List Call)
      → 1 ≤ n
      → length (delivered (env.read_reply (Call.x_read_group g c n (s ∷ ">" ∷ []) ∷ h))) ≤ n

length-reverse_aux :
    {A : Type 0} (xs ys : List A) → length (reverse_aux xs ys) ≡ length xs + length ys
length-reverse_aux [] ys = omega arith
length-reverse_aux (x ∷ xs) ys = omega (arith, length-reverse_aux xs (x ∷ ys))

length-ids : (ms : List XMessage) → length (map (λ m. m.id) ms) ≡ length ms
length-ids [] = refl
length-ids (m ∷ ms) = omega (arith, length-ids ms)

length-reversed_ids :
    (ms : List XMessage) (xs : List Bytes)
    → length (reverse (map (λ m. m.id) ms) ++ xs) ≡ length ms + length xs
length-reversed_ids ms xs = omega (
  arith,
  length-append (reverse (map (λ m. m.id) ms)) xs,
  length-reverse_aux (map (λ m. m.id) ms) [],
  length-ids ms,
)

module _ (env : Env) (k : ℕ) where
  abbrev Lines : World → Type 0
  Lines w = k ≤ error_lines w.history

  Lines-grow : (c : Call) → Plain c → (w : World) → Lines w → Lines (with_call c w)
  Lines-grow c q w h = omega (arith, h, error_lines-cons c w.history)

  handled-Lines :
      (n : ℕ) (task : Task) (w : World) (answer : Option Error)
      → Lines w
      → Lines (handled env n task w answer)
  unfolding error_lines
  handled-Lines n task w answer h = omega (
    arith,
    h,
    error_lines-cons (Call.log Level.info "start processing") w.history,
    error_lines-recorded answer (started env n task w.history),
  )

  handle_task-Lines : (n : ℕ) (task : Task) → Keeps Lines (handle_task env n task)
  handle_task-Lines n task = record {
    kept = λ w h.
        rw handle_task-handled
          (handled-Lines n task w (env.api_reply (started env n task w.history)) h);
  }

module _ (env : Env) where
  -- Every read asked for new messages, and each message that was delivered was acknowledged or
  -- stands for a line in the log.
  pub record IsAccounted (w : World) : Type 0 where
    pub new : AsksNew env w.history
    pub accounted :
        length (delivered_ids env w.history) ≤ length (acks w.history) + error_lines w.history

module _ (env : Env) (unmarshal : Decoder) (writer : Option (Option MinIo)) (r : TaskRepository)
    (worker_id : ℕ) where
  abbrev tasks_consumed : Exec (Unit {0})
  tasks_consumed =
      consume_tasks env unmarshal (handle_task env) (consumer env unmarshal writer r worker_id)
        worker_id

  one_batch-Lines :
      (k : ℕ) (reply : Error ⊎ List XStream) (w : World)
      → Lines env k w
      → Lines env k
          (as_one_batch env unmarshal
            (handle_task env)
            (consumer env unmarshal writer r worker_id)
            worker_id
            reply
            w).1
  unfolding as_one_batch
  one_batch-Lines k (inl redis_nil) w h = h
  one_batch-Lines k (inl e) w h = h
  one_batch-Lines k (inr ss) w h =
      (consume_messages-Keeps (Lines env k) (Lines-grow env k) env (handle_task-Lines env k)
          unmarshal writer r worker_id (messages_of ss)).kept
        w h

  consume_tasks-Lines :
      (w : World) → error_lines w.history ≤ error_lines (tasks_consumed w).1.history
  unfolding error_lines
  consume_tasks-Lines w =
      rw
        (consume_tasks_flat env unmarshal (handle_task env)
          (consumer env unmarshal writer r worker_id) worker_id w)
        (one_batch-Lines (error_lines w.history) _ _ (omega arith))

  -- One round, by its outcome.
  after_round :
      (q : Outcome (Unit {0})) (w w' : World)
      → Returns q
      → AsksNew env w'.history
      → (q ≡ ok tt
          → length (delivered_ids env w'.history)
            ≤ length (acks w'.history) + error_lines w'.history)
      → length (delivered_ids env w'.history)
        ≤ suc (length (acks w'.history) + error_lines w'.history)
      → IsAccounted env
          (on_result q (λ _. tell (Call.log Level.error "error consuming tasks")) pure w').1
  unfolding delivered_ids acks error_lines
  after_round (ok tt) w w' t a good bad = record { new = a; accounted = good refl }
  after_round (err e) w w' t a good bad = record { new = a; accounted = omega (arith, bad) }
  after_round (panic m) w w' t a good bad = absurd t
  after_round blocked w w' t a good bad = absurd t

  round-IsAccounted :
      (w : World)
      → RespectsCount env
      → IsAccounted env w
      → IsAccounted env
          (try (tasks_consumed) (λ _. tell (Call.log Level.error "error consuming tasks")) pure w).1
  round-IsAccounted w redis b =
      let (taken, rest, split, acked, whole) =
        consume_tasks_prefix env unmarshal writer r worker_id w in
      let (reads, new) = consume_tasks-Reads env unmarshal writer r worker_id w b.new in
      let lines = consume_tasks-Lines w in
      let read =
        ap length reads
        ∙ length-reversed_ids
            (delivered (env.read_reply (calls_to_read env unmarshal writer r worker_id w)))
            (delivered_ids env w.history) in
      let put = ap length acked ∙ length-reversed_ids taken (acks w.history) in
      let parts = ap length split ∙ length-append taken rest in
      after_round (tasks_consumed w).0 w (tasks_consumed w).1
        ((consume_tasks-IsTotal env unmarshal writer r worker_id).returns w) new
        (λ e. omega (arith, b.accounted, lines, read, put, parts, ap length (whole e)))
        (omega (arith, b.accounted, lines, read, put, redis.few _ _ 1 _ w.history (omega arith)))

  logs-IsAccounted :
      (l : Level) (m : String) (w : World)
      → IsAccounted env w
      → IsAccounted env (with_call (Call.log l m) w)
  unfolding delivered_ids acks
  logs-IsAccounted l m w b = record {
    new = b.new;
    accounted = omega (arith, b.accounted, error_lines-cons (Call.log l m) w.history);
  }

  -- If Redis delivers at most as many messages as COUNT asks for, then a worker with the daemon's
  -- own consumer and handler loses no message without a trace over any number of rounds, whatever
  -- ClickHouse, MinIO and the API answer: the messages that were delivered to it are at most those
  -- that it acknowledged and the lines of the log "error consuming tasks" together, and each read
  -- asked for new messages only, if both held before.
  pub worker-IsAccounted :
      (d : Daemon) (rounds : List Bool) (w : World)
      → d.consumer ≡ consumer env unmarshal writer r worker_id
      → RespectsCount env
      → IsAccounted env w
      → IsAccounted env (worker env unmarshal d worker_id rounds w).1
  worker-IsAccounted d rounds w e redis b =
      (rounds-Keeps (IsAccounted env) logs-IsAccounted env unmarshal d worker_id rounds
          (record { kept = λ w k. rw e (round-IsAccounted w redis k) })).kept
        w b
