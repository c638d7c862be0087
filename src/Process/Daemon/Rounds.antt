-- ===== src/Process/Daemon/Rounds.antt =====
-- The rounds that a worker makes, whatever it meets in them.
use shortcut.Prelude.{
  ℕ, suc, ◌+◌, List, [], ◌∷◌, Option, none, some, ◌⊎◌, inl, inr, ◌≡◌, refl, ◌∙◌, Bool, true, false,
  arith,
}
use shortcut.Runtime.{
  Call, Env, Error, World, Outcome, ok, err, panic, blocked, Exec, Returns, redis_nil, Level, tell,
  pure, on_result, ◌>>◌, XStream,
}
use shortcut.Runtime.Keeps.{Keeps}
use shortcut.Process.Domain.{Task}
use shortcut.Process.Tasks.{TaskRepository}
use shortcut.Process.Dlq.{MinIo}
use shortcut.Process.Bus.{Decoder, consume_tasks}
use shortcut.Process.Bus.Flat.{messages_of, as_one_batch, consume_tasks_flat}
use shortcut.Process.Daemon.Accounts.{recorded-same}
use shortcut.Process.Daemon.Balance.{handle_task-handled, handled, started}
use shortcut.Process.Daemon.Batch.{consumer}
use shortcut.Process.Daemon.Handler.{handle_task}
use shortcut.Process.Daemon.Keeping.{Plain, with_call, consume_messages-Keeps}
use shortcut.Process.Daemon.Lifecycle.{Daemon, worker}
use shortcut.Process.Daemon.Progress.{consume_tasks-IsTotal}

-- The reads of the stream among the calls made.
unfoldable pub reads : List Call → ℕ
reads [] = 0
reads (Call.x_read_group _ _ _ _ ∷ h) = suc (reads h)
reads (_ ∷ h) = reads h

-- The rounds before the first that finds the context done.
unfoldable pub rounds_open : List Bool → ℕ
rounds_open [] = 0
rounds_open (true ∷ _) = 0
rounds_open (false ∷ rounds) = suc (rounds_open rounds)

reads-Plain : (c : Call) → Plain c → (h : List Call) → reads (c ∷ h) ≡ reads h
unfolding reads
reads-Plain (Call.x_read_group _ _ _ _) q h = absurd q
reads-Plain (Call.log l m) q h = refl
reads-Plain _ q h = refl

module _ (env : Env) (n : ℕ) where
  -- `n` reads were made.
  abbrev HasRead : World → Type 0
  HasRead w = reads w.history ≡ n

  handled-HasRead :
      (worker_id : ℕ) (task : Task) (w : World) (answer : Option Error)
      → HasRead w
      → HasRead (handled env worker_id task w answer)
  unfolding reads
  handled-HasRead worker_id task w none k = k
  handled-HasRead worker_id task w (some x) k =
      recorded-same reads x (started env worker_id task w.history) (λ l h. refl) (λ l m h. refl) ∙ k

  handle_task-HasRead :
      (worker_id : ℕ) (task : Task) → Keeps HasRead (handle_task env worker_id task)
  handle_task-HasRead worker_id task = record {
    kept = λ w k.
        rw handle_task-handled (
          handled-HasRead worker_id task w (env.api_reply (started env worker_id task w.history))
            k);
  }

  HasRead-grow : (c : Call) → Plain c → (w : World) → HasRead w → HasRead (with_call c w)
  HasRead-grow c q w k = reads-Plain c q w.history ∙ k

module _ (env : Env) (unmarshal : Decoder) (writer : Option (Option MinIo)) (r : TaskRepository)
    (worker_id : ℕ) where
  one_batch-reads :
      (reply : Error ⊎ List XStream) (w : World)
      → reads
          (as_one_batch env unmarshal
            (handle_task env)
            (consumer env unmarshal writer r worker_id)
            worker_id
            reply
            w).1.history
        ≡ reads w.history
  unfolding as_one_batch
  one_batch-reads (inl redis_nil) w = refl
  one_batch-reads (inl e) w = refl
  one_batch-reads (inr ss) w =
      (consume_messages-Keeps (HasRead env (reads w.history)) (HasRead-grow env (reads w.history))
          env (handle_task-HasRead env (reads w.history)) unmarshal writer r worker_id
          (messages_of ss)).kept
        w refl

  -- A round reads the stream once.
  consume_tasks-reads :
      (w : World)
      → reads
          (consume_tasks env unmarshal
            (handle_task env)
            (consumer env unmarshal writer r worker_id)
            worker_id
            w).1.history
        ≡ suc (reads w.history)
  unfolding reads
  consume_tasks-reads w =
      rw
        (consume_tasks_flat env unmarshal (handle_task env)
          (consumer env unmarshal writer r worker_id) worker_id w)
        (one_batch-reads _ _)

  -- A method that returns nil and makes `m` reads.
  abbrev Reads : ℕ → Exec (Unit {0}) → Type 0
  Reads m k = (w : World) → ((k w).0 ≡ ok tt) × (reads (k w).1.history ≡ m + reads w.history)

  after_round :
      (q : Outcome (Unit {0})) (k : Exec (Unit {0})) (m : ℕ) (w : World)
      → Returns q
      → Reads m k
      → let x =
          (on_result q (λ _. tell (Call.log Level.error "error consuming tasks")) pure >> k) w in
        (x.0 ≡ ok tt) × (reads x.1.history ≡ m + reads w.history)
  unfolding reads
  after_round (ok tt) k m w t e = e w
  after_round (err x) k m w t e =
      e (record w { history = Call.log Level.error "error consuming tasks" ∷ w.history })
  after_round (panic x) k m w t e = absurd t
  after_round blocked k m w t e = absurd t

  -- Whatever Redis, MinIO, ClickHouse and the API answer, and whatever the messages hold, a worker
  -- with the daemon's own consumer and handler neither panics nor waits for ever, and no error ends
  -- it: it returns once its rounds are over or the first finds its context done, and it has read the
  -- stream once in each round before.
  pub worker_goes_on :
      (d : Daemon) (rounds : List Bool) (w : World)
      → d.consumer ≡ consumer env unmarshal writer r worker_id
      → ((worker env unmarshal d worker_id rounds w).0 ≡ ok tt)
        × (reads (worker env unmarshal d worker_id rounds w).1.history
            ≡ rounds_open rounds + reads w.history)
  unfolding worker reads rounds_open
  worker_goes_on d [] w e = (refl, omega arith)
  worker_goes_on d (true ∷ rounds) w e = (refl, omega arith)
  worker_goes_on d (false ∷ rounds) w e =
      let c = consumer env unmarshal writer r worker_id in
      let (q, w') = consume_tasks env unmarshal (handle_task env) c worker_id w in
      let (o, n) =
        after_round q (worker env unmarshal d worker_id rounds) (rounds_open rounds) w'
          ((consume_tasks-IsTotal env unmarshal writer r worker_id).returns w)
          (λ v. worker_goes_on d rounds v e) in
      rw e (o, omega (arith, n, consume_tasks-reads w))
