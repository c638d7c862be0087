-- ===== src/Process/Daemon/Deliveries.antt =====
-- The messages that a worker acknowledges, against those that Redis delivered to it.
use mathlib.Core.List.{reverse, reverse-append, map-append, Sublistᴰ}
use mathlib.Core.Path.{subst}
use shortcut.Prelude.{
  ℕ, String, Bytes, bytes_eq, List, [], ◌∷◌, ◌++◌, append_assoc, map, Option, none, some, ◌⊎◌, inl,
  inr, ◌≡◌, refl, sym, ap, ◌∙◌, arith, Bool, false,
}
use shortcut.Runtime.{Call, Env, Error, Exec, World, XMessage, XStream, redis_nil, Level}
use shortcut.Runtime.Keeps.{Keeps}
use shortcut.ClickHouse.{has_key}
use shortcut.ClickHouse.Keys.{NoRepeats}
use shortcut.Process.Domain.{Task}
use shortcut.Process.Tasks.{TaskRepository}
use shortcut.Process.Dlq.{MinIo}
use shortcut.Process.Bus.{Decoder, consume_tasks}
use shortcut.Process.Bus.Acks.{acks}
use shortcut.Process.Bus.Flat.{messages_of, as_one_batch, consume_tasks_flat}
use shortcut.Process.Daemon.Batch.{consumer, calls_to_read, delivered, consume_tasks_prefix}
use shortcut.Process.Daemon.Handler.{handle_task}
use shortcut.Process.Daemon.Balance.{handle_task-handled, started, handled}
use shortcut.Process.Daemon.Accounts.{recorded-same}
use shortcut.Process.Daemon.Lifecycle.{Daemon, worker}
use shortcut.Process.Daemon.Keeping.{Plain, with_call, consume_messages-Keeps, worker-Keeps}

module _ (env : Env) where
  -- The ids of the messages that the reads of the group delivered, the newest first.
  unfoldable pub delivered_ids : List Call → List Bytes
  delivered_ids [] = []
  delivered_ids (Call.x_read_group g c n s ∷ h) =
      reverse (map (λ m. m.id) (delivered (env.read_reply (Call.x_read_group g c n s ∷ h))))
      ++ delivered_ids h
  delivered_ids (_ ∷ h) = delivered_ids h

  -- Every read of the group asks for what was delivered to no consumer of it.
  abbrev pub AsksNew : List Call → Type 0
  AsksNew [] = Unit
  AsksNew (Call.x_read_group g c n s ∷ h) = (s ≡ "tasks" ∷ ">" ∷ []) × AsksNew h
  AsksNew (_ ∷ h) = AsksNew h

  -- What Redis documents of `>`: a message is delivered to one consumer of the group, and once.
  pub record DeliversOnce : Type 0 where
    pub once : (h : List Call) → AsksNew h → NoRepeats (delivered_ids h)

  -- What a worker may have acknowledged: messages that were delivered, in the order of their
  -- delivery, none twice for one delivery.
  pub record IsOrderly (w : World) : Type 0 where
    pub new : AsksNew w.history
    pub in_order : Sublistᴰ (acks w.history) (delivered_ids w.history)

  Plain-delivered :
      (c : Call)
      → Plain c
      → (h : List Call) → (delivered_ids (c ∷ h) ≡ delivered_ids h) × (AsksNew (c ∷ h) ≡ AsksNew h)
  unfolding delivered_ids
  Plain-delivered (Call.x_read_group _ _ _ _) q h = absurd q
  Plain-delivered (Call.log l m) q h = (refl, refl)
  Plain-delivered _ q h = (refl, refl)

  -- A state in which the reads are these.
  abbrev pub Reads : List Bytes → World → Type 0
  Reads ids w = (delivered_ids w.history ≡ ids) × AsksNew w.history

  Reads-grow :
      (ids : List Bytes) (c : Call)
      → Plain c
      → (w : World) → Reads ids w
      → Reads ids (with_call c w)
  Reads-grow ids c q w (e, a) =
      let (same, new) = Plain-delivered c q w.history in (same ∙ e, rw new a)

  handled-Reads :
      (ids : List Bytes) (n : ℕ) (task : Task) (w : World) (answer : Option Error)
      → Reads ids w
      → Reads ids (handled env n task w answer)
  unfolding delivered_ids
  handled-Reads ids n task w none (e, a) = (e, a)
  handled-Reads ids n task w (some x) (e, a) =
      let h = started env n task w.history in
      (
        recorded-same delivered_ids x h (λ l h. refl) (λ l m h. refl) ∙ e,
        rw (recorded-same AsksNew x h (λ l h. refl) (λ l m h. refl)) a,
      )

  pub handle_task-Reads :
      (ids : List Bytes) (n : ℕ) (task : Task) → Keeps (Reads ids) (handle_task env n task)
  handle_task-Reads ids n task = record {
    kept = λ w k. rw handle_task-handled (handled-Reads ids n task w _ k);
  }

-- A part of a list before and behind a common rest.
pub skipped : (zs : List Bytes) {xs ys : List Bytes} → Sublistᴰ xs ys → Sublistᴰ xs (zs ++ ys)
skipped [] s = s
skipped (z ∷ zs) s = Sublistᴰ.cons (skipped zs s)

pub taken_too :
    (zs : List Bytes) {xs ys : List Bytes} → Sublistᴰ xs ys → Sublistᴰ (zs ++ xs) (zs ++ ys)
taken_too [] s = s
taken_too (z ∷ zs) s = Sublistᴰ.cons-cons refl (taken_too zs s)

Sublist-has_key :
    (id : Bytes) {xs ys : List Bytes}
    → Sublistᴰ xs ys
    → has_key id ys ≡ false
    → has_key id xs ≡ false
unfolding has_key
Sublist-has_key id Sublistᴰ.slnil h = h
Sublist-has_key id (Sublistᴰ.cons s) h = Sublist-has_key id s (ground (arith, h))
Sublist-has_key id (Sublistᴰ.cons-cons e s) h =
    let rest = Sublist-has_key id s (ground (arith, h)) in
    ground (arith, h, rest, ap (λ (k : Bytes). bytes_eq id k) e)

Sublist-NoRepeats : {xs ys : List Bytes} → Sublistᴰ xs ys → NoRepeats ys → NoRepeats xs
Sublist-NoRepeats Sublistᴰ.slnil n = tt
Sublist-NoRepeats (Sublistᴰ.cons s) n = Sublist-NoRepeats s n.1
Sublist-NoRepeats (Sublistᴰ.cons-cons e s) n =
    (Sublist-has_key _ s (rw e n.0), Sublist-NoRepeats s n.1)

-- The acknowledged prefix of a batch, newest first, is a part of the batch.
prefix-Sublist :
    (taken rest : List XMessage) {xs ys : List Bytes}
    → Sublistᴰ xs ys
    → Sublistᴰ
        (reverse (map (λ m. m.id) taken) ++ xs)
        (reverse (map (λ m. m.id) (taken ++ rest)) ++ ys)
prefix-Sublist taken rest {xs} {ys} s =
    subst (Sublistᴰ (reverse (map (λ m. m.id) taken) ++ xs)) (sym split)
      (skipped (reverse (map (λ m. m.id) rest)) (taken_too (reverse (map (λ m. m.id) taken)) s))
  where
    split :
        reverse (map (λ m. m.id) (taken ++ rest)) ++ ys
        ≡ reverse (map (λ m. m.id) rest) ++ (reverse (map (λ m. m.id) taken) ++ ys)
    split =
        ap (λ l. reverse l ++ ys) (map-append (λ m. m.id) taken rest)
        ∙ ap (λ l. l ++ ys) (reverse-append (map (λ m. m.id) taken) (map (λ m. m.id) rest))
        ∙ append_assoc (reverse (map (λ m. m.id) rest)) (reverse (map (λ m. m.id) taken)) ys

module _ (env : Env) (unmarshal : Decoder) (writer : Option (Option MinIo)) (r : TaskRepository)
    (worker_id : ℕ) where
  abbrev tasks_consumed : Exec (Unit {0})
  tasks_consumed =
      consume_tasks env unmarshal (handle_task env) (consumer env unmarshal writer r worker_id)
        worker_id

  one_batch-Reads :
      (ids : List Bytes) (reply : Error ⊎ List XStream) (w : World)
      → Reads env ids w
      → Reads env ids
          (as_one_batch env unmarshal
            (handle_task env)
            (consumer env unmarshal writer r worker_id)
            worker_id
            reply
            w).1
  unfolding as_one_batch
  one_batch-Reads ids (inl redis_nil) w k = k
  one_batch-Reads ids (inl e) w k = k
  one_batch-Reads ids (inr ss) w k =
      (consume_messages-Keeps (Reads env ids) (Reads-grow env ids) env (handle_task-Reads env ids)
          unmarshal writer r worker_id (messages_of ss)).kept
        w k

  -- What one `ConsumeTasks` reads, and nothing else is read.
  pub consume_tasks-Reads :
      (w : World)
      → AsksNew env w.history
      → Reads env
          (reverse (
              map
                (λ m. m.id)
                (delivered (env.read_reply (calls_to_read env unmarshal writer r worker_id w))))
            ++ delivered_ids env w.history)
          (tasks_consumed w).1
  unfolding delivered_ids
  consume_tasks-Reads w a =
      rw
        (consume_tasks_flat env unmarshal (handle_task env)
          (consumer env unmarshal writer r worker_id) worker_id w)
        (one_batch-Reads _ _ _ (refl, (refl, a)))

  consume_tasks-IsOrderly : Keeps (IsOrderly env) tasks_consumed
  consume_tasks-IsOrderly = record {
    kept = λ w k.
        let (taken, rest, split, acked, whole) =
          consume_tasks_prefix env unmarshal writer r worker_id w in
        let (reads, new) = consume_tasks-Reads w k.new in
        record {
          new = new;
          in_order =
              subst (λ ids. Sublistᴰ ids (delivered_ids env (tasks_consumed w).1.history))
                (sym acked)
                (subst (Sublistᴰ (reverse (map (λ m. m.id) taken) ++ acks w.history)) (sym reads)
                  (rw split (prefix-Sublist taken rest k.in_order)));
        };
  }

  logs-IsOrderly :
      (l : Level) (m : String) (w : World)
      → IsOrderly env w
      → IsOrderly env (with_call (Call.log l m) w)
  unfolding delivered_ids acks
  logs-IsOrderly l m w k = record { new = k.new; in_order = k.in_order }

  -- If Redis delivers each message to the group once, as it documents of `>`, then a worker with
  -- the daemon's own consumer and handler acknowledges no message twice over any number of rounds,
  -- whatever ClickHouse, MinIO and the API answer: it acknowledges messages that were delivered to
  -- it, in the order of their delivery and each at most once, and asks for new messages only.
  pub worker-acks_once :
      (d : Daemon) (rounds : List Bool) (w : World)
      → d.consumer ≡ consumer env unmarshal writer r worker_id
      → DeliversOnce env
      → IsOrderly env w
      → let w' = (worker env unmarshal d worker_id rounds w).1 in
        IsOrderly env w' × NoRepeats (acks w'.history)
  worker-acks_once d rounds w e redis k =
      let k' =
        (worker-Keeps (IsOrderly env) logs-IsOrderly env unmarshal d worker_id rounds
            (rw e consume_tasks-IsOrderly)).kept
          w k in
      (k', Sublist-NoRepeats k'.in_order (redis.once _ k'.new))
