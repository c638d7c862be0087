-- ===== src/Process/Daemon/Batch.antt =====
-- A batch of messages under the daemon's own handler and status hook.
use shortcut.Prelude.{
  ℕ, Bytes, String, List, [], ◌++◌, map, ap, ◌⊎◌, inl, inr, ◌≡◌, refl, Option, none, some, arith,
  Bool, true, false, ◌||◌, ◌∙◌,
}
use mathlib.Core.Option.{some-injective}
use mathlib.Core.Path.{subst}
use shortcut.Runtime.{
  Call, Env, Error, World, Uuid, XMessage, XStream, redis_nil, as_custom, is_error, is_deadline,
  is_canceled,
}
use shortcut.Process.Domain.{Task}
use shortcut.Process.Tasks.{TaskRepository, mark_task_invalid}
use shortcut.Process.Dlq.{MinIo}
use shortcut.Process.Bus.{Consumer, Decoder, consume_messages, consume_tasks}
use shortcut.Process.Bus.Flat.{messages_of, behind_read, as_one_batch, consume_tasks_flat}
use mathlib.Core.List.{reverse}
use shortcut.Process.Bus.Acks.{acks, Quiet, AcksPrefix, consume_messages-AcksPrefix}
use shortcut.Process.Daemon.Handler.{handle_task}
use shortcut.Process.Daemon.Balance.{
  handle_task-handled, recorded, custom_calls, timeout_calls, started,
}

acks-custom_calls : (o : Option String) (h : List Call) → acks (custom_calls o h) ≡ acks h
unfolding acks
acks-custom_calls none h = refl
acks-custom_calls (some m) h = refl

acks-timeout_calls : (b : Bool) (h : List Call) → acks (timeout_calls b h) ≡ acks h
unfolding acks
acks-timeout_calls true h = refl
acks-timeout_calls false h = refl

acks-recorded : (o : Option Error) (h : List Call) → acks (recorded o h) ≡ acks h
unfolding acks
acks-recorded none h = refl
acks-recorded (some e) h =
    acks-timeout_calls (is_error e is_deadline || is_error e is_canceled)
      (custom_calls (as_custom e) h)
    ∙ acks-custom_calls (as_custom e) h

module _ (env : Env) where
  handle_task-Quiet : (n : ℕ) (task : Task) → Quiet (handle_task env n task)
  unfolding acks
  handle_task-Quiet n task w =
      let answer = env.api_reply (started env n task w.history) in
      rw handle_task-handled (acks-recorded answer (started env n task w.history) ∙ acks_started)
    where
      acks_started : acks (started env n task w.history) ≡ acks w.history
      acks_started = refl

  mark_task_invalid-Quiet :
      (r : TaskRepository) (id : Uuid) (p : Option Bytes) (reason : String)
      → Quiet (mark_task_invalid env r id p reason)
  unfolding mark_task_invalid acks
  mark_task_invalid-Quiet r id p reason w = ground arith

  -- Whatever Redis, MinIO, ClickHouse and the API answer, a worker acknowledges a prefix of its
  -- batch in the order of the stream, and all of it if the batch returns without an error.
  pub consume_messages_prefix :
      (unmarshal : Decoder) (writer : Option (Option MinIo)) (r : TaskRepository) (worker_id : ℕ)
      (ms : List XMessage) (w : World)
      → AcksPrefix ms w (
          consume_messages env unmarshal
            (handle_task env)
            (record { dlq_writer = writer; status_hook = some (mark_task_invalid env r) })
            worker_id
            ms
            w)
  consume_messages_prefix unmarshal writer r worker_id ms w =
      consume_messages-AcksPrefix env unmarshal (handle_task env)
        (record { dlq_writer = writer; status_hook = some (mark_task_invalid env r) }) worker_id
        handle_task-Quiet
        (λ hook id p reason e.
          subst (λ f. Quiet (f id p reason)) (some-injective (mark_task_invalid env r) hook e)
            (mark_task_invalid-Quiet r id p reason))
        ms w

-- The messages that a read delivered.
abbrev pub delivered : Error ⊎ List XStream → List XMessage
delivered (inl e) = []
delivered (inr ss) = messages_of ss

module _ (env : Env) (unmarshal : Decoder) (writer : Option (Option MinIo)) (r : TaskRepository)
    (worker_id : ℕ) where
  -- The consumer that `New` makes.
  abbrev pub consumer : Consumer
  consumer = record { dlq_writer = writer; status_hook = some (mark_task_invalid env r) }

  abbrev pub calls_to_read : World → List Call
  calls_to_read w = behind_read env unmarshal (handle_task env) consumer worker_id w

  delivered-AcksPrefix :
      (reply : Error ⊎ List XStream) (w w' : World)
      → acks w'.history ≡ acks w.history
      → AcksPrefix
          (delivered reply)
          w
          (as_one_batch env unmarshal (handle_task env) consumer worker_id reply w')
  unfolding as_one_batch
  delivered-AcksPrefix (inl redis_nil) w w' same = ([], [], refl, same, λ e. refl)
  delivered-AcksPrefix (inl e) w w' same = ([], [], refl, same, λ e. refl)
  delivered-AcksPrefix (inr ss) w w' same =
      let (taken, rest, split, acked, whole) =
        consume_messages_prefix env unmarshal writer r worker_id (messages_of ss) w' in
      (taken, rest, split, acked ∙ ap (λ a. reverse (map (λ m. m.id) taken) ++ a) same, whole)

  -- Whatever Redis, MinIO, ClickHouse and the API answer, one `ConsumeTasks` of a worker
  -- acknowledges a prefix of the messages that its read delivered, over all the streams of the
  -- reply and in their order, none if the read failed, and all of them if it returns without an
  -- error.
  pub consume_tasks_prefix :
      (w : World)
      → AcksPrefix
          (delivered (env.read_reply (calls_to_read w)))
          w
          (consume_tasks env unmarshal (handle_task env) consumer worker_id w)
  unfolding acks
  consume_tasks_prefix w =
      rw (consume_tasks_flat env unmarshal (handle_task env) consumer worker_id w) (
        delivered-AcksPrefix (env.read_reply (calls_to_read w)) w
          (record w { history = calls_to_read w }) refl)
