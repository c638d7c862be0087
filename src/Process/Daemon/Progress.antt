-- ===== src/Process/Daemon/Progress.antt =====
-- A worker goes on, whatever it meets.
use mathlib.Core.Path.{subst}
use shortcut.Prelude.{
  ℕ, String, Bytes, List, [], ◌∷◌, Option, Option-cases, none, some, ◌⊎◌, inl, inr, ◌≡◌, refl, sym,
}
use shortcut.Runtime.{
  Call, Env, Error, World, Returns, checked, redis_nil, Uuid, Value, XMessage, XStream, Level, tell,
  call, raise, pure, try, ◌>>◌,
}
use shortcut.Runtime.Total.{
  IsTotal, totals, >>=-IsTotal, pure-IsTotal, raise-IsTotal, checked-Returns, checked-IsTotal,
}
use shortcut.Process.Domain.{Task}
use shortcut.Process.Tasks.{TaskRepository, mark_task_invalid}
use shortcut.Process.Dlq.{MinIo, send_invalid_payload}
use shortcut.Process.Bus.{
  Consumer, Decoder, mark, handle_invalid_payload, send_to_dlq, ack_message, payload_bytes, field,
  consume_message, consume_messages, consume_tasks,
}
use shortcut.Process.Bus.Settled.{
  treat, treat_decoded, treat_payload, treat_field, consume_message-treat,
}
use shortcut.Process.Bus.Flat.{messages_of, as_one_batch, consume_tasks_flat}
use shortcut.Process.Daemon.Batch.{consumer}
use shortcut.Process.Daemon.Handler.{handle_task}
use shortcut.Process.Daemon.Balance.{handle_task-handled, started}

module _ (env : Env) where
  send_invalid_payload-IsTotal :
      (s : Option MinIo) (id : Bytes) (payload : Option Bytes) (reason : String)
      → IsTotal (send_invalid_payload env s id payload reason)
  unfolding send_invalid_payload
  send_invalid_payload-IsTotal none id payload reason = raise-IsTotal _
  send_invalid_payload-IsTotal (some m) id payload reason = search (totals) depth 12

  logged-IsTotal :
      (c : Call) (complaint : String)
      → IsTotal (
          try
            (call c (λ h. checked (env.exec_reply h)))
            (λ e. tell (Call.log Level.error complaint) >> raise {A = Unit {0}} e)
            pure)
  logged-IsTotal c complaint = search (totals)

  mark_task_invalid-IsTotal :
      (r : TaskRepository) (id : Uuid) (p : Option Bytes) (reason : String)
      → IsTotal (mark_task_invalid env r id p reason)
  unfolding mark_task_invalid
  mark_task_invalid-IsTotal r id p reason = elim (Option-cases r.s) [
    | inl e ↦ record { returns = λ w. rw e tt }
    | inr (s, e) ↦ record { returns = λ w. rw e ((logged-IsTotal _ _).returns w) }
  ]

  handle_task-IsTotal : (n : ℕ) (task : Task) → IsTotal (handle_task env n task)
  handle_task-IsTotal n task = record {
    returns = λ w.
        rw handle_task-handled (checked-Returns (env.api_reply (started env n task w.history)));
  }

  module _ (unmarshal : Decoder) (writer : Option (Option MinIo)) (r : TaskRepository)
      (worker_id : ℕ) where
    -- The consumer that `New` makes.
    abbrev c : Consumer
    c = consumer env unmarshal writer r worker_id

    mark-IsTotal :
        (id : Option Uuid) (p : Option Bytes) (reason : String)
        → IsTotal (mark env id (some (mark_task_invalid env r)) p reason)
    unfolding mark
    mark-IsTotal none p reason = pure-IsTotal tt
    mark-IsTotal (some id) p reason = mark_task_invalid-IsTotal r id p reason

    send_to_dlq-IsTotal :
        (w : Option (Option MinIo)) (id : Bytes) (p : Option Bytes) (reason : String)
        → writer ≡ w
        → IsTotal (send_to_dlq env c id p reason)
    unfolding send_to_dlq
    send_to_dlq-IsTotal none id p reason e = rw e (raise-IsTotal _)
    send_to_dlq-IsTotal (some s) id p reason e = rw e (send_invalid_payload-IsTotal s id p reason)

    handle_invalid_payload-IsTotal :
        (m : XMessage) (id : Option Uuid) (p : Option Bytes) (reason : String)
        → IsTotal (handle_invalid_payload env c m id p reason)
    unfolding handle_invalid_payload
    handle_invalid_payload-IsTotal m id p reason =
        >>=-IsTotal (mark env id c.status_hook p reason) (λ _. send_to_dlq env c m.id p reason)
          (mark-IsTotal id p reason) (λ _. send_to_dlq-IsTotal writer m.id p reason refl)

    treat_decoded-IsTotal :
        (m : XMessage) (payload : Bytes) (d : String ⊎ Task)
        → IsTotal (treat_decoded env unmarshal (handle_task env) c worker_id m payload d)
    unfolding treat_decoded
    treat_decoded-IsTotal m payload (inl reason) = handle_invalid_payload-IsTotal m _ _ reason
    treat_decoded-IsTotal m payload (inr task) = handle_task-IsTotal worker_id _

    treat_payload-IsTotal :
        (m : XMessage) (p : Bytes ⊎ Bytes)
        → IsTotal (treat_payload env unmarshal (handle_task env) c worker_id m p)
    unfolding treat_payload
    treat_payload-IsTotal m (inl text) = handle_invalid_payload-IsTotal m _ _ _
    treat_payload-IsTotal m (inr payload) = treat_decoded-IsTotal m payload (unmarshal payload)

    treat_field-IsTotal :
        (m : XMessage) (raw : Option Value)
        → IsTotal (treat_field env unmarshal (handle_task env) c worker_id m raw)
    unfolding treat_field
    treat_field-IsTotal m none = handle_invalid_payload-IsTotal m _ _ _
    treat_field-IsTotal m (some raw) = treat_payload-IsTotal m (payload_bytes raw)

    consume_message-IsTotal :
        (m : XMessage) → IsTotal (consume_message env unmarshal (handle_task env) c worker_id m)
    unfolding treat ack_message
    consume_message-IsTotal m =
        subst IsTotal (sym (consume_message-treat env unmarshal (handle_task env) c worker_id m)) (
          >>=-IsTotal (treat env unmarshal (handle_task env) c worker_id m)
            (λ _. ack_message env m.id) (treat_field-IsTotal m (field "payload" m.values))
            (λ _. checked-IsTotal _ env.redis_reply))

    consume_messages-IsTotal :
        (ms : List XMessage)
        → IsTotal (consume_messages env unmarshal (handle_task env) c worker_id ms)
    unfolding consume_messages
    consume_messages-IsTotal [] = pure-IsTotal tt
    consume_messages-IsTotal (m ∷ ms) =
        >>=-IsTotal (consume_message env unmarshal (handle_task env) c worker_id m)
          (λ _. consume_messages env unmarshal (handle_task env) c worker_id ms)
          (consume_message-IsTotal m) (λ _. consume_messages-IsTotal ms)

    one_batch-Returns :
        (reply : Error ⊎ List XStream) (w : World)
        → Returns (as_one_batch env unmarshal (handle_task env) c worker_id reply w).0
    unfolding as_one_batch
    one_batch-Returns (inl redis_nil) w = tt
    one_batch-Returns (inl e) w = tt
    one_batch-Returns (inr ss) w = (consume_messages-IsTotal (messages_of ss)).returns w

    -- `ConsumeTasks` under the daemon's own handler and hook always returns.
    pub consume_tasks-IsTotal : IsTotal (consume_tasks env unmarshal (handle_task env) c worker_id)
    consume_tasks-IsTotal = record {
      returns = λ w.
          rw (consume_tasks_flat env unmarshal (handle_task env) c worker_id w)
            (one_batch-Returns _ _);
    }
