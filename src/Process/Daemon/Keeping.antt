-- ===== src/Process/Daemon/Keeping.antt =====
-- A worker keeps every predicate on the state that `handleTask`, the read of the stream and the
-- other calls it makes keep.
use mathlib.Core.Path.{subst}
use shortcut.Prelude.{
  ℕ, String, Bytes, List, [], ◌∷◌, Option, Option-cases, none, some, ◌⊎◌, inl, inr, ◌≡◌, refl, sym,
  Bool, true, false,
}
use shortcut.Runtime.{
  Call, Env, World, Outcome, Exec, checked, Uuid, Value, XMessage, Level, tell, call, raise, pure,
  try, ◌>>◌,
}
use shortcut.Runtime.Keeps.{
  Keeps, keeps, >>=-Keeps, try-Keeps, pure-Keeps, raise-Keeps, call-Keeps, tell-Keeps,
}
use shortcut.Process.Domain.{Task}
use shortcut.Process.Tasks.{TaskRepository, mark_task_invalid}
use shortcut.Process.Dlq.{MinIo, send_invalid_payload}
use shortcut.Process.Bus.{
  Consumer, Decoder, mark, handle_invalid_payload, send_to_dlq, ack_message, payload_bytes, field,
  consume_message, consume_messages, consume_tasks,
}
use shortcut.Process.Bus.Settled.{
  treat, treat_decoded, treat_payload, treat_field, consume_message-treat,
}
use shortcut.Process.Daemon.Batch.{consumer}
use shortcut.Process.Daemon.Handler.{handle_task}
use shortcut.Process.Daemon.Lifecycle.{Daemon, worker}

-- The calls that a worker makes beside the read of the stream and those of `handleTask`.
abbrev pub Plain : Call → Type 0
Plain (Call.x_read_group _ _ _ _) = ⊥
Plain (Call.get_something _ _) = ⊥
Plain (Call.gauge_add _ _) = ⊥
Plain (Call.gauge_sub _ _) = ⊥
Plain (Call.observe _) = ⊥
Plain (Call.counter_inc _ _) = ⊥
Plain _ = Unit

abbrev pub with_call : Call → World → World
with_call c w = record w { history = c ∷ w.history }

module _ (K : World → Type 0) (grow : (c : Call) → Plain c → (w : World) → K w → K (with_call c w))
    (env : Env) (handles : (n : ℕ) (task : Task) → Keeps K (handle_task env n task)) where
  tell-Plain : (c : Call) → Plain c → Keeps K (tell c)
  tell-Plain c q = tell-Keeps K c (grow c q)

  call-Plain :
      {A : Type 0} (c : Call) (reply : List Call → Outcome A) → Plain c → Keeps K (call c reply)
  call-Plain c reply q = call-Keeps K c reply (grow c q)

  send_invalid_payload-Keeps :
      (s : Option MinIo) (id : Bytes) (payload : Option Bytes) (reason : String)
      → Keeps K (send_invalid_payload env s id payload reason)
  unfolding send_invalid_payload
  send_invalid_payload-Keeps none id payload reason = raise-Keeps K _
  send_invalid_payload-Keeps (some m) id payload reason = search (keeps, call-Plain) depth 12

  logged-Keeps :
      (c : Call) (complaint : String)
      → Plain c
      → Keeps K (
          try
            (call c (λ h. checked (env.exec_reply h)))
            (λ e. tell (Call.log Level.error complaint) >> raise {A = Unit {0}} e)
            pure)
  logged-Keeps c complaint q =
      let one : Keeps K (call c (λ h. checked (env.exec_reply h))) =
        call-Plain c (λ h. checked (env.exec_reply h)) q in
      search (keeps, one)

  mark_task_invalid-Keeps :
      (r : TaskRepository) (id : Uuid) (p : Option Bytes) (reason : String)
      → Keeps K (mark_task_invalid env r id p reason)
  unfolding mark_task_invalid
  mark_task_invalid-Keeps r id p reason = elim (Option-cases r.s) [
    | inl e ↦ record { kept = λ w k. rw e k }
    | inr (s, e) ↦ record { kept = λ w k. rw e ((logged-Keeps _ _ tt).kept w k) }
  ]

  module _ (unmarshal : Decoder) (writer : Option (Option MinIo)) (r : TaskRepository)
      (worker_id : ℕ) where
    -- The consumer that `New` makes.
    abbrev c : Consumer
    c = consumer env unmarshal writer r worker_id

    mark-Keeps :
        (id : Option Uuid) (p : Option Bytes) (reason : String)
        → Keeps K (mark env id (some (mark_task_invalid env r)) p reason)
    unfolding mark
    mark-Keeps none p reason = pure-Keeps K tt
    mark-Keeps (some id) p reason = mark_task_invalid-Keeps r id p reason

    send_to_dlq-Keeps :
        (w : Option (Option MinIo)) (id : Bytes) (p : Option Bytes) (reason : String)
        → writer ≡ w
        → Keeps K (send_to_dlq env c id p reason)
    unfolding send_to_dlq
    send_to_dlq-Keeps none id p reason e = rw e (raise-Keeps K _)
    send_to_dlq-Keeps (some s) id p reason e = rw e (send_invalid_payload-Keeps s id p reason)

    handle_invalid_payload-Keeps :
        (m : XMessage) (id : Option Uuid) (p : Option Bytes) (reason : String)
        → Keeps K (handle_invalid_payload env c m id p reason)
    unfolding handle_invalid_payload
    handle_invalid_payload-Keeps m id p reason =
        >>=-Keeps K (mark env id c.status_hook p reason) (λ _. send_to_dlq env c m.id p reason)
          (mark-Keeps id p reason) (λ _. send_to_dlq-Keeps writer m.id p reason refl)

    treat_decoded-Keeps :
        (m : XMessage) (payload : Bytes) (d : String ⊎ Task)
        → Keeps K (treat_decoded env unmarshal (handle_task env) c worker_id m payload d)
    unfolding treat_decoded
    treat_decoded-Keeps m payload (inl reason) = handle_invalid_payload-Keeps m _ _ reason
    treat_decoded-Keeps m payload (inr task) = handles worker_id _

    treat_payload-Keeps :
        (m : XMessage) (p : Bytes ⊎ Bytes)
        → Keeps K (treat_payload env unmarshal (handle_task env) c worker_id m p)
    unfolding treat_payload
    treat_payload-Keeps m (inl text) = handle_invalid_payload-Keeps m _ _ _
    treat_payload-Keeps m (inr payload) = treat_decoded-Keeps m payload (unmarshal payload)

    treat_field-Keeps :
        (m : XMessage) (raw : Option Value)
        → Keeps K (treat_field env unmarshal (handle_task env) c worker_id m raw)
    unfolding treat_field
    treat_field-Keeps m none = handle_invalid_payload-Keeps m _ _ _
    treat_field-Keeps m (some raw) = treat_payload-Keeps m (payload_bytes raw)

    consume_message-Keeps :
        (m : XMessage) → Keeps K (consume_message env unmarshal (handle_task env) c worker_id m)
    unfolding treat ack_message
    consume_message-Keeps m =
        subst (Keeps K) (sym (consume_message-treat env unmarshal (handle_task env) c worker_id m))
          (>>=-Keeps K (treat env unmarshal (handle_task env) c worker_id m)
            (λ _. ack_message env m.id) (treat_field-Keeps m (field "payload" m.values))
            (λ _. call-Plain _ (λ h. checked (env.redis_reply h)) tt))

    pub consume_messages-Keeps :
        (ms : List XMessage)
        → Keeps K (consume_messages env unmarshal (handle_task env) c worker_id ms)
    unfolding consume_messages
    consume_messages-Keeps [] = pure-Keeps K tt
    consume_messages-Keeps (m ∷ ms) =
        >>=-Keeps K (consume_message env unmarshal (handle_task env) c worker_id m)
          (λ _. consume_messages env unmarshal (handle_task env) c worker_id ms)
          (consume_message-Keeps m) (λ _. consume_messages-Keeps ms)

-- One round of a worker: an error of `ConsumeTasks` is logged.
abbrev pub round : Env → Decoder → Daemon → ℕ → Exec (Unit {0})
round env unmarshal d worker_id =
    try (consume_tasks env unmarshal (handle_task env) d.consumer worker_id)
      (λ _. tell (Call.log Level.error "error consuming tasks")) pure

-- The loop of a worker keeps what each of its rounds and a line of the log keep.
module _ (K : World → Type 0)
    (logs : (l : Level) (m : String) (w : World) → K w → K (with_call (Call.log l m) w)) (env : Env)
    (unmarshal : Decoder) (d : Daemon) (worker_id : ℕ) where
  pub rounds-Keeps :
      (rounds : List Bool)
      → Keeps K (round env unmarshal d worker_id)
      → Keeps K (worker env unmarshal d worker_id rounds)
  unfolding worker
  rounds-Keeps [] k = pure-Keeps K tt
  rounds-Keeps (true ∷ rounds) k =
      tell-Keeps K (Call.log Level.info "stopped by context done") (logs Level.info _)
  rounds-Keeps (false ∷ rounds) k =
      >>=-Keeps K (round env unmarshal d worker_id) (λ _. worker env unmarshal d worker_id rounds) k
        (λ _. rounds-Keeps rounds k)

  pub worker-Keeps :
      (rounds : List Bool)
      → Keeps K (consume_tasks env unmarshal (handle_task env) d.consumer worker_id)
      → Keeps K (worker env unmarshal d worker_id rounds)
  worker-Keeps rounds k = rounds-Keeps rounds (
      try-Keeps K _ _ pure k
        (λ _. tell-Keeps K (Call.log Level.error "error consuming tasks") (logs Level.error _))
        (pure-Keeps K))
