-- ===== src/Process/Bus/Settled.antt =====
-- When a message is acknowledged.
use shortcut.Prelude.{Bytes, String, ◌∷◌, Option, none, some, ◌≡◌, refl, ap, ◌⊎◌, inl, inr, ℕ}
use shortcut.Runtime.{
  Call, Env, Error, World, ok, err, Exec, ◌>>◌, >>=-eq-ok, call-eq-ok, Value, XMessage,
}
use shortcut.Process.Domain.{Task, status_processing}
use shortcut.Process.Bus.Ids.{field, extract_task_uuid}
use shortcut.Process.Bus.Consume.{
  Consumer, Handler, Decoder, stream_name, group_name, payload_bytes, with_id, ack_message,
  handle_invalid_payload, reject, deliver, decode, dispatch, consume_field, consume_message,
}

-- The acknowledgement of a message.
abbrev pub ack_of : XMessage → Call
ack_of m = Call.x_ack stream_name group_name m.id

-- What has to be done with a message before it is acknowledged: its task is handled, or it is
-- marked and put into the dead letter queue.
abbrev pub Treatment : Type 0
Treatment = XMessage → Exec (Unit {0})

module _ (env : Env) where
  -- An acknowledgement that returned stands last among the calls, and Redis took it.
  pub ack_message-eq-ok :
      (m : XMessage) (w w' : World)
      → ack_message env m.id w ≡ (ok tt, w')
      → (w'.history ≡ ack_of m ∷ w.history) × (env.redis_reply (ack_of m ∷ w.history) ≡ none)
  unfolding ack_message
  ack_message-eq-ok m w w' h =
      let (e, r) = call-eq-ok (ack_of m) env.redis_reply w w' h in (ap (λ x. x.history) e, r)

  module _ (unmarshal : Decoder) (handler : Handler) (c : Consumer) (worker_id : ℕ) where
    -- The treatment of a message, by its payload field.
    unfoldable pub treat_decoded : XMessage → Bytes → String ⊎ Task → Exec (Unit {0})
    treat_decoded m payload (inl reason) =
        handle_invalid_payload env c m (extract_task_uuid env m) (some payload) reason
    treat_decoded m payload (inr task) =
        handler worker_id
          (record (with_id (extract_task_uuid env m) task) { status = status_processing })

    unfoldable pub treat_payload : XMessage → Bytes ⊎ Bytes → Exec (Unit {0})
    unfolding treat_decoded
    treat_payload m (inl text) =
        handle_invalid_payload env c m (extract_task_uuid env m) (some text)
          "unsupported payload type"
    treat_payload m (inr payload) = treat_decoded m payload (unmarshal payload)

    unfoldable pub treat_field : XMessage → Option Value → Exec (Unit {0})
    unfolding treat_payload
    treat_field m none =
        handle_invalid_payload env c m (extract_task_uuid env m) none "missing payload field"
    treat_field m (some raw) = treat_payload m (payload_bytes raw)

    unfoldable pub treat : Treatment
    unfolding treat_field field
    treat m = treat_field m (field "payload" m.values)

    decode_lem :
        (m : XMessage) (payload : Bytes) (d : String ⊎ Task)
        → decode env unmarshal handler c worker_id m payload d
          ≡ (treat_decoded m payload d >> ack_message env m.id)
    unfolding decode deliver reject treat_decoded
    decode_lem m payload (inl reason) = refl
    decode_lem m payload (inr task) = refl

    dispatch_lem :
        (m : XMessage) (p : Bytes ⊎ Bytes)
        → dispatch env unmarshal handler c worker_id m p
          ≡ (treat_payload m p >> ack_message env m.id)
    unfolding dispatch reject treat_payload
    dispatch_lem m (inl text) = refl
    dispatch_lem m (inr payload) = decode_lem m payload (unmarshal payload)

    consume_field_lem :
        (m : XMessage) (raw : Option Value)
        → consume_field env unmarshal handler c worker_id m raw
          ≡ (treat_field m raw >> ack_message env m.id)
    unfolding consume_field reject treat_field
    consume_field_lem m none = refl
    consume_field_lem m (some raw) = dispatch_lem m (payload_bytes raw)

    pub consume_message-treat :
        (m : XMessage)
        → consume_message env unmarshal handler c worker_id m ≡ (treat m >> ack_message env m.id)
    unfolding consume_message treat
    consume_message-treat m = consume_field_lem m (field "payload" m.values)

    -- A message is consumed without an error only if its treatment returned; then the
    -- acknowledgement is the last call, and Redis took it.
    pub consume_message_acks :
        (m : XMessage) (w w' : World)
        → consume_message env unmarshal handler c worker_id m w ≡ (ok tt, w')
        → (w₁ : World) × (treat m w ≡ (ok tt, w₁))
          × (w'.history ≡ ack_of m ∷ w₁.history)
          × (env.redis_reply (ack_of m ∷ w₁.history) ≡ none)
    consume_message_acks m w w' h =
        let k = (rw consume_message-treat at h) in
        let (a, w₁, e, q) = >>=-eq-ok (treat m) (λ _. ack_message env m.id) w k in
        let (last, taken) = ack_message-eq-ok m w₁ w' q in (w₁, e, last, taken)

    -- If the treatment of a message returns an error, the consumer returns that error in the state
    -- that the treatment left: nothing is acknowledged.
    pub consume_message_fails :
        (m : XMessage) (w w' : World) (e : Error)
        → treat m w ≡ (err e, w')
        → consume_message env unmarshal handler c worker_id m w ≡ (err e, w')
    consume_message_fails m w w' e h = rw (consume_message-treat, h) refl
