-- ===== src/Process/Bus/Invalid.antt =====
-- What becomes of a message whose payload cannot be decoded.
use shortcut.Prelude.{
  ℕ, Bytes, String, ◌∷◌, Option, none, some, ◌⊎◌, inl, inr, ◌≡◌, refl, ap, Bool, true, false, not,
  if◌then◌else◌,
}
use mathlib.Core.Option.{some-injective}
use shortcut.Runtime.{Env, message, World, raise, ok, err, Exec, >>=-eq-ok, Value, XMessage}
use shortcut.Process.Domain.{Task}
use shortcut.Process.Dlq.{MinIo, send_to, send_invalid_payload}
use shortcut.Process.Dlq.Put.{Stored, send_to-Stored}
use shortcut.Process.Bus.Ids.{field, extract_task_uuid}
use shortcut.Process.Bus.Consume.{
  Consumer, Handler, Decoder, payload_bytes, ack_message, send_to_dlq, mark, handle_invalid_payload,
  reject, decode, dispatch, consume_field, consume_message,
}
use shortcut.Process.Bus.Settled.{ack_of, ack_message-eq-ok}

-- Why a message is refused: the payload to keep and the reason. none is a message with a task.
abbrev pub Refusal : Type 0
Refusal = Option (Option Bytes × String)

abbrev refuse_decoded : Bytes → String ⊎ Task → Refusal
refuse_decoded payload (inl reason) = some (some payload, reason)
refuse_decoded payload (inr task) = none

abbrev refuse_payload : Decoder → Bytes ⊎ Bytes → Refusal
refuse_payload unmarshal (inl text) = some (some text, "unsupported payload type")
refuse_payload unmarshal (inr payload) = refuse_decoded payload (unmarshal payload)

abbrev pub refuse_field : Decoder → Option Value → Refusal
refuse_field unmarshal none = some (none, "missing payload field")
refuse_field unmarshal (some raw) = refuse_payload unmarshal (payload_bytes raw)

-- By the payload field of a message.
abbrev pub refusal : Decoder → XMessage → Refusal
refusal unmarshal m = refuse_field unmarshal (field "payload" m.values)

module _ (env : Env) (unmarshal : Decoder) (handler : Handler) (c : Consumer) (worker_id : ℕ) where
  abbrev Rejects : XMessage → Refusal → Exec (Unit {0}) → Type 0
  Rejects m r x =
      (p : Option Bytes) (reason : String)
      → r ≡ some (p, reason)
      → x ≡ reject env c m (extract_task_uuid env m) p reason

  same_refusal :
      (m : XMessage) (q : Option Bytes) (why : String)
      → Rejects m (some (q, why)) (reject env c m (extract_task_uuid env m) q why)
  same_refusal m q why p reason e =
      let s = some-injective (q, why) (p, reason) e in
      ap (λ t. reject env c m (extract_task_uuid env m) t.0 t.1) s

  decode-Rejects :
      (m : XMessage) (payload : Bytes) (d : String ⊎ Task)
      → Rejects m (refuse_decoded payload d) (decode env unmarshal handler c worker_id m payload d)
  unfolding decode
  decode-Rejects m payload (inl why) p reason e = same_refusal m (some payload) why p reason e
  decode-Rejects m payload (inr task) p reason e = cc

  dispatch-Rejects :
      (m : XMessage) (b : Bytes ⊎ Bytes)
      → Rejects m (refuse_payload unmarshal b) (dispatch env unmarshal handler c worker_id m b)
  unfolding dispatch
  dispatch-Rejects m (inl text) = same_refusal m (some text) "unsupported payload type"
  dispatch-Rejects m (inr payload) = decode-Rejects m payload (unmarshal payload)

  consume_field-Rejects :
      (m : XMessage) (raw : Option Value)
      → Rejects m
          (refuse_field unmarshal raw)
          (consume_field env unmarshal handler c worker_id m raw)
  unfolding consume_field
  consume_field-Rejects m none = same_refusal m none "missing payload field"
  consume_field-Rejects m (some raw) = dispatch-Rejects m (payload_bytes raw)

  consume_message-Rejects :
      (m : XMessage)
      → Rejects m (refusal unmarshal m) (consume_message env unmarshal handler c worker_id m)
  unfolding consume_message
  consume_message-Rejects m = consume_field-Rejects m (field "payload" m.values)

  sent_with_client :
      (s : MinIo) (has : Bool) (id : Bytes) (p : Option Bytes) (reason : String) (w w' : World)
      → (if not has
            then raise (message "dlq storage is not configured")
            else send_to env s id p reason)
          w
        ≡ (ok tt, w')
      → Stored env s id p reason w w'
  sent_with_client s true id p reason w w' h = send_to-Stored env s id p reason w w' h
  sent_with_client s false id p reason w w' h = absurd (cc)

  sent_to_minio :
      (s : MinIo) (id : Bytes) (p : Option Bytes) (reason : String) (w w' : World)
      → c.dlq_writer ≡ some (some s)
      → send_to_dlq env c id p reason w ≡ (ok tt, w')
      → Stored env s id p reason w w'
  unfolding send_to_dlq send_invalid_payload
  sent_to_minio s id p reason w w' e h =
      sent_with_client s s.has_client id p reason w w' (rw (e, send_to_dlq) at h)

  -- With a writer to MinIO, a message that cannot be decoded is acknowledged only behind a copy of
  -- it: if it is consumed without an error, then its task was marked first, if there are an id and
  -- a hook, and MinIO has accepted a record with its id, its payload and the reason, before the
  -- acknowledgement.
  pub refused_message-Stored :
      (s : MinIo) (m : XMessage) (p : Option Bytes) (reason : String) (w w' : World)
      → c.dlq_writer ≡ some (some s)
      → refusal unmarshal m ≡ some (p, reason)
      → consume_message env unmarshal handler c worker_id m w ≡ (ok tt, w')
      → (w₁ : World) × (w₂ : World) × (mark env (extract_task_uuid env m) c.status_hook p reason w
          ≡ (ok tt, w₁))
        × Stored env s m.id p reason w₁ w₂
        × (w'.history ≡ ack_of m ∷ w₂.history)
  unfolding reject handle_invalid_payload
  refused_message-Stored s m p reason w w' writer refused e =
      let u = extract_task_uuid env m in
      let k : reject env c m u p reason w ≡ (ok tt, w') =
        (rw (consume_message-Rejects m p reason refused) at e) in
      let (a, w₂, treated, acked) =
        >>=-eq-ok (handle_invalid_payload env c m u p reason) (λ _. ack_message env m.id) w k in
      let (b, w₁, marked, sent) =
        >>=-eq-ok (mark env u c.status_hook p reason) (λ _. send_to_dlq env c m.id p reason) w
          treated in
      (
        w₁,
        w₂,
        marked,
        sent_to_minio s m.id p reason w₁ w₂ writer sent,
        (ack_message-eq-ok env m w₂ w' acked).0,
      )

  -- Without a writer a message that cannot be decoded is never acknowledged: once its task is
  -- marked without an error, consuming it fails in the state that the mark left.
  pub refused_message_needs_writer :
      (m : XMessage) (p : Option Bytes) (reason : String) (w w₁ : World)
      → c.dlq_writer ≡ none
      → refusal unmarshal m ≡ some (p, reason)
      → mark env (extract_task_uuid env m) c.status_hook p reason w ≡ (ok tt, w₁)
      → consume_message env unmarshal handler c worker_id m w
        ≡ (err (message "dlq storage is not configured"), w₁)
  unfolding reject handle_invalid_payload send_to_dlq
  refused_message_needs_writer m p reason w w₁ writer refused marked =
      rw (consume_message-Rejects m p reason refused, marked, writer) refl
