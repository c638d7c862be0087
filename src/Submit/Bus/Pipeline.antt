-- ===== src/Submit/Bus/Pipeline.antt =====
-- A task on its way from the producer of submit_service to the consumer of process_service.
use shortcut.Prelude.{◌⊎◌, ℕ, Bytes, String, some, inl, inr, ◌≡◌, refl, ap, ◌∙◌}
use shortcut.Runtime.{Exec, ◌>>◌, Env, Uuid, XMessage}
use shortcut.Submit.Domain.{Task}
use shortcut.Submit.Bus.{task_values, payload_or_empty}
use shortcut.Process.Domain.{Task as Decoded, status_processing}
use shortcut.Process.Bus.{
  Consumer, Handler, Decoder, extract_task_uuid, handle_invalid_payload, with_id, consume_message,
  ack_message,
}
use shortcut.Process.Bus.Settled.{treat, treat_decoded, consume_message-treat}

-- The message that Redis makes of the fields of a task.
abbrev pub message_of : Env → Task → Bytes → XMessage
message_of env task id = record { id = id; values = task_values env task }

-- google/uuid parses what it prints.
abbrev pub PrintsUuids : Env → Type 0
PrintsUuids env = (u : Uuid) → env.uuid_parse (env.uuid_string u) ≡ some u

module _ (env : Env) (prints : PrintsUuids env) (task : Task) (mid : Bytes) where
  -- The consumer finds the id that the producer wrote.
  pub extract-produced : extract_task_uuid env (message_of env task mid) ≡ some task.id
  unfolding extract_task_uuid task_values
  extract-produced = rw prints refl

  -- The treatment of the message by what its payload decodes to.
  abbrev pub by_decoded : Handler → Consumer → ℕ → String ⊎ Decoded → Exec (Unit {0})
  by_decoded handler c worker_id (inr t) =
      handler worker_id (record t { id = task.id; status = status_processing })
  by_decoded handler c worker_id (inl reason) =
      handle_invalid_payload env c (message_of env task mid) (some task.id)
        (some (payload_or_empty task.payload)) reason

  treat_decoded-produced :
      (unmarshal : Decoder) (handler : Handler) (c : Consumer) (worker_id : ℕ)
      (d : String ⊎ Decoded)
      → treat_decoded env unmarshal handler c worker_id
          (message_of env task mid)
          (payload_or_empty task.payload)
          d
        ≡ by_decoded handler c worker_id d
  unfolding treat_decoded
  treat_decoded-produced unmarshal handler c worker_id (inr t) =
      ap (λ u. handler worker_id (record (with_id u t) { status = status_processing }))
        extract-produced
  treat_decoded-produced unmarshal handler c worker_id (inl reason) =
      ap
        (λ u.
          handle_invalid_payload env c (message_of env task mid) u
            (some (payload_or_empty task.payload)) reason)
        extract-produced

  pub treat-produced :
      (unmarshal : Decoder) (handler : Handler) (c : Consumer) (worker_id : ℕ)
      → treat env unmarshal handler c worker_id (message_of env task mid)
        ≡ by_decoded handler c worker_id (unmarshal (payload_or_empty task.payload))
  unfolding treat task_values
  treat-produced unmarshal handler c worker_id =
      treat_decoded-produced unmarshal handler c worker_id
        (unmarshal (payload_or_empty task.payload))

  -- If google/uuid parses what it prints, process_service consumes a produced message by what its
  -- payload decodes to, whatever its handler: a task is handled under the id of the submitted one,
  -- whatever id the payload names, and as being processed; a payload that does not decode is marked
  -- and refused under that id; and the message is acknowledged behind either, if that succeeds. An
  -- absent payload counts as an empty one.
  pub consume_message-produced :
      (unmarshal : Decoder) (handler : Handler) (c : Consumer) (worker_id : ℕ)
      → consume_message env unmarshal handler c worker_id (message_of env task mid) ≡ (
          by_decoded handler c worker_id (unmarshal (payload_or_empty task.payload))
          >> ack_message env mid)
  consume_message-produced unmarshal handler c worker_id =
      consume_message-treat env unmarshal handler c worker_id (message_of env task mid)
      ∙ ap (λ (m : Exec (Unit {0})). m >> ack_message env mid)
          (treat-produced unmarshal handler c worker_id)
