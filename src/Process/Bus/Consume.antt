-- ===== src/Process/Bus/Consume.antt =====
-- `Consumer`: `ConsumeTasks` and what it calls. `json.Unmarshal`, the handler and the status hook
-- are arguments.
use shortcut.Prelude.{
  ℕ, Bytes, codes, itoa, String, List, [], ◌∷◌, ◌++◌, Option, none, some, ◌⊎◌, inl, inr,
  if◌then◌else◌,
}
use shortcut.Runtime.{
  Call, Env, message, equals, is_redis_nil, Exec, call, checked, returned, try, pure, raise, ◌>>◌,
  Uuid, Value, XMessage, XStream,
}
use shortcut.Process.Domain.{Task, status_processing}
use shortcut.Process.Dlq.{MinIo, send_invalid_payload}
use shortcut.Process.Bus.Ids.{field, extract_task_uuid}

abbrev pub stream_name : String
stream_name = "tasks"

abbrev pub group_name : String
group_name = "task_group"

-- `InvalidTaskStatusUpdater.MarkTaskInvalid`
abbrev pub StatusHook : Type 0
StatusHook = Uuid → Option Bytes → String → Exec (Unit {0})

-- `Consumer`: the writer and the hook may be nil. The writer is the interface `dlq.Writer`, which
-- holds a `*MinIO` that may be nil in its turn.
pub record Consumer : Type 0 where
  pub dlq_writer : Option (Option MinIo)
  pub status_hook : Option StatusHook

-- The handler of a task, by the worker's number.
abbrev pub Handler : Type 0
Handler = ℕ → Task → Exec (Unit {0})

-- What `json.Unmarshal` makes of a payload: a task, or an error with its text.
abbrev pub Decoder : Type 0
Decoder = Bytes → String ⊎ Task

-- `NewConsumer`: the first of the optional hooks.
unfoldable pub new_consumer : Option (Option MinIo) → List StatusHook → Consumer
new_consumer writer [] = record { dlq_writer = writer; status_hook = none }
new_consumer writer (hook ∷ _) = record { dlq_writer = writer; status_hook = some hook }

-- The payload by the cases of the `switch`: bytes to decode, or the text of an unsupported value.
abbrev pub payload_bytes : Value → Bytes ⊎ Bytes
payload_bytes (Value.str s) = inr s
payload_bytes (Value.bytes b) = inr b
payload_bytes (Value.other _ rendered) = inl rendered

abbrev pub with_id : Option Uuid → Task → Task
with_id none task = task
with_id (some u) task = record task { id = u }

module _ (env : Env) where
  unfoldable pub ack_message : Bytes → Exec (Unit {0})
  ack_message id = call (Call.x_ack stream_name group_name id) (λ h. checked (env.redis_reply h))

  unfoldable pub send_to_dlq : Consumer → Bytes → Option Bytes → String → Exec (Unit {0})
  unfolding send_invalid_payload
  send_to_dlq c message_id payload reason = elim c.dlq_writer [
    | none ↦ raise (message "dlq storage is not configured")
    | some writer ↦ send_invalid_payload env writer message_id payload reason
  ]

  -- The call of the status hook, if there are an id and a hook.
  unfoldable pub mark : Option Uuid → Option StatusHook → Option Bytes → String → Exec (Unit {0})
  mark (some task_id) (some hook) payload reason = hook task_id payload reason
  mark (some task_id) none payload reason = pure tt
  mark none hook payload reason = pure tt

  unfoldable pub handle_invalid_payload :
      Consumer → XMessage → Option Uuid → Option Bytes → String → Exec (Unit {0})
  unfolding mark send_to_dlq
  handle_invalid_payload c m task_id payload reason =
      mark task_id c.status_hook payload reason >> send_to_dlq c m.id payload reason

  unfoldable pub reject :
      Consumer → XMessage → Option Uuid → Option Bytes → String → Exec (Unit {0})
  unfolding handle_invalid_payload ack_message
  reject c m task_id payload reason =
      handle_invalid_payload c m task_id payload reason >> ack_message m.id

  module _ (unmarshal : Decoder) (handler : Handler) (c : Consumer) (worker_id : ℕ) where
    -- The task that a decoded payload stands for.
    unfoldable pub deliver : XMessage → Task → Exec (Unit {0})
    unfolding extract_task_uuid ack_message
    deliver m task =
        handler worker_id
          (record (with_id (extract_task_uuid env m) task) { status = status_processing })
        >> ack_message m.id

    -- By what `json.Unmarshal` says.
    unfoldable pub decode : XMessage → Bytes → String ⊎ Task → Exec (Unit {0})
    unfolding deliver reject
    decode m payload (inl reason) = reject c m (extract_task_uuid env m) (some payload) reason
    decode m payload (inr task) = deliver m task

    -- By the type of the payload.
    unfoldable pub dispatch : XMessage → Bytes ⊎ Bytes → Exec (Unit {0})
    unfolding decode reject
    dispatch m (inl text) =
        reject c m (extract_task_uuid env m) (some text) "unsupported payload type"
    dispatch m (inr payload) = decode m payload (unmarshal payload)

    -- By the field of the payload.
    unfoldable pub consume_field : XMessage → Option Value → Exec (Unit {0})
    unfolding dispatch reject
    consume_field m none = reject c m (extract_task_uuid env m) none "missing payload field"
    consume_field m (some raw) = dispatch m (payload_bytes raw)

    -- The body of the inner loop of `ConsumeTasks`.
    unfoldable pub consume_message : XMessage → Exec (Unit {0})
    unfolding consume_field field
    consume_message m = consume_field m (field "payload" m.values)

    -- The inner loop: the first error ends it.
    unfoldable pub consume_messages : List XMessage → Exec (Unit {0})
    consume_messages [] = pure tt
    consume_messages (m ∷ ms) = consume_message m >> consume_messages ms

    unfoldable pub consume_streams : List XStream → Exec (Unit {0})
    consume_streams [] = pure tt
    consume_streams (s ∷ ss) = consume_messages s.messages >> consume_streams ss

    -- `ConsumeTasks`: an empty read is no error.
    unfoldable pub consume_tasks : Exec (Unit {0})
    unfolding consume_streams
    consume_tasks =
        try
          (call (Call.x_read_group group_name (worker_name worker_id) 1 (stream_name ∷ ">" ∷ []))
            (λ h. returned (env.read_reply h)))
          (λ e. if equals e is_redis_nil then pure tt else raise e) consume_streams
      where
        -- `fmt.Sprintf("worker-%d", workerID)`
        worker_name : ℕ → Bytes
        worker_name n = codes "worker-" ++ itoa n
