-- ===== src/Submit/Bus.antt =====
-- submit_service/internal/bus/redis.go: the producer, and a consumer that the service never starts.
pub mod Pipeline
pub mod WorkedOff
use shortcut.Prelude.{
  ℕ, Bytes, codes, String, List, [], ◌∷◌, Option, none, some, ◌⊎◌, inl, inr, str_eq, if◌then◌else◌,
}
use shortcut.Runtime.{
  Call, Env, Error, message, World, Exec, Outcome, ok, err, panic, blocked, call, checked, returned,
  pure, raise, panics, ◌>>=◌, ◌>>◌, continue, Uuid, Value, XMessage, XStream,
}
use shortcut.Submit.Domain.{Task, status_processing}

abbrev pub payload_or_empty : Option Bytes → Bytes
payload_or_empty none = []
payload_or_empty (some p) = p

-- The fields of the message for a task.
unfoldable pub task_values : Env → Task → List (String × Value)
task_values env task =
    ("id", Value.str (env.uuid_string task.id))
    ∷ ("status", Value.str (codes task.status))
    ∷ ("payload", Value.str (payload_or_empty task.payload))
    ∷ []

unfoldable pub produce_task : Env → Task → Exec (Unit {0})
unfolding task_values
produce_task env task =
    call (Call.x_add "tasks" (task_values env task)) (λ h. checked (env.redis_reply h))

-- The handler that the consumer calls.
abbrev pub Handler : Type 0
Handler = ℕ → Task → Exec (Unit {0})

module _ (env : Env) (handler : Handler) (worker_id : ℕ) where
  -- The assertion `message.Values["payload"].(*string)` fails for what a message can hold, and for
  -- nil: it panics.
  unfoldable pub consume_message : XMessage → Exec (Unit {0})
  consume_message m = elim (env.uuid_parse m.id) [
    | none ↦ raise (message "invalid UUID")
    | some message_id ↦ panics "interface conversion: interface {} is not *string"
  ]

  unfoldable pub consume_messages : List XMessage → Exec (Unit {0})
  unfolding consume_message
  consume_messages [] = pure tt
  consume_messages (m ∷ ms) = consume_message m >> consume_messages ms

  unfoldable pub consume_streams : List XStream → Exec (Unit {0})
  unfolding consume_messages
  consume_streams [] = pure tt
  consume_streams (s ∷ ss) = consume_messages s.messages >> consume_streams ss

  unfoldable pub consume_tasks : Exec (Unit {0})
  unfolding consume_streams
  consume_tasks =
      call (Call.x_read ("tasks" ∷ "0" ∷ [])) (λ h. returned (env.read_reply h)) >>= consume_streams
