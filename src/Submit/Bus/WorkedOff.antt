-- ===== src/Submit/Bus/WorkedOff.antt =====
-- A task from its submission to the end of its handling in process_service.
use shortcut.Prelude.{ℕ, Bytes, none, some, Option, inr, ◌≡◌, refl, ap, ◌∙◌}
use shortcut.Runtime.{Env, Error, World, Outcome, err, continue, checked}
use shortcut.Submit.Domain.{Task}
use shortcut.Submit.Bus.{payload_or_empty}
use shortcut.Submit.Bus.Pipeline.{message_of, PrintsUuids, by_decoded, treat-produced}
use shortcut.Process.Domain.{Task as Decoded, status_processing}
use shortcut.Process.Bus.{Consumer, Decoder, ack_message, consume_message}
use shortcut.Process.Bus.Settled.{treat, consume_message-treat}
use shortcut.Process.Daemon.{handle_task}
use shortcut.Process.Daemon.Balance.{started, handled, handle_task-handled}

-- The task that is handled: what the payload decodes to, under the id of the submitted task.
abbrev pub worked_on : Task → Decoded → Decoded
worked_on task t = record t { id = task.id; status = status_processing }

-- What follows the answer of the API: the acknowledgement, or the error and none.
abbrev pub settle : Env → Bytes → Option Error → World → Outcome (Unit {0}) × World
settle env mid none w = ack_message env mid w
settle env mid (some e) w = (err e, w)

settled :
    (env : Env) (mid : Bytes) (answer : Option Error) (w : World)
    → continue (checked answer) (λ _. ack_message env mid) w ≡ settle env mid answer w
settled env mid none w = refl
settled env mid (some e) w = refl

-- If google/uuid parses what it prints, then process_service works off the message that the
-- producer made of a task whose payload decodes: whatever else stands in the state, it makes the
-- calls of `handleTask` for the id of the submitted task, in which the API is called once, and
-- acknowledges the message exactly if the API answers without an error; the error of the API is
-- returned.
pub produced_task_worked_off :
    (env : Env) (task : Task) (mid : Bytes) (unmarshal : Decoder) (t : Decoded) (c : Consumer)
    (worker_id : ℕ) (w : World)
    → PrintsUuids env
    → unmarshal (payload_or_empty task.payload) ≡ inr t
    → let answer = env.api_reply (started env worker_id (worked_on task t) w.history) in
      consume_message env unmarshal (handle_task env) c worker_id (message_of env task mid) w
      ≡ settle env mid answer (handled env worker_id (worked_on task t) w answer)
produced_task_worked_off env task mid unmarshal t c worker_id w prints decodes =
    let treated : treat env unmarshal (handle_task env) c worker_id (message_of env task mid)
        ≡ handle_task env worker_id (worked_on task t) =
      treat-produced env prints task mid unmarshal (handle_task env) c worker_id
      ∙ ap (by_decoded env prints task mid (handle_task env) c worker_id) decodes in
    rw (consume_message-treat, treated, handle_task-handled)
      (settled env mid (env.api_reply (started env worker_id (worked_on task t) w.history)) _)
