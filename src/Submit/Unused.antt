-- ===== src/Submit/Unused.antt =====
-- The daemon and the consumer of submit_service, which its main.go does not start.
use shortcut.Prelude.{
  ℕ, List, ◌∷◌, Option, none, some, Option-cases, inl, inr, ◌≡◌, ◌≢◌, ◌⊎◌, refl, arith,
}
use shortcut.Runtime.{Env, Error, message, World, err, panic, XMessage}
use shortcut.Submit.Domain.{Task}
use shortcut.Submit.Tasks.{TaskService}
use shortcut.Submit.Bus.{Handler, consume_message, consume_messages}
use shortcut.Submit.Daemon.{process}

-- With the wait group at 0, as no `Add` goes before the `Done`, handling a task ends in a panic,
-- whatever the task, the context and the answer of ClickHouse.
pub process_panics :
    (env : Env) (s : TaskService) (ended : Option Error) (worker_id : ℕ) (task : Task) (w : World)
    → w.wait_group ≡ 0
    → (process env s ended worker_id task w).0 ≡ panic "sync: negative WaitGroup counter"
unfolding process
process_panics env s none worker_id task w h = ground arith
process_panics env s (some e) worker_id task w h = ground arith

-- The consumer stops at the first message of a batch: with an error if the id that Redis gave is no
-- UUID, and else in a panic. It changes nothing: no task is handled and no message acknowledged.
pub consume_messages_stops :
    (env : Env) (handler : Handler) (worker_id : ℕ) (m : XMessage) (ms : List XMessage) (w : World)
    → let (r, w') = consume_messages env handler worker_id (m ∷ ms) w in
      (w' ≡ w)
      × ((env.uuid_parse m.id ≡ none × r ≡ err (message "invalid UUID"))
          ⊎ (env.uuid_parse m.id ≢ none
              × r ≡ panic "interface conversion: interface {} is not *string"))
unfolding consume_messages
consume_messages_stops env handler worker_id m ms w = elim (Option-cases (env.uuid_parse m.id)) [
  | inl e ↦ rw (e, consume_message) (refl, inl (refl, refl))
  | inr (u, e) ↦ rw (e, consume_message) (refl, inr (λ n. cc, refl))
]
