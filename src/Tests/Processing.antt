-- ===== src/Tests/Processing.antt =====
-- The theorems on process_service at sample values.
use shortcut.Prelude.{
  arith, inr, codes, List, [], ◌∷◌, none, some, ◌≡◌, ◌≢◌, refl, true, false, All,
}
use shortcut.Runtime.{XStream, Env, message, World, ok, err}
use shortcut.Process.Dlq.Put.{Stored}
use shortcut.Process.Bus.{extract_task_uuid, consume_message, consume_tasks, mark}
use shortcut.Process.Bus.Candidates.{Finds, extract_task_uuid_first}
use shortcut.Process.Bus.Settled.{treat, ack_of, consume_message_acks}
use shortcut.Process.Bus.Invalid.{refused_message-Stored}
use shortcut.Process.Bus.Acks.{AcksPrefix}
use shortcut.Process.Daemon.Rounds.{reads, rounds_open, worker_goes_on}
use shortcut.Process.Daemon.{Daemon, worker, handle_task, stop}
use shortcut.Process.Daemon.Balance.{handled, handle_task-handled}
use shortcut.Process.Daemon.Batch
use shortcut.Process.Daemon.Batch.{delivered, consume_tasks_prefix}
use shortcut.Process.Daemon.Pool.Alone.{StopRuns, stop_alone}
use shortcut.Process.Daemon.Pool.{
  testing, handling, waiting, waited, returned, crashed, Pc, System, cancel, proceed, pass, Reach,
  start, later, launched,
}
use shortcut.Process.Daemon.Pool.Waiting.{
  wait_returns_when_idle, stop_may_panic, stop_returns_before_a_task,
}
use shortcut.Process.Tasks.Service.{get_all_not_processed_tasks}
use shortcut.Process.Tasks.Rows.{failed_tasks, read_ids, get_all_not_processed_tasks-by_rows}
use shortcut.Tests.Samples.{
  service, env, flaky, new_world, store, message_with, decoded, takes_all, takes_none,
  task_repository, consumer, handler,
}

-- A message that cannot be decoded, and the world after it.
abbrev after_refusal : World
after_refusal =
    (consume_message env takes_none handler (consumer (some (some store))) 1 (message_with "{")
      new_world).1

refused_message-Stored_example :
    (w₁ : World) × (w₂ : World) × (mark env
        (extract_task_uuid env (message_with "{"))
        none
        (some (codes "{"))
        "unexpected end of JSON input"
        new_world
      ≡ (ok tt, w₁))
    × Stored env store (codes "1-1") (some (codes "{")) "unexpected end of JSON input" w₁ w₂
    × (after_refusal.history ≡ ack_of (message_with "{") ∷ w₂.history)
unfolding consume_message
refused_message-Stored_example =
    refused_message-Stored env takes_none handler (consumer (some (some store))) 1 store
      (message_with "{") (some (codes "{")) "unexpected end of JSON input" new_world after_refusal
      refl refl refl

consume_message_acks_example :
    (w₁ : World) × (treat env takes_all handler (consumer none) 1 (message_with "work") new_world
      ≡ (ok tt, w₁))
    × (ack_of (message_with "work") ∷ [] ≡ ack_of (message_with "work") ∷ w₁.history)
    × (env.redis_reply (ack_of (message_with "work") ∷ w₁.history) ≡ none)
unfolding consume_message
consume_message_acks_example =
    consume_message_acks env takes_all handler (consumer none) 1 (message_with "work") new_world
      (record new_world { history = ack_of (message_with "work") ∷ [] }) refl

-- The API is not available: the task is kept.
handle_task-handled_example : handle_task flaky 1 decoded new_world ≡ (
  err (message "unavailable"),
  handled flaky 1 decoded new_world (some (message "unavailable")),
)
handle_task-handled_example = handle_task-handled flaky 1 decoded new_world

-- A read of two streams.
abbrev streams : List XStream
streams =
    record { name = "tasks"; messages = message_with "a" ∷ message_with "b" ∷ [] }
    ∷ record { name = "tasks"; messages = message_with "c" ∷ [] }
    ∷ []

abbrev reading_env : Env
reading_env = record env { read_reply = λ _. inr streams }

consume_tasks_prefix_example : AcksPrefix (delivered (inr streams)) new_world (
    consume_tasks reading_env takes_all
      (handle_task reading_env)
      (Batch.consumer reading_env takes_all none task_repository 1)
      1
      new_world)
consume_tasks_prefix_example =
    consume_tasks_prefix reading_env takes_all none task_repository 1 new_world

-- A worker that makes two rounds, and then sees its context done.
abbrev daemon : Daemon
daemon = record {
  num_workers = 5;
  queue_size = 100;
  consumer = Batch.consumer reading_env takes_all none task_repository 1;
}

worker_goes_on_example :
    let x = worker reading_env takes_all daemon 1 (false ∷ false ∷ true ∷ []) new_world in
    (x.0 ≡ ok tt) × (reads x.1.history ≡ 2)
unfolding rounds_open reads
worker_goes_on_example =
    worker_goes_on reading_env takes_all none task_repository 1 daemon (false ∷ false ∷ true ∷ [])
      new_world refl

extract_task_uuid_first_example :
    Finds env (message_with "a").values (extract_task_uuid env (message_with "a"))
extract_task_uuid_first_example = extract_task_uuid_first env (message_with "a")

stop_alone_example : StopRuns new_world (testing ∷ []) (stop env new_world)
stop_alone_example = stop_alone env new_world false (testing ∷ []) refl

-- A worker at its loop, cancelled.
abbrev told : System
told = record {
  shared = record { cancelled = true; wait_group = 0; stop = waiting };
  workers = testing ∷ [];
}

abbrev woken : System
woken = record {
  shared = record { cancelled = true; wait_group = 0; stop = waited };
  workers = testing ∷ [];
}

told-Reach : Reach 1 told
unfolding launched
told-Reach = later start (cancel refl refl)

wait_returns_when_idle_example : All (λ (p : Pc). p ≢ handling) woken.workers
wait_returns_when_idle_example =
    wait_returns_when_idle told-Reach (proceed waiting waited refl (pass refl) refl)
      (λ e. ground arith) refl

stop_may_panic_example : (s : System) × Reach 5 s × (s.shared.stop ≡ crashed)
stop_may_panic_example = stop_may_panic 3

stop_returns_before_a_task_example :
    (s : System) × Reach 3 s × (s.shared.stop ≡ returned) × (s.workers ≡ handling ∷ launched 2)
stop_returns_before_a_task_example = stop_returns_before_a_task 2

-- The second row holds no id that parses.
get_all_not_processed_tasks-by_rows_example :
    (get_all_not_processed_tasks env (record { task_repo = task_repository }) new_world).0
    ≡ ok (failed_tasks env ((5 ∷ []) ∷ [] ∷ []))
unfolding read_ids
get_all_not_processed_tasks-by_rows_example =
    get_all_not_processed_tasks-by_rows env service new_world
