-- ===== src/Tests/Submitting.antt =====
-- The theorems on submit_service, and on the message between the services, at sample values.
use shortcut.Prelude.{
  suc, length, arith, ℕ, codes, List, String, [], ◌∷◌, none, some, ◌≡◌, ◌≤◌, ◌+◌, ◌*◌, ◌^◌, length,
  refl, arith, All,
}
use shortcut.Runtime.{message, ok, World, ◌>>◌}
use shortcut.Process.Domain.{status_processing}
use shortcut.Submit.Bus.Pipeline.{message_of, PrintsUuids, consume_message-produced}
use shortcut.Submit.Bus.WorkedOff.{worked_on, settle, produced_task_worked_off}
use shortcut.Process.Bus.{consume_message, ack_message}
use shortcut.Process.Daemon.{handle_task}
use shortcut.Process.Daemon.Balance.{handled}
use shortcut.Submit.WebApi.CpuLoad.{run_cpu_load}
use shortcut.Submit.WebApi.CpuLoad.Rounds.{cpu_load_returns}
use shortcut.Submit.WebApi.{
  run_memory_load, seconds_duration, max_tasks, submit_task, resume_task, handle_readiness, stop,
  route, serve, Request,
}
use shortcut.Submit.WebApi.Answers.{Answered, serve_answers}
use shortcut.Submit.WebApi.Exhaustion.{empties, served, served-exhausts}
use shortcut.Submit.WebApi.Leak.{fresh}
use shortcut.Submit.WebApi.Submission.{by_insertion, submitted, insertion, submit_task_by_answers}
use shortcut.Submit.WebApi.Bounds.{nth, run_memory_load_pages, run_memory_load_wraps}
use shortcut.Submit.WebApi.Drain.{RefusedIn, stop_refuses}
use shortcut.Tests.Samples.{
  decoded, env, flaky, new_world, uuid_of, consumer, task_handler, submission, submitted_task,
  takes_all, handler, service,
}

-- ClickHouse does not take the task.
submit_task_by_answers_example :
    let w' = (submit_task flaky task_handler (submission (codes "work")) (fresh new_world)).1 in
    let task = submitted flaky new_world (codes "work") in
    let h = insertion flaky new_world task ∷ [] in
    let (status, calls) = by_insertion flaky task h (some (message "broken pipe")) in
    (w'.response.status ≡ some status) × (w'.history ≡ calls) × (w'.sem ≡ 0)
submit_task_by_answers_example =
    submit_task_by_answers flaky task_handler service (submission (codes "work")) 119 (codes "ork")
      new_world refl refl refl (omega arith)

-- Two tokens are free, and two of five requests are submissions without a payload.
abbrev requests : List (String × Request)
requests =
    ("/readiness", submission [])
    ∷ ("/submit", submission [])
    ∷ ("/submit", submission (codes "work"))
    ∷ ("/load/cpu", submission [])
    ∷ ("/submit", submission [])
    ∷ []

abbrev nearly_full : World
nearly_full = record new_world { sem = 98 }

served-exhausts_example :
    ((served env task_handler 4 requests nearly_full).sem ≡ max_tasks)
    × ((submit_task env task_handler
          (submission (codes "work"))
          (fresh (served env task_handler 4 requests nearly_full))).1.response.status
        ≡ some 503)
unfolding empties route
served-exhausts_example =
    served-exhausts env task_handler 4 requests (submission (codes "work")) nearly_full refl
      (omega arith) (ground arith)

-- A request without a payload.
serve_answers_example :
    Answered 1 new_world (serve flaky task_handler 4 "/submit" (submission []) (fresh new_world))
unfolding route
serve_answers_example = serve_answers flaky task_handler 4 "/submit" (submission []) new_world

env-PrintsUuids : PrintsUuids env
env-PrintsUuids u = refl

flaky-PrintsUuids : PrintsUuids flaky
flaky-PrintsUuids u = refl

consume_message-produced_example :
    consume_message env takes_all handler
      (consumer none)
      1
      (message_of env submitted_task (codes "1-1"))
    ≡ (handler 1 (record decoded { id = uuid_of 5; status = status_processing })
        >> ack_message env (codes "1-1"))
consume_message-produced_example =
    consume_message-produced env env-PrintsUuids submitted_task (codes "1-1") takes_all handler
      (consumer none) 1

stop_refuses_example :
    let w' = (stop env "8080" new_world).1 in
    RefusedIn w' (submit_task env task_handler (submission (codes "work")) (fresh w')).1
    × RefusedIn w' (resume_task env task_handler (submission (codes "work")) (fresh w')).1
    × RefusedIn w' (handle_readiness (fresh w')).1
stop_refuses_example = stop_refuses env task_handler "8080" (submission (codes "work")) new_world

run_memory_load_pages_example :
    (written : List (ℕ × ℕ)) × (run_memory_load (2 ^ 33) 64 300 ≡ ok written)
    × (length written ≡ 64 * 256)
    × (nth written 7 ≡ some (28672, 44))
run_memory_load_pages_example =
    run_memory_load_pages (2 ^ 33) 64 300 7 (omega arith) (omega arith) (omega arith)

run_memory_load_wraps_example :
    run_memory_load (2 ^ 33) (64 + 3 * 2 ^ 44) 300 ≡ run_memory_load (2 ^ 33) 64 300
run_memory_load_wraps_example = run_memory_load_wraps (2 ^ 33) 64 300 3

-- A worker whose clock goes on by a nanosecond in each round.
abbrev clocks : List (ℕ → ℕ)
clocks = (λ i. i) ∷ []

-- So many seconds that the duration wraps.
cpu_load_returns_example :
    (rounds : List ℕ) × (run_cpu_load
        (suc (seconds_duration 10000000000))
        0
        clocks
        (seconds_duration 10000000000)
      ≡ some (ok rounds))
    × (length rounds ≡ 1)
    × All (λ (n : ℕ). n ≤ 0) rounds
cpu_load_returns_example =
    cpu_load_returns 0 10000000000 clocks (omega arith) (omega arith)
      ((omega arith, λ i. omega arith), tt)

-- The API does not answer, and the message is not acknowledged.
produced_task_worked_off_example :
    let done = worked_on submitted_task decoded in
    consume_message flaky takes_all
      (handle_task flaky)
      (consumer none)
      1
      (message_of flaky submitted_task (codes "1-1"))
      new_world
    ≡ settle flaky
        (codes "1-1")
        (some (message "unavailable"))
        (handled flaky 1 done new_world (some (message "unavailable")))
produced_task_worked_off_example =
    produced_task_worked_off flaky submitted_task (codes "1-1") takes_all decoded (consumer none) 1
      new_world flaky-PrintsUuids refl
