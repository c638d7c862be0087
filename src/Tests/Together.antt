-- ===== src/Tests/Together.antt =====
-- The theorems on `handleTask`, at sample values: two workers side by side, whose calls of the API
-- fail, and one whose workers are cancelled while the call sleeps.
use shortcut.Prelude.{
  ℕ, ◌+◌, ◌*◌, ◌-◌, ◌≤◌, ◌<◌, ◌^◌, Bytes, ◌⊎◌, inr, some, true, List, [], ◌∷◌, ◌≡◌, refl, arith,
}
use shortcut.Runtime.{
  Call, Env, Error, canceled, World, ok, Gauge, Counter, active_tasks, mem_used,
  http_requests_inflight,
}
use shortcut.ClickHouse.{has_key}
use shortcut.Metrics.{count, IsPrometheus}
use shortcut.Process.Queue.{Shows}
use shortcut.Process.Queue.Refinement.{VisitsEachKey}
use shortcut.Process.Domain.{Task}
use shortcut.Process.Daemon.{handle_task, wg_add, final_report}
use shortcut.Process.Daemon.Books.{tally, added, removed, answered_well, failed_ids, IsBalanced}
use shortcut.Process.Daemon.Handling.{
  System, Pc, idle, begun, advance, after, Reach, start, later, begin, all_idle,
}
use shortcut.Process.Daemon.Handling.Alone.{run, with_worker, run-Reach, handle_task-Reach}
use shortcut.Process.Daemon.Handling.Draining.{Drain, act, rest, handlers_drain}
use shortcut.Process.Daemon.Handling.Idle.{workers-IsBalanced, active_tasks-le}
use shortcut.Process.Daemon.Report.{IsGauge, report, final_report-exact}
use shortcut.Process.Daemon.Simulated.{Settles, ends_cancelled, handle_task-Settles}
use shortcut.Process.ExtApi.{get_something}
use shortcut.Tests.Samples.{env, flaky, new_world, decoded}

-- Prometheus with its gauge of active tasks.
abbrev level : List Call → Gauge → Error ⊎ ℕ
level h active_tasks = inr (tally added h - tally removed h)
level h mem_used = inr 0
level h http_requests_inflight = inr 0

abbrev metered : Env
metered = record flaky { gauge_value = level }

metered-IsPrometheus : IsPrometheus metered
metered-IsPrometheus = record { counts = λ h c l small. refl }

metered-IsGauge : IsGauge metered
metered-IsGauge = record { level = λ h le small. refl }

metered-VisitsEachKey : VisitsEachKey metered
metered-VisitsEachKey = record { once = λ h keys n. n; same = λ h keys j. refl }

abbrev other_task : Task
other_task = record decoded { id = record { number = 8 } }

abbrev from_idle : Reach metered 2 new_world (with_worker [] (idle ∷ []) (idle, new_world))
unfolding all_idle
from_idle = start

new_world-IsBalanced : IsBalanced metered 0 new_world
unfolding tally answered_well failed_ids count
new_world-IsBalanced = record {
  in_work = refl;
  entered = refl;
  left = refl;
  measured = refl;
  processed = refl;
  once = tt;
  unprocessed = λ id. refl;
}

-- The first worker has called the API; the second then works its task off.
abbrev asked : Pc × World
asked = run metered 1 4 (begun decoded) (after wg_add new_world)

abbrev amid : World
amid = (handle_task metered 2 other_task asked.1).1

asked-Reach : Reach metered 2 new_world (with_worker [] (idle ∷ []) asked)
asked-Reach =
    run-Reach metered 1 2 new_world [] (idle ∷ []) 4 (begun decoded) (after wg_add new_world)
      (later from_idle (begin [] (idle ∷ []) decoded refl refl))

amid-Reach : Reach metered 2 new_world (with_worker [] (idle ∷ []) (asked.0, amid))
amid-Reach =
    handle_task-Reach metered 2 2 new_world (asked.0 ∷ []) [] other_task asked.1 asked-Reach

asked_ends :
    Drain metered 1
      (with_worker [] (idle ∷ []) (asked.0, amid))
      (with_worker [] (idle ∷ []) (run metered 1 1 asked.0 amid))
unfolding run advance
asked_ends = act [] (idle ∷ []) asked.0 1 refl refl refl rest

handlers_drain_example :
    (1 ≤ 12 * amid.wait_group)
    × (((run metered 1 1 asked.0 amid).1.wait_group ≡ 0)
        ⊎ ((u : System) × Drain metered 1
              (with_worker [] (idle ∷ []) (run metered 1 1 asked.0 amid))
              u))
handlers_drain_example = handlers_drain metered new_world-IsBalanced amid-Reach asked_ends

-- The first goes on, up to `Wg.Done()` and behind it.
abbrev nearly : Pc × World
nearly = run metered 1 6 asked.0 amid

nearly-Reach : Reach metered 2 new_world (with_worker [] (idle ∷ []) nearly)
nearly-Reach = run-Reach metered 1 2 new_world [] (idle ∷ []) 6 asked.0 amid amid-Reach

abbrev done : Pc × World
done = run metered 1 1 nearly.0 nearly.1

done-Reach : Reach metered 2 new_world (with_worker [] (idle ∷ []) done)
done-Reach = run-Reach metered 1 2 new_world [] (idle ∷ []) 1 nearly.0 nearly.1 nearly-Reach

storage_done : done.1.storage ≡ (8 ∷ []) ∷ (9 ∷ []) ∷ []
unfolding run advance handle_task wg_add has_key shortcut.Prelude.bytes_eq
storage_done = refl

workers-IsBalanced_example : IsBalanced metered 0 done.1
unfolding run advance handle_task wg_add has_key shortcut.Prelude.bytes_eq
workers-IsBalanced_example =
    workers-IsBalanced metered 2 new_world (with_worker [] (idle ∷ []) done) new_world-IsBalanced
      done-Reach refl

active_tasks-le_example :
    (tally removed amid.history ≤ tally added amid.history)
    × (tally added amid.history ≤ tally removed amid.history + amid.wait_group)
    × (amid.wait_group ≤ 2)
active_tasks-le_example =
    active_tasks-le metered 2 new_world (with_worker [] (idle ∷ []) (asked.0, amid))
      new_world-IsBalanced amid-Reach

handle_task-Reach_example : Reach metered 2 new_world (with_worker (asked.0 ∷ []) [] (idle, amid))
handle_task-Reach_example =
    handle_task-Reach metered 2 2 new_world (asked.0 ∷ []) [] other_task asked.1 asked-Reach

few : (c : Counter) (l : Bytes) → count c l done.1.history < 2 ^ 53
unfolding run advance handle_task wg_add has_key shortcut.Prelude.bytes_eq count
few c l = ground arith

final_report-exact_example :
    (shown : List Bytes) × (final_report metered done.1
      ≡ (ok (report metered done.1 shown), done.1))
    × Shows shown (λ id. has_key id (failed_ids metered done.1.history))
unfolding run advance handle_task wg_add has_key shortcut.Prelude.bytes_eq tally
final_report-exact_example =
    final_report-exact metered done.1 metered-IsPrometheus metered-IsGauge metered-VisitsEachKey few
      (ground arith)
      (workers-IsBalanced metered 2 new_world (with_worker [] (idle ∷ []) done) new_world-IsBalanced
        done-Reach refl)

-- The workers are cancelled after half a second of a call that would sleep for a second.
abbrev cut_short : Env
cut_short = record env { api_reply = λ _. some canceled }

handle_task-Settles_example :
    Settles ends_cancelled (9 ∷ []) new_world (handle_task cut_short 1 decoded new_world)
unfolding get_something
handle_task-Settles_example =
    handle_task-Settles cut_short 1 decoded new_world (some 500) 0 3 true new_world refl
