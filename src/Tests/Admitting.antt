-- ===== src/Tests/Admitting.antt =====
-- The theorems on submissions side by side, the set of tasks that were not processed, the loops of
-- the consumer, and the sampling, at sample values.
use shortcut.Prelude.{
  ℕ, codes, true, false, List, [], ◌∷◌, inr, ◌≡◌, ◌≤◌, ◌+◌, refl, arith, none, some,
}
use shortcut.Runtime.{Env, message, XStream}
use shortcut.ClickHouse.{has_key, sample, Service}
use shortcut.ClickHouse.Sampling.{EndsOrWaits, sample-EndsOrWaits}
use shortcut.Process.Bus.{consume_tasks}
use shortcut.Process.Bus.Flat.{behind_read, as_one_batch, consume_tasks_flat}
use shortcut.Process.Queue.{Op, add, list}
use shortcut.Process.Queue.Refinement.{VisitsEachKey, Refines, service_queue, service-Refines}
use shortcut.Submit.WebApi.{submit_task}
use shortcut.Submit.WebApi.{max_tasks}
use shortcut.Submit.WebApi.Admission.{
  Pc, arrived, choosing, storing, System, Move, pass, take, Step, serve, arrive, Reach, start,
  later,
}
use shortcut.Submit.WebApi.Admission.Tokens.{in_work, leaked, submissions_bounded}
use shortcut.Submit.WebApi.Admission.Alone.{RunsThrough, submit_task_alone}
use shortcut.Tests.Samples.{
  env, new_world, client, message_with, takes_all, consumer, handler, task_handler, submission,
}

-- One submission at a place, with so many tokens taken.
abbrev one_at : Pc → ℕ → System
one_at p n = record {
  shared = record { shutting_down = false; sem = n };
  requests = record { payload = codes "a"; pc = p } ∷ [];
}

abbrev holding : System
holding = one_at storing 1

step_to :
    (p q : Pc) (m n : ℕ)
    → Move (codes "a") (one_at p m).shared (one_at q n).shared p q
    → Step (one_at p m) (one_at q n)
step_to p q m n v = serve [] [] (codes "a") p q refl v refl

arrived-Reach : Reach (one_at arrived 0)
arrived-Reach = later start (arrive (codes "a") refl)

choosing-Reach : Reach (one_at choosing 0)
choosing-Reach = later arrived-Reach (step_to arrived choosing 0 0 (pass refl refl))

holding-Reach : Reach holding
holding-Reach =
    later choosing-Reach (step_to choosing storing 0 1 (take (omega arith) (λ e. cc) refl))

submissions_bounded_example :
    (in_work holding.requests + leaked holding.requests ≡ 1) × (1 ≤ max_tasks)
submissions_bounded_example = submissions_bounded holding-Reach

submit_task_alone_example :
    RunsThrough
      (codes "work")
      new_world
      (submit_task env task_handler (submission (codes "work")) new_world)
submit_task_alone_example = submit_task_alone env task_handler (submission (codes "work")) new_world

env-VisitsEachKey : VisitsEachKey env
env-VisitsEachKey = record { once = λ h keys n. n; same = λ h keys j. refl }

abbrev ops : List Op
ops = add (codes "a") ∷ list ∷ add (codes "b") ∷ add (codes "a") ∷ list ∷ []

service-Refines_example :
    Refines (service_queue env env-VisitsEachKey) ops new_world (λ j. has_key j [])
service-Refines_example = service-Refines env ops new_world env-VisitsEachKey tt

-- A read of two streams.
abbrev streams : List XStream
streams =
    record { name = "tasks"; messages = message_with "a" ∷ message_with "b" ∷ [] }
    ∷ record { name = "tasks"; messages = message_with "c" ∷ [] }
    ∷ []

abbrev reading_env : Env
reading_env = record env { read_reply = λ _. inr streams }

consume_tasks_flat_example :
    consume_tasks reading_env takes_all handler (consumer none) 1 new_world
    ≡ as_one_batch reading_env takes_all handler (consumer none) 1 (inr streams) (record new_world {
      history = behind_read reading_env takes_all handler (consumer none) 1 new_world;
    })
consume_tasks_flat_example =
    consume_tasks_flat reading_env takes_all handler (consumer none) 1 new_world

-- ClickHouse refuses every write.
abbrev refusing : Env
refusing = record env { exec_reply = λ _. some (message "broken pipe") }

abbrev sampled : Service
sampled = record { client = client; has_metrics = true }

sample-EndsOrWaits_example :
    EndsOrWaits (sample refusing sampled (true ∷ true ∷ false ∷ []) new_world)
sample-EndsOrWaits_example =
    sample-EndsOrWaits refusing sampled (true ∷ true ∷ false ∷ []) new_world (omega arith)
