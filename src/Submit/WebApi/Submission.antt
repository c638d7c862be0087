-- ===== src/Submit/WebApi/Submission.antt =====
-- A submission with a payload, by the answers of ClickHouse and Redis.
use shortcut.Prelude.{
  ℕ, ◌+◌, ◌<◌, Bytes, [], ◌∷◌, false, none, some, ◌≡◌, arith, String, itoa, List, Option,
  Option-cases, inl, inr,
}
use shortcut.Runtime.{Call, Error, Arg, Level, Env, World, ok, status_counter}
use shortcut.ClickHouse.{Service}
use shortcut.Submit.Domain.{Task, status_processing, status_pending}
use shortcut.Submit.Bus.{task_values}
use shortcut.Submit.WebApi.Leak.{fresh}
use shortcut.Submit.WebApi.Http.{Request}
use shortcut.Submit.WebApi.Tasks.{TaskHandler, max_tasks, submit_task, start_task_processing}

module _ (env : Env) (th : TaskHandler) where
  -- With a token taken, a submission gives it back, however ClickHouse and Redis answer, and does
  -- not block.
  pub start_task_processing-token :
      (task : Task) (w : World)
      → 0 < w.sem
      → ((start_task_processing env th task w).0 ≡ ok tt)
        × ((start_task_processing env th task w).1.sem + 1 ≡ w.sem)
        × ((start_task_processing env th task w).1.shutting_down ≡ w.shutting_down)
  unfolding start_task_processing
  start_task_processing-token task w h = ground arith

-- The task of a submission, and the calls that are made for it.
abbrev pub submitted : Env → World → Bytes → Task
submitted env w payload = record {
  id = env.uuid_new w.history;
  status = status_processing;
  payload = some payload;
}

abbrev pub insertion : Env → World → Task → Call
insertion env w task =
    Call.exec "INSERT INTO tasks (id, status, payload, ts) VALUES ($1, $2, $3, $4)" (
      Arg.uuid task.id
      ∷ Arg.text task.status
      ∷ Arg.nullable task.payload
      ∷ Arg.time "2006-01-02 15:04:05" (env.now w.history)
      ∷ [])

abbrev pub publication : Env → Task → Call
publication env task = Call.x_add "tasks" (task_values env task)

abbrev pub pending_update : Task → Call
pending_update task =
    Call.exec "ALTER TABLE tasks UPDATE status = $1 WHERE id = $2 SETTINGS mutations_sync = 1"
      (Arg.text status_pending ∷ Arg.uuid task.id ∷ [])

abbrev pub counted : ℕ → Call
counted code = Call.counter_inc status_counter (itoa code)

abbrev complaint : String → Call
complaint m = Call.log Level.error m

-- The status of the response, and the calls made, newest first.
abbrev pub Report : Type 0
Report = ℕ × List Call

-- After a task was stored and not published, by the answer to the update of its status.
abbrev pub by_update : List Call → Option Error → Report
by_update h none = (500, counted 202 ∷ counted 500 ∷ h)
by_update h (some _) = (
  500,
  counted 202 ∷ counted 500 ∷ counted 500 ∷ complaint "Failed to update task %s status to %s" ∷ h,
)

-- After a task was stored, by the answer of Redis.
abbrev pub by_publication : Env → Task → List Call → Option Error → Report
by_publication env task h none = (202, counted 202 ∷ h)
by_publication env task h (some _) =
    let tried = pending_update task ∷ h in by_update tried (env.exec_reply tried)

-- By the answer of ClickHouse to the insertion.
abbrev pub by_insertion : Env → Task → List Call → Option Error → Report
by_insertion env task h (some _) =
    (500, counted 202 ∷ counted 500 ∷ complaint "Failed to insert task %s with status %s" ∷ h)
by_insertion env task h none =
    let sent = publication env task ∷ h in by_publication env task sent (env.redis_reply sent)

module _ (env : Env) (th : TaskHandler) (s : Service) (r : Request) (b : ℕ) (bs : Bytes) (w : World)
    (stored : th.task_service.task_repo.s ≡ some s) (given : r.payload ≡ b ∷ bs)
    (up : w.shutting_down ≡ false) (room : w.sem < max_tasks) where
  abbrev task : Task
  task = submitted env w (b ∷ bs)

  abbrev after : World
  after = (submit_task env th r (fresh w)).1

  abbrev kept_calls : List Call
  kept_calls = insertion env w task ∷ w.history

  -- A task that ClickHouse does not take is not published, and the client is told 500.
  not_stored :
      (e : Error)
      → env.exec_reply kept_calls ≡ some e
      → (after.history
          ≡ counted 202
            ∷ counted 500
            ∷ complaint "Failed to insert task %s with status %s"
            ∷ kept_calls)
        × (after.response.status ≡ some 500)
        × (after.sem ≡ w.sem)
  unfolding submit_task
  not_stored e h = ground arith

  -- A task that is stored and published is accepted with 202; the calls are made in this order.
  accepted :
      env.exec_reply kept_calls ≡ none
      → env.redis_reply (publication env task ∷ kept_calls) ≡ none
      → (after.history ≡ counted 202 ∷ publication env task ∷ kept_calls)
        × (after.response.status ≡ some 202)
        × (after.sem ≡ w.sem)
  unfolding submit_task
  accepted h k = ground arith

  -- A task that is stored and not published is set to pending, and the client is told 500 once more
  -- if that fails too.
  not_published :
      (e : Error)
      → env.exec_reply kept_calls ≡ none
      → env.redis_reply (publication env task ∷ kept_calls) ≡ some e
      → let tried = pending_update task ∷ publication env task ∷ kept_calls in
        (env.exec_reply tried ≡ none → after.history ≡ counted 202 ∷ counted 500 ∷ tried)
        × ((x : Error)
            → env.exec_reply tried ≡ some x
            → after.history
              ≡ counted 202
                ∷ counted 500
                ∷ counted 500
                ∷ complaint "Failed to update task %s status to %s"
                ∷ tried)
        × (after.response.status ≡ some 500)
        × (after.sem ≡ w.sem)
  unfolding submit_task
  not_published e h k = (λ g. ground arith, λ x g. ground arith, ground arith, ground arith)

  -- A submission with a payload and a free token, while the server is up and has a repository, by
  -- the answers of ClickHouse and Redis. A task that is not stored is not published, and the answer
  -- is 500; one that is stored and published is accepted with 202; one that is stored and not
  -- published is set to pending, and the answer is 500. In each case the token is given back, the
  -- calls are these and in this order, and the request is counted under 202, after the errors that
  -- it is counted under.
  pub submit_task_by_answers :
      let (status, calls) = by_insertion env task kept_calls (env.exec_reply kept_calls) in
      (after.response.status ≡ some status) × (after.history ≡ calls) × (after.sem ≡ w.sem)
  submit_task_by_answers = elim (Option-cases (env.exec_reply kept_calls)) [
    | inr (e, f) ↦ let (h, st, k) = not_stored e f in rw f (st, h, k)
    | inl f ↦ elim (Option-cases (env.redis_reply (publication env task ∷ kept_calls))) [
      | inl g ↦ let (h, st, k) = accepted f g in rw (f, g) (st, h, k)
      | inr (e, g) ↦
          let (good, bad, st, k) = not_published e f g in
          elim (Option-cases
            (env.exec_reply (pending_update task ∷ publication env task ∷ kept_calls))) [
              | inl u ↦ rw (f, g, u) (st, good u, k)
              | inr (x, u) ↦ rw (f, g, u) (st, bad x u, k)
            ]
    ]
  ]
