-- ===== src/Submit/WebApi/Resume.antt =====
-- Resuming a task.
use shortcut.Prelude.{ℕ, Option, Option-cases, inl, inr, refl, none, some, ◌≡◌, arith, false}
use shortcut.Runtime.{Env, World, blocked, Uuid}
use shortcut.Submit.Domain.{Task}
use shortcut.Submit.WebApi.Http.{Request}
use shortcut.Submit.WebApi.Tasks.{TaskHandler, resume_task, start_task_processing}
use shortcut.Submit.WebApi.Leak.{fresh}

-- The status of the answer, by what the id of the request parses to.
abbrev pub not_resumed : Option Uuid → ℕ
not_resumed none = 400
not_resumed (some _) = 404

-- While the server is up no task is ever resumed: a request whose id parses is answered by 404 and
-- any other by 400, since the lookup finds nothing, and no call is made and no token taken.
pub resume_task_finds_nothing :
    (env : Env) (th : TaskHandler) (r : Request) (w : World)
    → w.shutting_down ≡ false
    → let w' = (resume_task env th r (fresh w)).1 in
      (w'.response.status ≡ some (not_resumed (env.uuid_parse (r.query "id"))))
      × (w'.history ≡ w.history)
      × (w'.sem ≡ w.sem)
unfolding resume_task
resume_task_finds_nothing env th r w h = elim (Option-cases (env.uuid_parse (r.query "id"))) [
  | inl e ↦ rw (e, h) (refl, refl, refl)
  | inr (u, e) ↦ rw (e, h) (refl, refl, refl)
]

-- The processing of a task releases a token: started with no token taken, as `ResumeTask` would
-- start it in an idle server, it never returns, whatever ClickHouse and Redis answer.
pub start_task_processing_blocks :
    (env : Env) (th : TaskHandler) (task : Task) (w : World)
    → w.sem ≡ 0
    → (start_task_processing env th task w).0 ≡ blocked
unfolding start_task_processing
start_task_processing_blocks env th task w h = ground arith
