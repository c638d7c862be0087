-- ===== src/Submit/WebApi/Drain.antt =====
-- The stop of the server.
use shortcut.Prelude.{String, true, false, [], ◌∷◌, some, ◌≡◌, arith}
use shortcut.Runtime.{Env, World, Chunk}
use shortcut.Submit.WebApi.Http.{Request}
use shortcut.Submit.WebApi.Tasks.{TaskHandler, submit_task, resume_task}
use shortcut.Submit.WebApi.Server.{handle_readiness, stop}
use shortcut.Submit.WebApi.Leak.{fresh}

-- What a refused request leaves: a response of 503, and nothing else changed.
abbrev pub RefusedIn : World → World → Type 0
RefusedIn w w' =
    (w'.response.status ≡ some 503)
    × (w'.history ≡ w.history)
    × (w'.sem ≡ w.sem)
    × (w'.shutting_down ≡ true)

-- After `API.Stop`, whether the server shut down or not, readiness is denied and no task is taken
-- or resumed: each request is answered by 503, with no call made and no token taken.
pub stop_refuses :
    (env : Env) (th : TaskHandler) (addr : String) (r : Request) (w : World)
    → let w' = (stop env addr w).1 in
      RefusedIn w' (submit_task env th r (fresh w')).1
      × RefusedIn w' (resume_task env th r (fresh w')).1
      × RefusedIn w' (handle_readiness (fresh w')).1
unfolding stop submit_task resume_task handle_readiness
stop_refuses env th addr r w = (ground arith, ground arith, ground arith)

-- Until then the server is ready.
pub ready_before :
    (w : World)
    → w.shutting_down ≡ false
    → ((handle_readiness (fresh w)).1.response.status ≡ some 200)
      × ((handle_readiness (fresh w)).1.response.body ≡ Chunk.text "ok" ∷ [])
unfolding handle_readiness
ready_before w h = (ground arith, ground arith)
