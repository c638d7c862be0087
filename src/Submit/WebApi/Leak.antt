-- ===== src/Submit/WebApi/Leak.antt =====
-- The tokens of the submissions: a request without a payload keeps its token.
use shortcut.Prelude.{
  ℕ, zero, suc, ◌+◌, ◌-◌, ◌<◌, ◌≤◌, Bytes, [], false, none, some, ◌≡◌, refl, arith, lt→ltb, String,
}
use shortcut.Runtime.{Env, World, ok}
use shortcut.Submit.WebApi.Http.{Request}
use shortcut.Submit.WebApi.Tasks.{TaskHandler, max_tasks, submit_task}

-- The next request finds a response that was not begun.
abbrev pub fresh : World → World
fresh w = record w { response = record { status = none; header = []; body = [] } }

-- `n` requests without a payload, one behind another.
submit_empty : Env → TaskHandler → (String → Bytes) → ℕ → World → World
submit_empty env th query zero w = w
submit_empty env th query (suc n) w =
    submit_empty env th query n
      (submit_task env th (record { payload = []; query = query }) (fresh w)).1

module _ (env : Env) (th : TaskHandler) where
  -- A request without a payload is answered by 400, and the token that it took is not given back.
  pub submit_task-empty :
      (r : Request) (w : World)
      → r.payload ≡ []
      → w.shutting_down ≡ false
      → w.sem < max_tasks
      → ((submit_task env th r (fresh w)).1.sem ≡ w.sem + 1)
        × ((submit_task env th r (fresh w)).1.response.status ≡ some 400)
        × ((submit_task env th r (fresh w)).1.shutting_down ≡ false)
  unfolding submit_task
  submit_task-empty r w e up room = rw (e, up, lt→ltb w.sem max_tasks room) (refl, refl, refl)

  -- A request that finds no token free is answered by 503, whatever its payload, and takes none.
  pub submit_task-full :
      (r : Request) (w : World)
      → w.shutting_down ≡ false
      → max_tasks ≤ w.sem
      → ((submit_task env th r (fresh w)).1.response.status ≡ some 503)
        × ((submit_task env th r (fresh w)).1.sem ≡ w.sem)
        × ((submit_task env th r (fresh w)).0 ≡ ok tt)
  unfolding submit_task
  submit_task-full r w up full = ground arith

  submit_empty-sem :
      (query : String → Bytes) (n : ℕ) (w : World)
      → w.shutting_down ≡ false
      → w.sem + n ≤ max_tasks
      → ((submit_empty env th query n w).sem ≡ w.sem + n)
        × ((submit_empty env th query n w).shutting_down ≡ false)
  unfolding submit_empty
  submit_empty-sem query zero w up room = (omega arith, up)
  submit_empty-sem query (suc n) w up room =
      let r : Request = record { payload = []; query = query } in
      let one = submit_task-empty r w refl up (omega arith) in
      let more =
        submit_empty-sem query n (submit_task env th r (fresh w)).1 one.2 (omega (arith, one.0)) in
      (omega (arith, one.0, more.0), more.1)

  -- While the server is up, as many requests without a payload as there are tokens free, no more
  -- than the channel holds being taken, use up the service: from then on every submission is
  -- answered by 503, also one with a payload.
  submit_empty_exhausts :
      (query : String → Bytes) (r : Request) (w : World)
      → w.shutting_down ≡ false
      → w.sem ≤ max_tasks
      → (submit_task env th r
          (fresh (submit_empty env th query (max_tasks - w.sem) w))).1.response.status
        ≡ some 503
  submit_empty_exhausts query r w up room =
      let used = submit_empty-sem query (max_tasks - w.sem) w up (omega arith) in
      (submit_task-full r (submit_empty env th query (max_tasks - w.sem) w) used.1
        (omega (arith, used.0))).0
