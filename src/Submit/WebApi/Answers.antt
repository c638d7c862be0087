-- ===== src/Submit/WebApi/Answers.antt =====
-- The server as a whole: what a request through its routes leaves.
use shortcut.Prelude.{
  ℕ, ◌+◌, Bytes, String, [], ◌∷◌, Option, none, some, Bool-cases, inl, inr, ◌≡◌, ◌≢◌, refl, ◌∙◌, ap,
  arith, ltb, if◌then◌else◌,
}
use shortcut.Runtime.{
  Env, Error, World, ◌>>◌, continue, Outcome, ok, err, panic, blocked, on_result, Exec,
}
use shortcut.Submit.Tasks.{get_all_not_processed_tasks}
use shortcut.Submit.Tasks.Reading.{OnlyCalls, get_all_not_processed_tasks-OnlyCalls}
use shortcut.Submit.Metrics.{inc_http_response_status}
use shortcut.Submit.Domain.{Task, status_processing}
use shortcut.Submit.WebApi.Http.{Request, or_else, write_header}
use shortcut.Submit.WebApi.Load.{load_seconds, cpu_load_handler, memory_load_handler}
use shortcut.Submit.WebApi.Tasks.{
  TaskHandler, max_tasks, acquire, with_token, start_task_processing, submit_task,
}
use shortcut.Submit.WebApi.Server.{
  Route, submit, readiness, metrics, cpu_load, memory_load, route, serve, serve_route, log_metrics,
  handle_readiness,
}
use shortcut.Submit.WebApi.Leak.{fresh}
use shortcut.Submit.WebApi.Submission.{start_task_processing-token}

-- The tokens that a request keeps when it is done.
abbrev pub kept_tokens : Option Route → Bytes → World → ℕ
kept_tokens (some submit) [] w = if w.shutting_down then 0 else if ltb w.sem max_tasks then 1 else 0
kept_tokens (some submit) (_ ∷ _) w = 0
kept_tokens (some readiness) payload w = 0
kept_tokens (some metrics) payload w = 0
kept_tokens (some cpu_load) payload w = 0
kept_tokens (some memory_load) payload w = 0
kept_tokens none payload w = 0

-- A request that was answered with a status, and has left `n` tokens behind.
abbrev pub Answered : ℕ → World → Outcome (Unit {0}) × World → Type 0
Answered n w (r, w') =
    (r ≡ ok tt)
    × (w'.response.status ≢ none)
    × (w'.sem ≡ w.sem + n)
    × (w'.shutting_down ≡ w.shutting_down)

module _ (env : Env) (th : TaskHandler) where
  -- The last answer of a submission.
  accepted-Answered :
      (x : Outcome (Unit {0}) × World) (w : World)
      → (x.0 ≡ ok tt) × (x.1.sem + 1 ≡ w.sem + 1) × (x.1.shutting_down ≡ w.shutting_down)
      → Answered 0 w (continue x.0 (λ _. inc_http_response_status 202 >> write_header 202) x.1)
  unfolding inc_http_response_status write_header
  accepted-Answered (o, v) w (e, s, d) =
      rw e (refl, (λ h. status v.response.status h), omega (arith, s), d)
    where
      status : (o : Option ℕ) → or_else o 202 ≡ none → ⊥
      status none h = cc
      status (some n) h = cc

  -- A submission with a payload gives back the token that it takes.
  with_token-Answered :
      (b : ℕ) (bs : Bytes) (w : World)
      → Answered 0 w ((acquire >> with_token env th (b ∷ bs)) (fresh w))
  unfolding with_token acquire
  with_token-Answered b bs w =
      let task : Task = record {
        id = env.uuid_new w.history;
        status = status_processing;
        payload = some (b ∷ bs);
      } in
      let taken : World = record (fresh w) { sem = w.sem + 1 } in
      accepted-Answered (start_task_processing env th task taken) w
        (start_task_processing-token env th task taken (omega arith))

  submit-Answered :
      (r : Request) (payload : Bytes) (w : World)
      → r.payload ≡ payload
      → Answered (kept_tokens (some submit) payload w) w (submit_task env th r (fresh w))
  unfolding submit_task
  submit-Answered r [] w e = ground arith
  submit-Answered r (b ∷ bs) w e = elim (Bool-cases w.shutting_down) [
    | inl down ↦ ground (arith, down)
    | inr up ↦ elim (Bool-cases (ltb w.sem max_tasks)) [
      | inl room ↦ rw (up, room, e) (rw up at (with_token-Answered b bs w))
      | inr full ↦ ground (arith, up, full)
    ]
  ]

  readiness-Answered : (w : World) → Answered 0 w (handle_readiness (fresh w))
  unfolding handle_readiness
  readiness-Answered w = ground arith

  load-Answered :
      (r : Request) (work text name : String) (amount : ℕ) (w : World)
      → Answered 0 w (load_seconds r work text name amount (fresh w))
  unfolding load_seconds
  load-Answered r work text name amount w = ground arith

  cpu_load-Answered :
      (num_cpu : ℕ) (r : Request) (w : World) → Answered 0 w (cpu_load_handler num_cpu r (fresh w))
  unfolding cpu_load_handler
  cpu_load-Answered num_cpu r w = ground arith

  memory_load-Answered : (r : Request) (w : World) → Answered 0 w (memory_load_handler r (fresh w))
  unfolding memory_load_handler
  memory_load-Answered r w = ground arith

  -- What comes behind calls alone.
  behind :
      (w w' : World) (x : Outcome (Unit {0}) × World)
      → w' ≡ record w { history = w'.history }
      → Answered 0 w' x
      → Answered 0 w x
  behind w w' (r, v) e (a, s, t, u) =
      (a, s, t ∙ ap (λ (x : World). x.sem + 0) e, u ∙ ap (λ (x : World). x.shutting_down) e)

  on_result-Answered :
      {A : Type 0} (x : Outcome A × World) (g : Error → Exec (Unit {0})) (f : A → Exec (Unit {0}))
      (w : World)
      → OnlyCalls w x
      → ((e : Error) (v : World) → Answered 0 v (g e v))
      → ((a : A) (v : World) → Answered 0 v (f a v))
      → Answered 0 w (on_result x.0 g f x.1)
  on_result-Answered (ok a, w') g f w (h, e) k l = behind w w' (f a w') e (l a w')
  on_result-Answered (err m, w') g f w (h, e) k l = behind w w' (g m w') e (k m w')
  on_result-Answered (panic m, w') g f w (h, e) k l = absurd h
  on_result-Answered (blocked, w') g f w (h, e) k l = absurd h

  log_metrics-Answered : (w : World) → Answered 0 w (log_metrics env th (fresh w))
  unfolding log_metrics
  log_metrics-Answered w =
      on_result-Answered (get_all_not_processed_tasks env th.task_service (fresh w)) _ _ (fresh w)
        (get_all_not_processed_tasks-OnlyCalls env th.task_service (fresh w)) (λ e v. ground arith)
        (λ a v. ground arith)

  serve_route-Answered :
      (num_cpu : ℕ) (r : Request) (o : Option Route) (w : World)
      → Answered (kept_tokens o r.payload w) w (serve_route env th num_cpu r o (fresh w))
  unfolding serve_route
  serve_route-Answered num_cpu r none w = ground arith
  serve_route-Answered num_cpu r (some submit) w = submit-Answered r r.payload w refl
  serve_route-Answered num_cpu r (some readiness) w = readiness-Answered w
  serve_route-Answered num_cpu r (some metrics) w = log_metrics-Answered w
  serve_route-Answered num_cpu r (some cpu_load) w = cpu_load-Answered num_cpu r w
  serve_route-Answered num_cpu r (some memory_load) w = memory_load-Answered r w

  -- Every request is answered: whatever its path, its payload and its query, and whatever
  -- ClickHouse and Redis answer, the handler of its route returns with a status sent, and the flag
  -- of the server as it was. It leaves the tokens as it found them, but for a submission without a
  -- payload that found one free: that keeps it.
  pub serve_answers :
      (num_cpu : ℕ) (path : String) (r : Request) (w : World)
      → Answered (kept_tokens (route path) r.payload w) w (serve env th num_cpu path r (fresh w))
  unfolding serve
  serve_answers num_cpu path r w = serve_route-Answered num_cpu r (route path) w
