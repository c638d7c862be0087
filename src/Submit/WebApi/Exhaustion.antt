-- ===== src/Submit/WebApi/Exhaustion.antt =====
-- The tokens of the submissions over any requests to the server, one behind another.
use shortcut.Prelude.{
  ℕ, ◌+◌, ◌≤◌, Bytes, String, List, [], ◌∷◌, Option, none, some, ◌≡◌, refl, ◌∙◌, ap, arith, false,
  ltb, ltb→lt, if◌then◌else◌, Bool-cases, inl, inr,
}
use shortcut.Runtime.{Env, World}
use shortcut.Submit.WebApi.Http.{Request}
use shortcut.Submit.WebApi.Tasks.{TaskHandler, max_tasks, submit_task}
use shortcut.Submit.WebApi.Server.{
  Route, submit, readiness, metrics, cpu_load, memory_load, route, serve,
}
use shortcut.Submit.WebApi.Leak.{fresh, submit_task-full}
use shortcut.Submit.WebApi.Answers.{kept_tokens, serve_answers}

-- One for a submission without a payload.
abbrev pub is_empty : Option Route → Bytes → ℕ
is_empty (some submit) [] = 1
is_empty (some submit) (_ ∷ _) = 0
is_empty (some readiness) payload = 0
is_empty (some metrics) payload = 0
is_empty (some cpu_load) payload = 0
is_empty (some memory_load) payload = 0
is_empty none payload = 0

-- The submissions without a payload among requests, each a path and what it brings.
unfoldable pub empties : List (String × Request) → ℕ
empties [] = 0
empties ((path, r) ∷ rs) = is_empty (route path) r.payload + empties rs

-- The tokens taken after `n` more of these.
abbrev pub taken : ℕ → ℕ → ℕ
taken sem n = if ltb (sem + n) max_tasks then sem + n else max_tasks

kept_tokens-up :
    (o : Option Route) (payload : Bytes) (w : World)
    → w.shutting_down ≡ false
    → kept_tokens o payload w ≡ (if ltb w.sem max_tasks then is_empty o payload else 0)
kept_tokens-up (some submit) [] w up = rw up refl
kept_tokens-up (some submit) (_ ∷ _) w up = ground arith
kept_tokens-up (some readiness) payload w up = ground arith
kept_tokens-up (some metrics) payload w up = ground arith
kept_tokens-up (some cpu_load) payload w up = ground arith
kept_tokens-up (some memory_load) payload w up = ground arith
kept_tokens-up none payload w up = ground arith

is_empty-small : (o : Option Route) (payload : Bytes) → is_empty o payload ≤ 1
is_empty-small (some submit) [] = omega arith
is_empty-small (some submit) (_ ∷ _) = omega arith
is_empty-small (some readiness) payload = omega arith
is_empty-small (some metrics) payload = omega arith
is_empty-small (some cpu_load) payload = omega arith
is_empty-small (some memory_load) payload = omega arith
is_empty-small none payload = omega arith

-- One request, then `n` empty ones more.
taken-step :
    (sem one n sem' : ℕ)
    → sem ≤ max_tasks
    → one ≤ 1
    → sem' ≡ sem + (if ltb sem max_tasks then one else 0)
    → (sem' ≤ max_tasks) × (taken sem' n ≡ taken sem (one + n))
taken-step sem one n sem' small le e = elim (Bool-cases (ltb sem max_tasks)) [
  | inl room ↦
      let below = ltb→lt sem max_tasks room in
      let s : sem' ≡ sem + one = e ∙ rw room refl in
      (omega (arith, s, below, le), ap (λ (k : ℕ). taken k n) s ∙ ground arith)
  | inr full ↦
      let s : sem' ≡ sem = e ∙ rw full (ground arith) in
      (omega (arith, s, small), ap (λ (k : ℕ). taken k n) s ∙ ground arith)
]

module _ (env : Env) (th : TaskHandler) (num_cpu : ℕ) where
  -- The state behind the requests.
  pub served : List (String × Request) → World → World
  served [] w = w
  served ((path, r) ∷ rs) w = served rs (serve env th num_cpu path r (fresh w)).1

  served-tokens :
      (rs : List (String × Request)) (w : World)
      → w.shutting_down ≡ false
      → w.sem ≤ max_tasks
      → ((served rs w).shutting_down ≡ false) × ((served rs w).sem ≡ taken w.sem (empties rs))
  unfolding served empties
  served-tokens [] w up small = (up, ground arith)
  served-tokens ((path, r) ∷ rs) w up small =
      let (_, _, s, d) = serve_answers env th num_cpu path r w in
      let (le, e) =
        taken-step w.sem (is_empty (route path) r.payload) (empties rs) _ small
          (is_empty-small (route path) r.payload)
          (s ∙ ap (λ (n : ℕ). w.sem + n) (kept_tokens-up (route path) r.payload w up)) in
      let (u, t) = served-tokens rs (serve env th num_cpu path r (fresh w)).1 (d ∙ up) le in
      (u, t ∙ e)

  -- Whatever requests the server has answered one behind another, while it is up and from no more
  -- tokens taken than the channel holds: once the submissions without a payload among them are as
  -- many as tokens were free, all tokens are taken, and every further submission is answered by 503.
  pub served-exhausts :
      (rs : List (String × Request)) (r : Request) (w : World)
      → w.shutting_down ≡ false
      → w.sem ≤ max_tasks
      → max_tasks ≤ w.sem + empties rs
      → ((served rs w).sem ≡ max_tasks)
        × ((submit_task env th r (fresh (served rs w))).1.response.status ≡ some 503)
  served-exhausts rs r w up small many =
      let (u, t) = served-tokens rs w up small in
      let full : (served rs w).sem ≡ max_tasks = t ∙ ground arith in
      (full, (submit_task-full env th r (served rs w) u (omega (arith, full))).0)
