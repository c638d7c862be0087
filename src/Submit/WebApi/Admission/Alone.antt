-- ===== src/Submit/WebApi/Admission/Alone.antt =====
-- `submit_task`, which runs alone, takes the steps of a request among others.
use shortcut.Prelude.{
  ℕ, suc, ◌<◌, Bytes, [], ◌∷◌, ◌≡◌, refl, arith, true, false, inl, inr, Bool, Bool-cases, ltb,
  ltb→lt,
}
use shortcut.Runtime.{Env, World, Outcome, ok}
use shortcut.Submit.WebApi.Http.{Request}
use shortcut.Submit.WebApi.Tasks.{TaskHandler, max_tasks, submit_task}
use shortcut.Submit.WebApi.Admission.{
  Pc, arrived, choosing, storing, refused, answered, Shared, Move, turn_away, pass, take, keep,
  full, give,
}

-- What the requests share of the state of the process.
abbrev pub shared_of : World → Shared
shared_of w = record { shutting_down = w.shutting_down; sem = w.sem }

-- Some steps of one request, with no other between.
pub data Moves (payload : Bytes) : Shared → Pc → Shared → Pc → Type 0 where
  done : {s : Shared} {p : Pc} → Moves payload s p s p
  next :
      {s t u : Shared} {p q r : Pc}
      → Move payload s t p q
      → Moves payload t q u r
      → Moves payload s p u r

-- Where a request stands behind its handler.
abbrev pub final : Pc → Bool
final answered = true
final refused = true
final arrived = false
final choosing = false
final storing = false

-- The handler returns, and its request took steps to the end.
abbrev pub RunsThrough : Bytes → World → Outcome (Unit {0}) × World → Type 0
RunsThrough payload w (r, w') =
    (r ≡ ok tt) × (p : Pc) × (final p ≡ true) × Moves payload (shared_of w) arrived (shared_of w') p

module _ (env : Env) (th : TaskHandler) (r : Request) (w : World) where
  abbrev Ends : ℕ → Type 0
  Ends n =
      let (q, w') = submit_task env th r w in
      (q ≡ ok tt) × (w'.shutting_down ≡ w.shutting_down) × (w'.sem ≡ n)

  when_down : w.shutting_down ≡ true → Ends w.sem
  unfolding submit_task
  when_down down = ground arith

  when_full : w.shutting_down ≡ false → ltb w.sem max_tasks ≡ false → Ends w.sem
  unfolding submit_task
  when_full up none_free = ground arith

  when_empty :
      w.shutting_down ≡ false → ltb w.sem max_tasks ≡ true → r.payload ≡ [] → Ends (suc w.sem)
  unfolding submit_task
  when_empty up room e = ground arith

  when_given :
      (b : ℕ) (bs : Bytes)
      → w.shutting_down ≡ false
      → ltb w.sem max_tasks ≡ true
      → r.payload ≡ b ∷ bs
      → Ends w.sem
  unfolding submit_task
  when_given b bs up room e = ground arith

  -- The flag and the tokens, by what they are.
  abbrev as_shared :
      {n : ℕ} → Ends n → shared_of (submit_task env th r w).1 ≡ record (shared_of w) { sem = n }
  as_shared (o, d, s) i = record { shutting_down = d i; sem = s i }

  when_up : w.shutting_down ≡ false → RunsThrough r.payload w (submit_task env th r w)
  when_up up = elim (Bool-cases (ltb w.sem max_tasks)) [
    | inr none_free ↦
        let e = when_full up none_free in
        (e.0, answered, refl, next (pass up refl) (next (full (ground arith) (as_shared e)) done))
    | inl room ↦ with_room (ltb→lt w.sem max_tasks room) room r.payload refl
  ]
    where
      with_room :
          w.sem < max_tasks
          → ltb w.sem max_tasks ≡ true
          → (payload : Bytes) → r.payload ≡ payload
          → RunsThrough r.payload w (submit_task env th r w)
      with_room small room [] p =
          let e = when_empty up room p in
          (e.0, refused, refl, next (pass up refl) (next (keep small p (as_shared e)) done))
      with_room small room (b ∷ bs) p =
          let e = when_given b bs up room p in
          (
            e.0,
            answered,
            refl,
            next (pass up refl)
                (next (take small (λ q. cc) refl) (next (give w.sem refl (as_shared e)) done)),
          )

-- Alone in its process, `SubmitTask` returns, whatever ClickHouse and Redis answer, and does to the
-- flag and to the tokens what its request does among others in its steps from the arrival to the
-- answer.
pub submit_task_alone :
    (env : Env) (th : TaskHandler) (r : Request) (w : World)
    → RunsThrough r.payload w (submit_task env th r w)
submit_task_alone env th r w = elim (Bool-cases w.shutting_down) [
  | inl down ↦
      let e = when_down env th r w down in
      (e.0, answered, refl, next (turn_away down (as_shared env th r w e)) done)
  | inr up ↦ when_up env th r w up
]
