-- ===== src/Process/Daemon/Handling/Draining.antt =====
-- The workers in `handleTask` come out of it, if no other task is begun.
use native.Mathlib.Decide.{dec_lt}
use shortcut.Prelude.{
  ℕ, suc, ◌+◌, ◌*◌, ◌≤◌, ◌<◌, ◌∙◌, Bytes, String, Option, none, some, List, [], ◌∷◌, ◌++◌, ◌≡◌,
  refl, sym, ap, arith, ◌⊎◌, inl, inr,
}
use shortcut.Runtime.{Call, Env, Error, World, as_custom}
use shortcut.Process.Domain.{Task}
use shortcut.Process.Daemon.Keeping.{Plain, with_call}
use shortcut.Process.Daemon.Books.{IsBalanced}
use shortcut.Process.Daemon.Handling.{
  Pc, idle, begun, announced, counted, timed, succeeded, failed, complained, classified, storing,
  closing, measuring, reported, leaving, advance, answered, complain, System, work, read, other,
  Reach, later,
}
use shortcut.Process.Daemon.Handling.Owed.{inside, total, total-middle}
use shortcut.Process.Daemon.Handling.Idle.{amounts}
use shortcut.Process.Daemon.Handling.Together.{Reach-IsSettled}

-- The most actions that a worker has left in the handler.
abbrev to_do : Pc → ℕ
to_do idle = 0
to_do (begun _) = 12
to_do (announced _) = 11
to_do (counted _) = 10
to_do (timed _ _) = 9
to_do (failed _ _ _) = 8
to_do (complained _ _ _) = 7
to_do (classified _ _ _) = 6
to_do (storing _ _) = 5
to_do (succeeded _) = 5
to_do (closing _) = 4
to_do (measuring _) = 3
to_do reported = 2
to_do leaving = 1

to_do-inside : (p : Pc) → to_do p ≤ 12 * inside p
to_do-inside idle = omega arith
to_do-inside (begun _) = omega arith
to_do-inside (announced _) = omega arith
to_do-inside (counted _) = omega arith
to_do-inside (timed _ _) = omega arith
to_do-inside (failed _ _ _) = omega arith
to_do-inside (complained _ _ _) = omega arith
to_do-inside (classified _ _ _) = omega arith
to_do-inside (storing _ _) = omega arith
to_do-inside (succeeded _) = omega arith
to_do-inside (closing _) = omega arith
to_do-inside (measuring _) = omega arith
to_do-inside reported = omega arith
to_do-inside leaving = omega arith

total-to_do : (ps : List Pc) → total to_do ps ≤ 12 * total inside ps
unfolding total
total-to_do [] = omega arith
total-to_do (p ∷ ps) = omega (arith, to_do-inside p, total-to_do ps)

to_do-answered : (task : Task) (n : ℕ) (answer : Option Error) → to_do (answered task n answer) < 9
to_do-answered task n none = omega arith
to_do-answered task n (some e) = omega arith

to_do-complain :
    (task : Task) (n : ℕ) (e : Error) (m : Option String) (w : World)
    → to_do (complain task n e m w).0 < 8
to_do-complain task n e none w = omega arith
to_do-complain task n e (some m) w = omega arith

module _ (env : Env) where
  -- Whatever the others did to the state, an action of a worker brings it nearer to its end.
  advance-nearer :
      (worker_id : ℕ) (p : Pc) (w : World)
      → inside p ≡ 1
      → to_do (advance env worker_id p w).0 < to_do p
  unfolding advance
  advance-nearer worker_id idle w i = ground arith
  advance-nearer worker_id (begun task) w i = omega arith
  advance-nearer worker_id (announced task) w i = omega arith
  advance-nearer worker_id (counted task) w i = omega arith
  advance-nearer worker_id (timed task n) w i = to_do-answered task n _
  advance-nearer worker_id (succeeded n) w i = omega arith
  advance-nearer worker_id (failed task n e) w i = to_do-complain task n e (as_custom e) w
  advance-nearer worker_id (complained task n e) w i = omega arith
  advance-nearer worker_id (classified task n e) w i = ground arith
  advance-nearer worker_id (storing task n) w i = omega arith
  advance-nearer worker_id (closing n) w i = omega arith
  advance-nearer worker_id (measuring d) w i = omega arith
  advance-nearer worker_id reported w i = omega arith
  advance-nearer worker_id leaving w i = omega arith

  -- So many actions of workers in the handler, with other calls between and no task begun.
  pub data Drain : ℕ → System → System → Type 0 where
    rest : {s : System} → Drain 0 s s
    act :
        {k : ℕ} {s t u : System} (before behind : List Pc) (p : Pc) (worker_id : ℕ)
        → inside p ≡ 1
        → s.workers ≡ before ++ (p ∷ behind)
        → t ≡ record {
          world = (advance env worker_id p s.world).1;
          workers = before ++ ((advance env worker_id p s.world).0 ∷ behind);
        }
        → Drain k t u
        → Drain (suc k) s u
    reads :
        {k : ℕ} {s t u : System} (group : String) (consumer : Bytes) (n : ℕ) (streams : List String)
        → t ≡ record s { world = with_call (Call.x_read_group group consumer n streams) s.world }
        → Drain k t u
        → Drain k s u
    calls :
        {k : ℕ} {s t u : System} (c : Call)
        → Plain c
        → t ≡ record s { world = with_call c s.world }
        → Drain k t u
        → Drain k s u

  Drain-to_do :
      {k : ℕ} {s t : System} → Drain k s t → k + total to_do t.workers ≤ total to_do s.workers
  Drain-to_do rest = omega arith
  Drain-to_do {k} {s} (act {t = t} before behind p worker_id i e f d) = omega (
    arith,
    Drain-to_do d,
    advance-nearer worker_id p s.world i,
    ap (total to_do) e,
    ap (λ (x : System). total to_do x.workers) f,
    total-middle to_do before behind p,
    total-middle to_do before behind (advance env worker_id p s.world).0,
  )
  Drain-to_do (reads g c n names f d) =
      omega (arith, Drain-to_do d, ap (λ (x : System). total to_do x.workers) f)
  Drain-to_do (calls c q f d) =
      omega (arith, Drain-to_do d, ap (λ (x : System). total to_do x.workers) f)

  Drain-Reach :
      {k n : ℕ} {w : World} {s t : System} → Drain k s t → Reach env n w s → Reach env n w t
  Drain-Reach rest r = r
  Drain-Reach (act before behind p worker_id i e f d) r =
      Drain-Reach d (later r (work before behind p worker_id e f))
  Drain-Reach (reads g c n names f d) r = Drain-Reach d (later r (read g c n names f))
  Drain-Reach (calls c q f d) r = Drain-Reach d (later r (other c q f))

  -- A worker in the handler, if there is one.
  find_inside :
      (ps : List Pc)
      → (total inside ps ≡ 0)
        ⊎ ((before behind : List Pc) × (p : Pc) × (inside p ≡ 1) × (ps ≡ before ++ (p ∷ behind)))
  unfolding total
  find_inside [] = inl refl
  find_inside (p ∷ ps) = elim (dec_lt 0 (inside p)) [
    | yes i ↦ inr ([], ps, p, omega (arith, i, (amounts p).1), refl)
    | no o ↦ elim (find_inside ps) [
      | inl z ↦ inl (omega (arith, o, z))
      | inr (before, behind, q, i, e) ↦ inr (p ∷ before, behind, q, i, ap (λ qs. p ∷ qs) e)
    ]
  ]

  goes_on :
      (t : System)
      → total inside t.workers ≡ t.world.wait_group
      → (t.world.wait_group ≡ 0) ⊎ ((u : System) × Drain 1 t u)
  goes_on t c = elim (find_inside t.workers) [
    | inl z ↦ inl (sym c ∙ z)
    | inr (before, behind, p, i, e) ↦ inr (_, act before behind p 0 i e refl rest)
  ]

  -- From a process whose books are in balance `n` workers come to some state; from then on no worker
  -- begins a task, and those in `handleTask` go on in any order, other calls between, whatever the
  -- API answers. They have at most twelve actions for each of them, and after any number of these
  -- either the wait group is at 0, as `Stop` waits for, or a worker can go on.
  pub handlers_drain :
      {k n : ℕ} {w : World} {s t : System}
      → IsBalanced env 0 w
      → Reach env n w s
      → Drain k s t
      → (k ≤ 12 * s.world.wait_group) × ((t.world.wait_group ≡ 0) ⊎ ((u : System) × Drain 1 t u))
  handlers_drain {k} {n} {w} {s} {t} b r d = (
    omega (arith, Drain-to_do d, total-to_do s.workers, (Reach-IsSettled env b r).in_work),
    goes_on t (sym (Reach-IsSettled env b (Drain-Reach d r)).in_work),
  )
