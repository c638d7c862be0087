-- ===== src/Process/Daemon/Handling/Idle.antt =====
-- What the metrics and the list of tasks that were not processed say while several workers are in
-- `handleTask`, and once none is.
use mathlib.Core.Path.{subst}
use shortcut.Prelude.{ℕ, zero, suc, ◌+◌, ◌∙◌, ◌≤◌, List, [], ◌∷◌, ◌++◌, ◌≡◌, refl, sym, ap, arith}
use shortcut.Runtime.{Env, World, ok}
use shortcut.Process.Daemon.Handler.{wg_done}
use shortcut.Process.Daemon.Books.{tally, added, removed, IsBalanced}
use shortcut.Process.Daemon.Handling.{
  Pc, idle, begun, announced, counted, timed, succeeded, failed, complained, classified, storing,
  closing, measuring, reported, leaving, System, Step, begin, work, read, other, Reach, start,
  later, all_idle,
}
use shortcut.Process.Daemon.Handling.Owed.{
  inside, to_ask, to_observe, to_remove, to_count, total, total-middle, total-all_idle,
  any_to_store-all_idle,
}
use shortcut.Process.Daemon.Handling.Settled.{IsSettled}
use shortcut.Process.Daemon.Handling.Together.{Reach-IsSettled}

-- A worker counts once at most, and is active only while it is in the handler.
pub amounts : (p : Pc) → (to_ask p + to_remove p ≤ inside p) × (inside p ≤ 1)
amounts idle = (omega arith, omega arith)
amounts (begun _) = (omega arith, omega arith)
amounts (announced _) = (omega arith, omega arith)
amounts (counted _) = (omega arith, omega arith)
amounts (timed _ _) = (omega arith, omega arith)
amounts (succeeded _) = (omega arith, omega arith)
amounts (failed _ _ _) = (omega arith, omega arith)
amounts (complained _ _ _) = (omega arith, omega arith)
amounts (classified _ _ _) = (omega arith, omega arith)
amounts (storing _ _) = (omega arith, omega arith)
amounts (closing _) = (omega arith, omega arith)
amounts (measuring _) = (omega arith, omega arith)
amounts reported = (omega arith, omega arith)
amounts leaving = (omega arith, omega arith)

abbrev one : Pc → ℕ
one _ = 1

totals :
    (ps : List Pc)
    → (total to_ask ps + total to_remove ps ≤ total inside ps) × (total inside ps ≤ total one ps)
unfolding total
totals [] = (omega arith, omega arith)
totals (p ∷ ps) =
    let (a, b) = amounts p in let (c, d) = totals ps in (omega (arith, a, c), omega (arith, b, d))

outside : (p : Pc) → inside p ≡ 0 → p ≡ idle
outside idle e = refl
outside (begun _) e = ground arith
outside (announced _) e = ground arith
outside (counted _) e = ground arith
outside (timed _ _) e = ground arith
outside (succeeded _) e = ground arith
outside (failed _ _ _) e = ground arith
outside (complained _ _ _) e = ground arith
outside (classified _ _ _) e = ground arith
outside (storing _ _) e = ground arith
outside (closing _) e = ground arith
outside (measuring _) e = ground arith
outside reported e = ground arith
outside leaving e = ground arith

all_outside : (ps : List Pc) → total inside ps ≡ 0 → (n : ℕ) × (ps ≡ all_idle n)
unfolding total all_idle
all_outside [] e = (0, refl)
all_outside (p ∷ ps) e =
    let (n, f) = all_outside ps (omega (arith, e)) in
    (suc n, ap (λ q. q ∷ ps) (outside p (omega (arith, e))) ∙ ap (λ qs. idle ∷ qs) f)

total-one : (n : ℕ) → total one (all_idle n) ≡ n
unfolding total all_idle
total-one zero = refl
total-one (suc n) = omega (arith, total-one n)

module _ (env : Env) where
  -- No worker goes, and none comes.
  Step-workers : {s t : System} → Step env s t → total one t.workers ≡ total one s.workers
  Step-workers (begin before rest task e f) = omega (
    arith,
    ap (λ (x : System). total one x.workers) f,
    ap (total one) e,
    total-middle one before rest idle,
    total-middle one before rest (begun task),
  )
  Step-workers (work before rest p worker_id e f) = omega (
    arith,
    ap (λ (x : System). total one x.workers) f,
    ap (total one) e,
    total-middle one before rest p,
    total-middle one before rest _,
  )
  Step-workers (read g c n names f) = ap (λ (x : System). total one x.workers) f
  Step-workers (other c q f) = ap (λ (x : System). total one x.workers) f

  Reach-workers : {n : ℕ} {w : World} {s : System} → Reach env n w s → total one s.workers ≡ n
  Reach-workers {n} start = total-one n
  Reach-workers (later r m) = Step-workers m ∙ Reach-workers r

  at_rest : (n : ℕ) (w : World) → IsSettled env (all_idle n) w → IsBalanced env 0 w
  at_rest n w s = record {
    in_work = omega (arith, s.in_work, total-all_idle inside refl n);
    entered = omega (arith, s.entered, total-all_idle to_ask refl n);
    left = omega (arith, s.left, total-all_idle to_remove refl n);
    measured = omega (arith, s.measured, total-all_idle to_observe refl n);
    processed = omega (arith, s.processed, total-all_idle to_count refl n);
    once = s.once;
    unprocessed = λ id. ground (arith, any_to_store-all_idle env id n, s.unprocessed id);
  }

  module _ (n : ℕ) (w : World) (s : System) where
    -- From a process whose books are in balance, `n` workers handle any tasks, their actions in any
    -- order and among the other calls that workers make, whatever the API answers. Whenever the
    -- wait group is at 0, as `Stop` waits for, the books are in balance: each call of the API was
    -- added to the active tasks, taken from them and measured once, the tasks counted as processed
    -- are as many as the calls answered by nil, and the tasks kept as not processed are those of the
    -- other calls, each once.
    pub workers-IsBalanced :
        IsBalanced env 0 w → Reach env n w s → s.world.wait_group ≡ 0 → IsBalanced env 0 s.world
    workers-IsBalanced b r z =
        let v = Reach-IsSettled env b r in
        let (m, e) = all_outside s.workers (sym v.in_work ∙ z) in
        at_rest m s.world (subst (λ ps. IsSettled env ps s.world) e v)

    -- From a process whose books are in balance, at every moment of `n` workers side by side, the
    -- active tasks (what was added less what was taken) are not negative and at most the wait group,
    -- which is at most `n`.
    pub active_tasks-le :
        IsBalanced env 0 w
        → Reach env n w s
        → (tally removed s.world.history ≤ tally added s.world.history)
          × (tally added s.world.history ≤ tally removed s.world.history + s.world.wait_group)
          × (s.world.wait_group ≤ n)
    active_tasks-le b r =
        let v = Reach-IsSettled env b r in
        let (a, c) = totals s.workers in
        (
          omega (arith, v.entered, v.left),
          omega (arith, v.entered, v.left, v.in_work, a),
          omega (arith, v.in_work, c, Reach-workers r),
        )

    -- From a process whose books are in balance, a worker among `n` that comes to its deferred
    -- `Wg.Done()` does not panic there: the counter is not negative behind it.
    wg_done-ok :
        (before rest : List Pc)
        → IsBalanced env 0 w
        → Reach env n w s
        → s.workers ≡ before ++ (leaving ∷ rest)
        → (wg_done s.world).0 ≡ ok tt
    unfolding wg_done
    wg_done-ok before rest b r e =
        let v = Reach-IsSettled env b r in
        ground (arith, v.in_work, ap (total inside) e, total-middle inside before rest leaving)
