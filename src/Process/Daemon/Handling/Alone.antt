-- ===== src/Process/Daemon/Handling/Alone.antt =====
-- `handle_task`, which runs alone, takes the steps of a worker among others.
use mathlib.Core.Path.{subst}
use shortcut.Prelude.{
  ℕ, zero, suc, List, ◌∷◌, ◌++◌, ◌≡◌, refl, arith, Option-cases, Bool-cases, inl, inr, ◌||◌,
}
use shortcut.Runtime.{Env, World, as_custom, is_error, is_deadline, is_canceled}
use shortcut.Process.Domain.{Task}
use shortcut.Process.Daemon.Handler.{wg_add, handle_task}
use shortcut.Process.Daemon.Balance.{started}
use shortcut.Process.Daemon.Handling.{
  Pc, idle, begun, advance, after, System, begin, work, Reach, later,
}

-- The system of which one worker stands at `p`.
abbrev pub with_worker : List Pc → List Pc → Pc × World → System
with_worker before rest (p, w) = record { world = w; workers = before ++ (p ∷ rest) }

module _ (env : Env) (worker_id : ℕ) where
  -- A worker goes on, with no other between.
  unfoldable pub run : ℕ → Pc → World → Pc × World
  run zero p w = (p, w)
  run (suc n) p w = let (q, w') = advance env worker_id p w in run n q w'

  -- Alone in its process, `handleTask` does to the state what its worker does among others, from
  -- `Wg.Add(1)` to `Wg.Done()`, in at most twelve actions.
  handle_task_alone :
      (task : Task) (w : World)
      → run 12 (begun task) (after wg_add w) ≡ (idle, (handle_task env worker_id task w).1)
  unfolding run advance handle_task
  handle_task_alone task w =
      elim (Option-cases (env.api_reply (started env worker_id task w.history))) [
        | inl e ↦ ground arith
        | inr (x, e) ↦ elim (Option-cases (as_custom x)) [
          | inl f ↦ elim (Bool-cases (is_error x is_deadline || is_error x is_canceled)) [
            | inl g ↦ ground arith
            | inr g ↦ ground arith
          ]
          | inr (m, f) ↦ elim (Bool-cases (is_error x is_deadline || is_error x is_canceled)) [
            | inl g ↦ ground arith
            | inr g ↦ ground arith
          ]
        ]
      ]

  module _ (n : ℕ) (start : World) (before rest : List Pc) where
    pub run-Reach :
        (k : ℕ) (p : Pc) (w : World)
        → Reach env n start (with_worker before rest (p, w))
        → Reach env n start (with_worker before rest (run k p w))
    unfolding run
    run-Reach zero p w r = r
    run-Reach (suc k) p w r =
        run-Reach k (advance env worker_id p w).0 (advance env worker_id p w).1
          (later r (work before rest p worker_id refl refl))

    -- In any state that `n` workers reach, one that is outside `handleTask` can run through it with
    -- no action of another between, and does to the state what the handler does alone.
    pub handle_task-Reach :
        (task : Task) (w : World)
        → Reach env n start (with_worker before rest (idle, w))
        → Reach env n start (with_worker before rest (idle, (handle_task env worker_id task w).1))
    handle_task-Reach task w r =
        subst (λ x. Reach env n start (with_worker before rest x)) (handle_task_alone task w)
          (run-Reach 12 (begun task) (after wg_add w) (later r (begin before rest task refl refl)))
