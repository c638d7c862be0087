-- ===== src/Process/Daemon/Pool/Alone.antt =====
-- `handle_task` and `stop`, which run alone, take the steps of the pool.
use shortcut.Prelude.{
  ℕ, suc, List, ◌∷◌, ◌++◌, Option, none, some, ◌≡◌, ◌≢◌, ◌⊎◌, inl, inr, refl, sym, ap, arith, true,
  false, Bool, Bool-cases, Option-cases, ◌∙◌, ◌==◌,
}
use shortcut.Runtime.{Env, World, Outcome, ok, blocked}
use shortcut.Process.Domain.{Task}
use shortcut.Process.Daemon.Handler.{handle_task}
use shortcut.Process.Daemon.Balance.{handle_task-handled}
use shortcut.Process.Daemon.Lifecycle.{stop}
use shortcut.Process.Daemon.Shutdown.{stop_waits, stop_outcome, cancelled}
use shortcut.Process.Daemon.Pool.{
  Pc, testing, reading, handling, StopPc, running, waiting, returned, System, begin, finish, Step,
  work, cancel, proceed, pass, park, close, receive, parked, waited, closed, crashed, after_done,
}

-- Is the context of the workers cancelled?
abbrev pub done : Option Bool → Bool
done none = false
done (some b) = b

-- A process as a system of the pool.
abbrev pub system_of : World → StopPc → List Pc → System
system_of w p workers = record {
  shared = record { cancelled = done w.worker_ctx; wait_group = w.wait_group; stop = p };
  workers = workers;
}

pub data Steps : System → System → Type 0 where
  here : {s : System} → Steps s s
  next : {s t u : System} → Step s t → Steps t u → Steps s u

-- How `Stop` runs: it returns if no task is in work, and waits if one is.
abbrev pub StopRuns : World → List Pc → Outcome (Unit {0}) × World → Type 0
StopRuns w workers (r, w') =
    ((w.wait_group ≡ 0)
      × (r ≡ ok tt)
      × Steps (system_of w running workers) (system_of w' returned workers))
    ⊎ ((w.wait_group ≢ 0)
        × (r ≡ blocked)
        × Steps (system_of w running workers) (system_of w' parked workers))

module _ (env : Env) where
  handle_task-wait_group :
      (worker_id : ℕ) (task : Task) (w : World)
      → ((handle_task env worker_id task w).1.wait_group ≡ w.wait_group)
        × ((handle_task env worker_id task w).1.worker_ctx ≡ w.worker_ctx)
  handle_task-wait_group worker_id task w = rw handle_task-handled (refl, refl)

  -- One worker that has read a message goes through `handleTask` and back to its loop, where this
  -- gives no sign to a `Wait`.
  pub handle_task_alone :
      (worker_id : ℕ) (task : Task) (w : World) (p : StopPc) (before after : List Pc)
      → p ≢ crashed
      → after_done w.wait_group p ≡ p
      → Steps
          (system_of w p (before ++ (reading ∷ after)))
          (system_of (handle_task env worker_id task w).1 p (before ++ (testing ∷ after)))
  handle_task_alone worker_id task w p before after up still =
      let (same, kept) = handle_task-wait_group worker_id task w in
      next
        {t = system_of (record w { wait_group = suc w.wait_group }) p
          (before ++ (handling ∷ after))}
        (work before after reading handling up refl (begin refl) refl)
        (next
          (work before after handling testing up refl
            (finish w.wait_group refl
              (λ i. record { cancelled = done (kept i); wait_group = same i; stop = sym still i }))
            refl)
          here)

  stop-wait_group : (w : World) → (stop env w).1.wait_group ≡ w.wait_group
  unfolding stop
  stop-wait_group w = elim (Option-cases w.worker_ctx) [
    | inl e ↦ ground arith
    | inr (b, e) ↦ elim (Bool-cases (w.wait_group == 0)) [
      | inl z ↦ ground arith
      | inr z ↦ ground arith
    ]
  ]

  -- The context is cancelled behind `Stop`, and the wait group is as it was.
  stopped_at :
      (w : World) (p : StopPc) (b : Bool) (workers : List Pc)
      → w.worker_ctx ≡ some b
      → system_of (stop env w).1 p workers ≡ record {
        shared = record { cancelled = true; wait_group = w.wait_group; stop = p };
        workers = workers;
      }
  stopped_at w p b workers started i = record {
    shared = record {
      cancelled = done (((stop_waits env w).1 ∙ ap cancelled started) i);
      wait_group = stop-wait_group w i;
      stop = p;
    };
    workers = workers;
  }

  -- Once the daemon was started, `Stop` cancels the workers and returns if no task is in work, with
  -- the steps of the pool: the wait for the group, the close of the channel and the receive; if a
  -- task is in work, it cancels them and waits at the group.
  pub stop_alone :
      (w : World) (b : Bool) (workers : List Pc)
      → w.worker_ctx ≡ some b
      → StopRuns w workers (stop env w)
  stop_alone w b workers started =
      let outcome = (stop_waits env w).0 ∙ ap (λ o. stop_outcome o w.wait_group) started in
      elim (Bool-cases (w.wait_group == 0)) [
        | inl idle ↦
            let zero_left : w.wait_group ≡ 0 = ground arith in
            inl (
              zero_left,
              outcome ∙ rw idle refl,
              next (cancel refl refl) (
                  next (proceed waiting waited refl (pass zero_left) refl) (
                    next (proceed waited closed refl close refl) (
                      next
                        (proceed closed returned refl receive
                          (stopped_at w returned b workers started))
                        here))),
            )
        | inr busy ↦ inr (
          ground arith,
          outcome ∙ rw busy refl,
          next (cancel refl refl) (
              next
                (proceed waiting parked refl (park (ground arith))
                  (stopped_at w parked b workers started))
                here),
        )
      ]
