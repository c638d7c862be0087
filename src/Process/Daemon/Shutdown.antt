-- ===== src/Process/Daemon/Shutdown.antt =====
-- The stop of the daemon.
use shortcut.Prelude.{
  ℕ, Option, Option-cases, Bool-cases, inl, inr, ◌==◌, if◌then◌else◌, none, some, ◌≡◌, arith, true,
  Bool,
}
use shortcut.Runtime.{Env, World, Outcome, ok, blocked, panic}
use shortcut.Process.Daemon.Lifecycle.{stop}

-- How `Stop` ends, by whether the daemon was started and how many tasks are in work.
abbrev pub stop_outcome : Option Bool → ℕ → Outcome (Unit {0})
stop_outcome none n = panic "invalid memory address or nil pointer dereference"
stop_outcome (some _) n = if n == 0 then ok tt else blocked

-- The context of the workers behind `Stop`: cancelled, if it was made.
abbrev pub cancelled : Option Bool → Option Bool
cancelled none = none
cancelled (some _) = some true

-- Once the daemon was started, `Stop` cancels the workers; it returns if no task is in work, and
-- waits if one is. Before a start it panics. It never touches the set of tasks that were not
-- processed.
pub stop_waits :
    (env : Env) (w : World)
    → ((stop env w).0 ≡ stop_outcome w.worker_ctx w.wait_group)
      × ((stop env w).1.worker_ctx ≡ cancelled w.worker_ctx)
      × ((stop env w).1.storage ≡ w.storage)
unfolding stop
stop_waits env w = elim (Option-cases w.worker_ctx) [
  | inl e ↦ (ground arith, ground arith, ground arith)
  | inr (b, e) ↦ elim (Bool-cases (w.wait_group == 0)) [
    | inl z ↦ (ground arith, ground arith, ground arith)
    | inr z ↦ (ground arith, ground arith, ground arith)
  ]
]
