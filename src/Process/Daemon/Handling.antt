-- ===== src/Process/Daemon/Handling.antt =====
-- The workers of daemon.go inside `handleTask`, side by side over one state of the process: a step
-- is one action of one worker (a call, the wait group, the set of tasks not processed), or a call
-- that a worker makes elsewhere in its round.
pub mod Owed
pub mod Settled
pub mod Entries
pub mod Actions
pub mod Together
pub mod Idle
pub mod Alone
pub mod Draining
use shortcut.Prelude.{
  ℕ, zero, suc, ◌-◌, Bytes, String, List, [], ◌∷◌, ◌++◌, Option, none, some, true, ◌≡◌, ◌||◌,
  if◌then◌else◌,
}
use shortcut.Runtime.{
  Call, Env, Error, World, Level, Exec, tell, is_error, as_custom, is_deadline, is_canceled,
}
use shortcut.Metrics.{
  inc_processed_tasks, inc_task_error, inc_task_timeout, add_active_tasks, dec_active_tasks,
  observe_task_duration,
}
use shortcut.ClickHouse.{add_not_processed_task}
use shortcut.Process.Domain.{Task}
use shortcut.Process.Daemon.Handler.{wg_add, wg_done}
use shortcut.Process.Daemon.Keeping.{Plain, with_call}

-- Where a worker stands in `handleTask`, with what it still uses: the task, the time at which it
-- started, the error of the API, the duration.
pub data Pc : Type 0 where
  idle : Pc  -- not in `handleTask`
  begun : Task → Pc  -- behind `Wg.Add(1)`
  announced : Task → Pc  -- behind the line "start processing"
  counted : Task → Pc  -- behind `AddActiveTasks(1)`
  timed : Task → ℕ → Pc  -- behind `time.Now()`, before the call of the API
  succeeded : ℕ → Pc  -- the API has answered nil
  failed : Task → ℕ → Error → Pc  -- the API has answered an error
  complained : Task → ℕ → Error → Pc  -- behind the line "External API error"
  classified : Task → ℕ → Error → Pc  -- behind the first `if`
  storing : Task → ℕ → Pc  -- before `AddNotProcessedTask`
  closing : ℕ → Pc  -- at the deferred function
  measuring : ℕ → Pc  -- in it, behind `time.Since`
  reported : Pc  -- behind `ObserveTaskDuration`
  leaving : Pc  -- behind `DecActiveTasks(1)`, at `Wg.Done()`

-- The state that an action leaves.
abbrev pub after : Exec (Unit {0}) → World → World
after m w = (m w).1

-- `if err != nil`, and `if errors.As(err, &customErr)` in it.
abbrev pub answered : Task → ℕ → Option Error → Pc
answered task started_at none = succeeded started_at
answered task started_at (some e) = failed task started_at e

abbrev pub complain : Task → ℕ → Error → Option String → World → Pc × World
complain task started_at e none w = (classified task started_at e, w)
complain task started_at e (some m) w =
    (complained task started_at e, after (tell (Call.log Level.error "External API error")) w)

module _ (env : Env) (worker_id : ℕ) where
  -- The next action of a worker that is in `handleTask`, and where it stands then.
  unfoldable pub advance : Pc → World → Pc × World
  unfolding wg_done inc_processed_tasks inc_task_error inc_task_timeout add_active_tasks
      dec_active_tasks observe_task_duration add_not_processed_task is_error as_custom
  advance idle w = (idle, w)
  advance (begun task) w = (announced task, after (tell (Call.log Level.info "start processing")) w)
  advance (announced task) w = (counted task, after (add_active_tasks 1) w)
  advance (counted task) w = (timed task (env.now w.history), w)
  advance (timed task started_at) w =
      let c = Call.get_something (env.uuid_string task.id) worker_id in
      (answered task started_at (env.api_reply (c ∷ w.history)), with_call c w)
  advance (succeeded started_at) w = (closing started_at, after (inc_processed_tasks true) w)
  advance (failed task started_at e) w = complain task started_at e (as_custom e) w
  advance (complained task started_at e) w = (classified task started_at e, after inc_task_error w)
  advance (classified task started_at e) w =
      if is_error e is_deadline || is_error e is_canceled
      then (storing task started_at, after inc_task_timeout w)
      else (storing task started_at, w)
  advance (storing task started_at) w =
      (closing started_at, after (add_not_processed_task (env.uuid_string task.id)) w)
  advance (closing started_at) w = (measuring (env.now w.history - started_at), w)
  advance (measuring d) w = (reported, after (observe_task_duration d) w)
  advance reported w = (leaving, after (dec_active_tasks 1) w)
  advance leaving w = (idle, after wg_done w)

-- One process with its workers.
pub record System : Type 0 where
  pub world : World
  pub workers : List Pc

pub data Step (env : Env) (s t : System) : Type 0 where
  -- a worker calls `handleTask`
  begin :
      (before after_it : List Pc) (task : Task)
      → s.workers ≡ before ++ (idle ∷ after_it)
      → t ≡ record { world = after wg_add s.world; workers = before ++ (begun task ∷ after_it) }
      → Step env s t
  -- a worker that is in it goes on
  work :
      (before after_it : List Pc) (p : Pc) (worker_id : ℕ)
      → s.workers ≡ before ++ (p ∷ after_it)
      → t ≡ record {
        world = (advance env worker_id p s.world).1;
        workers = before ++ ((advance env worker_id p s.world).0 ∷ after_it);
      }
      → Step env s t
  -- a worker reads the stream, or makes another call of its round
  read :
      (group : String) (consumer : Bytes) (n : ℕ) (streams : List String)
      → t ≡ record s { world = with_call (Call.x_read_group group consumer n streams) s.world }
      → Step env s t
  other : (c : Call) → Plain c → t ≡ record s { world = with_call c s.world } → Step env s t

unfoldable pub all_idle : ℕ → List Pc
all_idle zero = []
all_idle (suc n) = idle ∷ all_idle n

-- What `n` workers do from a state `w` on.
pub data Reach (env : Env) (n : ℕ) (w : World) : System → Type 0 where
  start : Reach env n w (record { world = w; workers = all_idle n })
  later : {s t : System} → Reach env n w s → Step env s t → Reach env n w t
