-- ===== src/Process/Daemon/Books.antt =====
-- What is counted of the calls of a worker: the active tasks, the durations, and the tasks that
-- were and were not processed.
use shortcut.Prelude.{ℕ, suc, ◌+◌, Bytes, codes, List, [], ◌∷◌, none, some, ◌≡◌}
use shortcut.Runtime.{Call, Env, World, task_counter, active_tasks}
use shortcut.ClickHouse.{has_key}
use shortcut.ClickHouse.Keys.{NoRepeats}
use shortcut.Metrics.Counts.{count}

-- The sum of the weights of the calls.
unfoldable pub tally : (Call → ℕ) → List Call → ℕ
tally f [] = 0
tally f (c ∷ h) = f c + tally f h

-- A call of the API, what is added to the active tasks and taken from them, and a duration
-- observed.
abbrev pub api_calls : Call → ℕ
api_calls (Call.get_something _ _) = 1
api_calls _ = 0

abbrev pub added : Call → ℕ
added (Call.gauge_add active_tasks n) = n
added _ = 0

abbrev pub removed : Call → ℕ
removed (Call.gauge_sub active_tasks n) = n
removed _ = 0

abbrev pub observed : Call → ℕ
observed (Call.observe _) = 1
observed _ = 0

module _ (env : Env) where
  -- The calls of the API that were answered by nil, and the ids of the others.
  unfoldable pub answered_well : List Call → ℕ
  answered_well [] = 0
  answered_well (Call.get_something id n ∷ h) =
      let rest = answered_well h in
      elim (env.api_reply (Call.get_something id n ∷ h)) [ none ↦ suc rest | some e ↦ rest ]
  answered_well (_ ∷ h) = answered_well h

  unfoldable pub failed_ids : List Call → List Bytes
  failed_ids [] = []
  failed_ids (Call.get_something id n ∷ h) =
      let rest = failed_ids h in
      elim (env.api_reply (Call.get_something id n ∷ h)) [ none ↦ rest | some e ↦ id ∷ rest ]
  failed_ids (_ ∷ h) = failed_ids h

  -- The books of a process with `n` tasks in work, by the calls to the API that it has made: as
  -- many were added to the active tasks, taken from them, and measured; those answered by nil are
  -- counted as processed, and the ids of the others are the tasks that were not processed, each
  -- once.
  pub record IsBalanced (n : ℕ) (w : World) : Type 0 where
    pub in_work : w.wait_group ≡ n
    pub entered : tally added w.history ≡ tally api_calls w.history
    pub left : tally removed w.history ≡ tally api_calls w.history
    pub measured : tally observed w.history ≡ tally api_calls w.history
    pub processed : count task_counter (codes "true") w.history ≡ answered_well w.history
    pub once : NoRepeats w.storage
    pub unprocessed : (id : Bytes) → has_key id w.storage ≡ has_key id (failed_ids w.history)
