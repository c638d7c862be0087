-- ===== src/Process/Queue.antt =====
-- `PersistentQueue` of process_service/internal/daemon/daemon.go: the set of tasks that were not
-- processed, as the daemon sees it.
pub mod Refinement
use shortcut.Prelude.{Bytes, Bool, List, [], ◌∷◌, ◌||◌, ◌≡◌, bytes_eq}
use shortcut.Runtime.{World, Exec, ok, pure, ◌>>=◌, ◌>>◌}
use shortcut.ClickHouse.{has_key}
use shortcut.ClickHouse.Keys.{NoRepeats}

-- A set of ids, and one id put into it.
abbrev pub Ids : Type 0
Ids = Bytes → Bool

abbrev pub with_id : Bytes → Ids → Ids
with_id id ids j = bytes_eq j id || ids j

-- A list that shows a set: each member once, in any order.
pub record Shows (shown : List Bytes) (ids : Ids) : Type 0 where
  pub once : NoRepeats shown
  pub same : (j : Bytes) → has_key j shown ≡ ids j

-- The operations, the set behind them, and what a daemon may rely on: neither operation fails, the
-- first puts its id into the set, and the second shows the set and changes nothing.
pub record PersistentQueue : Type 1 where
  pub add_not_processed_task : Bytes → Exec (Unit {0})
  pub get_all_not_processed_tasks : Exec (List Bytes)
  pub IsUsable : World → Type 0
  pub ids : World → Ids
  pub adds :
      (id : Bytes) (w : World)
      → IsUsable w
      → (w' : World) × (add_not_processed_task id w ≡ (ok tt, w'))
        × IsUsable w'
        × (ids w' ≡ with_id id (ids w))
  pub lists :
      (w : World)
      → IsUsable w
      → (shown : List Bytes) × (get_all_not_processed_tasks w ≡ (ok shown, w)) × Shows shown (ids w)

-- A call of the daemon.
pub data Op : Type 0 where
  add : Bytes → Op
  list : Op

-- The calls in a row, and all that was listed.
unfoldable pub run : PersistentQueue → List Op → Exec (List (List Bytes))
run q [] = pure []
run q (add id ∷ ops) = q.add_not_processed_task id >> run q ops
run q (list ∷ ops) = do shown ← q.get_all_not_processed_tasks; rest ← run q ops; pure (shown ∷ rest)

-- The same calls of a set: what is listed, and what the set is behind them.
unfoldable pub listed : List Op → Ids → List Ids
listed [] ids = []
listed (add id ∷ ops) ids = listed ops (with_id id ids)
listed (list ∷ ops) ids = ids ∷ listed ops ids

unfoldable pub after : List Op → Ids → Ids
after [] ids = ids
after (add id ∷ ops) ids = after ops (with_id id ids)
after (list ∷ ops) ids = after ops ids
