-- ===== src/ClickHouse/Storage.antt =====
-- clickhouse.go: the in-memory set of tasks that were not processed, `Service.storage`.
use shortcut.Prelude.{Bytes, Bool, false, List, [], ◌∷◌, ◌++◌, ◌||◌, bytes_eq, if◌then◌else◌}
use shortcut.Runtime.{Env, Exec, gets, modify}

-- `_, ok := storage[id]`
unfoldable pub has_key : Bytes → List Bytes → Bool
has_key id [] = false
has_key id (k ∷ ks) = bytes_eq id k || has_key id ks

-- `storage[id] = struct{}{}`
unfoldable pub insert_key : Bytes → List Bytes → List Bytes
unfolding has_key
insert_key id ks = if has_key id ks then ks else ks ++ id ∷ []

unfoldable pub add_not_processed_task : Bytes → Exec (Unit {0})
unfolding insert_key
add_not_processed_task task_id = modify (λ w. record w { storage = insert_key task_id w.storage })

unfoldable pub get_all_not_processed_tasks : Env → Exec (List Bytes)
get_all_not_processed_tasks env = gets (λ w. env.map_order w.history w.storage)
