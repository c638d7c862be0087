-- ===== src/Process/Tasks/Rows.antt =====
-- Reading the rows of failed tasks.

use shortcut.Prelude.{
  Bytes, List, [], ◌∷◌, ◌++◌, append_assoc, append-nil, map, Option, none, some, ◌⊎◌, inl, inr, ◌≡◌,
  refl, sym, ◌∙◌, ap,
}
use shortcut.Runtime.{Outcome, pure, continue, Env, Error, World, ok, err, Uuid}
use shortcut.ClickHouse.{Service}
use shortcut.Process.Domain.{Task, status_failed}
use shortcut.Process.Tasks.Repo.{TaskDto, scan_rows, select_failed}
use shortcut.Process.Tasks.Service.{add_parsed, collect, get_all_not_processed_tasks}

-- The failed task with an id.
abbrev pub failed_task : Uuid → Task
failed_task u = record { id = u; status = status_failed; payload = none; failed_payload = none }

abbrev with_parsed : Option Uuid → List Task → List Task
with_parsed none tasks = tasks
with_parsed (some u) tasks = failed_task u ∷ tasks

-- The failed tasks for the ids that parse, in the order of the rows.
pub failed_tasks : Env → List Bytes → List Task
failed_tasks env [] = []
failed_tasks env (id ∷ ids) = with_parsed (env.uuid_parse id) (failed_tasks env ids)

abbrev row : Bytes → TaskDto
row id = record {
  id = id;
  status = status_failed;
  payload = none;
  failed_payload = none;
  ts = none;
}

abbrev before : Bytes → Error ⊎ List Bytes → Error ⊎ List Bytes
before id (inl e) = inl e
before id (inr ids) = inr (id ∷ ids)

-- The ids of the rows, or the error of the first row that cannot be read.
unfoldable pub read_ids : List (Error ⊎ Bytes) → Error ⊎ List Bytes
read_ids [] = inr []
read_ids (inl e ∷ rows) = inl e
read_ids (inr id ∷ rows) = before id (read_ids rows)

abbrev scanned : List TaskDto → Error ⊎ List Bytes → Outcome (List TaskDto)
scanned tasks (inl e) = err e
scanned tasks (inr ids) = ok (tasks ++ map row ids)

scanned-before :
    (id : Bytes) (tasks : List TaskDto) (ids : Error ⊎ List Bytes)
    → scanned (tasks ++ row id ∷ []) ids ≡ scanned tasks (before id ids)
scanned-before id tasks (inl e) = refl
scanned-before id tasks (inr ids) = ap ok (append_assoc tasks (row id ∷ []) (map row ids))

scan_rows-scanned :
    (rows : List (Error ⊎ Bytes)) (tasks : List TaskDto) (w : World)
    → (scan_rows rows tasks w).0 ≡ scanned tasks (read_ids rows)
unfolding scan_rows read_ids
scan_rows-scanned [] tasks w = ap ok (sym (append-nil tasks))
scan_rows-scanned (inl e ∷ rows) tasks w = refl
scan_rows-scanned (inr id ∷ rows) tasks w =
    scan_rows-scanned rows (tasks ++ row id ∷ []) w ∙ scanned-before id tasks (read_ids rows)

added :
    (o : Option Uuid) (id : Bytes) (tasks later : List Task)
    → add_parsed (row id) o tasks ++ later ≡ tasks ++ with_parsed o later
added none id tasks later = refl
added (some u) id tasks later = append_assoc tasks (failed_task u ∷ []) later

collect_rows :
    (env : Env) (ids : List Bytes) (tasks : List Task)
    → collect env (map row ids) tasks ≡ tasks ++ failed_tasks env ids
unfolding collect failed_tasks
collect_rows env [] tasks = sym (append-nil tasks)
collect_rows env (id ∷ ids) tasks =
    collect_rows env ids (add_parsed (row id) (env.uuid_parse id) tasks)
    ∙ added (env.uuid_parse id) id tasks (failed_tasks env ids)

-- The failed tasks by the rows that the database answers.
abbrev pub by_ids : Env → Error ⊎ List Bytes → Outcome (List Task)
by_ids env (inl e) = err e
by_ids env (inr ids) = ok (failed_tasks env ids)

abbrev pub by_rows : Env → Error ⊎ List (Error ⊎ Bytes) → Outcome (List Task)
by_rows env (inl e) = err e
by_rows env (inr rows) = by_ids env (read_ids rows)

collected :
    (env : Env) (r : Outcome (List TaskDto)) (ids : Error ⊎ List Bytes) (w : World)
    → r ≡ scanned [] ids
    → (continue r (λ (dtos : List TaskDto). pure (collect env dtos [])) w).0 ≡ by_ids env ids
collected env r (inl e) w h = rw h refl
collected env r (inr ids) w h = rw h (ap ok (collect_rows env ids []))

-- The failed tasks by the answer of the database. Rows that can all be read give the tasks of those
-- ids that parse, in their order, marked failed and without a payload; the first row that cannot be
-- read, or an error of the query, is returned as the error, and no task.
pub get_all_not_processed_tasks-by_rows :
    (env : Env) (s : Service) (w : World)
    → (get_all_not_processed_tasks env (record { task_repo = record { s = some s } }) w).0
      ≡ by_rows env (env.query_reply (select_failed ∷ w.history))
unfolding get_all_not_processed_tasks
get_all_not_processed_tasks-by_rows env s w =
    by_reply (env.query_reply (select_failed ∷ w.history)) refl
  where
    by_reply :
        (reply : Error ⊎ List (Error ⊎ Bytes))
        → env.query_reply (select_failed ∷ w.history) ≡ reply
        → (get_all_not_processed_tasks env (record { task_repo = record { s = some s } }) w).0
          ≡ by_rows env reply
    by_reply (inl e) q = rw q refl
    by_reply (inr rows) q =
        let w₁ : World = record w { history = select_failed ∷ w.history } in
        rw q (
          collected env (scan_rows rows [] w₁).0 (read_ids rows) (scan_rows rows [] w₁).1
            (scan_rows-scanned rows [] w₁))
