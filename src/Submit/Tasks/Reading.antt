-- ===== src/Submit/Tasks/Reading.antt =====
-- Listing the tasks that were not processed.
use shortcut.Prelude.{List, [], ◌∷◌, Bytes, Option, none, some, ◌⊎◌, inl, inr, ◌≡◌, refl}
use shortcut.Runtime.{
  Arg, Call, Level, Env, Error, Outcome, World, Returns, ◌>>◌, continue, on_result, returned, tell,
  raise, pure, ok, err, panic, blocked,
}
use shortcut.ClickHouse.{Service}
use shortcut.Submit.Domain.{status_failed}
use shortcut.Submit.Tasks.Repo.{TaskDto, scan_rows, query_not_processed}
use shortcut.Submit.Tasks.Service.{TaskService, collect, get_all_not_processed_tasks}

-- A method that came back, with or without an error, and did nothing but make calls.
abbrev pub OnlyCalls : {A : Type 0} → World → Outcome A × World → Type 0
OnlyCalls w (o, w') = Returns o × (w' ≡ record w { history = w'.history })

scan_rows-OnlyCalls :
    (rows : List (Error ⊎ Bytes)) (tasks : List TaskDto) (w : World)
    → OnlyCalls w (scan_rows rows tasks w)
unfolding scan_rows
scan_rows-OnlyCalls [] tasks w = (tt, refl)
scan_rows-OnlyCalls (inl e ∷ rows) tasks w = (tt, refl)
scan_rows-OnlyCalls (inr id ∷ rows) tasks w = scan_rows-OnlyCalls rows _ w

module _ (env : Env) where
  query_not_processed-OnlyCalls :
      (s : Option Service) (w : World) → OnlyCalls w (query_not_processed env s w)
  unfolding query_not_processed
  query_not_processed-OnlyCalls none w = (tt, refl)
  query_not_processed-OnlyCalls (some s) w = answered (
      env.query_reply (
        Call.query "SELECT id FROM tasks WHERE status = $1" (Arg.text status_failed ∷ [])
        ∷ w.history))
    where
      asked : World
      asked = record w {
        history =
            Call.query "SELECT id FROM tasks WHERE status = $1" (Arg.text status_failed ∷ [])
            ∷ w.history;
      }

      answered :
          (r : Error ⊎ List (Error ⊎ Bytes))
          → OnlyCalls w (
              on_result
                (returned r)
                (λ (e : Error).
                  tell (Call.log Level.error "Failed to query not processed tasks") >> raise e)
                (λ rows. scan_rows rows [])
                asked)
      answered (inl e) = (tt, refl)
      answered (inr rows) = scan_rows-OnlyCalls rows [] asked

  collected-OnlyCalls :
      {A B : Type 0} (f : A → B) (w : World) (x : Outcome A × World)
      → OnlyCalls w x
      → OnlyCalls w (continue x.0 (λ a. pure (f a)) x.1)
  collected-OnlyCalls f w (ok a, w') h = h
  collected-OnlyCalls f w (err e, w') h = h
  collected-OnlyCalls f w (panic m, w') h = h
  collected-OnlyCalls f w (blocked, w') h = h

  -- The list is returned or an error is, and only calls are made.
  pub get_all_not_processed_tasks-OnlyCalls :
      (s : TaskService) (w : World) → OnlyCalls w (get_all_not_processed_tasks env s w)
  unfolding get_all_not_processed_tasks
  get_all_not_processed_tasks-OnlyCalls s w =
      collected-OnlyCalls (λ ts. collect env ts []) w (query_not_processed env s.task_repo.s w)
        (query_not_processed-OnlyCalls s.task_repo.s w)
