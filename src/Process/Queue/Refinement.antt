-- ===== src/Process/Queue/Refinement.antt =====
-- The calls of a `PersistentQueue` against those of a set, and `repository.Service` as such a
-- queue.
use mathlib.Core.Path.{subst}
use shortcut.Prelude.{Bytes, List, [], ◌∷◌, ◌≡◌, refl, ap, ◌∙◌}
use shortcut.Runtime.{Call, Env, World, ok}
use shortcut.ClickHouse.{has_key, insert_key, add_not_processed_task, get_all_not_processed_tasks}
use shortcut.ClickHouse.Keys.{NoRepeats, insert_key_lem}
use shortcut.Process.Queue.{Ids, with_id, Shows, PersistentQueue, Op, add, list, run, listed, after}

-- Each list shows the set in its place.
abbrev pub AllShow : List (List Bytes) → List Ids → Type 0
AllShow [] [] = Unit
AllShow (shown ∷ rest) (ids ∷ others) = Shows shown ids × AllShow rest others
AllShow [] (ids ∷ others) = ⊥
AllShow (shown ∷ rest) [] = ⊥

-- The calls return, list what a set would list, and end at the set that it would be.
abbrev pub Refines : PersistentQueue → List Op → World → Ids → Type 0
Refines q ops w ids =
    (shown : List (List Bytes)) × (w' : World) × (run q ops w ≡ (ok shown, w'))
    × AllShow shown (listed ops ids)
    × (q.ids w' ≡ after ops ids)

pub run-Refines :
    (q : PersistentQueue) (ops : List Op) (w : World) → q.IsUsable w → Refines q ops w (q.ids w)
unfolding run listed after
run-Refines q [] w u = ([], w, refl, tt, refl)
run-Refines q (add id ∷ ops) w u =
    let (w₁, done, u₁, put) = q.adds id w u in
    let (shown, w', e, s, last) = run-Refines q ops w₁ u₁ in
    (
      shown,
      w',
      rw (done, e) refl,
      subst (λ ids. AllShow shown (listed ops ids)) put s,
      last ∙ ap (after ops) put,
    )
run-Refines q (list ∷ ops) w u =
    let (shown, got, shows) = q.lists w u in
    let (rest, w', e, s, last) = run-Refines q ops w u in
    (shown ∷ rest, w', rw (got, e) refl, (shows, s), last)

-- What Go documents of a `range` over a map: every key is visited, and once.
pub record VisitsEachKey (env : Env) : Type 0 where
  pub once : (h : List Call) (keys : List Bytes) → NoRepeats keys → NoRepeats (env.map_order h keys)
  pub same :
      (h : List Call) (keys : List Bytes) (j : Bytes)
      → has_key j (env.map_order h keys) ≡ has_key j keys

module _ (env : Env) (visits : VisitsEachKey env) where
  pub service_adds :
      (id : Bytes) (w : World)
      → NoRepeats w.storage
      → (w' : World) × (add_not_processed_task id w ≡ (ok tt, w'))
        × NoRepeats w'.storage
        × ((λ j. has_key j w'.storage) ≡ with_id id (λ j. has_key j w.storage))
  unfolding add_not_processed_task
  service_adds id w n =
      let (once, same) = insert_key_lem id w.storage n in
      (record w { storage = insert_key id w.storage }, refl, once, λ i j. same j i)

  pub service_lists :
      (w : World)
      → NoRepeats w.storage
      → (shown : List Bytes) × (get_all_not_processed_tasks env w ≡ (ok shown, w))
        × Shows shown (λ j. has_key j w.storage)
  unfolding get_all_not_processed_tasks
  service_lists w n = (
    env.map_order w.history w.storage,
    refl,
    record { once = visits.once w.history w.storage n; same = visits.same w.history w.storage },
  )

  unfoldable pub service_queue : PersistentQueue
  service_queue = record {
    add_not_processed_task = add_not_processed_task;
    get_all_not_processed_tasks = get_all_not_processed_tasks env;
    IsUsable = λ w. NoRepeats w.storage;
    ids = λ w j. has_key j w.storage;
    adds = service_adds;
    lists = service_lists;
  }

-- If a `range` over a map visits every key once, then any calls of `AddNotProcessedTask` and
-- `GetAllNotProcessedTasks` in a row return, list what a set that was given the same ids would hold
-- at that point, each id once and in any order, and leave that set, wherever the map of the service
-- holds no key twice to begin with.
pub service-Refines :
    (env : Env) (ops : List Op) (w : World) (visits : VisitsEachKey env)
    → NoRepeats w.storage
    → Refines (service_queue env visits) ops w (λ j. has_key j w.storage)
unfolding service_queue
service-Refines env ops w visits n = run-Refines (service_queue env visits) ops w n
