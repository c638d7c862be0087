-- ===== src/Process/Daemon/Handling/Entries.antt =====
-- What an action of a worker in `handleTask` enters into the books.
use shortcut.Prelude.{ℕ, ◌+◌, Bytes, bytes_eq_refl, codes, List, ◌∷◌, ◌≡◌, refl, arith, ◌||◌, false}
use shortcut.Runtime.{Call, Env, World, task_counter, active_tasks, error_counter}
use shortcut.ClickHouse.{has_key}
use shortcut.Metrics.Counts.{count, increments}
use shortcut.Process.Domain.{Task}
use shortcut.Process.Daemon.Keeping.{with_call}
use shortcut.Process.Daemon.Books.{
  tally, api_calls, added, removed, observed, answered_well, failed_ids,
}
use shortcut.Process.Daemon.Accounts.{IsUnseen}
use shortcut.Process.Daemon.Handling.{
  Pc, announced, counted, succeeded, closing, measuring, reported, leaving,
}
use shortcut.Process.Daemon.Handling.Owed.{
  inside, to_ask, to_observe, to_remove, to_count, to_store, any_to_store, total,
}
use shortcut.Process.Daemon.Handling.Settled.{IsSettled, IsSettled-unseen, OwesAlike, go_on}

-- A worker counts an error: the books do not see it.
pub error-IsUnseen :
    (env : Env) (l : Bytes) (h : List Call) → IsUnseen env (Call.counter_inc error_counter l) h
unfolding answered_well failed_ids count increments
error-IsUnseen env l h = record {
  same_calls = refl;
  same_added = refl;
  same_removed = refl;
  same_observed = refl;
  same_well = refl;
  same_failed = refl;
  same_count = refl;
}

module _ (env : Env) (rest : List Pc) where
  -- An action whose call the books do not see.
  pub unseen :
      (p q : Pc) (c : Call) (w : World)
      → OwesAlike env p q
      → IsUnseen env c w.history
      → IsSettled env (p ∷ rest) w
      → IsSettled env (q ∷ rest) (with_call c w)
  unseen p q c w o u s = IsSettled-unseen env (q ∷ rest) c w u (go_on env rest p q w o s)

  -- What an action with the call `c` must do to the books for its worker to go from `p` to `q`: what
  -- the call enters, the worker owes no longer.
  pub record Enters (p q : Pc) (c : Call) (h : List Call) : Type 0 where
    pub still_inside : inside p ≡ inside q
    pub asks : added c + to_ask p ≡ api_calls c + to_ask q
    pub removes : removed c + to_remove q ≡ api_calls c + to_remove p
    pub observes : observed c + to_observe q ≡ api_calls c + to_observe p
    pub counts :
        count task_counter (codes "true") (c ∷ h) + (answered_well env h + to_count q)
        ≡ count task_counter (codes "true") h + (answered_well env (c ∷ h) + to_count p)
    pub stores_none : (id : Bytes) → to_store env id p ≡ false
    pub stores :
        (id : Bytes)
        → has_key id (failed_ids env (c ∷ h)) ≡ (to_store env id q || has_key id (failed_ids env h))

  pub enter :
      (p q : Pc) (c : Call) (w : World)
      → Enters p q c w.history
      → IsSettled env (p ∷ rest) w
      → IsSettled env (q ∷ rest) (with_call c w)
  unfolding total any_to_store tally
  enter p q c w e s = record {
    in_work = omega (arith, s.in_work, e.still_inside);
    entered = omega (arith, s.entered, e.asks);
    left = omega (arith, s.left, e.removes);
    measured = omega (arith, s.measured, e.observes);
    processed = omega (arith, s.processed, e.counts);
    once = s.once;
    unprocessed = λ id. ground (arith, s.unprocessed id, e.stores_none id, e.stores id);
  }

  -- An action that is no call of the API, and with which no task is owed to the set.
  unfoldable pub EntersOnly : Pc → Pc → Call → Type 0
  EntersOnly p q c = (h : List Call) → Enters p q c h

  pub count_in-Enters :
      (task : Task) → EntersOnly (announced task) (counted task) (Call.gauge_add active_tasks 1)
  unfolding EntersOnly answered_well failed_ids count increments
  count_in-Enters task h = record {
    still_inside = refl;
    asks = refl;
    removes = refl;
    observes = refl;
    counts = refl;
    stores_none = λ id. refl;
    stores = λ id. refl;
  }

  pub count_out-Enters : EntersOnly reported leaving (Call.gauge_sub active_tasks 1)
  unfolding EntersOnly answered_well failed_ids count increments
  count_out-Enters h = record {
    still_inside = refl;
    asks = refl;
    removes = refl;
    observes = refl;
    counts = refl;
    stores_none = λ id. refl;
    stores = λ id. refl;
  }

  pub observe-Enters : (d : ℕ) → EntersOnly (measuring d) reported (Call.observe d)
  unfolding EntersOnly answered_well failed_ids count increments
  observe-Enters d h = record {
    still_inside = refl;
    asks = refl;
    removes = refl;
    observes = refl;
    counts = refl;
    stores_none = λ id. refl;
    stores = λ id. refl;
  }

  pub count_true-Enters :
      (n : ℕ) → EntersOnly (succeeded n) (closing n) (Call.counter_inc task_counter (codes "true"))
  unfolding EntersOnly answered_well failed_ids count increments
  count_true-Enters n h = record {
    still_inside = refl;
    asks = refl;
    removes = refl;
    observes = refl;
    counts = ground (arith, bytes_eq_refl (codes "true"));
    stores_none = λ id. refl;
    stores = λ id. refl;
  }
