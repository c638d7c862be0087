-- ===== src/Process/Daemon/Handling/Settled.antt =====
-- The books of the workers in `handleTask`, at every moment.
use shortcut.Prelude.{◌+◌, ◌∙◌, Bytes, codes, List, ◌∷◌, ◌++◌, ◌≡◌, sym, ap, arith, ◌||◌}
use shortcut.Runtime.{Call, Env, World, task_counter}
use shortcut.ClickHouse.{has_key}
use shortcut.ClickHouse.Keys.{NoRepeats}
use shortcut.Metrics.Counts.{count}
use shortcut.Process.Daemon.Keeping.{with_call}
use shortcut.Process.Daemon.Books.{
  tally, api_calls, added, removed, observed, answered_well, failed_ids,
}
use shortcut.Process.Daemon.Accounts.{IsUnseen}
use shortcut.Process.Daemon.Handling.{Pc}
use shortcut.Process.Daemon.Handling.Owed.{
  inside, to_ask, to_observe, to_remove, to_count, to_store, any_to_store, total,
  any_to_store-middle, total-middle,
}

module _ (env : Env) where
  -- The books, with what the workers have not yet entered.
  pub record IsSettled (ps : List Pc) (w : World) : Type 0 where
    pub in_work : w.wait_group ≡ total inside ps
    pub entered : tally added w.history ≡ tally api_calls w.history + total to_ask ps
    pub left : tally removed w.history + total to_remove ps ≡ tally api_calls w.history
    pub measured : tally observed w.history + total to_observe ps ≡ tally api_calls w.history
    pub processed :
        count task_counter (codes "true") w.history + total to_count ps
        ≡ answered_well env w.history
    pub once : NoRepeats w.storage
    pub unprocessed :
        (id : Bytes)
        → (any_to_store env id ps || has_key id w.storage) ≡ has_key id (failed_ids env w.history)

  -- The order of the workers does not matter.
  module _ (before rest : List Pc) (p : Pc) (w : World) where
    pub IsSettled-front : IsSettled (before ++ (p ∷ rest)) w → IsSettled (p ∷ (before ++ rest)) w
    unfolding total any_to_store
    IsSettled-front s = record {
      in_work = omega (arith, s.in_work, total-middle inside before rest p);
      entered = omega (arith, s.entered, total-middle to_ask before rest p);
      left = omega (arith, s.left, total-middle to_remove before rest p);
      measured = omega (arith, s.measured, total-middle to_observe before rest p);
      processed = omega (arith, s.processed, total-middle to_count before rest p);
      once = s.once;
      unprocessed = λ id.
          ap (λ b. b || has_key id w.storage) (sym (any_to_store-middle env id before rest p))
          ∙ s.unprocessed id;
    }

    pub IsSettled-back : IsSettled (p ∷ (before ++ rest)) w → IsSettled (before ++ (p ∷ rest)) w
    unfolding total any_to_store
    IsSettled-back s = record {
      in_work = omega (arith, s.in_work, total-middle inside before rest p);
      entered = omega (arith, s.entered, total-middle to_ask before rest p);
      left = omega (arith, s.left, total-middle to_remove before rest p);
      measured = omega (arith, s.measured, total-middle to_observe before rest p);
      processed = omega (arith, s.processed, total-middle to_count before rest p);
      once = s.once;
      unprocessed = λ id.
          ap (λ b. b || has_key id w.storage) (any_to_store-middle env id before rest p)
          ∙ s.unprocessed id;
    }

  pub IsSettled-unseen :
      (ps : List Pc) (c : Call) (w : World)
      → IsUnseen env c w.history
      → IsSettled ps w
      → IsSettled ps (with_call c w)
  unfolding tally
  IsSettled-unseen ps c w u s = record {
    in_work = s.in_work;
    entered = omega (arith, s.entered, u.same_added, u.same_calls);
    left = omega (arith, s.left, u.same_removed, u.same_calls);
    measured = omega (arith, s.measured, u.same_observed, u.same_calls);
    processed = omega (arith, s.processed, u.same_count, u.same_well);
    once = s.once;
    unprocessed = λ id. s.unprocessed id ∙ ap (has_key id) (sym u.same_failed);
  }

  -- Two places in the handler with the same entries to come.
  abbrev pub OwesAlike : Pc → Pc → Type 0
  OwesAlike p q =
      (inside p ≡ inside q)
      × (to_ask p ≡ to_ask q)
      × (to_remove p ≡ to_remove q)
      × (to_observe p ≡ to_observe q)
      × (to_count p ≡ to_count q)
      × ((id : Bytes) → to_store env id p ≡ to_store env id q)

  module _ (rest : List Pc) where
    pub go_on :
        (p q : Pc) (w : World) → OwesAlike p q → IsSettled (p ∷ rest) w → IsSettled (q ∷ rest) w
    unfolding total any_to_store
    go_on p q w (a, b, c, d, e, f) s = record {
      in_work = omega (arith, s.in_work, a);
      entered = omega (arith, s.entered, b);
      left = omega (arith, s.left, c);
      measured = omega (arith, s.measured, d);
      processed = omega (arith, s.processed, e);
      once = s.once;
      unprocessed = λ id.
          ap (λ b. (b || any_to_store env id rest) || has_key id w.storage) (sym (f id))
          ∙ s.unprocessed id;
    }
