-- ===== src/Process/Daemon/Handling/Actions.antt =====
-- Each action of a worker in `handleTask` keeps the books.
use shortcut.Prelude.{
  ℕ, ◌-◌, Bytes, codes, String, Bool, Option, List, ◌∷◌, ◌≡◌, refl, arith, ◌||◌, none, some, true,
  false,
}
use shortcut.Runtime.{Call, Env, Error, World, Level, as_custom, is_error, is_deadline, is_canceled}
use shortcut.ClickHouse.{has_key}
use shortcut.ClickHouse.Keys.{insert_key_lem}
use shortcut.Metrics.Counts.{count, increments}
use shortcut.Process.Domain.{Task}
use shortcut.Process.Daemon.Handler.{wg_done}
use shortcut.Process.Daemon.Books.{answered_well, failed_ids}
use shortcut.Process.Daemon.Accounts.{Plain-IsUnseen}
use shortcut.Process.Daemon.Handling.{
  Pc, idle, begun, announced, counted, timed, succeeded, failed, complained, classified, storing,
  closing, measuring, reported, leaving, advance, after,
}
use shortcut.Process.Daemon.Handling.Owed.{any_to_store, total}
use shortcut.Process.Daemon.Handling.Settled.{IsSettled, go_on}
use shortcut.Process.Daemon.Handling.Entries.{
  error-IsUnseen, unseen, enter, EntersOnly, count_in-Enters, count_out-Enters, observe-Enters,
  count_true-Enters,
}

module _ (env : Env) (rest : List Pc) where
  store :
      (task : Task) (started_at : ℕ) (w : World)
      → IsSettled env (storing task started_at ∷ rest) w
      → IsSettled env (closing started_at ∷ rest) (advance env 0 (storing task started_at) w).1
  unfolding total any_to_store advance
  store task started_at w s =
      let (single, has) = insert_key_lem (env.uuid_string task.id) w.storage s.once in
      record {
        in_work = s.in_work;
        entered = s.entered;
        left = s.left;
        measured = s.measured;
        processed = s.processed;
        once = single;
        unprocessed = λ id. ground (arith, has id, s.unprocessed id);
      }

  leave :
      (w : World) → IsSettled env (leaving ∷ rest) w → IsSettled env (idle ∷ rest) (after wg_done w)
  unfolding total any_to_store wg_done
  leave w s = record {
    in_work = ground (arith, s.in_work);
    entered = ground (arith, s.entered);
    left = ground (arith, s.left);
    measured = ground (arith, s.measured);
    processed = ground (arith, s.processed);
    once = ground (arith, s.once, s.in_work);
    unprocessed = λ id. ground (arith, s.unprocessed id, s.in_work);
  }

  -- Two places that owe the same by definition.
  alike :
      {a b c d e : ℕ} {f : Bytes → Bool}
      → (a ≡ a) × (b ≡ b) × (c ≡ c) × (d ≡ d) × (e ≡ e) × ((id : Bytes) → f id ≡ f id)
  alike = (refl, refl, refl, refl, refl, λ _. refl)

  module _ (worker_id : ℕ) where
    -- What is kept of an action: the books, for the place and the state behind it.
    abbrev Kept : Pc → World → Type 0
    Kept p w = IsSettled env ((advance env worker_id p w).0 ∷ rest) (advance env worker_id p w).1

    ask :
        (task : Task) (n : ℕ) (w : World) (answer : Option Error)
        → env.api_reply (Call.get_something (env.uuid_string task.id) worker_id ∷ w.history)
          ≡ answer
        → IsSettled env (timed task n ∷ rest) w
        → Kept (timed task n) w
    unfolding advance answered_well failed_ids count increments has_key
    ask task n w none a s = rw a (
        enter env rest (timed task n) (succeeded n) _ w
          (record {
            still_inside = refl;
            asks = refl;
            removes = refl;
            observes = refl;
            counts = ground (arith, a);
            stores_none = λ id. refl;
            stores = λ id. ground (arith, a);
          })
          s)
    ask task n w (some x) a s = rw a (
        enter env rest (timed task n) (failed task n x) _ w
          (record {
            still_inside = refl;
            asks = refl;
            removes = refl;
            observes = refl;
            counts = ground (arith, a);
            stores_none = λ id. refl;
            stores = λ id. ground (arith, a);
          })
          s)

    classify :
        (task : Task) (n : ℕ) (e : Error) (w : World) (t : Bool)
        → (is_error e is_deadline || is_error e is_canceled) ≡ t
        → IsSettled env (classified task n e ∷ rest) w
        → Kept (classified task n e) w
    unfolding advance
    classify task n e w true f s = rw f (
        unseen env rest (classified task n e) (storing task n) _ w alike
          (error-IsUnseen env (codes "timeout") w.history) s)
    classify task n e w false f s =
        rw f (go_on env rest (classified task n e) (storing task n) w alike s)

    complaint :
        (task : Task) (n : ℕ) (e : Error) (w : World) (m : Option String)
        → as_custom e ≡ m
        → IsSettled env (failed task n e ∷ rest) w
        → Kept (failed task n e) w
    unfolding advance
    complaint task n e w none f s =
        rw f (go_on env rest (failed task n e) (classified task n e) w alike s)
    complaint task n e w (some m) f s = rw f (
        unseen env rest (failed task n e) (complained task n e) _ w alike
          (Plain-IsUnseen env (Call.log Level.error "External API error") tt w.history) s)

    pub advance-IsSettled : (p : Pc) (w : World) → IsSettled env (p ∷ rest) w → Kept p w
    unfolding advance EntersOnly
    advance-IsSettled idle w s = s
    advance-IsSettled (begun task) w s =
        unseen env rest (begun task) (announced task) _ w alike
          (Plain-IsUnseen env (Call.log Level.info "start processing") tt w.history) s
    advance-IsSettled (announced task) w s =
        enter env rest _ _ _ w (count_in-Enters env rest task w.history) s
    advance-IsSettled (counted task) w s =
        go_on env rest (counted task) (timed task (env.now w.history)) w alike s
    advance-IsSettled (timed task n) w s = ask task n w _ refl s
    advance-IsSettled (succeeded n) w s =
        enter env rest _ _ _ w (count_true-Enters env rest n w.history) s
    advance-IsSettled (failed task n e) w s = complaint task n e w _ refl s
    advance-IsSettled (complained task n e) w s =
        unseen env rest (complained task n e) (classified task n e) _ w alike
          (error-IsUnseen env (codes "error") w.history) s
    advance-IsSettled (classified task n e) w s = classify task n e w _ refl s
    advance-IsSettled (storing task n) w s = store task n w s
    advance-IsSettled (closing n) w s =
        go_on env rest (closing n) (measuring (env.now w.history - n)) w alike s
    advance-IsSettled (measuring d) w s =
        enter env rest _ _ _ w (observe-Enters env rest d w.history) s
    advance-IsSettled reported w s = enter env rest _ _ _ w (count_out-Enters env rest w.history) s
    advance-IsSettled leaving w s = leave w s
