-- ===== src/Process/Daemon/Handling/Together.antt =====
-- The books are settled at every moment of the workers in `handleTask`.
use mathlib.Core.Path.{subst}
use shortcut.Prelude.{ℕ, String, Bytes, List, ◌∷◌, ◌++◌, refl, sym, arith}
use shortcut.Runtime.{Call, Env, World}
use shortcut.Metrics.Counts.{count, increments}
use shortcut.Process.Domain.{Task}
use shortcut.Process.Daemon.Handler.{wg_add}
use shortcut.Process.Daemon.Books.{answered_well, failed_ids, IsBalanced}
use shortcut.Process.Daemon.Accounts.{IsUnseen, Plain-IsUnseen}
use shortcut.Process.Daemon.Handling.{
  Pc, idle, begun, System, Step, begin, work, read, other, Reach, start, later, all_idle, after,
}
use shortcut.Process.Daemon.Handling.Owed.{
  inside, to_ask, to_observe, to_remove, to_count, any_to_store, total, total-all_idle,
  any_to_store-all_idle,
}
use shortcut.Process.Daemon.Handling.Settled.{
  IsSettled, IsSettled-unseen, IsSettled-front, IsSettled-back,
}
use shortcut.Process.Daemon.Handling.Actions.{advance-IsSettled}

module _ (env : Env) where
  begin-IsSettled :
      (rest : List Pc) (task : Task) (w : World)
      → IsSettled env (idle ∷ rest) w
      → IsSettled env (begun task ∷ rest) (after wg_add w)
  unfolding wg_add total any_to_store
  begin-IsSettled rest task w s = record {
    in_work = omega (arith, s.in_work);
    entered = s.entered;
    left = s.left;
    measured = s.measured;
    processed = s.processed;
    once = s.once;
    unprocessed = s.unprocessed;
  }

  read-IsUnseen :
      (g : String) (c : Bytes) (n : ℕ) (names : List String) (h : List Call)
      → IsUnseen env (Call.x_read_group g c n names) h
  unfolding answered_well failed_ids count increments
  read-IsUnseen g c n names h = record {
    same_calls = refl;
    same_added = refl;
    same_removed = refl;
    same_observed = refl;
    same_well = refl;
    same_failed = refl;
    same_count = refl;
  }

  -- The books of a system.
  abbrev Settled : System → Type 0
  Settled s = IsSettled env s.workers s.world

  Step-IsSettled : {s t : System} → Step env s t → Settled s → Settled t
  Step-IsSettled {s} {t} (begin before rest task e f) v =
      let at_front =
        IsSettled-front env before rest idle s.world (subst (λ ps. IsSettled env ps s.world) e v) in
      subst Settled (sym f) (
        IsSettled-back env before rest (begun task) (after wg_add s.world)
          (begin-IsSettled (before ++ rest) task s.world at_front))
  Step-IsSettled {s} {t} (work before rest p worker_id e f) v =
      let at_front =
        IsSettled-front env before rest p s.world (subst (λ ps. IsSettled env ps s.world) e v) in
      subst Settled (sym f) (
        IsSettled-back env before rest _ _
          (advance-IsSettled env (before ++ rest) worker_id p s.world at_front))
  Step-IsSettled {s} {t} (read g c n names f) v =
      subst Settled (sym f)
        (IsSettled-unseen env s.workers _ s.world (read-IsUnseen g c n names _) v)
  Step-IsSettled {s} {t} (other c q f) v =
      subst Settled (sym f) (IsSettled-unseen env s.workers c s.world (Plain-IsUnseen env c q _) v)

  start-IsSettled : (n : ℕ) (w : World) → IsBalanced env 0 w → IsSettled env (all_idle n) w
  start-IsSettled n w b = record {
    in_work = omega (arith, b.in_work, total-all_idle inside refl n);
    entered = omega (arith, b.entered, total-all_idle to_ask refl n);
    left = omega (arith, b.left, total-all_idle to_remove refl n);
    measured = omega (arith, b.measured, total-all_idle to_observe refl n);
    processed = omega (arith, b.processed, total-all_idle to_count refl n);
    once = b.once;
    unprocessed = λ id. ground (arith, any_to_store-all_idle env id n, b.unprocessed id);
  }

  pub Reach-IsSettled :
      {n : ℕ} {w : World} {s : System} → IsBalanced env 0 w → Reach env n w s → Settled s
  Reach-IsSettled {n} {w} b start = start-IsSettled n w b
  Reach-IsSettled b (later r m) = Step-IsSettled m (Reach-IsSettled b r)
