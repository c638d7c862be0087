-- ===== src/Tests/Working.antt =====
-- The theorems on the rounds of a worker, and on the pool that stops, at sample values.
use mathlib.Core.List.{reverse, Sublistᴰ}
use shortcut.Prelude.{
  length, ap, ◌++◌, map, ℕ, zero, suc, ◌+◌, ◌*◌, ◌≤◌, Bytes, codes, List, [], ◌∷◌, none, some, ◌⊎◌,
  inr, ◌≡◌, refl, true, false, arith,
}
use shortcut.Runtime.{Call, Env, Error, XStream, message, World}
use shortcut.ClickHouse.Keys.{NoRepeats}
use shortcut.Process.Bus.Acks.{acks}
use shortcut.Process.Bus.Flat.{messages_of}
use shortcut.ClickHouse.{has_key}
use shortcut.Metrics.{count}
use shortcut.Process.Daemon.{Daemon, worker}
use shortcut.Process.Daemon.Batch
use shortcut.Process.Daemon.Books.{tally, answered_well, failed_ids, IsBalanced}
use shortcut.Process.Daemon.Accounts.{worker-IsBalanced}
use shortcut.Process.Daemon.Deliveries.{delivered_ids, DeliversOnce, IsOrderly, worker-acks_once}
use shortcut.Process.Daemon.Rounds.{reads}
use shortcut.Process.Daemon.Pool.{
  testing, reading, Pc, waiting, waited, StopPc, System, Step, enter, read_nothing, work, cancel,
  proceed, pass, Reach, start, later, launched,
}
use shortcut.Process.Daemon.Losses.{error_lines, RespectsCount, IsAccounted, worker-IsAccounted}
use shortcut.Process.Daemon.Pool.Ending.{Run, none_left, one_more, Finished, Crashed, shutdown_ends}
use shortcut.Tests.Samples.{env, new_world, message_with, takes_all, task_repository}

-- Redis has one message, which the first read gets.
abbrev to_first : ℕ → Error ⊎ List XStream
to_first zero = inr []
to_first (suc zero) = inr (record { name = "tasks"; messages = message_with "work" ∷ [] } ∷ [])
to_first (suc (suc n)) = inr []

-- The API is not available.
abbrev one_message : Env
one_message = record env {
  read_reply = λ h. to_first (reads h);
  api_reply = λ _. some (message "unavailable");
}

abbrev ids_after : ℕ → List Bytes
ids_after zero = []
ids_after (suc n) = codes "1-1" ∷ []

one_more_read :
    (k : ℕ) (ids : List Bytes)
    → ids ≡ ids_after k
    → reverse (map (λ m. m.id) (Batch.delivered (to_first (suc k)))) ++ ids ≡ ids_after (suc k)
unfolding messages_of
one_more_read zero ids e = ap (λ l. codes "1-1" ∷ l) e
one_more_read (suc k) ids e = e

delivered_ids-reads : (h : List Call) → delivered_ids one_message h ≡ ids_after (reads h)
unfolding delivered_ids reads
delivered_ids-reads [] = refl
delivered_ids-reads (Call.x_read_group g c n s ∷ h) =
    one_more_read (reads h) (delivered_ids one_message h) (delivered_ids-reads h)
delivered_ids-reads (Call.log l m ∷ h) = delivered_ids-reads h
delivered_ids-reads (_ ∷ h) = delivered_ids-reads h

ids_after-NoRepeats : (n : ℕ) → NoRepeats (ids_after n)
unfolding has_key
ids_after-NoRepeats zero = tt
ids_after-NoRepeats (suc n) = (refl, tt)

one_message-DeliversOnce : DeliversOnce one_message
one_message-DeliversOnce = record {
  once = λ h _. rw delivered_ids-reads (ids_after-NoRepeats (reads h));
}

-- A worker that reads the message, fails on it, finds no other, and sees its context done.
abbrev daemon : Daemon
daemon = record {
  num_workers = 5;
  queue_size = 100;
  consumer = Batch.consumer one_message takes_all none task_repository 1;
}

abbrev after_rounds : World
after_rounds = (worker one_message takes_all daemon 1 (false ∷ false ∷ true ∷ []) new_world).1

worker-acks_once_example :
    IsOrderly one_message after_rounds × NoRepeats (acks after_rounds.history)
unfolding acks delivered_ids
worker-acks_once_example =
    worker-acks_once one_message takes_all none task_repository 1 daemon (false ∷ false ∷ true ∷ [])
      new_world refl one_message-DeliversOnce (record { new = tt; in_order = Sublistᴰ.slnil })

one_message-RespectsCount : RespectsCount one_message
unfolding reads messages_of
one_message-RespectsCount = record { few = λ g c n s h positive. at_most (reads h) n positive }
  where
    at_most : (k n : ℕ) → 1 ≤ n → length (Batch.delivered (to_first (suc k))) ≤ n
    at_most zero n positive = positive
    at_most (suc k) n positive = omega arith

worker-IsAccounted_example : IsAccounted one_message after_rounds
unfolding acks delivered_ids error_lines
worker-IsAccounted_example =
    worker-IsAccounted one_message takes_all none task_repository 1 daemon
      (false ∷ false ∷ true ∷ []) new_world refl one_message-RespectsCount
      (record { new = tt; accounted = omega arith })

worker-IsBalanced_example : IsBalanced one_message 0 after_rounds
unfolding tally answered_well failed_ids count
worker-IsBalanced_example =
    worker-IsBalanced one_message 0 takes_all none task_repository 1 daemon
      (false ∷ false ∷ true ∷ []) new_world refl
      (record {
        in_work = refl;
        entered = refl;
        left = refl;
        measured = refl;
        processed = refl;
        once = tt;
        unprocessed = λ id. refl;
      })

-- `Stop` was called while the only worker was reading; the worker comes back to its loop.
abbrev pool : StopPc → Pc → System
pool s p = record {
  shared = record { cancelled = true; wait_group = 0; stop = s };
  workers = p ∷ [];
}

reading-Reach : Reach 1 (pool waiting reading)
unfolding launched
reading-Reach =
    later (later start (work [] [] testing reading (λ e. ground arith) refl (enter refl refl) refl))
      (cancel refl refl)

two_steps : Run 2 (pool waiting reading) (pool waited testing)
two_steps =
    one_more (work [] [] reading testing (λ e. ground arith) refl (read_nothing refl) refl)
      (one_more (proceed waiting waited refl (pass refl) refl) none_left)

shutdown_ends_example :
    (2 ≤ 3 * 1 + 5)
    × (Finished (pool waited testing)
        ⊎ (Crashed (pool waited testing) ⊎ ((u : System) × Step (pool waited testing) u)))
shutdown_ends_example = shutdown_ends reading-Reach (λ e. ground arith) two_steps
