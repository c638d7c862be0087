-- ===== src/Process/Daemon/Pool.antt =====
-- The workers of daemon.go beside its `Stop`, interleaved in any order: one step is a test of the
-- context, a read of the stream, the start or the end of `handleTask`, or a step of `Stop` or of its
-- goroutine at the wait group, whose documented misuse is a panic.
pub mod Waiting
pub mod Ending
pub mod Alone
use shortcut.Prelude.{ℕ, zero, suc, ◌+◌, List, [], ◌∷◌, ◌++◌, ◌≡◌, ◌≢◌, Bool, true, false}

-- Where a worker stands.
pub data Pc : Type 0 where
  testing : Pc  -- at the `select` of the loop
  reading : Pc  -- in `ConsumeTasks`, before the handler
  handling : Pc  -- between `Wg.Add(1)` and `Wg.Done()`
  stopped : Pc

-- Where `Stop` stands, with the goroutine that it waits for.
pub data StopPc : Type 0 where
  running : StopPc  -- not called
  waiting : StopPc  -- the workers are cancelled, and the goroutine is before `d.Wg.Wait()`
  parked : StopPc  -- in `Wait`, which has found tasks in work
  released : StopPc  -- in `Wait`, to which the last `Done` has given the sign
  waited : StopPc  -- behind `Wait`, before `close(doneCh)`
  closed : StopPc  -- `Stop` may go on at `<-doneCh`
  returned : StopPc
  crashed : StopPc  -- a method of the wait group has panicked, which ends the process

-- `Done` to 0 gives the sign to a `Wait`.
abbrev pub after_done : ℕ → StopPc → StopPc
after_done (suc n) p = p
after_done zero parked = released
after_done zero running = running
after_done zero waiting = waiting
after_done zero released = released
after_done zero waited = waited
after_done zero closed = closed
after_done zero returned = returned
after_done zero crashed = crashed

pub record Shared : Type 0 where
  pub cancelled : Bool
  pub wait_group : ℕ
  pub stop : StopPc

pub record System : Type 0 where
  pub shared : Shared
  pub workers : List Pc

-- One step of one worker.
pub data Move (s t : Shared) : Pc → Pc → Type 0 where
  enter : s.cancelled ≡ false → t ≡ s → Move s t testing reading
  leave : s.cancelled ≡ true → t ≡ s → Move s t testing stopped
  -- the read found nothing, failed, or gave a message that has no task
  read_nothing : t ≡ s → Move s t reading testing
  begin : t ≡ record s { wait_group = suc s.wait_group } → Move s t reading handling
  -- `Add` from 0 while a `Wait` has not returned may be found out as misuse of the group
  misuse :
      s.stop ≡ released
      → s.wait_group ≡ 0
      → t ≡ record s { wait_group = 1; stop = crashed }
      → Move s t reading handling
  finish :
      (n : ℕ)
      → s.wait_group ≡ suc n
      → t ≡ record s { wait_group = n; stop = after_done n s.stop }
      → Move s t handling testing

-- One step of `Stop` or of its goroutine, once the workers are cancelled.
pub data Advance (s : Shared) : StopPc → StopPc → Type 0 where
  pass : s.wait_group ≡ 0 → Advance s waiting waited
  park : s.wait_group ≢ 0 → Advance s waiting parked
  wake : s.wait_group ≡ 0 → Advance s released waited
  -- the group was used again before `Wait` returned
  reused : s.wait_group ≢ 0 → Advance s released crashed
  close : Advance s waited closed
  receive : Advance s closed returned

pub data Step (s t : System) : Type 0 where
  work :
      (before after : List Pc) (p q : Pc)
      → s.shared.stop ≢ crashed
      → s.workers ≡ before ++ (p ∷ after)
      → Move s.shared t.shared p q
      → t.workers ≡ before ++ (q ∷ after)
      → Step s t
  cancel :
      s.shared.stop ≡ running
      → t ≡ record s { shared = record s.shared { cancelled = true; stop = waiting } }
      → Step s t
  proceed :
      (p q : StopPc)
      → s.shared.stop ≡ p
      → Advance s.shared p q
      → t ≡ record s { shared = record s.shared { stop = q } }
      → Step s t

-- `Start`: `n` workers at the head of their loops.
unfoldable pub launched : ℕ → List Pc
launched zero = []
launched (suc n) = testing ∷ launched n

abbrev pub init : ℕ → System
init n = record {
  shared = record { cancelled = false; wait_group = 0; stop = running };
  workers = launched n;
}

pub data Reach (n : ℕ) : System → Type 0 where
  start : Reach n (init n)
  later : {s t : System} → Reach n s → Step s t → Reach n t

-- The workers in `handleTask`.
abbrev pub weight : Pc → ℕ
weight handling = 1
weight testing = 0
weight reading = 0
weight stopped = 0

unfoldable pub busy : List Pc → ℕ
busy [] = 0
busy (p ∷ ps) = weight p + busy ps
