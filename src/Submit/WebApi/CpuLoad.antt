-- ===== src/Submit/WebApi/CpuLoad.antt =====
-- cpu_load_handler.go: `runCPULoad`. The number that a worker keeps busy with is never read, and is
-- left out. The readings of `time.Now`, in nanoseconds, are arguments: `clock i` is the reading
-- before round `i` of a worker.
pub mod Rounds
use shortcut.Prelude.{
  ℕ, zero, suc, ◌+◌, ◌-◌, ◌^◌, List, [], ◌∷◌, Option, none, some, ltb, if◌then◌else◌, length,
}
use mathlib.Core.Option
use shortcut.Runtime.{Outcome, ok, err, panic, blocked}
use shortcut.Submit.WebApi.Load.{is_negative}

-- `time.Now().Add(duration)`: a duration from 2 ^ 63 on stands for a negative one.
unfoldable pub deadline : ℕ → ℕ → ℕ
deadline now duration = if is_negative duration then now - (2 ^ 64 - duration) else now + duration

-- The loop of a worker from round `i` on: the number of rounds that it made, unless the fuel ran
-- out.
unfoldable pub spin : ℕ → (ℕ → ℕ) → ℕ → ℕ → Option ℕ
spin zero clock until i = none
spin (suc fuel) clock until i =
    let rest = spin fuel clock until (suc i) in if ltb (clock i) until then rest else some i

unfoldable pub with_rounds : Option ℕ → Option (List ℕ) → Option (List ℕ)
with_rounds (some n) (some ns) = some (n ∷ ns)
with_rounds (some n) none = none
with_rounds none rest = none

-- `wg.Wait()` behind one worker for each clock: all are done, or it waits.
unfoldable pub wait_all : ℕ → ℕ → List (ℕ → ℕ) → Option (List ℕ)
unfolding spin with_rounds
wait_all fuel until [] = some []
wait_all fuel until (clock ∷ clocks) =
    with_rounds (spin fuel clock until 0) (wait_all fuel until clocks)

-- `wg.Add(workers)`: the counter has 32 bits with a sign. From 2 ^ 31 workers on either `Add`
-- panics, or the counter has wrapped to fewer than there are, and the first `Done` too many panics.
unfoldable pub add_workers : ℕ → Outcome (Unit {0})
add_workers workers =
    if ltb workers (2 ^ 31) then ok tt else panic "sync: negative WaitGroup counter"

-- What is behind the call of `Add`.
abbrev pub counted : {A B : Type 0} → Outcome A → Option B → Option (Outcome B)
counted (ok _) r = Option.map ok r
counted (err e) r = some (err e)
counted (panic m) r = some (panic m)
counted blocked r = some blocked

-- `runCPULoad`, called at the time `now`: the rounds of its workers.
unfoldable pub run_cpu_load : ℕ → ℕ → List (ℕ → ℕ) → ℕ → Option (Outcome (List ℕ))
unfolding deadline wait_all add_workers
run_cpu_load fuel now clocks duration =
    counted (add_workers (length clocks)) (wait_all fuel (deadline now duration) clocks)
