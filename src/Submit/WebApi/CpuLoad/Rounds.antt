-- ===== src/Submit/WebApi/CpuLoad/Rounds.antt =====
-- `runCPULoad` returns.
use mathlib.Core.Path.{subst}
use shortcut.Prelude.{
  ◌^◌, ℕ, zero, suc, ◌+◌, ◌-◌, ◌*◌, ◌<◌, ◌≤◌, List, [], ◌∷◌, some, All, length, ◌≡◌, refl, ap,
  arith, ltb, ltb→lt, lt→ltb, Bool-cases, inl, inr, if◌then◌else◌,
}
use shortcut.Runtime.{ok}
use shortcut.Submit.WebApi.Load.{is_negative, seconds_duration}
use shortcut.Submit.WebApi.Bounds.{seconds_duration_lem}
use shortcut.Submit.WebApi.CpuLoad.{
  deadline, spin, with_rounds, wait_all, counted, add_workers, run_cpu_load,
}

-- A clock that was read at `now` and goes on by at least a nanosecond in each round.
abbrev pub Advances : ℕ → (ℕ → ℕ) → Type 0
Advances now clock = (now ≤ clock 0) × ((i : ℕ) → clock i < clock (suc i))

Advances-from : (now : ℕ) (clock : ℕ → ℕ) → Advances now clock → (i : ℕ) → now + i ≤ clock i
Advances-from now clock a zero = omega (arith, a.0)
Advances-from now clock a (suc i) = omega (arith, Advances-from now clock a i, a.1 i)

-- The loop ends, with at most one round for each nanosecond.
spin_ends :
    (fuel now until i : ℕ) (clock : ℕ → ℕ)
    → Advances now clock
    → i ≤ until - now
    → until - now < i + fuel
    → (n : ℕ) × (spin fuel clock until i ≡ some n) × (n ≤ until - now)
unfolding spin
spin_ends zero now until i clock a low high = absurd (omega (arith, low, high))
spin_ends (suc fuel) now until i clock a low high = elim (Bool-cases (ltb (clock i) until)) [
  | inr over ↦ (i, rw over refl, low)
  | inl before ↦
      let early : clock i < until = ltb→lt (clock i) until before in
      let (n, e, small) =
        spin_ends fuel now until (suc i) clock a (omega (arith, early, Advances-from now clock a i))
          (omega (arith, high)) in
      (n, rw (before, e) refl, small)
]

wait_all_ends :
    (fuel now until : ℕ) (clocks : List (ℕ → ℕ))
    → All (Advances now) clocks
    → until - now < fuel
    → (ns : List ℕ) × (wait_all fuel until clocks ≡ some ns)
      × (length ns ≡ length clocks)
      × All (λ n. n ≤ until - now) ns
unfolding wait_all with_rounds
wait_all_ends fuel now until [] a high = ([], refl, refl, tt)
wait_all_ends fuel now until (clock ∷ clocks) a high =
    let (n, e, small) = spin_ends fuel now until 0 clock a.0 (omega arith) (omega (arith, high)) in
    let (ns, es, same, all_small) = wait_all_ends fuel now until clocks a.1 high in
    (n ∷ ns, rw (e, es) refl, ap suc same, (small, all_small))

add_workers-ok : (workers : ℕ) → workers < 2 ^ 31 → add_workers workers ≡ ok tt
unfolding add_workers
add_workers-ok workers few = rw (lt→ltb workers (2 ^ 31) few) refl

-- The same for any pattern of 64 bits as the duration: a negative one is over at once.
pub run_cpu_load_returns :
    (now duration : ℕ) (clocks : List (ℕ → ℕ))
    → length clocks < 2 ^ 31
    → All (Advances now) clocks
    → (rounds : List ℕ) × (run_cpu_load (suc duration) now clocks duration ≡ some (ok rounds))
      × (length rounds ≡ length clocks)
      × All (λ n. n ≤ (if is_negative duration then 0 else duration)) rounds
unfolding run_cpu_load deadline
run_cpu_load_returns now duration clocks few a = elim (Bool-cases (is_negative duration)) [
  | inl over ↦
      let until = now - (2 ^ 64 - duration) in rw over (exactly 0 until (omega arith) (omega arith))
  | inr ahead ↦ rw ahead (exactly duration (now + duration) (omega arith) (omega arith))
]
  where
    joined :
        (until m : ℕ)
        → (rounds : List ℕ) × (wait_all (suc duration) until clocks ≡ some rounds)
          × (length rounds ≡ length clocks)
          × All (λ n. n ≤ m) rounds
        → (rounds : List ℕ) × (counted
              (add_workers (length clocks))
              (wait_all (suc duration) until clocks)
            ≡ some (ok rounds))
          × (length rounds ≡ length clocks)
          × All (λ n. n ≤ m) rounds
    joined until m (rounds, e, same, small) =
        (rounds, rw (add_workers-ok (length clocks) few, e) refl, same, small)

    exactly :
        (left until : ℕ)
        → until - now ≡ left
        → left < suc duration
        → (rounds : List ℕ) × (counted
              (add_workers (length clocks))
              (wait_all (suc duration) until clocks)
            ≡ some (ok rounds))
          × (length rounds ≡ length clocks)
          × All (λ n. n ≤ left) rounds
    exactly left until e small =
        subst
          (λ (m : ℕ).
            (rounds : List ℕ) × (counted (add_workers (length clocks))
                (wait_all (suc duration) until clocks)
              ≡ some (ok rounds))
            × (length rounds ≡ length clocks)
            × All (λ n. n ≤ m) rounds)
          e
          (joined until (until - now)
            (wait_all_ends (suc duration) now until clocks a (omega (arith, e, small))))

-- If the clock of every worker goes on by at least a nanosecond in each round, then the load of a
-- request for up to 18446744073 seconds returns, with fewer workers than the 2 ^ 31 that the counter
-- of the wait group cannot hold, with all of them done and each after at most one round for each nanosecond; above 9223372036 seconds the duration
-- has wrapped to a negative one, and no worker makes a round.
pub cpu_load_returns :
    (now seconds : ℕ) (clocks : List (ℕ → ℕ))
    → seconds ≤ 18446744073
    → length clocks < 2 ^ 31
    → All (Advances now) clocks
    → let duration = seconds_duration seconds in
      (rounds : List ℕ) × (run_cpu_load (suc duration) now clocks duration ≡ some (ok rounds))
      × (length rounds ≡ length clocks)
      × All (λ n. n ≤ (if ltb 9223372036 seconds then 0 else seconds * 1000000000)) rounds
cpu_load_returns now seconds clocks h few a =
    let (value, sign) = seconds_duration_lem seconds h in
    let (rounds, e, same, small) =
      run_cpu_load_returns now (seconds_duration seconds) clocks few a in
    (
      rounds,
      e,
      same,
      subst (λ (m : ℕ). All (λ n. n ≤ m) rounds) (λ i. if sign i then 0 else value i) small,
    )
