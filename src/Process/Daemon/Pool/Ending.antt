-- ===== src/Process/Daemon/Pool/Ending.antt =====
-- The pool once `Stop` was called: it comes to an end, and only where everything has stopped.
use shortcut.Prelude.{
  ℕ, zero, suc, ◌+◌, ◌-◌, ◌*◌, ◌≤◌, List, [], ◌∷◌, ◌++◌, length, ◌≡◌, ◌≢◌, ◌⊎◌, inl, inr, refl, sym,
  ap, ◌∙◌, arith, true, All,
}
use shortcut.Process.Daemon.Pool.{
  Pc, testing, reading, handling, stopped, StopPc, running, waiting, returned, Shared, System, Move,
  enter, leave, read_nothing, begin, misuse, finish, Step, work, cancel, proceed, Advance, pass,
  park, wake, reused, close, receive, parked, released, waited, closed, crashed, after_done,
  launched, Reach, start, later, weight, busy,
}
use shortcut.Process.Daemon.Pool.Waiting.{
  IsCounted, Reach-IsCounted, Move-IsQuiet, Advance-called, busy-middle,
}

-- The steps that a worker may still take, and those of `Stop`.
abbrev left : Pc → ℕ
left reading = 3
left handling = 2
left testing = 1
left stopped = 0

abbrev stop_left : StopPc → ℕ
stop_left running = 6
stop_left waiting = 5
stop_left parked = 4
stop_left released = 3
stop_left waited = 2
stop_left closed = 1
stop_left returned = 0
stop_left crashed = 0

unfoldable sum_left : List Pc → ℕ
sum_left [] = 0
sum_left (p ∷ ps) = left p + sum_left ps

abbrev measure : System → ℕ
measure s = stop_left s.shared.stop + sum_left s.workers

-- `k` steps in a row.
pub data Run : ℕ → System → System → Type 0 where
  none_left : {s : System} → Run 0 s s
  one_more : {k : ℕ} {s t u : System} → Step s t → Run k t u → Run (suc k) s u

-- `Stop` has returned, and every worker has left its loop.
abbrev pub Finished : System → Type 0
Finished s = (s.shared.stop ≡ returned) × All (λ (p : Pc). p ≡ stopped) s.workers

-- A method of the wait group has panicked.
abbrev pub Crashed : System → Type 0
Crashed s = s.shared.stop ≡ crashed

sum_left-middle :
    (ps qs : List Pc) (p : Pc) → sum_left (ps ++ (p ∷ qs)) ≡ left p + sum_left (ps ++ qs)
unfolding sum_left
sum_left-middle [] qs p = refl
sum_left-middle (r ∷ ps) qs p = omega (arith, sum_left-middle ps qs p)

Move-left : {s t : Shared} {p q : Pc} → Move s t p q → s.cancelled ≡ true → suc (left q) ≤ left p
Move-left (enter c e) d = ground arith
Move-left (leave c e) d = omega arith
Move-left (read_nothing e) d = omega arith
Move-left (begin e) d = omega arith
Move-left (misuse r z e) d = omega arith
Move-left (finish n z e) d = omega arith

after_done-left : (n : ℕ) (p : StopPc) → stop_left (after_done n p) ≤ stop_left p
after_done-left (suc n) p = omega arith
after_done-left zero running = omega arith
after_done-left zero waiting = omega arith
after_done-left zero parked = omega arith
after_done-left zero released = omega arith
after_done-left zero waited = omega arith
after_done-left zero closed = omega arith
after_done-left zero returned = omega arith
after_done-left zero crashed = omega arith

abbrev left_of : Shared → ℕ
left_of x = stop_left x.stop

-- A worker gives `Stop` no more to do.
Move-stop_left : {s t : Shared} {p q : Pc} → Move s t p q → left_of t ≤ left_of s
Move-stop_left (enter c e) = omega (arith, ap left_of e)
Move-stop_left (leave c e) = omega (arith, ap left_of e)
Move-stop_left (read_nothing e) = omega (arith, ap left_of e)
Move-stop_left (begin e) = omega (arith, ap left_of e)
Move-stop_left (misuse r z e) = omega (arith, ap left_of e)
Move-stop_left {s} (finish n z e) = omega (arith, ap left_of e, after_done-left n s.stop)

Advance-left : {s : Shared} {p q : StopPc} → Advance s p q → suc (stop_left q) ≤ stop_left p
Advance-left (pass z) = omega arith
Advance-left (park z) = omega arith
Advance-left (wake z) = omega arith
Advance-left (reused z) = omega arith
Advance-left close = omega arith
Advance-left receive = omega arith

-- Once the context is cancelled, it stays so, and every step takes one off the measure.
Step-measure :
    {s t : System}
    → Step s t
    → s.shared.cancelled ≡ true
    → s.shared.stop ≢ running
    → (suc (measure t) ≤ measure s) × (t.shared.cancelled ≡ true) × (t.shared.stop ≢ running)
Step-measure {s} {t} (work before after p q up e m f) c d =
    let quiet = Move-IsQuiet m in
    (
      omega (
        arith,
        Move-left m c,
        Move-stop_left m,
        ap sum_left e,
        ap sum_left f,
        sum_left-middle before after p,
        sum_left-middle before after q,
      ),
      quiet.same_cancelled ∙ c,
      λ r. d (quiet.was_running r),
    )
Step-measure (cancel r e) c d = absurd (d r)
Step-measure {s} {t} (proceed p q r m e) c d = (
  omega (
    arith,
    Advance-left m,
    ap stop_left r,
    ap (λ (x : System). stop_left x.shared.stop) e,
    ap (λ (x : System). sum_left x.workers) e,
  ),
  ap (λ (x : System). x.shared.cancelled) e ∙ c,
  λ g. (Advance-called m).1 (sym (ap (λ (x : System). x.shared.stop) e) ∙ g),
)

sum_left-bound : (ps : List Pc) → sum_left ps ≤ 3 * length ps
unfolding sum_left
sum_left-bound [] = omega arith
sum_left-bound (testing ∷ ps) = omega (arith, sum_left-bound ps)
sum_left-bound (reading ∷ ps) = omega (arith, sum_left-bound ps)
sum_left-bound (handling ∷ ps) = omega (arith, sum_left-bound ps)
sum_left-bound (stopped ∷ ps) = omega (arith, sum_left-bound ps)

length-launched : (n : ℕ) → length (launched n) ≡ n
unfolding launched
length-launched zero = refl
length-launched (suc n) = omega (arith, length-launched n)

length-middle : (ps qs : List Pc) (p q : Pc) → length (ps ++ (p ∷ qs)) ≡ length (ps ++ (q ∷ qs))
length-middle [] qs p q = refl
length-middle (r ∷ ps) qs p q = omega (arith, length-middle ps qs p q)

-- No step starts a worker or drops one.
Step-length : {s t : System} → Step s t → length t.workers ≡ length s.workers
Step-length (work before after p q up e m f) =
    ap length f ∙ length-middle before after q p ∙ sym (ap length e)
Step-length (cancel r e) = ap (λ (x : System). length x.workers) e
Step-length (proceed p q r m e) = ap (λ (x : System). length x.workers) e

Reach-length : {n : ℕ} {s : System} → Reach n s → length s.workers ≡ n
Reach-length {n} start = length-launched n
Reach-length (later r m) = Step-length m ∙ Reach-length r

-- Has every worker stopped, or which one has not?
abbrev NotStopped : List Pc → Type 0
NotStopped ps =
    (before : List Pc) × (after : List Pc) × (p : Pc) × (ps ≡ before ++ (p ∷ after)) × (p ≢ stopped)

deeper : (r : Pc) (ps : List Pc) → NotStopped ps → NotStopped (r ∷ ps)
deeper r ps (before, after, p, e, d) = (r ∷ before, after, p, ap (λ (l : List Pc). r ∷ l) e, d)

find_worker : (ps : List Pc) → All (λ (p : Pc). p ≡ stopped) ps ⊎ NotStopped ps
find_worker [] = inl tt
find_worker (testing ∷ ps) = inr ([], ps, testing, refl, λ e. ground arith)
find_worker (reading ∷ ps) = inr ([], ps, reading, refl, λ e. ground arith)
find_worker (handling ∷ ps) = inr ([], ps, handling, refl, λ e. ground arith)
find_worker (stopped ∷ ps) = elim (find_worker ps) [
  | inl a ↦ inl (refl, a)
  | inr b ↦ inr (deeper stopped ps b)
]

busy-stopped : (ps : List Pc) → All (λ (p : Pc). p ≡ stopped) ps → busy ps ≡ 0
unfolding busy
busy-stopped [] h = refl
busy-stopped (p ∷ ps) (e, h) = omega (arith, ap weight e, busy-stopped ps h)

-- A worker that has not stopped can take a step once the context is cancelled.
worker_moves :
    (s : System) (before after : List Pc) (p : Pc)
    → IsCounted s
    → s.shared.cancelled ≡ true
    → s.shared.stop ≢ crashed
    → s.workers ≡ before ++ (p ∷ after)
    → p ≢ stopped
    → (t : System) × Step s t
worker_moves s before after testing v c up e d = (
  record { shared = s.shared; workers = before ++ (stopped ∷ after) },
  work before after testing stopped up e (leave c refl) refl,
)
worker_moves s before after reading v c up e d = (
  record { shared = s.shared; workers = before ++ (testing ∷ after) },
  work before after reading testing up e (read_nothing refl) refl,
)
worker_moves s before after handling v c up e d = (
  record {
    shared = record s.shared {
      wait_group = s.shared.wait_group - 1;
      stop = after_done (s.shared.wait_group - 1) s.shared.stop;
    };
    workers = before ++ (testing ∷ after);
  },
  work before after handling testing up e
      (finish (s.shared.wait_group - 1)
        (omega (arith, v.counted, ap busy e, busy-middle before after handling)) refl)
      refl,
)
worker_moves s before after stopped v c up e d = absurd (d refl)

-- With every worker stopped, `Stop` has returned or can go on.
stop_moves :
    (s : System) (p : StopPc)
    → s.shared.stop ≡ p
    → IsCounted s
    → p ≢ running
    → p ≢ crashed
    → All (λ (p : Pc). p ≡ stopped) s.workers
    → Finished s ⊎ ((t : System) × Step s t)
stop_moves s running e v d u a = absurd (d refl)
stop_moves s waiting e v d u a =
    inr (_, proceed waiting waited e (pass (v.counted ∙ busy-stopped s.workers a)) refl)
stop_moves s parked e v d u a = absurd (v.occupied e (v.counted ∙ busy-stopped s.workers a))
stop_moves s released e v d u a =
    inr (_, proceed released waited e (wake (v.counted ∙ busy-stopped s.workers a)) refl)
stop_moves s waited e v d u a = inr (_, proceed waited closed e close refl)
stop_moves s closed e v d u a = inr (_, proceed closed returned e receive refl)
stop_moves s returned e v d u a = inl (e, a)
stop_moves s crashed e v d u a = absurd (u refl)

crashed-cases : (p : StopPc) → (p ≡ crashed) ⊎ (p ≢ crashed)
crashed-cases running = inr (λ e. ground arith)
crashed-cases waiting = inr (λ e. ground arith)
crashed-cases parked = inr (λ e. ground arith)
crashed-cases released = inr (λ e. ground arith)
crashed-cases waited = inr (λ e. ground arith)
crashed-cases closed = inr (λ e. ground arith)
crashed-cases returned = inr (λ e. ground arith)
crashed-cases crashed = inl refl

pool_moves :
    (s : System)
    → IsCounted s
    → s.shared.stop ≢ running
    → Finished s ⊎ (Crashed s ⊎ ((t : System) × Step s t))
pool_moves s v d = elim (crashed-cases s.shared.stop) [
  | inl c ↦ inr (inl c)
  | inr up ↦ elim (find_worker s.workers) [
    | inl a ↦ elim (stop_moves s s.shared.stop refl v d up a) [
      | inl f ↦ inl f
      | inr m ↦ inr (inr m)
    ]
    | inr (before, after, p, e, w) ↦ inr (inr (worker_moves s before after p v (v.called d) up e w))
  ]
]

Run-measure :
    {k : ℕ} {s t : System}
    → Run k s t
    → s.shared.cancelled ≡ true
    → s.shared.stop ≢ running
    → (k + measure t ≤ measure s) × (t.shared.stop ≢ running)
Run-measure none_left c d = (omega arith, d)
Run-measure (one_more m r) c d =
    let (less, c', d') = Step-measure m c d in
    let (rest, d'') = Run-measure r c' d' in (omega (arith, less, rest), d'')

pub Run-Reach : {n k : ℕ} {s t : System} → Reach n s → Run k s t → Reach n t
Run-Reach h none_left = h
Run-Reach h (one_more m r) = Run-Reach (later h m) r

stop_left-bound : (p : StopPc) → p ≢ running → stop_left p ≤ 5
stop_left-bound running d = absurd (d refl)
stop_left-bound waiting d = omega arith
stop_left-bound parked d = omega arith
stop_left-bound released d = omega arith
stop_left-bound waited d = omega arith
stop_left-bound closed d = omega arith
stop_left-bound returned d = omega arith
stop_left-bound crashed d = omega arith

-- From every state that `n` workers beside `Stop` reach once `Stop` was called, at most 3 * n + 5
-- steps follow, in any interleaving; and where no step is left, either `Stop` has returned and
-- every worker has left its loop, or a method of the wait group has panicked.
pub shutdown_ends :
    {n k : ℕ} {s t : System}
    → Reach n s
    → s.shared.stop ≢ running
    → Run k s t
    → (k ≤ 3 * n + 5) × (Finished t ⊎ (Crashed t ⊎ ((u : System) × Step t u)))
shutdown_ends {n} {k} {s} {t} h d r =
    let v = Reach-IsCounted h in
    let (bound, d') = Run-measure r (v.called d) d in
    (
      omega
          (arith, bound, sum_left-bound s.workers, Reach-length h, stop_left-bound s.shared.stop d),
      pool_moves t (Reach-IsCounted (Run-Reach h r)) d',
    )
