-- ===== src/Process/Daemon/Pool/Waiting.antt =====
-- What the wait of `Stop` guarantees, and what it does not.
use shortcut.Prelude.{
  ℕ, zero, suc, ◌+◌, List, [], ◌∷◌, ◌++◌, ◌≡◌, ◌≢◌, refl, sym, ◌∙◌, ap, arith, true, All,
}
use shortcut.Process.Daemon.Pool.{
  Pc, testing, reading, handling, stopped, running, waiting, returned, Shared, System, Move, enter,
  leave, read_nothing, begin, misuse, finish, Step, work, cancel, proceed, Advance, pass, park,
  wake, reused, close, receive, parked, released, waited, closed, crashed, StopPc, after_done,
  launched, init, Reach, start, later, weight, busy,
}

busy-append : (ps qs : List Pc) → busy (ps ++ qs) ≡ busy ps + busy qs
unfolding busy
busy-append [] qs = omega arith
busy-append (p ∷ ps) qs = omega (arith, busy-append ps qs)

pub busy-middle :
    (ps qs : List Pc) (p : Pc) → busy (ps ++ (p ∷ qs)) ≡ busy ps + (weight p + busy qs)
unfolding busy
busy-middle ps qs p = busy-append ps (p ∷ qs) ∙ ap (λ (n : ℕ). busy ps + n) cons_lem
  where
    cons_lem : busy (p ∷ qs) ≡ weight p + busy qs
    cons_lem = refl

busy-launched : (n : ℕ) → busy (launched n) ≡ 0
unfolding busy launched
busy-launched zero = refl
busy-launched (suc n) = omega (arith, busy-launched n)

-- The wait group counts the workers in `handleTask`, the context is cancelled exactly once `Stop`
-- was called, and a `Wait` is parked only while a task is in work.
pub record IsCounted (s : System) : Type 0 where
  pub counted : s.shared.wait_group ≡ busy s.workers
  pub called : s.shared.stop ≢ running → s.shared.cancelled ≡ true
  pub uncalled : s.shared.cancelled ≡ true → s.shared.stop ≢ running
  pub occupied : s.shared.stop ≡ parked → s.shared.wait_group ≢ 0

after_done-running : (n : ℕ) (p : StopPc) → after_done n p ≡ running → p ≡ running
after_done-running (suc n) p e = e
after_done-running zero running e = refl
after_done-running zero parked e = ground arith
after_done-running zero waiting e = e
after_done-running zero released e = e
after_done-running zero waited e = e
after_done-running zero closed e = e
after_done-running zero returned e = e
after_done-running zero crashed e = e

after_done-not_running : (n : ℕ) (p : StopPc) → p ≡ running → after_done n p ≡ running
after_done-not_running n p e = rw e (at_running n)
  where
    at_running : (n : ℕ) → after_done n running ≡ running
    at_running zero = refl
    at_running (suc n) = refl

after_done-parked : (n : ℕ) (p : StopPc) → after_done n p ≡ parked → n ≢ 0
after_done-parked (suc n) p e z = ground arith
after_done-parked zero running e z = ground arith
after_done-parked zero parked e z = ground arith
after_done-parked zero waiting e z = ground arith
after_done-parked zero released e z = ground arith
after_done-parked zero waited e z = ground arith
after_done-parked zero closed e z = ground arith
after_done-parked zero returned e z = ground arith
after_done-parked zero crashed e z = ground arith

Move-weight :
    {s t : Shared} {p q : Pc} → Move s t p q → t.wait_group + weight p ≡ s.wait_group + weight q
Move-weight (enter c e) = ground arith
Move-weight (leave c e) = ground arith
Move-weight (read_nothing e) = ground arith
Move-weight (begin e) = ground arith
Move-weight (misuse r z e) = ground arith
Move-weight (finish n z e) = ground arith

-- A worker neither cancels nor calls `Stop`, and a `Wait` stays parked only while a task is in work.
pub record IsQuiet (s t : Shared) : Type 0 where
  pub same_cancelled : t.cancelled ≡ s.cancelled
  pub was_running : t.stop ≡ running → s.stop ≡ running
  pub is_running : s.stop ≡ running → t.stop ≡ running
  pub still_occupied : (s.stop ≡ parked → s.wait_group ≢ 0) → t.stop ≡ parked → t.wait_group ≢ 0

same-IsQuiet : {s t : Shared} → t ≡ s → IsQuiet s t
same-IsQuiet e = record {
  same_cancelled = ap (λ (x : Shared). x.cancelled) e;
  was_running = λ r. sym (ap (λ (x : Shared). x.stop) e) ∙ r;
  is_running = λ r. ap (λ (x : Shared). x.stop) e ∙ r;
  still_occupied = λ o r z.
      o (sym (ap (λ (x : Shared). x.stop) e) ∙ r) (sym (ap (λ (x : Shared). x.wait_group) e) ∙ z);
}

pub Move-IsQuiet : {s t : Shared} {p q : Pc} → Move s t p q → IsQuiet s t
Move-IsQuiet (enter c e) = same-IsQuiet e
Move-IsQuiet (leave c e) = same-IsQuiet e
Move-IsQuiet (read_nothing e) = same-IsQuiet e
Move-IsQuiet {s} {t} (begin e) = record {
  same_cancelled = ap (λ (x : Shared). x.cancelled) e;
  was_running = λ r. sym (ap (λ (x : Shared). x.stop) e) ∙ r;
  is_running = λ r. ap (λ (x : Shared). x.stop) e ∙ r;
  still_occupied = λ o r z. ground (arith, ap (λ (x : Shared). x.wait_group) e);
}
Move-IsQuiet {s} {t} (misuse r z e) =
    let now : t.stop ≡ crashed = ap (λ (x : Shared). x.stop) e in
    record {
      same_cancelled = ap (λ (x : Shared). x.cancelled) e;
      was_running = λ h. ground (arith, now);
      is_running = λ h. ground (arith, r);
      still_occupied = λ o h. ground (arith, now);
    }
Move-IsQuiet {s} {t} (finish n z e) =
    let now : t.stop ≡ after_done n s.stop = ap (λ (x : Shared). x.stop) e in
    record {
      same_cancelled = ap (λ (x : Shared). x.cancelled) e;
      was_running = λ h. after_done-running n s.stop (sym now ∙ h);
      is_running = λ h. now ∙ after_done-not_running n s.stop h;
      still_occupied = λ o h g.
          after_done-parked n s.stop (sym now ∙ h) (sym (ap (λ (x : Shared). x.wait_group) e) ∙ g);
    }

-- `Stop` goes on from a call of it, and parks only while a task is in work.
pub Advance-called : {s : Shared} {p q : StopPc} → Advance s p q → (p ≢ running) × (q ≢ running)
Advance-called (pass z) = (λ e. ground arith, λ e. ground arith)
Advance-called (park z) = (λ e. ground arith, λ e. ground arith)
Advance-called (wake z) = (λ e. ground arith, λ e. ground arith)
Advance-called (reused z) = (λ e. ground arith, λ e. ground arith)
Advance-called close = (λ e. ground arith, λ e. ground arith)
Advance-called receive = (λ e. ground arith, λ e. ground arith)

Advance-occupied : {s : Shared} {p q : StopPc} → Advance s p q → q ≡ parked → s.wait_group ≢ 0
Advance-occupied (pass z) e = ground arith
Advance-occupied (park z) e = z
Advance-occupied (wake z) e = ground arith
Advance-occupied (reused z) e = ground arith
Advance-occupied close e = ground arith
Advance-occupied receive e = ground arith

Step-IsCounted : {s t : System} → Step s t → IsCounted s → IsCounted t
Step-IsCounted {s} {t} (work before after p q up e m f) v =
    let w = Move-weight m in
    let k = Move-IsQuiet m in
    record {
      counted = omega (
        arith,
        w,
        v.counted,
        ap busy e,
        ap busy f,
        busy-middle before after p,
        busy-middle before after q,
      );
      called = λ h. k.same_cancelled ∙ v.called (λ g. h (k.is_running g));
      uncalled = λ c g. v.uncalled (sym k.same_cancelled ∙ c) (k.was_running g);
      occupied = k.still_occupied v.occupied;
    }
Step-IsCounted {s} {t} (cancel r e) v = record {
  counted = omega (
    arith,
    v.counted,
    ap (λ (x : System). x.shared.wait_group) e,
    ap (λ (x : System). busy x.workers) e,
  );
  called = λ _. ap (λ (x : System). x.shared.cancelled) e;
  uncalled = λ _ g. ground arith;
  occupied = λ g. ground arith;
}
Step-IsCounted {s} {t} (proceed p q a m e) v =
    let now : t.shared.stop ≡ q = ap (λ (x : System). x.shared.stop) e in
    let (was, is) = Advance-called m in
    record {
      counted = omega (
        arith,
        v.counted,
        ap (λ (x : System). x.shared.wait_group) e,
        ap (λ (x : System). busy x.workers) e,
      );
      called = λ _. ap (λ (x : System). x.shared.cancelled) e ∙ v.called (λ g. was (sym a ∙ g));
      uncalled = λ c g. is (sym now ∙ g);
      occupied = λ g z.
          Advance-occupied m (sym now ∙ g) (sym (ap (λ (x : System). x.shared.wait_group) e) ∙ z);
    }

pub Reach-IsCounted : {n : ℕ} {s : System} → Reach n s → IsCounted s
Reach-IsCounted {n} start = record {
  counted = sym (busy-launched n);
  called = λ h. ground arith;
  uncalled = λ c g. ground arith;
  occupied = λ g. ground arith;
}
Reach-IsCounted (later r m) = Step-IsCounted m (Reach-IsCounted r)

none_handling : (ps : List Pc) → busy ps ≡ 0 → All (λ (p : Pc). p ≢ handling) ps
unfolding busy
none_handling [] h = tt
none_handling (handling ∷ ps) h = ground arith
none_handling (testing ∷ ps) h = (λ e. ground arith, none_handling ps (omega (arith, h)))
none_handling (reading ∷ ps) h = (λ e. ground arith, none_handling ps (omega (arith, h)))
none_handling (stopped ∷ ps) h = (λ e. ground arith, none_handling ps (omega (arith, h)))

-- What `Wait` finds when it returns.
Advance-waited : {s : Shared} {p q : StopPc} → Advance s p q → q ≡ waited → s.wait_group ≡ 0
Advance-waited (pass z) e = z
Advance-waited (park z) e = ground arith
Advance-waited (wake z) e = z
Advance-waited (reused z) e = ground arith
Advance-waited close e = ground arith
Advance-waited receive e = ground arith

after_done-waited : (n : ℕ) (p : StopPc) → after_done n p ≡ waited → p ≡ waited
after_done-waited (suc n) p e = e
after_done-waited zero running e = e
after_done-waited zero parked e = ground arith
after_done-waited zero waiting e = e
after_done-waited zero released e = e
after_done-waited zero waited e = refl
after_done-waited zero closed e = e
after_done-waited zero returned e = e
after_done-waited zero crashed e = e

-- No worker brings `Wait` to its return.
Move-waited : {s t : Shared} {p q : Pc} → Move s t p q → t.stop ≡ waited → s.stop ≡ waited
Move-waited (enter c e) h = sym (ap (λ (x : Shared). x.stop) e) ∙ h
Move-waited (leave c e) h = sym (ap (λ (x : Shared). x.stop) e) ∙ h
Move-waited (read_nothing e) h = sym (ap (λ (x : Shared). x.stop) e) ∙ h
Move-waited (begin e) h = sym (ap (λ (x : Shared). x.stop) e) ∙ h
Move-waited {s} {t} (misuse r z e) h =
    let now : t.stop ≡ crashed = ap (λ (x : Shared). x.stop) e in ground (arith, now)
Move-waited {s} (finish n z e) h =
    after_done-waited n s.stop (sym (ap (λ (x : Shared). x.stop) e) ∙ h)

-- In every state that the pool reaches, a step in which `Wg.Wait()` returns leaves no worker inside
-- `handleTask`.
pub wait_returns_when_idle :
    {n : ℕ} {s t : System}
    → Reach n s
    → Step s t
    → s.shared.stop ≢ waited
    → t.shared.stop ≡ waited
    → All (λ (p : Pc). p ≢ handling) t.workers
wait_returns_when_idle r (work before after p q up e m f) w d = absurd (w (Move-waited m d))
wait_returns_when_idle r (cancel u e) w d = ground arith
wait_returns_when_idle {n} {s} {t} r (proceed p q a m e) w d = none_handling t.workers (
    ap (λ (x : System). busy x.workers) e
    ∙ sym (Reach-IsCounted r).counted
    ∙ Advance-waited m (sym (ap (λ (x : System). x.shared.stop) e) ∙ d))

-- Whatever the number of workers, from one on, the pool reaches a state in which `Stop` has
-- returned and a worker is inside `handleTask`: `Wg.Add(1)` is called by the handler, after the
-- read.
pub stop_returns_before_a_task :
    (n : ℕ)
    → (s : System) × Reach (suc n) s
      × (s.shared.stop ≡ returned)
      × (s.workers ≡ handling ∷ launched n)
unfolding launched
stop_returns_before_a_task n =
    let reading_one : Reach (suc n)
        (record { shared = (init n).shared; workers = reading ∷ launched n }) =
      later start
        (work [] (launched n) testing reading (λ e. ground arith) refl (enter refl refl) refl) in
    (
      _,
      later
          (later
            (later
              (later (later reading_one (cancel refl refl))
                (proceed waiting waited refl (pass refl) refl))
              (proceed waited closed refl close refl))
            (proceed closed returned refl receive refl))
          (work [] (launched n) reading handling (λ e. ground arith) refl (begin refl) refl),
      refl,
      refl,
    )

-- Whatever the number of workers, from two on, the pool reaches a state in which the wait group has
-- panicked: `Wait` was given the sign by the last `Done`, and before it returns another worker that
-- was reading calls `Wg.Add(1)`.
pub stop_may_panic : (n : ℕ) → (s : System) × Reach (suc (suc n)) s × (s.shared.stop ≡ crashed)
unfolding launched
stop_may_panic n =
    let others = launched n in
    let both : Reach (suc (suc n))
        (record { shared = (init n).shared; workers = reading ∷ reading ∷ others }) =
      later
        (later start (
          work [] (testing ∷ others) testing reading (λ e. ground arith) refl (enter refl refl)
            refl))
        (work (reading ∷ []) others testing reading (λ e. ground arith) refl (enter refl refl)
          refl) in
    let one_in : Reach (suc (suc n)) (record {
      shared = record (init n).shared { wait_group = 1 };
      workers = handling ∷ reading ∷ others;
    }) =
      later both
        (work [] (reading ∷ others) reading handling (λ e. ground arith) refl (begin refl) refl) in
    (
      _,
      later
          (later
            (later
              (later (later one_in (cancel refl refl))
                (proceed waiting parked refl (park (λ e. ground arith)) refl))
              (work [] (reading ∷ others) handling testing (λ e. ground arith) refl
                (finish 0 refl refl) refl))
            (work (testing ∷ []) others reading handling (λ e. ground arith) refl (begin refl)
              refl))
          (proceed released crashed refl (reused (λ e. ground arith)) refl),
      refl,
    )
