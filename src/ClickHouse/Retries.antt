-- ===== src/ClickHouse/Retries.antt =====
-- What the retries of logs_repo.go guarantee.
use shortcut.Prelude.{
  ℕ, zero, suc, ◌+◌, ◌-◌, ◌<◌, String, List, ◌∷◌, Option, none, some, ◌≡◌, ◌≢◌, refl, arith, ◌⊎◌,
  Option-cases, inl, inr, ◌==◌, pos, rounds, false, Bytes,
}
use shortcut.Runtime.{Call, Env, Error, World, Outcome, ok, err, Field}
use shortcut.ClickHouse.Writer.{
  Client, LogRequest, insertion, attempts, insert_into, post_logs_or_metrics_with_retries,
}

module _ (env : Env) (sql : String) (req : LogRequest) where
  -- The calls made once `k` attempts have failed, each followed by a pause.
  abbrev pub failed_rounds : ℕ → List Call → List Call
  failed_rounds zero h = h
  failed_rounds (suc k) h = failed_rounds k (Call.sleep 500 ∷ insertion sql req ∷ h)

  -- The answer to the attempt after `k` failures.
  abbrev pub answer : ℕ → List Call → Option Error
  answer k h = env.exec_reply (insertion sql req ∷ failed_rounds k h)

  -- The first `k` attempts failed.
  abbrev pub Fail : ℕ → List Call → Type 0
  Fail k h = (j : ℕ) → j < k → answer j h ≢ none

  none_before : (w : World) → Fail 0 w.history
  none_before w j p = absurd (omega arith)

  abbrev pub Ends : ℕ → World → Outcome (Unit {0}) × World → Type 0
  Ends n w (r, w') =
      ((k : ℕ) × (k < n)
        × Fail k w.history
        × (answer k w.history ≡ none)
        × (r ≡ ok tt)
        × (w' ≡ record w { history = insertion sql req ∷ failed_rounds k w.history }))
      ⊎ ((k : ℕ) × (e : Error) × (suc k ≡ n)
          × Fail k w.history
          × (answer k w.history ≡ some e)
          × (r ≡ err e)
          × (w' ≡ record w { history = insertion sql req ∷ failed_rounds k w.history }))

  Fail-suc :
      (k : ℕ) (e : Error) (h : List Call)
      → env.exec_reply (insertion sql req ∷ h) ≡ some e
      → Fail k (Call.sleep 500 ∷ insertion sql req ∷ h)
      → Fail (suc k) h
  Fail-suc k e h first later zero j = λ p. cc
  Fail-suc k e h first later (suc i) j = later i (omega arith)

  retried :
      (n : ℕ) (e : Error) (w : World) (p : Outcome (Unit {0}) × World)
      → env.exec_reply (insertion sql req ∷ w.history) ≡ some e
      → Ends n (record w { history = Call.sleep 500 ∷ insertion sql req ∷ w.history }) p
      → Ends (suc n) w p
  retried n e w p first (inl (k, lt, fails, good, r, s)) =
      inl (suc k, omega arith, Fail-suc k e w.history first fails, good, r, s)
  retried n e w p first (inr (k, e', eq, fails, bad, r, s)) =
      inr (suc k, e', omega arith, Fail-suc k e w.history first fails, bad, r, s)

  attempts-good :
      (left i : ℕ) (w : World)
      → env.exec_reply (insertion sql req ∷ w.history) ≡ none
      → attempts env (suc left) i sql req w
        ≡ (ok tt, record w { history = insertion sql req ∷ w.history })
  unfolding attempts
  attempts-good left i w e = rw e refl

  attempts-last :
      (i : ℕ) (w : World) (x : Error)
      → env.exec_reply (insertion sql req ∷ w.history) ≡ some x
      → attempts env 1 i sql req w ≡ (err x, record w { history = insertion sql req ∷ w.history })
  unfolding attempts
  attempts-last i w x e = ground arith

  attempts-again :
      (left i : ℕ) (w : World) (x : Error)
      → env.exec_reply (insertion sql req ∷ w.history) ≡ some x
      → attempts env (suc (suc left)) i sql req w
        ≡ attempts env
            (suc left)
            (i + 1)
            sql
            req
            (record w { history = Call.sleep 500 ∷ insertion sql req ∷ w.history })
  unfolding attempts
  attempts-again left i w x e =
      let more : (i == (i + suc (suc left)) - 1) ≡ false = ground arith in rw (e, more) refl

  -- The loop over at least one round stops at the first attempt that succeeds and returns nil, with
  -- no call after it; if all rounds fail, it returns the error of the last one. Between two
  -- attempts it pauses once, and it makes no other call and changes nothing else.
  pub attempts-Ends :
      (left i : ℕ) (w : World) → 0 < left → Ends left w (attempts env left i sql req w)
  attempts-Ends zero i w h = absurd (omega arith)
  attempts-Ends (suc zero) i w h =
      elim (Option-cases (env.exec_reply (insertion sql req ∷ w.history))) [
        | inl e ↦ rw (attempts-good 0 i w e) (inl (0, omega arith, none_before w, e, refl, refl))
        | inr (x, e) ↦ rw (attempts-last i w x e) (inr (0, x, refl, none_before w, e, refl, refl))
      ]
  attempts-Ends (suc (suc left)) i w h =
      elim (Option-cases (env.exec_reply (insertion sql req ∷ w.history))) [
        | inl e ↦
            rw (attempts-good (suc left) i w e) (inl (0, omega arith, none_before w, e, refl, refl))
        | inr (x, e) ↦ rw (attempts-again left i w x e) (
            retried (suc left) x w _ e (
              attempts-Ends (suc left) (i + 1)
                (record w { history = Call.sleep 500 ∷ insertion sql req ∷ w.history })
                (omega arith)))
      ]

module _ (env : Env) (c : Client) (table : String) (entry : List (String × Field)) where
  abbrev request : Bytes → World → LogRequest
  request b w = record { ts = env.now w.history; val = b }

  -- Writing an entry that JSON can print, with a positive number of retries, comes to an end: it
  -- returns nil at the first attempt that succeeds, with no call after it, and if all attempts fail
  -- the error of the last one. Between two attempts it pauses once, and it makes no other call.
  pub post_with_retries-Ends :
      (n : ℕ) (b : Bytes) (w : World)
      → c.conf.num_retries ≡ pos n
      → 0 < n
      → env.marshal entry ≡ inr b
      → Ends env
          (insert_into table)
          (request b w)
          n
          w
          (post_logs_or_metrics_with_retries env c table entry w)
  unfolding post_logs_or_metrics_with_retries
  post_with_retries-Ends n b w e h m =
      rw (e, m) (attempts-Ends env (insert_into table) (request b w) n 0 w h)

  -- With no positive number of retries an entry that JSON can print is dropped: nil is returned
  -- without a call.
  pub post_without_retries :
      (b : Bytes) (w : World)
      → rounds c.conf.num_retries ≡ 0
      → env.marshal entry ≡ inr b
      → post_logs_or_metrics_with_retries env c table entry w ≡ (ok tt, w)
  unfolding post_logs_or_metrics_with_retries attempts
  post_without_retries b w e m = rw (e, m) refl
