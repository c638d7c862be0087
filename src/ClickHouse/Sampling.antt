-- ===== src/ClickHouse/Sampling.antt =====
-- The goroutine of `Service.Start`, and the channel of its errors.
use shortcut.Prelude.{
  ℕ, zero, suc, ◌+◌, ◌-◌, ◌≤◌, String, List, [], ◌∷◌, ◌≡◌, ◌⊎◌, refl, ap, arith, Option-cases,
  Bool-cases, Bytes, inl, inr, ltb, length, length-append, Bool, true, false, ◌==◌, if◌then◌else◌,
}
use shortcut.Runtime.{
  Call, Env, Error, World, Exec, Outcome, ok, err, panic, blocked, Returns, Field, on_result,
  continue, try, pure, panics, ◌>>=◌,
}
use shortcut.Metrics.{get_metrics}
use shortcut.ClickHouse.Writer.{
  Client, LogRequest, insertion, attempts, post_logs_or_metrics_with_retries, write_metrics,
}
use shortcut.ClickHouse.Tables.{Service, send_err, on_tick, sample}

-- A method that returns, and sends nothing to the channel.
abbrev Modest : {A : Type 0} → Exec A → Type 0
Modest m = (w : World) → Returns (m w).0 × ((m w).1.err_ch ≡ w.err_ch)

-- How the goroutine may end: it returns, or it waits at a full channel.
abbrev pub EndsOrWaits : Outcome (Unit {0}) × World → Type 0
EndsOrWaits (r, w) = ((r ≡ ok tt) × (length w.err_ch ≤ 1)) ⊎ ((r ≡ blocked) × (length w.err_ch ≡ 1))

module _ (env : Env) where
  attempts-Modest :
      (left i : ℕ) (sql : String) (req : LogRequest) → Modest (attempts env left i sql req)
  unfolding attempts
  attempts-Modest zero i sql req w = (tt, refl)
  attempts-Modest (suc left) i sql req w =
      elim (Option-cases (env.exec_reply (insertion sql req ∷ w.history))) [
        | inl e ↦ rw e (tt, refl)
        | inr (x, e) ↦ elim (Bool-cases (i == (i + suc left) - 1)) [
          | inl last ↦ rw (e, last) (tt, refl)
          | inr more ↦
              rw (e, more)
                (attempts-Modest left (i + 1) sql req
                  (record w { history = Call.sleep 500 ∷ insertion sql req ∷ w.history }))
        ]
      ]

  write_metrics-Modest : (c : Client) (m : List (String × Field)) → Modest (write_metrics env c m)
  unfolding write_metrics post_logs_or_metrics_with_retries
  write_metrics-Modest c m w = by_json (env.marshal m) refl
    where
      by_json :
          (r : Error ⊎ Bytes)
          → env.marshal m ≡ r
          → Returns (write_metrics env c m w).0 × ((write_metrics env c m w).1.err_ch ≡ w.err_ch)
      by_json (inl x) e = rw e (tt, refl)
      by_json (inr b) e = rw e (attempts-Modest _ _ _ _ w)

  after_write :
      (r : Outcome (Unit {0})) (w : World)
      → Returns r
      → length w.err_ch ≤ 1
      → EndsOrWaits (on_result r (send_err env) pure w)
  unfolding send_err
  after_write (ok a) w h small = inl (refl, small)
  after_write (err e) w h small = elim (Bool-cases (ltb (length w.err_ch) 1)) [
    | inl room ↦ rw room (inl (refl, ground (arith, length-append w.err_ch (e ∷ []))))
    | inr none_left ↦ rw none_left (inr (refl, ground arith))
  ]
  after_write (panic m) w h small = absurd h
  after_write blocked w h small = absurd h

  -- A tick of a service with metrics writes what it reads.
  on_tick-writes :
      (s : Service) (w : World)
      → s.has_metrics ≡ true
      → (m : List (String × Field)) × (on_tick env s w
          ≡ try (write_metrics env s.client m) (send_err env) pure w)
  unfolding on_tick get_metrics
  on_tick-writes s w e = (
    _,
    ap
        (λ (b : Bool).
          (if b
              then ((if b
                    then get_metrics env
                    else panics "invalid memory address or nil pointer dereference")
                  >>= λ m. try (write_metrics env s.client m) (send_err env) pure)
              else pure tt)
            w)
        e,
  )

  on_tick-EndsOrWaits :
      (s : Service) (w : World) → length w.err_ch ≤ 1 → EndsOrWaits (on_tick env s w)
  unfolding on_tick
  on_tick-EndsOrWaits s w small = elim (Bool-cases s.has_metrics) [
    | inr without ↦ rw without (inl (refl, small))
    | inl with_metrics ↦
        let (m, writes) = on_tick-writes s w with_metrics in
        let (returns, same) = write_metrics-Modest s.client m w in
        let (r, w₁) = write_metrics env s.client m w in
        rw writes (after_write r w₁ returns (omega (arith, small, ap length same)))
  ]

  next_tick :
      (s : Service) (es : List Bool) (p : Outcome (Unit {0}) × World)
      → EndsOrWaits p
      → ((w : World) → length w.err_ch ≤ 1 → EndsOrWaits (sample env s es w))
      → EndsOrWaits (continue p.0 (λ _. sample env s es) p.1)
  next_tick s es (r, w) (inl (e, small)) go_on = rw e (go_on w small)
  next_tick s es (r, w) (inr (e, stuck)) go_on = rw e (inr (refl, stuck))

  -- The goroutine that samples the metrics never panics and never ends with an error, whatever
  -- ClickHouse answers: from a channel with at most one error on, it either goes through its ticks,
  -- and the channel holds at most one error, or waits for ever with the one error that nobody read.
  pub sample-EndsOrWaits :
      (s : Service) (es : List Bool) (w : World)
      → length w.err_ch ≤ 1
      → EndsOrWaits (sample env s es w)
  unfolding sample
  sample-EndsOrWaits s [] w small = inl (refl, small)
  sample-EndsOrWaits s (false ∷ es) w small = inl (refl, small)
  sample-EndsOrWaits s (true ∷ es) w small =
      next_tick s es (on_tick env s w) (on_tick-EndsOrWaits s w small) (sample-EndsOrWaits s es)
