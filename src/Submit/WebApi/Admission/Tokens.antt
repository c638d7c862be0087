-- ===== src/Submit/WebApi/Admission/Tokens.antt =====
-- The tokens of the submissions side by side.
use shortcut.Prelude.{
  ℕ, zero, suc, ◌+◌, ◌≤◌, Bytes, List, [], ◌∷◌, ◌++◌, ◌≡◌, ◌≢◌, refl, sym, ◌∙◌, ap, arith,
}
use shortcut.Submit.WebApi.Tasks.{max_tasks}
use shortcut.Submit.WebApi.Admission.{
  Pc, arrived, choosing, storing, refused, answered, Shared, Submission, System, Move, turn_away,
  pass, take, keep, full, give, Step, serve, arrive, shut, Reach, start, later,
}

-- Is a request here in `startTaskProcessing`? Was it refused with a token in its hand?
abbrev stores : Pc → ℕ
stores storing = 1
stores arrived = 0
stores choosing = 0
stores refused = 0
stores answered = 0

abbrev lost : Pc → ℕ
lost refused = 1
lost arrived = 0
lost choosing = 0
lost storing = 0
lost answered = 0

-- The sum of a number that each request has.
pub total : (Pc → ℕ) → List Submission → ℕ
total f [] = 0
total f (r ∷ rs) = f r.pc + total f rs

-- The requests that store, and those that keep a token for ever.
abbrev pub in_work : List Submission → ℕ
in_work rs = total stores rs

abbrev pub leaked : List Submission → ℕ
leaked rs = total lost rs

total-append : (f : Pc → ℕ) (rs qs : List Submission) → total f (rs ++ qs) ≡ total f rs + total f qs
unfolding total
total-append f [] qs = omega arith
total-append f (r ∷ rs) qs = omega (arith, total-append f rs qs)

abbrev pub at_pc : Bytes → Pc → Submission
at_pc payload p = record { payload = payload; pc = p }

total-middle :
    (f : Pc → ℕ) (rs qs : List Submission) (payload : Bytes) (p : Pc)
    → total f (rs ++ (at_pc payload p ∷ qs)) ≡ total f rs + (f p + total f qs)
unfolding total
total-middle f rs qs payload p =
    total-append f rs (at_pc payload p ∷ qs) ∙ ap (λ (n : ℕ). total f rs + n) cons_lem
  where
    cons_lem : total f (at_pc payload p ∷ qs) ≡ f p + total f qs
    cons_lem = refl

-- The tokens taken are those of the requests that store and of those that were refused.
pub record IsCounted (s : System) : Type 0 where
  pub counted : s.shared.sem ≡ in_work s.requests + leaked s.requests
  pub bounded : s.shared.sem ≤ max_tasks

Move-tokens :
    {payload : Bytes} {s t : Shared} {p q : Pc}
    → Move payload s t p q
    → s.sem ≤ max_tasks
    → (t.sem + (stores p + lost p) ≡ s.sem + (stores q + lost q)) × (t.sem ≤ max_tasks)
Move-tokens (turn_away d e) b = ground arith
Move-tokens (pass d e) b = ground arith
Move-tokens (take r n e) b = ground arith
Move-tokens (keep r n e) b = ground arith
Move-tokens (full r e) b = ground arith
Move-tokens (give n z e) b = ground arith

Step-IsCounted : {s t : System} → Step s t → IsCounted s → IsCounted t
unfolding total
Step-IsCounted {s} {t} (serve before after payload p q e m f) v =
    let (w, b) = Move-tokens m v.bounded in
    record {
      counted = omega (
        arith,
        w,
        v.counted,
        ap (total stores) e,
        ap (total lost) e,
        ap (total stores) f,
        ap (total lost) f,
        total-middle stores before after payload p,
        total-middle stores before after payload q,
        total-middle lost before after payload p,
        total-middle lost before after payload q,
      );
      bounded = b;
    }
Step-IsCounted {s} {t} (arrive payload e) v = record {
  counted = omega (
    arith,
    v.counted,
    ap (λ (x : System). x.shared.sem) e,
    ap (λ (x : System). in_work x.requests) e,
    ap (λ (x : System). leaked x.requests) e,
  );
  bounded = omega (arith, v.bounded, ap (λ (x : System). x.shared.sem) e);
}
Step-IsCounted {s} {t} (shut e) v = record {
  counted = omega (
    arith,
    v.counted,
    ap (λ (x : System). x.shared.sem) e,
    ap (λ (x : System). in_work x.requests) e,
    ap (λ (x : System). leaked x.requests) e,
  );
  bounded = omega (arith, v.bounded, ap (λ (x : System). x.shared.sem) e);
}

Reach-IsCounted : {s : System} → Reach s → IsCounted s
unfolding total
Reach-IsCounted start = record { counted = refl; bounded = omega arith }
Reach-IsCounted (later r m) = Step-IsCounted m (Reach-IsCounted r)

-- In every state that submissions side by side reach, the requests that store a task and those that
-- were refused for an empty payload together have the tokens taken, which are never more than the
-- channel holds: with `l` refused, at most 100 - `l` submissions are in work at once.
pub submissions_bounded :
    {s : System}
    → Reach s
    → (in_work s.requests + leaked s.requests ≡ s.shared.sem) × (s.shared.sem ≤ max_tasks)
submissions_bounded r = let v = Reach-IsCounted r in (sym v.counted, v.bounded)

-- In every such state a request that has stored its task can give its token back at once: the
-- deferred receive of `startTaskProcessing` never waits.
pub release_never_waits :
    {s : System} (before after : List Submission) (payload : Bytes)
    → Reach s
    → s.requests ≡ before ++ (at_pc payload storing ∷ after)
    → (t : System) × Step s t
      × (t.shared.sem + 1 ≡ s.shared.sem)
      × (t.requests ≡ before ++ (at_pc payload answered ∷ after))
release_never_waits {s} before after payload r e = give_back s.shared.sem refl
  where
    some_taken : s.shared.sem ≢ 0
    some_taken z = omega (
      arith,
      z,
      (Reach-IsCounted r).counted,
      ap in_work e,
      total-middle stores before after payload storing,
    )

    give_back :
        (n : ℕ)
        → s.shared.sem ≡ n
        → (t : System) × Step s t
          × (t.shared.sem + 1 ≡ s.shared.sem)
          × (t.requests ≡ before ++ (at_pc payload answered ∷ after))
    give_back zero z = absurd (some_taken z)
    give_back (suc n) z = (
      record {
        shared = record s.shared { sem = n };
        requests = before ++ (at_pc payload answered ∷ after);
      },
      serve before after payload storing answered e (give n z refl) refl,
      omega (arith, z),
      refl,
    )
