-- ===== src/Submit/WebApi/Positive.antt =====
-- The numbers of the load handlers.
use shortcut.Prelude.{
  ℕ, zero, suc, ◌+◌, ◌-◌, ◌*◌, ◌/◌, ◌%◌, ◌<◌, ◌≤◌, Bytes, itoa, digits, true, false, [], ◌∷◌,
  Option, none, some, ◌≡◌, ◌≢◌, refl, ◌∙◌, ap, arith, Bool-cases, inl, inr, leb, ltb, ltb→lt, ◌==◌,
  All, IsDigit, itoa-All, pos,
}
use shortcut.Submit.WebApi.Numbers.{
  magnitude, unsigned, atoi, parse_positive_int, max_int, positive, negative, negated, above_zero,
}

positive_bounds :
    (o : Option ℕ) (n : ℕ) → above_zero (positive o) ≡ some n → (0 < n) × (n ≤ max_int)
positive_bounds none n h = cc
positive_bounds (some m) n h = elim (Bool-cases (leb m max_int)) [
  | inl fits ↦ inside m fits (rw fits at h)
  | inr out ↦ absurd (cc (rw out at h))
]
  where
    inside :
        (m : ℕ)
        → leb m max_int ≡ true
        → above_zero (some (pos m)) ≡ some n
        → (0 < n) × (n ≤ max_int)
    inside zero fits e = cc
    inside (suc k) fits e = ground arith

above_zero-negated : (m : ℕ) → above_zero (some (negated m)) ≡ none
above_zero-negated zero = refl
above_zero-negated (suc m) = refl

above_zero-negative : (o : Option ℕ) → above_zero (negative o) ≡ none
above_zero-negative none = refl
above_zero-negative (some m) = elim (Bool-cases (leb m (max_int + 1))) [
  | inl fits ↦ rw fits (above_zero-negated m)
  | inr out ↦ rw out refl
]

-- A number that is accepted is at least 1 and fits an `int`, if the fallback does.
pub parse_positive_int_bounds :
    (raw : Bytes) (fallback n : ℕ)
    → 0 < fallback
    → fallback ≤ max_int
    → parse_positive_int raw fallback ≡ some n
    → (0 < n) × (n ≤ max_int)
unfolding parse_positive_int atoi
parse_positive_int_bounds [] fallback n lo hi h = ground arith
parse_positive_int_bounds (c ∷ s) fallback n lo hi h = elim (Bool-cases (c == b'-')) [
  | inl minus ↦ absurd (cc (above_zero-negative (unsigned s), (rw (minus, atoi) at h)))
  | inr other ↦ elim (Bool-cases (c == b'+')) [
    | inl plus ↦ positive_bounds (unsigned s) n (rw (other, plus, atoi) at h)
    | inr digit ↦ positive_bounds (unsigned (c ∷ s)) n (rw (other, digit, atoi) at h)
  ]
]

magnitude-digit :
    (a d : ℕ) (out : Bytes) → d < 10 → magnitude a ((b'0' + d) ∷ out) ≡ magnitude (a * 10 + d) out
unfolding magnitude
magnitude-digit a d out h =
    let e : a * 10 + ((b'0' + d) - b'0') ≡ a * 10 + d = omega arith in
    ground (arith, ap (λ (x : ℕ). magnitude x out) e)

-- Reading the digits of a number gives the number, and goes on behind them.
magnitude-digits : (f n : ℕ) (out : Bytes) → n < f → magnitude 0 (digits f n out) ≡ magnitude n out
unfolding digits
magnitude-digits zero n out h = absurd (omega arith)
magnitude-digits (suc f) n out h = elim (Bool-cases (ltb n 10)) [
  | inl last ↦
      let small : n < 10 = ltb→lt n 10 last in
      rw (last, digits)
        (magnitude-digit 0 n out small ∙ ap (λ (x : ℕ). magnitude x out) (omega arith))
  | inr more ↦
      rw (more, digits)
        (magnitude-digits f (n / 10) ((b'0' + n % 10) ∷ out) (ground arith)
          ∙ magnitude-digit (n / 10) (n % 10) out (omega arith)
          ∙ ap (λ (x : ℕ). magnitude x out) (omega arith))
]

unsigned-magnitude : (t : Bytes) → t ≢ [] → unsigned t ≡ magnitude 0 t
unfolding unsigned
unsigned-magnitude [] h = absurd (h refl)
unsigned-magnitude (c ∷ s) h = refl

starts_with_digit :
    (t : Bytes) (n fallback : ℕ)
    → All IsDigit t
    → t ≢ []
    → unsigned t ≡ some (suc n)
    → suc n ≤ max_int
    → parse_positive_int t fallback ≡ some (suc n)
unfolding parse_positive_int atoi
starts_with_digit [] n fallback d ne e fits = absurd (ne refl)
starts_with_digit (c ∷ s) n fallback d ne e fits =
    let minus : (c == b'-') ≡ false = ground arith in
    let plus : (c == b'+') ≡ false = ground arith in
    let small : leb (suc n) max_int ≡ true = ground arith in
    rw (minus, plus) (ap (λ o. above_zero (positive o)) e ∙ rw small refl)

digits-ne-nil : (f n : ℕ) (out : Bytes) → out ≢ [] → digits f n out ≢ []
unfolding digits
digits-ne-nil zero n out h = h
digits-ne-nil (suc f) n out h =
    ground (arith, digits-ne-nil f (n / 10) ((b'0' + n % 10) ∷ out) (λ e. cc))

itoa-ne-nil : (n : ℕ) → itoa n ≢ []
unfolding itoa digits
itoa-ne-nil n = ground (arith, digits-ne-nil n (n / 10) ((b'0' + n % 10) ∷ []) (λ e. cc))

-- What `strconv.Itoa` prints of a positive `int` is read back, whatever the fallback.
pub parse_positive_int-itoa :
    (n fallback : ℕ) → 0 < n → n ≤ max_int → parse_positive_int (itoa n) fallback ≡ some n
unfolding itoa magnitude
parse_positive_int-itoa zero fallback lo hi = absurd (omega arith)
parse_positive_int-itoa (suc n) fallback lo hi =
    starts_with_digit (itoa (suc n)) n fallback (itoa-All IsDigit (λ c d. d) (suc n))
      (itoa-ne-nil (suc n)) (unsigned-magnitude (itoa (suc n)) (itoa-ne-nil (suc n)) ∙ value) hi
  where
    value : magnitude 0 (itoa (suc n)) ≡ some (suc n)
    value = magnitude-digits (suc (suc n)) (suc n) [] (omega arith)
