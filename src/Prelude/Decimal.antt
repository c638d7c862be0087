-- ===== src/Prelude/Decimal.antt =====
-- `strconv.Itoa` of a number that is not negative, which `fmt` prints for `%d` too.
use Prim.Native.Nat.{ℕ, zero, suc, ◌+◌, ◌/◌, ◌%◌, ◌<◌}
use mathlib.Core.Path.{◌≡◌, refl}
use mathlib.Core.List.{[], ◌∷◌}
use mathlib.Core.Logic.{inl, inr}
use native.Mathlib.Omega.{arith}
use shortcut.Prelude.Tests.{ltb, if◌then◌else◌, Bool-cases}
use shortcut.Prelude.Lists.{All}
use shortcut.Prelude.Text.{Bytes, codes}

-- One digit a round. The fuel bounds the number of digits.
unfoldable pub digits : ℕ → ℕ → Bytes → Bytes
digits zero n out = out
digits (suc f) n out =
    let rest = digits f (n / 10) ((b'0' + n % 10) ∷ out) in
    if ltb n 10 then (b'0' + n) ∷ out else rest

-- A number has no more digits than its value and one.
unfoldable pub itoa : ℕ → Bytes
unfolding digits
itoa n = digits (suc n) n []

itoa_status : itoa 503 ≡ codes "503"
unfolding itoa
itoa_status = refl

abbrev pub IsDigit : ℕ → Type 0
IsDigit c = (b'0' < suc c) × (c < b'9' + 1)

digits-All :
    (P : ℕ → Type 0)
    → ((c : ℕ) → IsDigit c → P c)
    → (f n : ℕ) (out : Bytes) → All P out
    → All P (digits f n out)
unfolding digits
digits-All P p zero n out h = h
digits-All P p (suc f) n out h = elim (Bool-cases (ltb n 10)) [
  | inl last ↦ let q : n < 10 = ground arith in rw last (p (b'0' + n) (omega arith), h)
  | inr more ↦
      rw more
        (digits-All P p f (n / 10) ((b'0' + n % 10) ∷ out) (p (b'0' + n % 10) (omega arith), h))
]

-- Whatever holds of the ten digits holds of every byte of a printed number.
pub itoa-All : (P : ℕ → Type 0) → ((c : ℕ) → IsDigit c → P c) → (n : ℕ) → All P (itoa n)
unfolding itoa
itoa-All P p n = digits-All P p (suc n) n [] tt
