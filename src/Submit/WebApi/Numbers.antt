-- ===== src/Submit/WebApi/Numbers.antt =====
-- `parsePositiveInt` of mem_load_handler.go, with what it uses of `strconv.Atoi`.
use shortcut.Prelude.{
  ℕ, zero, suc, ◌+◌, ◌-◌, ◌*◌, ◌^◌, Bytes, Bool, [], ◌∷◌, Option, none, some, ℤ, pos, negsuc, leb,
  ◌==◌, ◌&&◌, if◌then◌else◌,
}

abbrev pub is_digit : ℕ → Bool
is_digit c = leb b'0' c && leb c b'9'

-- The value of a row of digits, with none for another byte.
unfoldable pub magnitude : ℕ → Bytes → Option ℕ
magnitude n [] = some n
magnitude n (c ∷ s) =
    let rest = magnitude (n * 10 + (c - b'0')) s in if is_digit c then rest else none

-- A sign wants a digit behind it.
unfoldable pub unsigned : Bytes → Option ℕ
unfolding magnitude
unsigned [] = none
unsigned (c ∷ s) = magnitude 0 (c ∷ s)

abbrev pub max_int : ℕ
max_int = 2 ^ 63 - 1

abbrev pub negated : ℕ → ℤ
negated zero = pos 0
negated (suc n) = negsuc n

abbrev pub positive : Option ℕ → Option ℤ
positive none = none
positive (some n) = if leb n max_int then some (pos n) else none

abbrev pub negative : Option ℕ → Option ℤ
negative none = none
negative (some n) = if leb n (max_int + 1) then some (negated n) else none

-- `strconv.Atoi` on a 64-bit machine; none is an error of syntax or of range.
unfoldable pub atoi : Bytes → Option ℤ
unfolding unsigned
atoi [] = none
atoi (c ∷ s) =
    if c == b'-'
    then negative (unsigned s)
    else if c == b'+'
    then positive (unsigned s)
    else positive (unsigned (c ∷ s))

abbrev pub above_zero : Option ℤ → Option ℕ
above_zero none = none
above_zero (some (pos zero)) = none
above_zero (some (pos (suc n))) = some (suc n)
above_zero (some (negsuc _)) = none

-- none is the error "value must be a positive integer".
unfoldable pub parse_positive_int : Bytes → ℕ → Option ℕ
unfolding atoi
parse_positive_int [] fallback = some fallback
parse_positive_int (c ∷ s) fallback = above_zero (atoi (c ∷ s))
