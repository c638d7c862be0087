-- ===== src/ClickHouse/Keys.antt =====
-- The set of tasks that were not processed.

use shortcut.Prelude.{
  Bytes, bytes_eq, bytes_eq_refl, bytes_eq_sound, true, false, List, [], ◌∷◌, ◌++◌, ◌≡◌, inl, inr,
  refl, arith, ◌||◌, Bool-cases,
}
use shortcut.ClickHouse.Storage.{has_key, insert_key}

-- Every key stands once.
abbrev pub NoRepeats : List Bytes → Type 0
NoRepeats [] = Unit
NoRepeats (k ∷ ks) = (has_key k ks ≡ false) × NoRepeats ks

has_key-append :
    (id : Bytes) (s t : List Bytes) → has_key id (s ++ t) ≡ (has_key id s || has_key id t)
unfolding has_key
has_key-append id [] t = refl
has_key-append id (k ∷ s) t = ground (arith, has_key-append id s t)

bytes_eq_sym : (s t : Bytes) → bytes_eq s t ≡ bytes_eq t s
bytes_eq_sym s t = elim (Bool-cases (bytes_eq s t)) [
  | inl e ↦ let p = bytes_eq_sound s t e in rw p refl
  | inr n ↦ elim (Bool-cases (bytes_eq t s)) [
    | inl e ↦ let p = bytes_eq_sound t s e in rw p refl
    | inr m ↦ rw (n, m) refl
  ]
]

append-NoRepeats :
    (id : Bytes) (s : List Bytes) → NoRepeats s → has_key id s ≡ false → NoRepeats (s ++ id ∷ [])
unfolding has_key
append-NoRepeats id [] n h = (refl, tt)
append-NoRepeats id (k ∷ s) n h =
    ground (arith, has_key-append k s (id ∷ []), append-NoRepeats id s n.1, bytes_eq_sym k id)

-- Recording a task keeps every key once; afterwards the set has the task and the keys that it had,
-- and no other.
pub insert_key_lem :
    (id : Bytes) (s : List Bytes)
    → NoRepeats s
    → NoRepeats (insert_key id s)
      × ((j : Bytes) → has_key j (insert_key id s) ≡ (bytes_eq j id || has_key j s))
unfolding insert_key has_key
insert_key_lem id s n = elim (Bool-cases (has_key id s)) [
  | inl old ↦ rw old (n, λ j. has_old j old)
  | inr new ↦ rw new (append-NoRepeats id s n new, λ j. rw has_key-append (ground arith))
]
  where
    has_old : (j : Bytes) → has_key id s ≡ true → has_key j s ≡ (bytes_eq j id || has_key j s)
    has_old j old = elim (Bool-cases (bytes_eq j id)) [
      | inl e ↦ let p = bytes_eq_sound j id e in rw (p, old, bytes_eq_refl id) refl
      | inr e ↦ rw e refl
    ]
