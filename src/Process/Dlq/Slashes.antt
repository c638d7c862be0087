-- ===== src/Process/Dlq/Slashes.antt =====
-- The names of the objects in the bucket.
use shortcut.Prelude.{
  ℕ, suc, ◌+◌, Bytes, codes, itoa, itoa-All, [], ◌∷◌, ◌++◌, map, length, All, ◌≡◌, ◌≢◌, refl, ap,
  arith, ◌==◌, if◌then◌else◌,
}
use shortcut.Process.Dlq.Names.{replace_byte, sanitize_object_name, object_name}

-- The slashes in a name.
unfoldable pub slashes : Bytes → ℕ
slashes [] = 0
slashes (c ∷ s) = let n = slashes s in if c == b'/' then suc n else n

slashes-append : (s t : Bytes) → slashes (s ++ t) ≡ slashes s + slashes t
unfolding slashes
slashes-append [] t = omega arith
slashes-append (c ∷ s) t = ground (arith, slashes-append s t)

slashes-lacking : (s : Bytes) → All (λ c. c ≢ b'/') s → slashes s ≡ 0
unfolding slashes
slashes-lacking [] h = refl
slashes-lacking (c ∷ s) h = ground (arith, slashes-lacking s h.1)

abbrev pub IsSafe : Bytes → Type 0
IsSafe = All (λ c. (c ≢ b'/') × (c ≢ b'\\') × (c ≢ b':') × (c ≢ b' '))

replace_byte-safe :
    (c : ℕ)
    → (replace_byte c ≢ b'/')
      × (replace_byte c ≢ b'\\')
      × (replace_byte c ≢ b':')
      × (replace_byte c ≢ b' ')
unfolding replace_byte
replace_byte-safe c = ground arith

sanitize-IsSafe : (s : Bytes) → IsSafe (map replace_byte s)
sanitize-IsSafe [] = tt
sanitize-IsSafe (c ∷ s) = (replace_byte-safe c, sanitize-IsSafe s)

replace_byte_fixed : (c : ℕ) → c ≢ b'/' → c ≢ b'\\' → c ≢ b':' → c ≢ b' ' → replace_byte c ≡ c
unfolding replace_byte
replace_byte_fixed c h₁ h₂ h₃ h₄ = ground arith

sanitize_fixed : (s : Bytes) → IsSafe s → map replace_byte s ≡ s
sanitize_fixed [] h = refl
sanitize_fixed (c ∷ s) h =
    let e : replace_byte c ≡ c = replace_byte_fixed c h.0.0 h.0.1 h.0.2 h.0.3 in
    cc (e, sanitize_fixed s h.1)

length-sanitize : (s : Bytes) → length (map replace_byte s) ≡ length s
length-sanitize [] = refl
length-sanitize (c ∷ s) = ap suc (length-sanitize s)

-- A sanitized name holds none of the four unsafe bytes and is as long as the raw one; a name with
-- none of them stays as it is.
pub sanitize_object_name_lem :
    (raw : Bytes)
    → IsSafe (sanitize_object_name raw)
      × (length (sanitize_object_name raw) ≡ length raw)
      × (IsSafe raw → sanitize_object_name raw ≡ raw)
unfolding sanitize_object_name
sanitize_object_name_lem raw = (sanitize-IsSafe raw, length-sanitize raw, sanitize_fixed raw)

safe-slashless : (s : Bytes) → IsSafe s → slashes s ≡ 0
unfolding slashes
safe-slashless [] h = refl
safe-slashless (c ∷ s) h = ground (arith, safe-slashless s h.1)

fixed-slashes :
    (s : Bytes)
    → (slashes (codes "invalid/") ≡ 1)
      × (slashes (codes ".json") ≡ 0)
      × (slashes (b'-' ∷ s) ≡ slashes s)
unfolding slashes
fixed-slashes s = (refl, refl, refl)

-- Whatever the id of the message and the time, an object lies directly in the folder `invalid`: its
-- name has one slash, the one of the prefix.
pub slashes-object_name : (nanos : ℕ) (id : Bytes) → slashes (object_name nanos id) ≡ 1
unfolding object_name sanitize_object_name
slashes-object_name nanos id =
    let clean = map replace_byte id in
    omega (
      arith,
      slashes-append (codes "invalid/") (itoa nanos ++ (b'-' ∷ (clean ++ codes ".json"))),
      slashes-append (itoa nanos) (b'-' ∷ (clean ++ codes ".json")),
      slashes-append clean (codes ".json"),
      slashes-lacking (itoa nanos) (itoa-All (λ c. c ≢ b'/') (λ c d. omega arith) nanos),
      safe-slashless clean (sanitize-IsSafe id),
      fixed-slashes (clean ++ codes ".json"),
    )
