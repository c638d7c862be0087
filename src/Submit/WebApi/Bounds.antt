-- ===== src/Submit/WebApi/Bounds.antt =====
-- The load that the handlers start.
use shortcut.Prelude.{
  ℕ, zero, suc, ◌+◌, ◌-◌, ◌*◌, ◌/◌, ◌%◌, ◌^◌, ◌<◌, ◌≤◌, List, [], ◌∷◌, map, length, true,
  Bool-cases, inl, inr, ◌≡◌, refl, ap, arith, ltb, ltb→lt, lt→ltb, ◌∙◌, Option, none, some,
}
use mathlib.Core.Option
use shortcut.Runtime.{ok, panic}
use shortcut.Submit.WebApi.Load.{
  wrap, touch, is_negative, seconds_duration, chunk_length, visited, pages, make_chunk,
  run_memory_load,
}

-- The element at an index.
abbrev pub nth {ℓ} : {A : Type ℓ} → List A → ℕ → Option A
nth [] k = none
nth (x ∷ xs) zero = some x
nth (x ∷ xs) (suc k) = nth xs k

-- The rounds visit the starts of the pages, one behind another.
nth-visited :
    (fuel i len k : ℕ)
    → i + 4096 * k < len
    → k < fuel
    → nth (visited fuel i len) k ≡ some (i + 4096 * k)
unfolding visited
nth-visited zero i len k small fuelled = absurd (omega (arith, fuelled))
nth-visited (suc fuel) i len zero small fuelled =
    rw (lt→ltb i len (omega (arith, small))) (ap (λ (n : ℕ). some n) (omega arith))
nth-visited (suc fuel) i len (suc k) small fuelled = rw (lt→ltb i len (omega (arith, small))) (
    nth-visited fuel (i + 4096) len k (omega (arith, small)) (omega (arith, fuelled))
    ∙ ap (λ (n : ℕ). some n) (omega arith))

length-visited :
    (fuel i len : ℕ) → len < i + fuel * 4096 → length (visited fuel i len) ≡ (len - i + 4095) / 4096
unfolding visited
length-visited zero i len h = omega arith
length-visited (suc fuel) i len h = elim (Bool-cases (ltb i len)) [
  | inl more ↦
      let lt : i < len = ltb→lt i len more in
      rw (more, visited) (omega (arith, length-visited fuel (i + 4096) len (omega arith)))
  | inr done ↦ let le : len ≤ i = ground arith in rw (done, visited) (omega arith)
]

module _ {A B : Type 0} where
  length-map : (f : A → B) (xs : List A) → length (map f xs) ≡ length xs
  length-map f [] = refl
  length-map f (x ∷ xs) = ap suc (length-map f xs)

module _ {A B : Type 0} where
  nth-map :
      (f : A → B) (xs : List A) (k : ℕ) (x : A) → nth xs k ≡ some x → nth (map f xs) k ≡ some (f x)
  nth-map f [] k x e = ground arith
  nth-map f (y ∷ xs) zero x e = ap (Option.map f) e
  nth-map f (y ∷ xs) (suc k) x e = nth-map f xs k x e

chunk_length_exact : (mb : ℕ) → mb ≤ 2 ^ 28 → chunk_length mb ≡ mb * 1048576
unfolding chunk_length
chunk_length_exact mb h = omega arith

make_chunk_fits :
    (memory mb : ℕ)
    → mb ≤ 2 ^ 28
    → mb * 1048576 ≤ memory
    → make_chunk memory (mb * 1048576) ≡ ok (mb * 1048576)
unfolding make_chunk
make_chunk_fits memory mb h room = ground arith

-- What `runMemoryLoad` has written to the start of a page after so many ticks.
abbrev pub written_at : ℕ → ℕ → ℕ × ℕ
written_at ticks i = (i, (i % 256 + ticks) % 256)

-- A load of up to 2 ^ 28 megabytes that fits the memory of the process writes one byte to each page
-- of its chunk, in order, and none else: 256 bytes for a megabyte, of which the one with the number
-- `page` stands at the start of that page, and after `ticks` ticks holds the number of the ticks
-- modulo 256.
pub run_memory_load_pages :
    (memory mb ticks page : ℕ)
    → mb ≤ 2 ^ 28
    → mb * 1048576 ≤ memory
    → page < mb * 256
    → (written : List (ℕ × ℕ)) × (run_memory_load memory mb ticks ≡ ok written)
      × (length written ≡ mb * 256)
      × (nth written page ≡ some (4096 * page, ticks % 256))
unfolding run_memory_load
run_memory_load_pages memory mb ticks page h room inside =
    let len : ℕ = mb * 1048576 in
    let is : List ℕ = visited (pages len) 0 len in
    let value : written_at ticks (0 + 4096 * page) ≡ (4096 * page, ticks % 256) = λ i. (
      (let e : 0 + 4096 * page ≡ 4096 * page = omega arith in e i),
      (let e : ((0 + 4096 * page) % 256 + ticks) % 256 ≡ ticks % 256 = omega arith in e i),
    ) in
    (
      map (written_at ticks) is,
      rw (chunk_length_exact mb h, make_chunk_fits memory mb h room) refl,
      length-map (written_at ticks) is
          ∙ length-visited (pages len) 0 len (omega arith)
          ∙ omega arith,
      nth-map (written_at ticks) is page (0 + 4096 * page)
            (nth-visited (pages len) 0 len page (omega (arith, inside)) (omega (arith, inside)))
          ∙ ap (λ (x : ℕ × ℕ). some x) value,
    )

-- The length of a chunk wraps at 64 bits: whatever the memory of the process and the number of
-- ticks, a load of any multiple of 2 ^ 44 megabytes more ends as the load without them does.
pub run_memory_load_wraps :
    (memory mb ticks k : ℕ)
    → run_memory_load memory (mb + k * 2 ^ 44) ticks ≡ run_memory_load memory mb ticks
unfolding run_memory_load chunk_length
run_memory_load_wraps memory mb ticks k =
    ap (λ (len : ℕ). touch ticks (make_chunk memory len)) (same_length mb k)
  where
    same_length : (mb k : ℕ) → wrap ((mb + k * 2 ^ 44) * 1024 * 1024) ≡ wrap (mb * 1024 * 1024)
    same_length mb k = omega arith

-- A load that asks for 2 ^ 43 megabytes or more, below 2 ^ 44, ends the process: the length of its
-- chunk wraps to a negative number, and `make` panics in a goroutine of its own.
pub run_memory_load_panics :
    (memory mb ticks : ℕ)
    → 2 ^ 43 ≤ mb
    → mb < 2 ^ 44
    → run_memory_load memory mb ticks ≡ panic "runtime error: makeslice: len out of range"
unfolding run_memory_load
run_memory_load_panics memory mb ticks lo hi =
    let wide : is_negative (chunk_length mb) ≡ true = wraps in rw wide refl
  where
    wraps : is_negative (chunk_length mb) ≡ true
    wraps = ground arith

-- Up to 18446744073 seconds the 64 bits of a duration hold its nanoseconds, and they read as a
-- negative number exactly above 9223372036 seconds.
pub seconds_duration_lem :
    (seconds : ℕ)
    → seconds ≤ 18446744073
    → (seconds_duration seconds ≡ seconds * 1000000000)
      × (is_negative (seconds_duration seconds) ≡ ltb 9223372036 seconds)
unfolding seconds_duration
seconds_duration_lem seconds h = (omega arith, ground arith)
