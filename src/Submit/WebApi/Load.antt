-- ===== src/Submit/WebApi/Load.antt =====
-- cpu_load_handler.go and mem_load_handler.go: load for experiments. The arithmetic that keeps a
-- CPU busy is floating point with no result, and is left out.
use shortcut.Prelude.{
  ℕ, zero, suc, ◌+◌, ◌*◌, ◌/◌, ◌%◌, ◌^◌, String, Bool, List, [], ◌∷◌, none, some, leb, ltb,
  if◌then◌else◌, ◌||◌, map,
}
use shortcut.Runtime.{Call, Chunk, Field, Exec, Outcome, ok, err, panic, blocked, tell, ◌>>◌}
use shortcut.Submit.WebApi.Http.{Request, http_error, set_header, write_header, write_body}
use shortcut.Submit.WebApi.Numbers.{parse_positive_int}

-- `int` and `time.Duration` are 64 bits wide: a product is kept modulo 2 ^ 64, and a pattern from
-- 2 ^ 63 on stands for a negative number.
abbrev pub wrap : ℕ → ℕ
wrap n = n % 2 ^ 64

abbrev pub is_negative : ℕ → Bool
is_negative n = leb (2 ^ 63) n

-- `time.Duration(seconds) * time.Second`
unfoldable pub seconds_duration : ℕ → ℕ
seconds_duration seconds = wrap (seconds * 1000000000)

-- The answer to a request that was accepted.
unfoldable accept : List (String × Field) → Exec (Unit {0})
unfolding set_header write_header write_body
accept fields = do
  set_header "Content-Type" "application/json; charset=utf-8"
  write_header 202
  write_body (Chunk.json fields)

-- The handlers parse two numbers, and start a goroutine with the first and the duration.
unfoldable pub load_seconds : Request → String → String → String → ℕ → Exec (Unit {0})
unfolding http_error accept seconds_duration parse_positive_int
load_seconds r work text name amount = elim (parse_positive_int (r.query "seconds") 30) [
  | none ↦ http_error "seconds must be a positive integer" 400
  | some seconds ↦
      tell (Call.spawn work (amount ∷ seconds_duration seconds ∷ []))
      >> accept (
          ("message", Field.string text)
          ∷ (name, Field.number amount)
          ∷ ("seconds", Field.number seconds)
          ∷ [])
]

unfoldable pub cpu_load_handler : ℕ → Request → Exec (Unit {0})
unfolding http_error load_seconds parse_positive_int
cpu_load_handler num_cpu r = elim (parse_positive_int (r.query "workers") num_cpu) [
  | none ↦ http_error "workers must be a positive integer" 400
  | some workers ↦ load_seconds r "runCPULoad" "cpu load started" "workers" workers
]

unfoldable pub memory_load_handler : Request → Exec (Unit {0})
unfolding http_error load_seconds parse_positive_int
memory_load_handler r = elim (parse_positive_int (r.query "mb") 128) [
  | none ↦ http_error "mb must be a positive integer" 400
  | some megabytes ↦ load_seconds r "runMemoryLoad" "memory load started" "mb" megabytes
]

-- `megabytes*1024*1024`
unfoldable pub chunk_length : ℕ → ℕ
chunk_length megabytes = wrap (megabytes * 1024 * 1024)

-- The indices that `for i := 0; i < len(chunk); i += 4096` visits, from `i` on.
unfoldable pub visited : ℕ → ℕ → ℕ → List ℕ
visited zero i len = []
visited (suc fuel) i len =
    let rest = visited fuel (i + 4096) len in if ltb i len then i ∷ rest else []

-- Enough rounds for a chunk.
abbrev pub pages : ℕ → ℕ
pages len = suc (len / 4096)

-- `make([]byte, n)` panics for a length that is negative or more than the address space, 2 ^ 48;
-- one that is more than the memory that the process can get ends it with a fatal error.
unfoldable pub make_chunk : ℕ → ℕ → Outcome ℕ
make_chunk memory len =
    if is_negative len || ltb (2 ^ 48) len
    then panic "runtime error: makeslice: len out of range"
    else if ltb memory len
    then panic "runtime: out of memory"
    else ok len

-- The writes to a chunk that was made, each with its index: `byte(i)`, and one more for each tick.
unfoldable pub touch : ℕ → Outcome ℕ → Outcome (List (ℕ × ℕ))
unfolding visited
touch ticks (ok len) = ok (map (λ i. (i, (i % 256 + ticks) % 256)) (visited (pages len) 0 len))
touch ticks (err e) = err e
touch ticks (panic m) = panic m
touch ticks blocked = blocked

-- The bytes that `runMemoryLoad` has written when it returns after `ticks` ticks, in a process that
-- can get `memory` bytes.
unfoldable pub run_memory_load : ℕ → ℕ → ℕ → Outcome (List (ℕ × ℕ))
unfolding make_chunk touch chunk_length
run_memory_load memory megabytes ticks = touch ticks (make_chunk memory (chunk_length megabytes))
