-- ===== src/Metrics/Counts.antt =====
-- What Prometheus documents of a counter: its value is the number of times that it was
-- incremented. A `float64` counts exactly below 2 ^ 53.
use shortcut.Prelude.{
  ℕ, suc, ◌<◌, ◌^◌, Bytes, Bool, true, false, List, [], ◌∷◌, ◌≡◌, inr, ◌&&◌, bytes_eq,
  if◌then◌else◌,
}
use shortcut.Runtime.{Call, Env, Counter, task_counter, status_counter, error_counter}

abbrev pub same_counter : Counter → Counter → Bool
same_counter task_counter task_counter = true
same_counter status_counter status_counter = true
same_counter error_counter error_counter = true
same_counter _ _ = false

-- Is this call an increment of the counter `c` with this label?
unfoldable pub increments : Counter → Bytes → Call → Bool
increments c l (Call.counter_inc d m) = same_counter c d && bytes_eq l m
increments c l _ = false

-- The increments among the calls made.
unfoldable pub count : Counter → Bytes → List Call → ℕ
count c l [] = 0
count c l (e ∷ h) = let n = count c l h in if increments c l e then suc n else n

pub record IsPrometheus (env : Env) : Type 0 where
  pub counts :
      (h : List Call) (c : Counter) (l : Bytes)
      → count c l h < 2 ^ 53
      → env.counter_value h c l ≡ inr (count c l h)
