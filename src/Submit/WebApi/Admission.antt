-- ===== src/Submit/WebApi/Admission.antt =====
-- Submissions side by side: the goroutines of `SubmitTask` of task_handler.go beside `API.Stop`,
-- interleaved in any order. One step is the read of the flag, a branch of the `select` on `sem`,
-- the deferred receive of `startTaskProcessing`, a new request, or the store of the flag.
pub mod Tokens
pub mod Alone
use shortcut.Prelude.{ℕ, suc, ◌<◌, ◌≤◌, Bytes, Bool, true, false, List, [], ◌∷◌, ◌++◌, ◌≡◌, ◌≢◌}
use shortcut.Submit.WebApi.Tasks.{max_tasks}

-- Where a request stands.
pub data Pc : Type 0 where
  arrived : Pc  -- before the flag is read
  choosing : Pc  -- at the `select`
  storing : Pc  -- in `startTaskProcessing`, with a token
  refused : Pc  -- answered by 400 behind the `select`, its token not given back
  answered : Pc

pub record Shared : Type 0 where
  pub shutting_down : Bool
  pub sem : ℕ

pub record Submission : Type 0 where
  pub payload : Bytes
  pub pc : Pc

pub record System : Type 0 where
  pub shared : Shared
  pub requests : List Submission

-- One step of a request with this payload.
pub data Move (payload : Bytes) (s t : Shared) : Pc → Pc → Type 0 where
  turn_away : s.shutting_down ≡ true → t ≡ s → Move payload s t arrived answered
  pass : s.shutting_down ≡ false → t ≡ s → Move payload s t arrived choosing
  take :
      s.sem < max_tasks
      → payload ≢ []
      → t ≡ record s { sem = suc s.sem }
      → Move payload s t choosing storing
  keep :
      s.sem < max_tasks
      → payload ≡ []
      → t ≡ record s { sem = suc s.sem }
      → Move payload s t choosing refused
  full : max_tasks ≤ s.sem → t ≡ s → Move payload s t choosing answered
  give : (n : ℕ) → s.sem ≡ suc n → t ≡ record s { sem = n } → Move payload s t storing answered

pub data Step (s t : System) : Type 0 where
  serve :
      (before after : List Submission) (payload : Bytes) (p q : Pc)
      → s.requests ≡ before ++ (record { payload = payload; pc = p } ∷ after)
      → Move payload s.shared t.shared p q
      → t.requests ≡ before ++ (record { payload = payload; pc = q } ∷ after)
      → Step s t
  arrive :
      (payload : Bytes)
      → t ≡ record s { requests = record { payload = payload; pc = arrived } ∷ s.requests }
      → Step s t
  shut : t ≡ record s { shared = record s.shared { shutting_down = true } } → Step s t

abbrev pub idle : System
idle = record { shared = record { shutting_down = false; sem = 0 }; requests = [] }

pub data Reach : System → Type 0 where
  start : Reach idle
  later : {s t : System} → Reach s → Step s t → Reach t
