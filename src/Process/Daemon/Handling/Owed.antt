-- ===== src/Process/Daemon/Handling/Owed.antt =====
-- What the workers in `handleTask` have begun and not yet entered into the books.
use shortcut.Prelude.{
  ℕ, zero, suc, ◌+◌, Bytes, bytes_eq, Bool, false, List, [], ◌∷◌, ◌++◌, ◌≡◌, refl, arith, ◌||◌,
}
use shortcut.Runtime.{Env}
use shortcut.Process.Daemon.Handling.{
  Pc, idle, begun, announced, counted, timed, succeeded, failed, complained, classified, storing,
  closing, measuring, reported, leaving, all_idle,
}

-- One for a worker behind `Wg.Add(1)` and before `Wg.Done()`.
abbrev pub inside : Pc → ℕ
inside idle = 0
inside (begun _) = 1
inside (announced _) = 1
inside (counted _) = 1
inside (timed _ _) = 1
inside (succeeded _) = 1
inside (failed _ _ _) = 1
inside (complained _ _ _) = 1
inside (classified _ _ _) = 1
inside (storing _ _) = 1
inside (closing _) = 1
inside (measuring _) = 1
inside reported = 1
inside leaving = 1

-- One for a worker between `AddActiveTasks(1)` and its call of the API.
abbrev pub to_ask : Pc → ℕ
to_ask (counted _) = 1
to_ask (timed _ _) = 1
to_ask idle = 0
to_ask (begun _) = 0
to_ask (announced _) = 0
to_ask (succeeded _) = 0
to_ask (failed _ _ _) = 0
to_ask (complained _ _ _) = 0
to_ask (classified _ _ _) = 0
to_ask (storing _ _) = 0
to_ask (closing _) = 0
to_ask (measuring _) = 0
to_ask reported = 0
to_ask leaving = 0

-- One for a worker between its call of the API and `ObserveTaskDuration`.
abbrev pub to_observe : Pc → ℕ
to_observe (succeeded _) = 1
to_observe (failed _ _ _) = 1
to_observe (complained _ _ _) = 1
to_observe (classified _ _ _) = 1
to_observe (storing _ _) = 1
to_observe (closing _) = 1
to_observe (measuring _) = 1
to_observe idle = 0
to_observe (begun _) = 0
to_observe (announced _) = 0
to_observe (counted _) = 0
to_observe (timed _ _) = 0
to_observe reported = 0
to_observe leaving = 0

-- One for a worker between its call of the API and `DecActiveTasks(1)`.
abbrev pub to_remove : Pc → ℕ
to_remove reported = 1
to_remove p = to_observe p

-- One for a worker whose call was answered by nil, before `IncProcessedTasks(true)`.
abbrev pub to_count : Pc → ℕ
to_count (succeeded _) = 1
to_count idle = 0
to_count (begun _) = 0
to_count (announced _) = 0
to_count (counted _) = 0
to_count (timed _ _) = 0
to_count (failed _ _ _) = 0
to_count (complained _ _ _) = 0
to_count (classified _ _ _) = 0
to_count (storing _ _) = 0
to_count (closing _) = 0
to_count (measuring _) = 0
to_count reported = 0
to_count leaving = 0

module _ (env : Env) (id : Bytes) where
  -- Is `id` the task of a worker whose call failed, before `AddNotProcessedTask`?
  abbrev pub to_store : Pc → Bool
  to_store (failed task _ _) = bytes_eq id (env.uuid_string task.id)
  to_store (complained task _ _) = bytes_eq id (env.uuid_string task.id)
  to_store (classified task _ _) = bytes_eq id (env.uuid_string task.id)
  to_store (storing task _) = bytes_eq id (env.uuid_string task.id)
  to_store idle = false
  to_store (begun _) = false
  to_store (announced _) = false
  to_store (counted _) = false
  to_store (timed _ _) = false
  to_store (succeeded _) = false
  to_store (closing _) = false
  to_store (measuring _) = false
  to_store reported = false
  to_store leaving = false

  unfoldable pub any_to_store : List Pc → Bool
  any_to_store [] = false
  any_to_store (p ∷ ps) = to_store p || any_to_store ps

  pub any_to_store-middle :
      (ps qs : List Pc) (p : Pc)
      → any_to_store (ps ++ (p ∷ qs)) ≡ (to_store p || any_to_store (ps ++ qs))
  unfolding any_to_store
  any_to_store-middle [] qs p = refl
  any_to_store-middle (o ∷ ps) qs p = ground (arith, any_to_store-middle ps qs p)

  pub any_to_store-all_idle : (n : ℕ) → any_to_store (all_idle n) ≡ false
  unfolding any_to_store all_idle
  any_to_store-all_idle zero = refl
  any_to_store-all_idle (suc n) = any_to_store-all_idle n

module _ (f : Pc → ℕ) where
  unfoldable pub total : List Pc → ℕ
  total [] = 0
  total (p ∷ ps) = f p + total ps

  pub total-middle : (ps qs : List Pc) (p : Pc) → total (ps ++ (p ∷ qs)) ≡ f p + total (ps ++ qs)
  unfolding total
  total-middle [] qs p = refl
  total-middle (o ∷ ps) qs p = omega (arith, total-middle ps qs p)

  pub total-all_idle : f idle ≡ 0 → (n : ℕ) → total (all_idle n) ≡ 0
  unfolding total all_idle
  total-all_idle e zero = refl
  total-all_idle e (suc n) = omega (arith, e, total-all_idle e n)
