-- ===== src/Process/ExtApi.antt =====
-- process_service/extapi/client.go: the simulated external API. The two draws of `rand.Intn`, the
-- end of the context and the choice of a `select` with two ready cases are arguments. Times are
-- milliseconds from the call on.
pub mod Deadline
use shortcut.Prelude.{ℕ, ◌+◌, Bool, Option, none, some, if◌then◌else◌, ltb, ◌==◌, ◌||◌, ◌&&◌}
use shortcut.Runtime.{
  Call, Error, custom, deadline_exceeded, canceled, World, Exec, Outcome, ok, err, pure, raise,
  tell, ◌>>=◌, ◌>>◌, continue, Level,
}

-- A context with a deadline, whose parent may be cancelled.
pub record Ctx : Type 0 where
  pub deadline : ℕ
  pub cancelled_at : Option ℕ

-- When `ctx.Done()` is ready, and `ctx.Err()` from then on.
unfoldable pub ctx_end : Ctx → ℕ × Error
ctx_end ctx = elim ctx.cancelled_at [
  | none ↦ (ctx.deadline, deadline_exceeded)
  | some t ↦ if ltb t ctx.deadline then (t, canceled) else (ctx.deadline, deadline_exceeded)
]

-- The `select` between the end of the context and the sleep.
unfoldable pub race : ℕ → ℕ × Error → Bool → Exec (Unit {0})
race sleep (t, e) context_first =
    if ltb t sleep || (t == sleep) && context_first
    then tell (Call.log Level.info "External API call cancelled by context") >> raise e
    else tell (Call.log Level.info "External API call completed")

-- `GetSomething`: `sleep_draw` is below 10000 and `fail_draw` below 10.
unfoldable pub get_something : Ctx → ℕ → ℕ → Bool → Exec (Unit {0})
unfolding race ctx_end
get_something ctx sleep_draw fail_draw context_first =
    let sleep_duration = 1000 + sleep_draw in
    if fail_draw == 0
    then raise (custom "External API simulated failure")
    else race sleep_duration (ctx_end ctx) context_first
