-- ===== src/Process/ExtApi/Deadline.antt =====
-- When a call of the external API returns in time.
use shortcut.Prelude.{ℕ, ◌<◌, ◌⊎◌, ◌↔◌, Bool, true, false, none, ◌≡◌, ◌≢◌, arith}
use shortcut.Runtime.{custom, deadline_exceeded, World, ok, err}
use shortcut.Process.ExtApi.{Ctx, get_something}

-- The timeout of `handleTask`, in milliseconds.
abbrev pub processing_timeout : ℕ
processing_timeout = 3000

abbrev pub in_time : Ctx
in_time = record { deadline = processing_timeout; cancelled_at = none }

-- Under the timeout of the daemon, with no cancellation, a call fails by itself exactly if it was
-- drawn to; else it succeeds exactly if it sleeps for less than three seconds, or for three seconds
-- and the `select` takes the sleep first, and ends with the deadline otherwise.
pub get_something-in_time :
    (sleep_draw fail_draw : ℕ) (context_first : Bool) (w : World)
    → let r = (get_something in_time sleep_draw fail_draw context_first w).0 in
      ((r ≡ err (custom "External API simulated failure")) ↔ (fail_draw ≡ 0))
      × ((r ≡ ok tt) ↔ (
          (fail_draw ≢ 0)
          × ((sleep_draw < 2000) ⊎ ((sleep_draw ≡ 2000) × (context_first ≡ false)))))
      × ((r ≡ err deadline_exceeded) ↔ (
          (fail_draw ≢ 0) × ((2000 < sleep_draw) ⊎ ((sleep_draw ≡ 2000) × (context_first ≡ true)))))
unfolding get_something
get_something-in_time s f b w = (
  (λ e. ground arith, λ e. ground arith),
  (λ e. ground arith, λ e. ground arith),
  (λ e. ground arith, λ e. ground arith),
)
