-- ===== src/ClickHouse/Writer.antt =====
-- logs_repo.go, metrics_repo.go and hook.go: entries written to ClickHouse with retries.
use shortcut.Prelude.{
  ℕ, zero, suc, ◌+◌, ◌-◌, Bytes, String, Bool, List, [], ◌∷◌, if◌then◌else◌, ◌==◌, str_eq,
  str_append, ℤ, rounds,
}
use shortcut.Runtime.{
  Call, Env, Exec, call, checked, returned, tell, try, pure, raise, gets, ◌>>=◌, ◌>>◌, Arg, Field,
  Level, debug, info, warn, error, fatal,
}

pub record Config : Type 0 where
  pub dsn : String
  pub user : String
  pub password : String
  pub num_retries : ℤ
  pub timeout : ℕ
  pub use_tls : Bool

pub record Client : Type 0 where
  pub conf : Config

pub record LogRequest : Type 0 where
  pub ts : ℕ
  pub val : Bytes

-- `data[k] = v` of a `map[string]any`
unfoldable pub put : String → Field → List (String × Field) → List (String × Field)
put k v [] = (k, v) ∷ []
put k v ((j, u) ∷ m) = if str_eq k j then (k, v) ∷ m else (j, u) ∷ put k v m

-- `entry.Level.String()`
abbrev level_name : Level → String
level_name debug = "debug"
level_name info = "info"
level_name warn = "warning"
level_name error = "error"
level_name fatal = "fatal"

-- `log.Entry`
pub record Entry : Type 0 where
  pub fields : List (String × Field)
  pub time : ℕ
  pub level : Level
  pub message : String

unfoldable pub insert_into : String → String
insert_into table = str_append (str_append "INSERT INTO " table) " (ts, val) VALUES (?, ?)"

-- One attempt to insert.
abbrev pub insertion : String → LogRequest → Call
insertion sql req = Call.exec sql (Arg.time "" req.ts ∷ Arg.raw req.val ∷ [])

module _ (env : Env) where
  -- `conn.Exec`
  unfoldable pub exec : String → List Arg → Exec (Unit {0})
  exec sql args = call (Call.exec sql args) (λ h. checked (env.exec_reply h))

  -- The loop from round `i` on, with `left` rounds to go: `i + left` is `NumRetries`.
  unfoldable pub attempts : ℕ → ℕ → String → LogRequest → Exec (Unit {0})
  attempts zero i sql req = pure tt
  attempts (suc left) i sql req =
      let again = tell (Call.sleep 500) >> attempts left (i + 1) sql req in
      try (call (insertion sql req) (λ h. checked (env.exec_reply h)))
        (λ e. if i == (i + suc left) - 1 then raise e else again) pure

  unfoldable pub post_logs_or_metrics_with_retries :
      Client → String → List (String × Field) → Exec (Unit {0})
  unfolding attempts insert_into
  post_logs_or_metrics_with_retries c table fields = do
    let query = insert_into table
    b ← λ w. (returned (env.marshal fields), w)
    ts ← gets (λ w. env.now w.history)
    attempts (rounds c.conf.num_retries) 0 query (record { ts = ts; val = b })

  unfoldable pub write_log : Client → List (String × Field) → Exec (Unit {0})
  unfolding post_logs_or_metrics_with_retries
  write_log c entry = post_logs_or_metrics_with_retries c "logs" entry

  unfoldable pub write_metrics : Client → List (String × Field) → Exec (Unit {0})
  unfolding post_logs_or_metrics_with_retries
  write_metrics c metrics = post_logs_or_metrics_with_retries c "metrics" metrics

  -- `LogHook.Fire`
  unfoldable pub fire : Client → Entry → Exec (Unit {0})
  unfolding put write_log
  fire c e = write_log c (
      put "message" (Field.string e.message) (
        put "level" (Field.string (level_name e.level))
          (put "time" (Field.instant "2006-01-02T15:04:05.999999999Z07:00" e.time) e.fields)))
