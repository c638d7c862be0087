-- ===== src/ClickHouse/Tables.antt =====
-- clickhouse.go: the client, the tables, and the goroutine that writes the metrics.
use shortcut.Prelude.{
  String, Bool, true, false, List, [], ◌∷◌, ◌++◌, if◌then◌else◌, str_eq, ltb, length,
}
use shortcut.Runtime.{
  Call, Env, Error, Exec, ok, blocked, call, checked, try, pure, panics, Field, ◌>>=◌, ◌>>◌,
}
use shortcut.ClickHouse.Writer.{Config, Client, exec, write_metrics}
use shortcut.Metrics.{get_metrics}

-- `Service`; its map and its channel stand in the world of the process, and the metrics service
-- may be nil.
pub record Service : Type 0 where
  pub client : Client
  pub has_metrics : Bool

-- The statements of `ensureTables`, white space apart.
abbrev pub ddls : List String
ddls =
    "CREATE TABLE IF NOT EXISTS logs (ts DateTime64(9), val String) ENGINE = MergeTree() ORDER BY ts"
    ∷ "CREATE TABLE IF NOT EXISTS metrics (ts DateTime64(9), val String) ENGINE = MergeTree() ORDER BY ts"
    ∷ "CREATE TABLE IF NOT EXISTS tasks (id UUID, status String, payload String, failed_payload Nullable(String), ts DateTime64(9)) ENGINE = MergeTree() ORDER BY ts"
    ∷ []

module _ (env : Env) where
  unfoldable pub new_client : Config → Exec Client
  new_client conf =
      call
        (Call.ch_open conf.dsn (if str_eq conf.user "" then "default" else conf.user) conf.password
          conf.use_tls)
        (λ h. checked (env.open_reply h))
      >> pure (record { conf = conf })

  unfoldable pub exec_all : List String → Exec (Unit {0})
  unfolding exec
  exec_all [] = pure tt
  exec_all (ddl ∷ ddls) = exec env ddl [] >> exec_all ddls

  unfoldable pub ensure_tables : Client → Exec (Unit {0})
  unfolding exec_all
  ensure_tables c = do
    exec_all ddls
    exec env "ALTER TABLE tasks ADD COLUMN IF NOT EXISTS failed_payload Nullable(String)" []

  unfoldable pub new_service : Config → Bool → Exec Service
  unfolding new_client ensure_tables
  new_service conf has_metrics = do
    c ← new_client conf
    ensure_tables c
    pure (record { client = c; has_metrics = has_metrics })

  -- `s.ErrCh <- err`: the channel holds one error, and a send to a full one waits.
  unfoldable pub send_err : Error → Exec (Unit {0})
  send_err e w =
      if ltb (length w.err_ch) 1
      then (ok tt, record w { err_ch = w.err_ch ++ e ∷ [] })
      else (blocked, w)

  -- `s.metricsSrv.Recorder.GetMetrics()`, which panics on a nil service.
  unfoldable pub service_metrics : Service → Exec (List (String × Field))
  unfolding get_metrics
  service_metrics s =
      if s.has_metrics
      then get_metrics env
      else panics "invalid memory address or nil pointer dereference"

  -- One tick of the goroutine that `Start` launches.
  unfoldable pub on_tick : Service → Exec (Unit {0})
  unfolding write_metrics send_err service_metrics
  on_tick s =
      if s.has_metrics
      then (service_metrics s >>= λ m. try (write_metrics env s.client m) send_err pure)
      else pure tt

  -- The goroutine over the events of its `select`: `true` is a tick, `false` the end of its
  -- context.
  unfoldable pub sample : Service → List Bool → Exec (Unit {0})
  unfolding on_tick
  sample s [] = pure tt
  sample s (false ∷ _) = pure tt
  sample s (true ∷ es) = on_tick s >> sample s es
