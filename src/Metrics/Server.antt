-- ===== src/Metrics/Server.antt =====
-- server.go, and the `Service` of metrics.go.
use shortcut.Prelude.{String, none, some, Option}
use shortcut.Runtime.{Call, Env, message, Exec, ◌>>◌, pure, raise, tell, call, checked, error, info}
use shortcut.Metrics.Collectors.{Recorder, new_recorder, register_metrics}

pub record Config : Type 0 where
  pub addr : String
  pub endpoint : String

-- `API`, of which the routes and the server are fixed by the configuration
pub record Api : Type 0 where
  pub conf : Config

-- `Service`: the API may be nil
pub record Service : Type 0 where
  pub api : Option Api
  pub recorder : Recorder

-- `newAPI`; the handler of its one route is that of promhttp.
abbrev pub new_api : Config → Api
new_api conf = record { conf = conf }

unfoldable pub new : Config → Service
unfolding new_recorder
new conf = record { api = some (new_api conf); recorder = new_recorder }

-- `API.Start` launches the server in a goroutine.
unfoldable pub api_start : Api → Exec (Unit {0})
api_start a = tell (Call.listen a.conf.addr)

module _ (env : Env) where
  unfoldable pub api_stop : Api → Exec (Unit {0})
  api_stop a = call (Call.shutdown a.conf.addr) (λ h. checked (env.shutdown_reply h))

  unfoldable pub start_api : Option Api → Exec (Unit {0})
  unfolding api_start
  start_api none = do
    tell (Call.log error "metrics API not initialized")
    raise (message "metrics API not initialized")
  start_api (some a) = do tell (Call.log info "Starting metrics API"); api_start a

  unfoldable pub start : Service → Exec (Unit {0})
  unfolding register_metrics start_api
  start s = register_metrics env s.recorder >> start_api s.api

  unfoldable pub stop_api : Option Api → Exec (Unit {0})
  unfolding api_stop
  stop_api none = pure tt
  stop_api (some a) = api_stop a

  unfoldable pub stop : Service → Exec (Unit {0})
  unfolding stop_api
  stop s = stop_api s.api
