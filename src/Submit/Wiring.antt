-- ===== src/Submit/Wiring.antt =====
-- submit_service/main.go: its providers, and the functions that are those of process_service, line
-- for line: `stop`, the main loop, and GetConf of internal/config/config.go. Each of these stands
-- for the one that is translated from there.
use shortcut.Prelude.{String, List, ◌⊎◌, Bool, true, Option, none, some}
use shortcut.Runtime.{Call, Env, Error, Exec, try, tell, pure, panics, ◌>>◌, Level}
use shortcut.Metrics.Server
use shortcut.ClickHouse
use shortcut.Config
use shortcut.Wiring as Shared
use shortcut.Wiring.{Event, nil_pointer}
use shortcut.Submit.Metrics
use shortcut.Submit.Repository
use shortcut.Submit.Config.{AppConfig}

abbrev pub default_search_paths : List String
default_search_paths = Config.default_search_paths

unfoldable pub stop : Bool → List (Exec (Unit {0})) → Exec (Unit {0})
unfolding Shared.stop
stop = Shared.stop

unfoldable pub run : Exec (Unit {0}) → Event → Bool → List (Exec (Unit {0})) → Exec (Unit {0})
unfolding Shared.run
run = Shared.run

module _ (env : Env) where
  unfoldable pub get_conf : (List Call → Error ⊎ AppConfig) → Exec AppConfig
  unfolding Config.get_conf
  get_conf = Config.get_conf env

  -- `ProvideConfig`: none is a process that has ended.
  unfoldable pub provide_config : (List Call → Error ⊎ AppConfig) → Exec (Option AppConfig)
  unfolding get_conf
  provide_config unmarshal =
      try (get_conf unmarshal)
        (λ _. tell (Call.log Level.fatal "Failed to load config: %v") >> pure none)
        (λ conf. pure (some conf))

  -- `ProvideMetrics` drops the error of `Start`.
  unfoldable pub provide_metrics : Option Server.Config → Exec Server.Service
  unfolding Metrics.new Metrics.start
  provide_metrics none = panics nil_pointer
  provide_metrics (some conf) =
      let svc = Metrics.new conf in try (Metrics.start env svc) (λ _. pure svc) (λ _. pure svc)

  -- `ProvideRepository`; the metrics are not nil.
  unfoldable pub provide_repository : Option ClickHouse.Config → Exec ClickHouse.Service
  unfolding Repository.new_service
  provide_repository none = panics nil_pointer
  provide_repository (some conf) = Repository.new_service env conf true
