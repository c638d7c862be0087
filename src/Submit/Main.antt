-- ===== src/Submit/Main.antt =====
-- submit_service/main.go: the providers of the container, in the one order in which their arguments
-- let dig call them, and the body of `main`.
pub mod Shutdown
pub mod Providers
pub mod Startup
use shortcut.Prelude.{List, [], ◌∷◌, ◌⊎◌, Bool, Option, none, some, if◌then◌else◌}
use shortcut.Runtime.{Call, Env, Error, Exec, try, pure, panics, ◌>>=◌, ◌>>◌}
use shortcut.Metrics.Server
use shortcut.ClickHouse
use shortcut.Wiring.{Event, Ending, ended, fatal, exit, nil_pointer, start_repository}
use shortcut.Submit.Wiring.{run, provide_config, provide_metrics, provide_repository}
use shortcut.Submit.Config.{BusConfig, AppConfig}
use shortcut.Submit.Tasks.{TaskService}
use shortcut.Submit.WebApi
use shortcut.Submit.WebApi.{Api}

-- `RunArgs`: the services to start and to stop.
pub record RunArgs : Type 0 where
  pub repo : ClickHouse.Service
  pub m : Server.Service
  pub api : Api

abbrev pub provide_task_service : ClickHouse.Service → TaskService
provide_task_service repo = record { task_repo = record { s = some repo } }

-- `ProvideRedisClient` and `ProvideTaskProducer`: no call, but the section may be nil.
unfoldable pub provide_task_producer : Option BusConfig → Exec (Unit {0})
provide_task_producer none = panics nil_pointer
provide_task_producer (some _) = pure tt

-- `ProvideWebAPI`
unfoldable pub provide_web_api : Option WebApi.Config → TaskService → Exec Api
unfolding WebApi.new
provide_web_api none task_srv = panics nil_pointer
provide_web_api (some conf) task_srv = pure (WebApi.new conf task_srv)

module _ (env : Env) where
  unfoldable pub provide_all : AppConfig → Exec RunArgs
  unfolding provide_metrics provide_repository provide_task_producer provide_web_api
  provide_all conf = do
    m ← provide_metrics env conf.metrics
    repo ← provide_repository env conf.repo_conf
    provide_task_producer conf.redis_conf
    api ← provide_web_api conf.web_api (provide_task_service repo)
    pure (record { repo = repo; m = m; api = api })

  -- The group `stoppables`, of which dig guarantees no order.
  unfoldable pub stoppables : Bool → RunArgs → List (Exec (Unit {0}))
  unfolding WebApi.stop Server.stop
  stoppables api_first args =
      if api_first
      then WebApi.stop env args.api.server_addr ∷ Server.stop env args.m ∷ []
      else Server.stop env args.m ∷ WebApi.stop env args.api.server_addr ∷ []

  -- The body of `Invoke`; `meanwhile` is what the goroutines do until the first event.
  unfoldable pub invoke : Exec (Unit {0}) → Bool → Event → Bool → RunArgs → Exec (Unit {0})
  unfolding run start_repository WebApi.start stoppables
  invoke meanwhile api_first event timer_over args =
      run (start_repository >> WebApi.start env args.api.server_addr >> meanwhile) event timer_over
        (stoppables api_first args)

  module _ (unmarshal : List Call → Error ⊎ AppConfig) (meanwhile : Exec (Unit {0}))
      (api_first : Bool) (event : Event) (timer_over : Bool) where
    unfoldable pub with_config : Option AppConfig → Exec Ending
    unfolding provide_all invoke exit
    with_config none = pure (fatal "Failed to load config: %v")
    with_config (some conf) =
        try (provide_all conf) (λ _. exit "Failed to start application: %v")
          (λ args. invoke meanwhile api_first event timer_over args >> pure ended)

    unfoldable pub main : Exec Ending
    unfolding provide_config with_config
    main = provide_config env unmarshal >>= with_config
