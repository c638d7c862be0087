-- ===== src/Process/Main.antt =====
-- process_service/main.go: the providers of the container, in the one order in which their
-- arguments let dig call them, and the body of `main`.
pub mod Startup
use shortcut.Prelude.{ℕ, List, [], ◌∷◌, ◌⊎◌, Bool, Option, none, some, if◌then◌else◌}
use shortcut.Runtime.{Call, Env, Error, Exec, try, pure, panics, ◌>>=◌, ◌>>◌}
use shortcut.Metrics.Server
use shortcut.ClickHouse
use shortcut.Wiring.{
  Event, Ending, ended, fatal, exit, nil_pointer, run, provide_config, provide_metrics,
  provide_repository, start_repository,
}
use shortcut.Process.Config.{BusConfig, AppConfig}
use shortcut.Process.Dlq
use shortcut.Process.Tasks.{TaskRepository, mark_task_invalid}
use shortcut.Process.Daemon
use shortcut.Process.Daemon.{Daemon}

abbrev pub num_workers : ℕ
num_workers = 5

abbrev pub queue_size : ℕ
queue_size = 100

-- `RunArgs`: the services to start and to stop.
pub record RunArgs : Type 0 where
  pub repo : ClickHouse.Service
  pub d : Daemon
  pub m : Server.Service

abbrev pub provide_task_service : ClickHouse.Service → TaskRepository
provide_task_service repo = record { s = some repo }

module _ (env : Env) where
  -- `ProvideDaemon` reads the section of the bus, which may be nil.
  unfoldable pub provide_daemon :
      Option BusConfig → Option Dlq.Config → TaskRepository → Exec Daemon
  unfolding Daemon.new
  provide_daemon none min_io_conf task_repo = panics nil_pointer
  provide_daemon (some _) min_io_conf task_repo =
      Daemon.new env min_io_conf num_workers queue_size (mark_task_invalid env task_repo)

  unfoldable pub provide_all : AppConfig → Exec RunArgs
  unfolding provide_metrics provide_repository provide_daemon
  provide_all conf = do
    m ← provide_metrics env conf.metrics
    repo ← provide_repository env conf.repo_conf
    d ← provide_daemon conf.redis_conf conf.min_io_conf (provide_task_service repo)
    pure (record { repo = repo; d = d; m = m })

  -- The group `stoppables`, of which dig guarantees no order.
  unfoldable pub stoppables : Bool → RunArgs → List (Exec (Unit {0}))
  unfolding Daemon.stop Server.stop
  stoppables daemon_first args =
      if daemon_first
      then Daemon.stop env ∷ Server.stop env args.m ∷ []
      else Server.stop env args.m ∷ Daemon.stop env ∷ []

  -- The body of `Invoke`; `meanwhile` is what the goroutines do until the first event.
  unfoldable pub invoke : Exec (Unit {0}) → Bool → Event → Bool → RunArgs → Exec (Unit {0})
  unfolding run start_repository Daemon.start stoppables
  invoke meanwhile daemon_first event timer_over args =
      run (start_repository >> Daemon.start env args.d >> meanwhile) event timer_over
        (stoppables daemon_first args)

  module _ (unmarshal : List Call → Error ⊎ AppConfig) (meanwhile : Exec (Unit {0}))
      (daemon_first : Bool) (event : Event) (timer_over : Bool) where
    unfoldable pub with_config : Option AppConfig → Exec Ending
    unfolding provide_all invoke exit
    with_config none = pure (fatal "Failed to load config: %v")
    with_config (some conf) =
        try (provide_all conf) (λ _. exit "Failed to start application: %v")
          (λ args. invoke meanwhile daemon_first event timer_over args >> pure ended)

    unfoldable pub main : Exec Ending
    unfolding provide_config with_config
    main = provide_config env unmarshal >>= with_config
