-- ===== src/Wiring.antt =====
-- The functions that process_service/main.go and submit_service/main.go share: the providers of the
-- container, the main loop, and the stop of the services.
pub mod Order
pub mod Calm
pub mod Tables
use shortcut.Prelude.{List, [], ◌∷◌, ◌⊎◌, String, Bool, true, Option, none, some, if◌then◌else◌}
use shortcut.Runtime.{Call, Env, Error, Exec, try, pure, panics, tell, deferring, ◌>>◌, Level}
use shortcut.Metrics.Server
use shortcut.ClickHouse
use shortcut.ClickHouse.{new_service}
use shortcut.Config.{get_conf}

-- The loop of `stop` over the members of its group: an error is logged, and the next one is
-- stopped.
unfoldable pub stop_all : List (Exec (Unit {0})) → Exec (Unit {0})
stop_all [] = pure tt
stop_all (s ∷ ss) =
    try s (λ _. tell (Call.log Level.error "Error stopping service: %v")) pure >> stop_all ss

-- `stop`: is the timer of fifteen seconds over when the `select`, made just after it, looks?
unfoldable pub stop : Bool → List (Exec (Unit {0})) → Exec (Unit {0})
unfolding stop_all
stop timer_over stoppables =
    if timer_over
    then tell (Call.log Level.info "Shutdown timed out, exiting immediately")
    else stop_all stoppables

-- What ends the main loop: a signal, or an error of the repository.
pub data Event : Type 0 where
  signal : Event
  repo_error : Error → Event

-- How a process ends: by `log.Fatalf`, which runs no deferred call, or by the end of `main`.
pub data Ending : Type 0 where
  fatal : String → Ending
  ended : Ending

unfoldable pub exit : String → Exec Ending
exit text = tell (Call.log Level.fatal text) >> pure (fatal text)

abbrev pub nil_pointer : String
nil_pointer = "invalid memory address or nil pointer dereference"

-- The body that is given to `container.Invoke`: `begin` starts the services, and stands for what
-- their goroutines do until the loop sees its first event. Then the loop returns, and the services
-- stop.
unfoldable pub run : Exec (Unit {0}) → Event → Bool → List (Exec (Unit {0})) → Exec (Unit {0})
unfolding stop
run begin signal timer_over stoppables =
    deferring (stop timer_over stoppables)
      (begin >> tell (Call.log Level.info "Received shutdown signal, exiting..."))
run begin (repo_error e) timer_over stoppables =
    deferring (stop timer_over stoppables)
      (begin >> tell (Call.log Level.error "repository error: %v"))

module _ (env : Env) where
  -- `ProvideConfig`: none is a process that has ended.
  unfoldable pub provide_config : {A : Type 0} → (List Call → Error ⊎ A) → Exec (Option A)
  unfolding get_conf
  provide_config unmarshal =
      try (get_conf env unmarshal)
        (λ _. tell (Call.log Level.fatal "Failed to load config: %v") >> pure none)
        (λ conf. pure (some conf))

  -- `ProvideMetrics` drops the error of `Start`.
  unfoldable pub provide_metrics : Option Server.Config → Exec Server.Service
  unfolding Server.new Server.start
  provide_metrics none = panics nil_pointer
  provide_metrics (some conf) =
      let svc = Server.new conf in try (Server.start env svc) (λ _. pure svc) (λ _. pure svc)

  -- `ProvideRepository`; the metrics are not nil.
  unfoldable pub provide_repository : Option ClickHouse.Config → Exec ClickHouse.Service
  unfolding new_service
  provide_repository none = panics nil_pointer
  provide_repository (some conf) = new_service env conf true

-- `repository.Service.Start`
unfoldable pub start_repository : Exec (Unit {0})
start_repository = tell (Call.spawn "Service.Start" [])
