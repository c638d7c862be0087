-- ===== src/Process/Main/Startup.antt =====
-- What process_service has done before its workers run.
use mathlib.Core.Path.{subst}
use shortcut.Prelude.{
  ℕ, zero, suc, ◌+◌, List, [], ◌∷◌, Option, none, some, ◌⊎◌, Bool, true, false, ◌≡◌, All, str_eq,
  refl,
}
use shortcut.Runtime.{
  Call, Env, Error, World, Exec, Outcome, ok, err, panic, blocked, tell, pure, ◌>>◌, on_result,
  >>=-eq-ok,
}
use shortcut.Runtime.Keeps.{Keeps, OnCalls, keeps, >>=-Keeps, pure-Keeps, panics-Keeps, tell-Keeps}
use shortcut.Metrics.Server
use shortcut.Wiring.{
  Event, ended, exit, provide_config, provide_metrics, provide_repository, start_repository,
}
use shortcut.Wiring.Calm.{
  Calm, provide_config-Keeps, provide_metrics-Keeps, provide_repository-Keeps, metrics_stop-Keeps,
  run-Keeps,
}
use shortcut.Process.Config.{BusConfig, AppConfig}
use shortcut.Process.Dlq
use shortcut.Process.Tasks.{TaskRepository}
use shortcut.Process.Daemon
use shortcut.Process.Daemon.{Daemon}
use shortcut.Process.Daemon.Calm.{daemon_new-Keeps, daemon_stop-Keeps}
use shortcut.Process.Main.{
  RunArgs, provide_task_service, provide_daemon, provide_all, stoppables, invoke, with_config, main,
}
use shortcut.Wiring.Tables.{
  HasTables, HasTables-later, Adds, provide_repository-HasTables, start_repository-Ready,
  meanwhile-Ready,
}
use shortcut.Wiring.Tables

-- Which calls start a worker?
abbrev pub starts_worker : Call → Bool
starts_worker (Call.spawn f args) = str_eq f "worker"
starts_worker _ = false

starts_worker-Calm : (c : Call) → Calm c → starts_worker c ≡ false
starts_worker-Calm (Call.spawn f args) q = absurd q
starts_worker-Calm (Call.listen a) q = absurd q
starts_worker-Calm (Call.log l m) q = refl
starts_worker-Calm _ q = refl

-- Every worker was started behind the tables.
abbrev pub TablesFirst : Env → List Call → Type 0
TablesFirst env h = Tables.TablesFirst env starts_worker h

abbrev Ready : Env → List Call → Type 0
Ready env h = Tables.Ready env starts_worker h

TablesFirst-Calm :
    (env : Env) (c : Call) → Calm c → (h : List Call) → TablesFirst env h → TablesFirst env (c ∷ h)
TablesFirst-Calm env c q h t =
    Tables.TablesFirst-other env starts_worker c (starts_worker-Calm c q) h t

Ready-cons : (env : Env) (c : Call) (h : List Call) → Ready env h → Ready env (c ∷ h)
Ready-cons env c h r = Tables.Ready-cons env starts_worker c h r

module _ (env : Env) where
  spawn_workers-Ready : (left i : ℕ) → Keeps (OnCalls (Ready env)) (Daemon.spawn_workers env left i)
  unfolding Daemon.spawn_workers
  spawn_workers-Ready zero i = pure-Keeps (OnCalls (Ready env)) tt
  spawn_workers-Ready (suc left) i =
      >>=-Keeps (OnCalls (Ready env)) (tell (Call.spawn "worker" ((i + 1) ∷ [])))
        (λ _. Daemon.spawn_workers env left (i + 1))
        (tell-Keeps (OnCalls (Ready env)) (Call.spawn "worker" ((i + 1) ∷ []))
          (λ w. Ready-cons env (Call.spawn "worker" ((i + 1) ∷ [])) w.history))
        (λ _. spawn_workers-Ready left (i + 1))

  daemon_start-Ready : (d : Daemon) → Keeps (OnCalls (Ready env)) (Daemon.start env d)
  unfolding Daemon.start
  daemon_start-Ready d = search (keeps, spawn_workers-Ready)

  provide_daemon-Keeps :
      (K : List Call → Type 0) (grow : (c : Call) → Calm c → (h : List Call) → K h → K (c ∷ h))
      (conf : Option BusConfig) (min_io : Option Dlq.Config) (r : TaskRepository)
      → Keeps (OnCalls K) (provide_daemon env conf min_io r)
  unfolding provide_daemon
  provide_daemon-Keeps K grow none min_io r = panics-Keeps (OnCalls K) _
  provide_daemon-Keeps K grow (some _) min_io r = daemon_new-Keeps K grow env min_io _ _ _

  provide_all-HasTables :
      (conf : AppConfig) (args : RunArgs) (w w' : World)
      → provide_all env conf w ≡ (ok args, w')
      → HasTables env w'.history
  unfolding provide_all
  provide_all-HasTables conf args w w' e =
      let (m, w₁, metered, more) = >>=-eq-ok (provide_metrics env conf.metrics) _ w e in
      let (repo, w₂, stored, rest) = >>=-eq-ok (provide_repository env conf.repo_conf) _ w₁ more in
      let (d, w₃, made, last) =
        >>=-eq-ok (provide_daemon env conf.redis_conf conf.min_io_conf (provide_task_service repo))
          _ w₂ rest in
      let has : HasTables env w₃.history =
        subst (λ (p : Outcome Daemon × World). HasTables env p.1.history) made
          ((provide_daemon-Keeps (HasTables env) (λ c q. HasTables-later env c) conf.redis_conf
              conf.min_io_conf (provide_task_service repo)).kept
            w₂ (provide_repository-HasTables env conf.repo_conf repo w₁ w₂ stored)) in
      subst (λ (p : Outcome RunArgs × World). HasTables env p.1.history) last has

  metrics-TablesFirst :
      (conf : Option Server.Config) → Keeps (OnCalls (TablesFirst env)) (provide_metrics env conf)
  metrics-TablesFirst conf =
      provide_metrics-Keeps (TablesFirst env) (TablesFirst-Calm env) env conf (λ c e h t. (tt, t))

  provide_all-TablesFirst :
      (conf : AppConfig) → Keeps (OnCalls (TablesFirst env)) (provide_all env conf)
  unfolding provide_all
  provide_all-TablesFirst conf =
      search (
        keeps, metrics-TablesFirst, provide_repository-Keeps, provide_daemon-Keeps,
        TablesFirst-Calm,
      )

  stoppables-Ready :
      (daemon_first : Bool) (args : RunArgs)
      → All (Keeps (OnCalls (Ready env))) (stoppables env daemon_first args)
  unfolding stoppables
  stoppables-Ready true args = (
    daemon_stop-Keeps (Ready env) (λ (c : Call) (_ : Calm c). Ready-cons env c) env,
    (metrics_stop-Keeps (Ready env) (λ (c : Call) (_ : Calm c). Ready-cons env c) env args.m, tt),
  )
  stoppables-Ready false args = (
    metrics_stop-Keeps (Ready env) (λ (c : Call) (_ : Calm c). Ready-cons env c) env args.m,
    (daemon_stop-Keeps (Ready env) (λ (c : Call) (_ : Calm c). Ready-cons env c) env, tt),
  )

  module _ (meanwhile : Exec (Unit {0})) (adds : Adds meanwhile) where
    begin-Ready :
        (d : Daemon)
        → Keeps (OnCalls (Ready env)) (start_repository >> Daemon.start env d >> meanwhile)
    begin-Ready d =
        >>=-Keeps (OnCalls (Ready env)) (start_repository >> Daemon.start env d) (λ _. meanwhile)
          (>>=-Keeps (OnCalls (Ready env)) start_repository (λ _. Daemon.start env d)
            (start_repository-Ready env starts_worker) (λ _. daemon_start-Ready d))
          (λ _. meanwhile-Ready env starts_worker meanwhile adds)

    invoke-Ready :
        (daemon_first : Bool) (event : Event) (timer_over : Bool) (args : RunArgs)
        → Keeps (OnCalls (Ready env)) (invoke env meanwhile daemon_first event timer_over args)
    unfolding invoke
    invoke-Ready daemon_first event timer_over args =
        run-Keeps (Ready env) (λ (c : Call) (_ : Calm c). Ready-cons env c) _ event timer_over
          (stoppables env daemon_first args) (begin-Ready args.d)
          (stoppables-Ready daemon_first args)

    started :
        (daemon_first : Bool) (event : Event) (timer_over : Bool) (r : Outcome RunArgs) (w : World)
        → ((args : RunArgs) → r ≡ ok args → HasTables env w.history)
        → TablesFirst env w.history
        → TablesFirst env
            (on_result r
              (λ _. exit "Failed to start application: %v")
              (λ args. invoke env meanwhile daemon_first event timer_over args >> pure ended)
              w).1.history
    unfolding exit
    started daemon_first event timer_over (ok args) w has t =
        ((>>=-Keeps (OnCalls (Ready env)) (invoke env meanwhile daemon_first event timer_over args)
            (λ _. pure ended) (invoke-Ready daemon_first event timer_over args)
            (λ _. pure-Keeps (OnCalls (Ready env)) ended)).kept
          w (has args refl, t)).1
    started daemon_first event timer_over (err e) w has t = (tt, t)
    started daemon_first event timer_over (panic m) w has t = t
    started daemon_first event timer_over blocked w has t = t

    module _ (unmarshal : List Call → Error ⊎ AppConfig) (daemon_first : Bool) (event : Event)
        (timer_over : Bool) where
      with_config-TablesFirst :
          (conf : Option AppConfig)
          → Keeps
              (OnCalls (TablesFirst env))
              (with_config env unmarshal meanwhile daemon_first event timer_over conf)
      unfolding with_config
      with_config-TablesFirst none = pure-Keeps (OnCalls (TablesFirst env)) _
      with_config-TablesFirst (some conf) = record {
        kept = λ w h.
            let (r, w') = provide_all env conf w in
            started daemon_first event timer_over r w'
              (λ args e. provide_all-HasTables conf args w w' (λ i. (e i, w')))
              ((provide_all-TablesFirst conf).kept w h);
      }

-- If the goroutines that run beside `main` only add calls, then in every run of `main` each worker
-- is started when ClickHouse has already accepted the four statements that make the tables,
-- whatever the configuration, the answers, the event that ends the loop and the order of the stop.
pub main-TablesFirst :
    (env : Env) (unmarshal : List Call → Error ⊎ AppConfig) (meanwhile : Exec (Unit {0}))
    (daemon_first : Bool) (event : Event) (timer_over : Bool) (w : World)
    → Adds meanwhile
    → TablesFirst env w.history
    → TablesFirst env (main env unmarshal meanwhile daemon_first event timer_over w).1.history
unfolding main
main-TablesFirst env unmarshal meanwhile daemon_first event timer_over w adds t =
    (>>=-Keeps (OnCalls (TablesFirst env)) (provide_config env unmarshal)
        (with_config env unmarshal meanwhile daemon_first event timer_over)
        (provide_config-Keeps (TablesFirst env) (TablesFirst-Calm env) env unmarshal)
        (with_config-TablesFirst env meanwhile adds unmarshal daemon_first event timer_over)).kept
      w t
