-- ===== src/Wiring/Calm.antt =====
-- What starts a process up keeps every predicate on the calls made that calls other than a `go`
-- statement keep.
use shortcut.Prelude.{
  All, true, false, String, List, [], ◌∷◌, Option, none, some, ◌⊎◌, Bool, ◌≡◌, refl,
}
use shortcut.Runtime.{
  Call, Env, Error, Exec, Level, pure, tell, call, checked, Outcome, try, Collector,
}
use shortcut.Runtime.Keeps.{
  Keeps, OnCalls, keeps, >>=-Keeps, try-Keeps, pure-Keeps, panics-Keeps, call-Keeps, tell-Keeps,
}
use shortcut.Metrics.Collectors.{register_all, register_metrics, new_recorder, metrics_to_register}
use shortcut.Metrics.Server
use shortcut.ClickHouse
use shortcut.ClickHouse.{exec, exec_all, ensure_tables, new_client, new_service}
use shortcut.Config.{add_config_paths, unmarshal_config, get_conf}
use shortcut.Wiring.{
  stop_all, stop, run, Event, signal, repo_error, provide_config, provide_metrics,
  provide_repository,
}

-- A call that starts no goroutine and no server.
abbrev pub Calm : Call → Type 0
Calm (Call.spawn _ _) = ⊥
Calm (Call.listen _) = ⊥
Calm _ = Unit

module _ (K : List Call → Type 0)
    (grow : (c : Call) → Calm c → (h : List Call) → K h → K (c ∷ h)) where
  pub tell-Calm : (c : Call) → Calm c → Keeps (OnCalls K) (tell c)
  tell-Calm c q = tell-Keeps (OnCalls K) c (λ w. grow c q w.history)

  pub call-Calm :
      {A : Type 0} (c : Call) (reply : List Call → Outcome A)
      → Calm c
      → Keeps (OnCalls K) (call c reply)
  call-Calm c reply q = call-Keeps (OnCalls K) c reply (λ w. grow c q w.history)

  module _ (env : Env) where
    add_config_paths-Keeps : (paths : List String) → Keeps (OnCalls K) (add_config_paths paths)
    unfolding add_config_paths
    add_config_paths-Keeps [] = pure-Keeps (OnCalls K) tt
    add_config_paths-Keeps (p ∷ ps) =
        >>=-Keeps (OnCalls K) (tell (Call.add_config_path p)) (λ _. add_config_paths ps)
          (tell-Calm (Call.add_config_path p) tt) (λ _. add_config_paths-Keeps ps)

    unmarshal_config-Keeps :
        {A : Type 0} (unmarshal : List Call → Error ⊎ A)
        → Keeps (OnCalls K) (unmarshal_config env unmarshal)
    unfolding unmarshal_config
    unmarshal_config-Keeps unmarshal = search (keeps, tell-Calm, call-Calm)

    pub get_conf-Keeps :
        {A : Type 0} (unmarshal : List Call → Error ⊎ A)
        → Keeps (OnCalls K) (get_conf env unmarshal)
    unfolding get_conf
    get_conf-Keeps unmarshal =
        search (keeps, tell-Calm, call-Calm, add_config_paths-Keeps, unmarshal_config-Keeps) depth
          12

    pub provide_config-Keeps :
        {A : Type 0} (unmarshal : List Call → Error ⊎ A)
        → Keeps (OnCalls K) (provide_config env unmarshal)
    unfolding provide_config
    provide_config-Keeps unmarshal = search (keeps, tell-Calm, get_conf-Keeps)

    register_all-Keeps : (cs : List Collector) → Keeps (OnCalls K) (register_all env cs)
    unfolding register_all
    register_all-Keeps [] = pure-Keeps (OnCalls K) tt
    register_all-Keeps (c ∷ cs) =
        >>=-Keeps (OnCalls K) (call (Call.register c) (λ h. checked (env.register_reply h)))
          (λ _. register_all env cs)
          (call-Calm (Call.register c) (λ h. checked (env.register_reply h)) tt)
          (λ _. register_all-Keeps cs)

    start_api-Keeps :
        (api : Server.Api)
        → ((h : List Call) → K h → K (Call.listen api.conf.addr ∷ h))
        → Keeps (OnCalls K) (Server.start_api env (some api))
    unfolding Server.start_api Server.api_start
    start_api-Keeps api listens =
        >>=-Keeps (OnCalls K) (tell (Call.log Level.info "Starting metrics API"))
          (λ _. tell (Call.listen api.conf.addr))
          (tell-Calm (Call.log Level.info "Starting metrics API") tt)
          (λ _. tell-Keeps (OnCalls K) (Call.listen api.conf.addr) (λ w. listens w.history))

    metrics_start-Keeps :
        (conf : Server.Config)
        → ((h : List Call) → K h → K (Call.listen conf.addr ∷ h))
        → Keeps (OnCalls K) (Server.start env (Server.new conf))
    unfolding Server.start Server.new register_metrics
    metrics_start-Keeps conf listens =
        >>=-Keeps (OnCalls K) (register_metrics env new_recorder)
          (λ _. Server.start_api env (some (Server.new_api conf)))
          (register_all-Keeps (metrics_to_register new_recorder))
          (λ _. start_api-Keeps (Server.new_api conf) listens)

    -- The server of the metrics may listen.
    pub provide_metrics-Keeps :
        (conf : Option Server.Config)
        → ((c : Server.Config) → conf ≡ some c → (h : List Call) → K h → K (Call.listen c.addr ∷ h))
        → Keeps (OnCalls K) (provide_metrics env conf)
    unfolding provide_metrics
    provide_metrics-Keeps none listens = panics-Keeps (OnCalls K) _
    provide_metrics-Keeps (some conf) listens =
        try-Keeps (OnCalls K) (Server.start env (Server.new conf)) _ _
          (metrics_start-Keeps conf (listens conf refl))
          (λ _. pure-Keeps (OnCalls K) (Server.new conf))
          (λ _. pure-Keeps (OnCalls K) (Server.new conf))

    exec_all-Keeps : (ddls : List String) → Keeps (OnCalls K) (exec_all env ddls)
    unfolding exec_all exec
    exec_all-Keeps [] = pure-Keeps (OnCalls K) tt
    exec_all-Keeps (ddl ∷ ddls) =
        >>=-Keeps (OnCalls K) (exec env ddl []) (λ _. exec_all env ddls)
          (call-Calm (Call.exec ddl []) (λ h. checked (env.exec_reply h)) tt)
          (λ _. exec_all-Keeps ddls)

    pub provide_repository-Keeps :
        (conf : Option ClickHouse.Config) → Keeps (OnCalls K) (provide_repository env conf)
    unfolding provide_repository new_service new_client ensure_tables exec
    provide_repository-Keeps none = panics-Keeps (OnCalls K) _
    provide_repository-Keeps (some conf) = search (keeps, call-Calm, exec_all-Keeps)

    stop_api-Keeps : (api : Option Server.Api) → Keeps (OnCalls K) (Server.stop_api env api)
    unfolding Server.stop_api
    stop_api-Keeps none = search (keeps)
    stop_api-Keeps (some api) = search (call-Calm)

    pub metrics_stop-Keeps : (s : Server.Service) → Keeps (OnCalls K) (Server.stop env s)
    unfolding Server.stop
    metrics_stop-Keeps s = stop_api-Keeps s.api

-- What the main loop does keeps what its parts keep.
module _ (K : List Call → Type 0)
    (grow : (c : Call) → Calm c → (h : List Call) → K h → K (c ∷ h)) where
  stop_all-Keeps :
      (ss : List (Exec (Unit {0}))) → All (Keeps (OnCalls K)) ss → Keeps (OnCalls K) (stop_all ss)
  unfolding stop_all
  stop_all-Keeps [] a = pure-Keeps (OnCalls K) tt
  stop_all-Keeps (s ∷ ss) a =
      >>=-Keeps (OnCalls K)
        (try s (λ _. tell (Call.log Level.error "Error stopping service: %v")) pure)
        (λ _. stop_all ss)
        (try-Keeps (OnCalls K) s _ pure a.0
          (λ _. tell-Calm K grow (Call.log Level.error "Error stopping service: %v") tt)
          (pure-Keeps (OnCalls K)))
        (λ _. stop_all-Keeps ss a.1)

  stop-Keeps :
      (b : Bool) (ss : List (Exec (Unit {0})))
      → All (Keeps (OnCalls K)) ss
      → Keeps (OnCalls K) (stop b ss)
  unfolding stop
  stop-Keeps true ss a =
      tell-Calm K grow (Call.log Level.info "Shutdown timed out, exiting immediately") tt
  stop-Keeps false ss a = stop_all-Keeps ss a

  pub run-Keeps :
      (begin : Exec (Unit {0})) (event : Event) (b : Bool) (ss : List (Exec (Unit {0})))
      → Keeps (OnCalls K) begin
      → All (Keeps (OnCalls K)) ss
      → Keeps (OnCalls K) (run begin event b ss)
  unfolding run
  run-Keeps begin signal b ss k a = search (keeps, tell-Calm, stop-Keeps)
  run-Keeps begin (repo_error e) b ss k a = search (keeps, tell-Calm, stop-Keeps)
