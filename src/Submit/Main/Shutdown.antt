-- ===== src/Submit/Main/Shutdown.antt =====
-- The end of submit_service.
use shortcut.Prelude.{
  String, str_eq, Bool, true, false, List, [], ◌∷◌, ◌⊎◌, inl, inr, Option, Option-cases, none, some,
  ◌||◌, ◌≡◌, refl, ◌∙◌, eq_iff,
}
use shortcut.Runtime.{Call, Env, Error, World, Exec, ok, tell, pure, try, ◌>>◌, Level}
use shortcut.Metrics.Server
use shortcut.Wiring
use shortcut.Wiring.{Event, signal, repo_error, Ending, ended, run, start_repository, stop_all}
use shortcut.Submit.Config.{AppConfig}
use shortcut.Submit.Wiring.{provide_config}
use shortcut.Submit.WebApi
use shortcut.Submit.Main.{RunArgs, provide_all, stoppables, invoke, with_config, main}

-- Was the server at this address told to shut down?
unfoldable pub told : String → List Call → Bool
told addr [] = false
told addr (Call.shutdown a ∷ h) = str_eq a addr || told addr h
told addr (_ ∷ h) = told addr h

-- The server of the metrics, if there is one, was told.
abbrev pub ToldMetrics : Option Server.Api → List Call → Type 0
ToldMetrics none h = Unit
ToldMetrics (some a) h = told a.conf.addr h ≡ true

-- No submission is taken any more, and both servers were told to shut down.
abbrev pub Closed : RunArgs → World → Type 0
Closed args w =
    (w.shutting_down ≡ true)
    × (told args.api.server_addr w.history ≡ true)
    × ToldMetrics args.m.api w.history

or_true : (b : Bool) {c : Bool} → c ≡ true → (b || c) ≡ true
or_true true e = refl
or_true false e = e

-- A method that always returns without an error.
abbrev pub Finishes : Exec (Unit {0}) → Type 0
Finishes m = (w : World) → (w' : World) × (m w ≡ (ok tt, w'))

complain : Exec (Unit {0}) → Exec (Unit {0})
complain s = try s (λ _. tell (Call.log Level.error "Error stopping service: %v")) pure

-- What a stop of a service does to the process: it goes on, and no server that was told is
-- forgotten.
abbrev GoesOn : Exec (Unit {0}) → World → Type 0
GoesOn m w =
    ((m w).0 ≡ ok tt) × ((a : String) → told a w.history ≡ true → told a (m w).1.history ≡ true)

module _ (env : Env) where
  web_stop-told :
      (addr : String) (w : World)
      → GoesOn (complain (WebApi.stop env addr)) w
        × ((complain (WebApi.stop env addr) w).1.shutting_down ≡ true)
        × (told addr (complain (WebApi.stop env addr) w).1.history ≡ true)
  unfolding complain WebApi.stop told
  web_stop-told addr w =
      let same : str_eq addr addr ≡ true = (eq_iff addr addr).1 refl in
      let sent : List Call =
        Call.shutdown addr
        ∷ Call.sleep 5000
        ∷ Call.log Level.info "Readiness probe set to unhealthy, waiting for traffic to drain..."
        ∷ w.history in
      elim (Option-cases (env.shutdown_reply sent)) [
        | inl none_at ↦ rw (none_at, same) ((refl, λ a t. or_true (str_eq addr a) t), refl, refl)
        | inr (e, some_at) ↦
            rw (some_at, same) ((refl, λ a t. or_true (str_eq addr a) t), refl, refl)
      ]

  api_stop-told :
      (api : Option Server.Api) (w : World)
      → GoesOn (complain (Server.stop_api env api)) w
        × ((complain (Server.stop_api env api) w).1.shutting_down ≡ w.shutting_down)
        × ToldMetrics api (complain (Server.stop_api env api) w).1.history
  unfolding complain Server.stop_api told
  api_stop-told none w = ((refl, λ a t. t), refl, tt)
  api_stop-told (some api) w =
      let same : str_eq api.conf.addr api.conf.addr ≡ true =
        (eq_iff api.conf.addr api.conf.addr).1 refl in
      let sent : List Call = Call.shutdown api.conf.addr ∷ w.history in
      elim (Option-cases (env.shutdown_reply sent)) [
        | inl none_at ↦
            rw (none_at, same) ((refl, λ a t. or_true (str_eq api.conf.addr a) t), refl, refl)
        | inr (e, some_at) ↦
            rw (some_at, same) ((refl, λ a t. or_true (str_eq api.conf.addr a) t), refl, refl)
      ]

  ToldMetrics-goes_on :
      (api : Option Server.Api) (h h' : List Call)
      → ((a : String) → told a h ≡ true → told a h' ≡ true)
      → ToldMetrics api h
      → ToldMetrics api h'
  ToldMetrics-goes_on none h h' on t = tt
  ToldMetrics-goes_on (some api) h h' on t = on api.conf.addr t

  stop_all-Closed :
      (api_first : Bool) (args : RunArgs) (w : World)
      → let done = stop_all (stoppables env api_first args) w in
        (done.0 ≡ ok tt) × Closed args done.1
  unfolding stop_all stoppables complain Server.stop
  stop_all-Closed true args w =
      let (web, down, gone) = web_stop-told args.api.server_addr w in
      let w₁ = (complain (WebApi.stop env args.api.server_addr) w).1 in
      let (metrics, still, last) = api_stop-told args.m.api w₁ in
      rw (web.0, metrics.0) (refl, (still ∙ down, metrics.1 args.api.server_addr gone, last))
  stop_all-Closed false args w =
      let (metrics, still, last) = api_stop-told args.m.api w in
      let w₁ = (complain (Server.stop_api env args.m.api) w).1 in
      let (web, down, gone) = web_stop-told args.api.server_addr w₁ in
      rw (metrics.0, web.0)
        (refl, (down, gone, ToldMetrics-goes_on args.m.api w₁.history _ web.1 last))

  -- The process when its goroutines take over.
  begun : RunArgs → World → World
  unfolding start_repository WebApi.start
  begun args w = ((start_repository >> WebApi.start env args.api.server_addr) w).1

  module _ (meanwhile : Exec (Unit {0})) (finishes : Finishes meanwhile) (api_first : Bool)
      (args : RunArgs) where
    invoke-Closed :
        (event : Event) (w : World)
        → let done = invoke env meanwhile api_first event false args w in
          (done.0 ≡ ok tt) × Closed args done.1
    unfolding begun invoke run start_repository WebApi.start Wiring.stop
    invoke-Closed signal w =
        let (w', e) = finishes (begun args w) in
        let (r, c) = stop_all-Closed api_first args (record w' {
          history = Call.log Level.info "Received shutdown signal, exiting..." ∷ w'.history;
        }) in
        rw (e, r) (refl, c)
    invoke-Closed (repo_error x) w =
        let (w', e) = finishes (begun args w) in
        let (r, c) =
          stop_all-Closed api_first args
            (record w' { history = Call.log Level.error "repository error: %v" ∷ w'.history }) in
        rw (e, r) (refl, c)

-- If the configuration is read, all services are made, the goroutines beside `main` return to its
-- loop, and the timer of the stop is not over, then `main` ends without an error or a panic, in
-- either order of the stop and whatever a server answers to its shutdown: no submission is taken
-- any more, and the servers of the tasks and of the metrics were told to shut down.
pub main-Closed :
    (env : Env) (unmarshal : List Call → Error ⊎ AppConfig) (meanwhile : Exec (Unit {0}))
    (api_first : Bool) (event : Event) (conf : AppConfig) (args : RunArgs) (w w₁ w₂ : World)
    → provide_config env unmarshal w ≡ (ok (some conf), w₁)
    → provide_all env conf w₁ ≡ (ok args, w₂)
    → Finishes meanwhile
    → let done = main env unmarshal meanwhile api_first event false w in
      (done.0 ≡ ok ended) × Closed args done.1
unfolding main with_config
main-Closed env unmarshal meanwhile api_first event conf args w w₁ w₂ read made finishes =
    let (r, c) = invoke-Closed env meanwhile finishes api_first args event w₂ in
    rw (read, made, r) (refl, c)
