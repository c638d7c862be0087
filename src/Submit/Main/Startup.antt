-- ===== src/Submit/Main/Startup.antt =====
-- What submit_service has done before its API listens.
use mathlib.Core.Path.{subst}
use shortcut.Prelude.{String, List, Option, some, ◌⊎◌, Bool, true, false, ◌≡◌, refl, ap, ◌∙◌, All}
use shortcut.Runtime.{
  Call, Env, Error, World, Exec, Outcome, ok, err, panic, blocked, tell, pure, call, ◌>>◌,
  on_result,
}
use shortcut.Runtime.Keeps.{Keeps, OnCalls, keeps, >>=-Keeps, pure-Keeps, tell-Keeps, call-Keeps}
use shortcut.Metrics.Server
use shortcut.Wiring.{Event, ended, exit, start_repository}
use shortcut.Wiring.Calm.{provide_config-Keeps, metrics_stop-Keeps, run-Keeps}
use shortcut.Wiring.Tables.{HasTables, Adds, start_repository-Ready, meanwhile-Ready, Ready-cons}
use shortcut.Submit.Config.{AppConfig}
use shortcut.Submit.Wiring.{run, provide_config}
use shortcut.Submit.WebApi
use shortcut.Submit.WebApi.{Api}
use shortcut.Submit.Main.Providers.{
  listens_elsewhere, TablesFirst, Ready, TablesFirst-Calm, grow, same_config,
  provide_all-TablesFirst, provide_all-HasTables,
}
use shortcut.Submit.Main.{RunArgs, provide_all, stoppables, invoke, with_config, main}

module _ (env : Env) (addr : String) where
  tell-Ready : (c : Call) → Keeps (OnCalls (Ready env addr)) (tell c)
  tell-Ready c =
      tell-Keeps (OnCalls (Ready env addr)) c
        (λ w. Ready-cons env (listens_elsewhere addr) c w.history)

  call-Ready :
      (c : Call) (reply : List Call → Outcome (Unit {0}))
      → Keeps (OnCalls (Ready env addr)) (call c reply)
  call-Ready c reply =
      call-Keeps (OnCalls (Ready env addr)) c reply
        (λ w. Ready-cons env (listens_elsewhere addr) c w.history)

  web_api_stop-Ready : (a : String) → Keeps (OnCalls (Ready env addr)) (WebApi.stop env a)
  unfolding WebApi.stop
  web_api_stop-Ready a = search (keeps, tell-Ready, call-Ready) depth 12

  web_api_start-Ready : (a : String) → Keeps (OnCalls (Ready env addr)) (WebApi.start env a)
  unfolding WebApi.start
  web_api_start-Ready a = search (keeps, tell-Ready)

  stoppables-Ready :
      (api_first : Bool) (args : RunArgs)
      → All (Keeps (OnCalls (Ready env addr))) (stoppables env api_first args)
  unfolding stoppables
  stoppables-Ready true args = (
    web_api_stop-Ready args.api.server_addr,
    (metrics_stop-Keeps (Ready env addr) (grow env addr) env args.m, tt),
  )
  stoppables-Ready false args = (
    metrics_stop-Keeps (Ready env addr) (grow env addr) env args.m,
    (web_api_stop-Ready args.api.server_addr, tt),
  )

  module _ (meanwhile : Exec (Unit {0})) (adds : Adds meanwhile) (api_first : Bool) (event : Event)
      (timer_over : Bool) where
    begin-Ready :
        (a : String)
        → Keeps (OnCalls (Ready env addr)) (start_repository >> WebApi.start env a >> meanwhile)
    begin-Ready a =
        >>=-Keeps (OnCalls (Ready env addr)) (start_repository >> WebApi.start env a)
          (λ _. meanwhile)
          (>>=-Keeps (OnCalls (Ready env addr)) start_repository (λ _. WebApi.start env a)
            (start_repository-Ready env (listens_elsewhere addr)) (λ _. web_api_start-Ready a))
          (λ _. meanwhile-Ready env (listens_elsewhere addr) meanwhile adds)

    invoke-Ready :
        (args : RunArgs)
        → Keeps (OnCalls (Ready env addr)) (invoke env meanwhile api_first event timer_over args)
    unfolding invoke run
    invoke-Ready args =
        run-Keeps (Ready env addr) (grow env addr) _ event timer_over
          (stoppables env api_first args) (begin-Ready args.api.server_addr)
          (stoppables-Ready api_first args)

    begun :
        (r : Outcome RunArgs) (w : World)
        → ((args : RunArgs) → r ≡ ok args → HasTables env w.history)
        → TablesFirst env addr w.history
        → TablesFirst env addr
            (on_result r
              (λ _. exit "Failed to start application: %v")
              (λ args. invoke env meanwhile api_first event timer_over args >> pure ended)
              w).1.history
    unfolding exit
    begun (ok args) w has t =
        ((>>=-Keeps (OnCalls (Ready env addr))
            (invoke env meanwhile api_first event timer_over args) (λ _. pure ended)
            (invoke-Ready args) (λ _. pure-Keeps (OnCalls (Ready env addr)) ended)).kept
          w (has args refl, t)).1
    begun (err e) w has t = (tt, t)
    begun (panic m) w has t = t
    begun blocked w has t = t

-- If the configuration is read and has a section for the metrics, and the goroutines beside `main`
-- only add calls, then in every run of `main` each server other than that of the metrics, so the
-- API that takes the tasks, begins to listen when ClickHouse has already accepted the four
-- statements that make the tables, whatever the answers, the event that ends the loop and the order
-- of the stop.
pub main_listens_behind_tables :
    (env : Env) (unmarshal : List Call → Error ⊎ AppConfig) (meanwhile : Exec (Unit {0}))
    (api_first : Bool) (event : Event) (timer_over : Bool) (conf : AppConfig) (m : Server.Config)
    (w w₁ : World)
    → provide_config env unmarshal w ≡ (ok (some conf), w₁)
    → conf.metrics ≡ some m
    → Adds meanwhile
    → TablesFirst env m.addr w.history
    → TablesFirst env m.addr (main env unmarshal meanwhile api_first event timer_over w).1.history
unfolding main with_config
main_listens_behind_tables env unmarshal meanwhile api_first event timer_over conf m w w₁ read has
      adds t =
    let t₁ : TablesFirst env m.addr w₁.history =
      subst (λ (p : Outcome (Option AppConfig) × World). TablesFirst env m.addr p.1.history)
        (ap (λ f. f w) (same_config env unmarshal) ∙ read)
        ((provide_config-Keeps (TablesFirst env m.addr) (TablesFirst-Calm env m.addr) env
            unmarshal).kept
          w t) in
    let (r, w₂) = provide_all env conf w₁ in
    rw read (
      begun env m.addr meanwhile adds api_first event timer_over r w₂
        (λ args e. provide_all-HasTables env m.addr conf args w₁ w₂ (λ i. (e i, w₂)))
        ((provide_all-TablesFirst env m.addr conf m has refl).kept w₁ t₁))
