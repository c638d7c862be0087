-- ===== src/Submit/Main/Providers.antt =====
-- What the providers of submit_service have done when its services are made.
use mathlib.Core.Path.{subst}
use mathlib.Core.Option.{some-injective}
use shortcut.Prelude.{
  String, str_eq, eq_iff, not, List, ◌∷◌, Option, none, some, ◌⊎◌, Bool, false, ◌≡◌, refl, sym, ap,
  ◌∙◌,
}
use shortcut.Runtime.{Call, Env, Error, World, Outcome, ok, >>=-eq-ok}
use shortcut.Runtime.Keeps.{Keeps, OnCalls, >>=-Keeps, pure-Keeps, panics-Keeps}
use shortcut.Metrics.Server
use shortcut.ClickHouse
use shortcut.Wiring as Shared
use shortcut.Wiring.{Event, ended, exit, start_repository}
use shortcut.Wiring.Calm.{Calm, provide_metrics-Keeps, provide_repository-Keeps}
use shortcut.Wiring.Tables.{
  HasTables, HasTables-later, Adds, provide_repository-HasTables, start_repository-Ready,
  meanwhile-Ready, TablesFirst-other, Ready-cons,
}
use shortcut.Wiring.Tables
use shortcut.Submit.Config.{BusConfig, AppConfig}
use shortcut.Submit.Wiring.{provide_config, provide_metrics, provide_repository}
use shortcut.Submit.Tasks.{TaskService}
use shortcut.Submit.WebApi
use shortcut.Submit.WebApi.{Api}
use shortcut.Submit.Main.{
  RunArgs, provide_task_service, provide_task_producer, provide_web_api, provide_all,
}

-- Which calls start a server at another address than this one?
abbrev pub listens_elsewhere : String → Call → Bool
listens_elsewhere addr (Call.listen a) = not (str_eq a addr)
listens_elsewhere addr _ = false

listens_elsewhere-Calm : (addr : String) (c : Call) → Calm c → listens_elsewhere addr c ≡ false
listens_elsewhere-Calm addr (Call.spawn f args) q = absurd q
listens_elsewhere-Calm addr (Call.listen a) q = absurd q
listens_elsewhere-Calm addr (Call.log l m) q = refl
listens_elsewhere-Calm addr _ q = refl

-- Every server but the one at this address was started behind the tables.
abbrev pub TablesFirst : Env → String → List Call → Type 0
TablesFirst env addr h = Tables.TablesFirst env (listens_elsewhere addr) h

abbrev pub Ready : Env → String → List Call → Type 0
Ready env addr h = Tables.Ready env (listens_elsewhere addr) h

module _ (env : Env) where
  same_metrics :
      (conf : Option Server.Config) → Shared.provide_metrics env conf ≡ provide_metrics env conf
  unfolding Shared.provide_metrics provide_metrics
  same_metrics none = refl
  same_metrics (some conf) = refl

  same_repository :
      (conf : Option ClickHouse.Config)
      → Shared.provide_repository env conf ≡ provide_repository env conf
  unfolding Shared.provide_repository provide_repository
  same_repository none = refl
  same_repository (some conf) = refl

  pub same_config :
      (unmarshal : List Call → Error ⊎ AppConfig)
      → Shared.provide_config env unmarshal ≡ provide_config env unmarshal
  unfolding Shared.provide_config provide_config
  same_config unmarshal = refl

module _ (env : Env) (addr : String) where
  abbrev starts : Call → Bool
  starts = listens_elsewhere addr

  pub TablesFirst-Calm :
      (c : Call) → Calm c → (h : List Call) → TablesFirst env addr h → TablesFirst env addr (c ∷ h)
  TablesFirst-Calm c q h t = TablesFirst-other env starts c (listens_elsewhere-Calm addr c q) h t

  -- With the tables, every call is allowed.
  pub grow : (c : Call) → Calm c → (h : List Call) → Ready env addr h → Ready env addr (c ∷ h)
  grow c q h r = Ready-cons env starts c h r

  -- The metrics listen at the address that is left out.
  metrics-TablesFirst :
      (conf : Option Server.Config) (m : Server.Config)
      → conf ≡ some m
      → m.addr ≡ addr
      → Keeps (OnCalls (TablesFirst env addr)) (provide_metrics env conf)
  metrics-TablesFirst conf m e same =
      subst (Keeps (OnCalls (TablesFirst env addr))) (same_metrics env conf) (
        provide_metrics-Keeps (TablesFirst env addr) TablesFirst-Calm env conf
          (λ c f h t. TablesFirst-other env starts (Call.listen c.addr) (left_out c f) h t))
    where
      left_out : (c : Server.Config) → conf ≡ some c → not (str_eq c.addr addr) ≡ false
      left_out c f = ap not (
          (eq_iff c.addr addr).1
            (ap (λ (x : Server.Config). x.addr) (some-injective c m (sym f ∙ e)) ∙ same))

  provide_web_api-Keeps :
      (K : List Call → Type 0) (conf : Option WebApi.Config) (s : TaskService)
      → Keeps (OnCalls K) (provide_web_api conf s)
  unfolding provide_web_api
  provide_web_api-Keeps K none s = panics-Keeps (OnCalls K) _
  provide_web_api-Keeps K (some conf) s = pure-Keeps (OnCalls K) _

  provide_task_producer-Keeps :
      (K : List Call → Type 0) (conf : Option BusConfig)
      → Keeps (OnCalls K) (provide_task_producer conf)
  unfolding provide_task_producer
  provide_task_producer-Keeps K none = panics-Keeps (OnCalls K) _
  provide_task_producer-Keeps K (some conf) = pure-Keeps (OnCalls K) _

  repository-TablesFirst :
      (conf : Option ClickHouse.Config)
      → Keeps (OnCalls (TablesFirst env addr)) (provide_repository env conf)
  repository-TablesFirst conf =
      subst (Keeps (OnCalls (TablesFirst env addr))) (same_repository env conf)
        (provide_repository-Keeps (TablesFirst env addr) TablesFirst-Calm env conf)

  pub provide_all-TablesFirst :
      (conf : AppConfig) (m : Server.Config)
      → conf.metrics ≡ some m
      → m.addr ≡ addr
      → Keeps (OnCalls (TablesFirst env addr)) (provide_all env conf)
  unfolding provide_all
  provide_all-TablesFirst conf m e same =
      let metrics : Keeps (OnCalls (TablesFirst env addr)) (provide_metrics env conf.metrics) =
        metrics-TablesFirst conf.metrics m e same in
      let K = OnCalls (TablesFirst env addr) in
      >>=-Keeps K (provide_metrics env conf.metrics) _ metrics (λ m.
        >>=-Keeps K (provide_repository env conf.repo_conf) _
          (repository-TablesFirst conf.repo_conf)
          (λ repo.
            >>=-Keeps K (provide_task_producer conf.redis_conf) _
              (provide_task_producer-Keeps (TablesFirst env addr) conf.redis_conf)
              (λ _.
                >>=-Keeps K (provide_web_api conf.web_api (provide_task_service repo)) _
                  (provide_web_api-Keeps (TablesFirst env addr) conf.web_api
                    (provide_task_service repo))
                  (λ api. pure-Keeps K (record { repo = repo; m = m; api = api })))))

  pub provide_all-HasTables :
      (conf : AppConfig) (args : RunArgs) (w w' : World)
      → provide_all env conf w ≡ (ok args, w')
      → HasTables env w'.history
  unfolding provide_all
  provide_all-HasTables conf args w w' e =
      let (m, w₁, metered, more) = >>=-eq-ok (provide_metrics env conf.metrics) _ w e in
      let (repo, w₂, stored, rest) = >>=-eq-ok (provide_repository env conf.repo_conf) _ w₁ more in
      let (t, w₃, produced, last) = >>=-eq-ok (provide_task_producer conf.redis_conf) _ w₂ rest in
      let (api, w₄, served, end) =
        >>=-eq-ok (provide_web_api conf.web_api (provide_task_service repo)) _ w₃ last in
      let has : HasTables env w₂.history =
        provide_repository-HasTables env conf.repo_conf repo w₁ w₂
          (rw (same_repository env conf.repo_conf) stored) in
      let has₃ : HasTables env w₃.history =
        subst (λ (p : Outcome (Unit {0}) × World). HasTables env p.1.history) produced
          ((provide_task_producer-Keeps (HasTables env) conf.redis_conf).kept w₂ has) in
      let has₄ : HasTables env w₄.history =
        subst (λ (p : Outcome Api × World). HasTables env p.1.history) served
          ((provide_web_api-Keeps (HasTables env) conf.web_api (provide_task_service repo)).kept w₃
            has₃) in
      subst (λ (p : Outcome RunArgs × World). HasTables env p.1.history) end has₄
