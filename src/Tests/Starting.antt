-- ===== src/Tests/Starting.antt =====
-- The theorems on starting, stopping and admitting at sample values.
use shortcut.Prelude.{
  ℕ, suc, String, str_eq, str_append, Bool, true, false, List, [], ◌∷◌, Option, none, some, inl,
  inr, ◌≡◌, sym, ap, ◌∙◌, refl, arith, map, if◌then◌else◌, ◌||◌, Bool-cases,
}
use shortcut.Runtime.{Call, Env, Error, message, World, pure, ok, err, Collector}
use shortcut.Metrics.Collectors.{new_recorder, metrics_to_register, register_metrics}
use shortcut.Metrics.Registry.{IsRegistry, taken, full_names, registered, register_metrics_once}
use shortcut.Wiring.{signal, ended}
use shortcut.Submit.Wiring.{provide_config}
use shortcut.Process.Config.{AppConfig}
use shortcut.Process.Main.{main}
use shortcut.Process.Main.Startup.{TablesFirst, main-TablesFirst}
use shortcut.Metrics.Server
use shortcut.Submit.WebApi
use shortcut.Submit.Config.{AppConfig as SubmitConfig}
use shortcut.Submit.Main as SubmitMain
use shortcut.Submit.Main.{RunArgs}
use shortcut.Submit.Main.Providers
use shortcut.Submit.Main.Startup.{main_listens_behind_tables}
use shortcut.Submit.Main.Shutdown.{Closed, main-Closed}
use shortcut.Tests.Samples.{env, new_world, client}

-- A registry that joins the names, and holds them.
abbrev fq_name : Collector → String
fq_name c = str_append c.subsystem (str_append "_" c.name)

unfoldable has : String → List String → Bool
has name [] = false
has name (n ∷ ns) = str_eq n name || has name ns

unfoldable held : List Call → List String
unfolding has
held [] = []
held (Call.register c ∷ h) = let ns = held h in if has (fq_name c) ns then ns else fq_name c ∷ ns
held (_ ∷ h) = held h

unfoldable answer : List Call → Option Error
unfolding has held
answer [] = none
answer (Call.register c ∷ h) =
    if has (fq_name c) (held h)
    then some (message "duplicate metrics collector registration")
    else none
answer (_ ∷ h) = none

abbrev registering : Env
registering = record env { register_reply = answer }

taken-held : (n : String) (h : List Call) → taken registering fq_name n h ≡ has n (held h)
unfolding taken answer held has
taken-held n [] = refl
taken-held n (Call.register c ∷ h) = elim (Bool-cases (has (fq_name c) (held h))) [
  | inl old ↦ rw (old, taken-held n h) (ground arith)
  | inr new ↦ rw (new, taken-held n h) (ground arith)
]
taken-held n (Call.log l m ∷ h) = taken-held n h
taken-held n (_ ∷ h) = taken-held n h

-- The answer to a name that is taken, or not.
reply_if : Bool → Option Error
reply_if b = if b then some (message "duplicate metrics collector registration") else none

registering-IsRegistry : IsRegistry registering fq_name
unfolding answer reply_if
registering-IsRegistry = record {
  joined = λ c n s m. refl;
  refuses = λ c h t. (
    message "duplicate metrics collector registration",
    ap reply_if (sym (taken-held (fq_name c) h) ∙ t),
  );
  takes = λ c h t. ap reply_if (sym (taken-held (fq_name c) h) ∙ t);
}

register_metrics_once_example :
    let cs = metrics_to_register new_recorder in
    let done = record new_world { history = registered registering fq_name cs [] } in
    (map fq_name cs ≡ full_names registering fq_name registering-IsRegistry)
    × (register_metrics registering new_recorder new_world ≡ (ok tt, done))
    × (e : Error) × (register_metrics registering new_recorder done
        ≡ (err e, record done { history = Call.register new_recorder.active_tasks ∷ done.history }))
unfolding taken
register_metrics_once_example =
    register_metrics_once registering fq_name registering-IsRegistry new_world
      (refl, (refl, (refl, (refl, (refl, (refl, (refl, tt)))))))

-- A configuration with all its sections.
abbrev conf : AppConfig
conf = record {
  redis_conf = some (record { redis_addr = "localhost:6379" });
  min_io_conf = none;
  repo_conf = some client.conf;
  metrics = some (record { addr = ":9090"; endpoint = "/metrics" });
}

main-TablesFirst_example :
    TablesFirst env (main env (λ _. inr conf) (pure tt) true signal false new_world).1.history
main-TablesFirst_example =
    main-TablesFirst env (λ _. inr conf) (pure tt) true signal false new_world (λ w. ([], refl)) tt

-- The run of the witness comes to the end of `main`.
main_ends : (main env (λ _. inr conf) (pure tt) true signal false new_world).0 ≡ ok ended
unfolding main
main_ends = refl

-- The workers that were started.
abbrev workers_of : List Call → ℕ
workers_of [] = 0
workers_of (Call.spawn f args ∷ h) = let n = workers_of h in if str_eq f "worker" then suc n else n
workers_of (_ ∷ h) = workers_of h

-- The run of the witness has started its five workers.
five_workers :
    workers_of (main env (λ _. inr conf) (pure tt) true signal false new_world).1.history ≡ 5
unfolding main
five_workers = refl

abbrev submit_conf : SubmitConfig
submit_conf = record {
  redis_conf = some (record { redis_addr = "localhost:6379" });
  repo_conf = some client.conf;
  metrics = some (record { addr = ":9090"; endpoint = "/metrics" });
  web_api = some (record { addr = ":8080" });
}

-- The servers do not shut down in time.
abbrev hanging : Env
hanging = record env { shutdown_reply = λ _. some (message "context deadline exceeded") }

abbrev configured : World
configured = (provide_config hanging (λ _. inr submit_conf) new_world).1

abbrev provided : World
provided = (SubmitMain.provide_all hanging submit_conf configured).1

abbrev run_args : RunArgs
run_args = record {
  repo = record { client = client; has_metrics = true };
  m = Server.new (record { addr = ":9090"; endpoint = "/metrics" });
  api =
      WebApi.new (record { addr = ":8080" })
        (SubmitMain.provide_task_service (record { client = client; has_metrics = true }));
}

main_listens_behind_tables_example :
    let done =
      SubmitMain.main hanging (λ _. inr submit_conf) (pure tt) true signal false new_world in
    Providers.TablesFirst hanging ":9090" done.1.history
unfolding provide_config
main_listens_behind_tables_example =
    main_listens_behind_tables hanging (λ _. inr submit_conf) (pure tt) true signal false
      submit_conf (record { addr = ":9090"; endpoint = "/metrics" }) new_world configured refl refl
      (λ w. ([], refl)) tt

main-Closed_example :
    let done =
      SubmitMain.main hanging (λ _. inr submit_conf) (pure tt) true signal false new_world in
    (done.0 ≡ ok ended) × Closed run_args done.1
unfolding provide_config SubmitMain.provide_all
main-Closed_example =
    main-Closed hanging (λ _. inr submit_conf) (pure tt) true signal submit_conf run_args new_world
      configured provided refl refl (λ w. (w, refl))
