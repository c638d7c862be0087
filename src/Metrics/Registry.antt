-- ===== src/Metrics/Registry.antt =====
-- The registration of the collectors with the registry of Prometheus.
use mathlib.Core.Path.{subst}
use shortcut.Prelude.{
  String, str_eq, str_append, Bool, true, false, ◌&&◌, ◌||◌, List, [], ◌∷◌, map, All, Option, none,
  some, ◌≡◌, ◌≢◌, refl, sym, ap, ◌∙◌, arith, eq_iff,
}
use shortcut.Runtime.{Call, Env, Error, World, ok, err, Collector}
use shortcut.Metrics.Collectors.{new_recorder, metrics_to_register, register_all, register_metrics}

abbrev accepted : Option Error → Bool
accepted none = true
accepted (some _) = false

module _ (env : Env) (fq_name : Collector → String) where
  -- A collector with this name was registered, and not refused.
  unfoldable pub taken : String → List Call → Bool
  taken name [] = false
  taken name (Call.register d ∷ h) =
      str_eq (fq_name d) name && accepted (env.register_reply (Call.register d ∷ h)) || taken name h
  taken name (_ ∷ h) = taken name h

  -- What client_golang documents: a full name joins its parts by `_`, without the empty ones, and a
  -- registry takes a collector exactly if none is registered under its full name.
  pub record IsRegistry : Type 0 where
    pub joined :
        (c : Collector)
        → c.namespace ≡ ""
        → c.subsystem ≢ ""
        → c.name ≢ ""
        → fq_name c ≡ str_append c.subsystem (str_append "_" c.name)
    pub refuses :
        (c : Collector) (h : List Call)
        → taken (fq_name c) h ≡ true
        → (e : Error) × (env.register_reply (Call.register c ∷ h) ≡ some e)
    pub takes :
        (c : Collector) (h : List Call)
        → taken (fq_name c) h ≡ false
        → env.register_reply (Call.register c ∷ h) ≡ none

  -- The calls that register these collectors, after those of `h`.
  abbrev pub registered : List Collector → List Call → List Call
  registered [] h = h
  registered (c ∷ cs) h = registered cs (Call.register c ∷ h)

  abbrev Distinct : List String → Type 0
  Distinct [] = Unit
  Distinct (n ∷ ns) = All (λ m. str_eq n m ≡ false) ns × Distinct ns

  -- None of these names is taken.
  abbrev pub Free : List String → List Call → Type 0
  Free ns h = All (λ n. taken n h ≡ false) ns

  Free-register :
      (c : Collector) (ns : List String) (h : List Call)
      → All (λ m. str_eq (fq_name c) m ≡ false) ns
      → Free ns h
      → Free ns (Call.register c ∷ h)
  unfolding taken
  Free-register c [] h d f = tt
  Free-register c (n ∷ ns) h d f = (rw (d.0, f.0) refl, Free-register c ns h d.1 f.1)

  module _ (registry : IsRegistry) where
    register_all-Free :
        (cs : List Collector) (w : World)
        → Distinct (map fq_name cs)
        → Free (map fq_name cs) w.history
        → register_all env cs w ≡ (ok tt, record w { history = registered cs w.history })
    unfolding register_all
    register_all-Free [] w d f = refl
    register_all-Free (c ∷ cs) w d f = rw (registry.takes c w.history f.0) (
        register_all-Free cs (record w { history = Call.register c ∷ w.history }) d.1
          (Free-register c (map fq_name cs) w.history d.0 f.1))

    taken-registered :
        (n : String) (cs : List Collector) (h : List Call)
        → taken n h ≡ true
        → taken n (registered cs h) ≡ true
    unfolding taken
    taken-registered n [] h t = t
    taken-registered n (c ∷ cs) h t = taken-registered n cs (Call.register c ∷ h) (ground (arith))

    taken_self :
        (c : Collector) (cs : List Collector) (h : List Call)
        → taken (fq_name c) h ≡ false
        → taken (fq_name c) (registered (c ∷ cs) h) ≡ true
    unfolding taken
    taken_self c cs h f =
        taken-registered (fq_name c) cs (Call.register c ∷ h)
          (rw ((eq_iff (fq_name c) (fq_name c)).1 refl, registry.takes c h f) refl)

    refuse_first :
        (c : Collector) (cs : List Collector) (w : World) (e : Error)
        → env.register_reply (Call.register c ∷ w.history) ≡ some e
        → register_all env (c ∷ cs) w ≡ (err e, record w { history = Call.register c ∷ w.history })
    unfolding register_all
    refuse_first c cs w e r = rw r refl

    register_all_once :
        (c : Collector) (cs : List Collector) (w : World)
        → Distinct (map fq_name (c ∷ cs))
        → Free (map fq_name (c ∷ cs)) w.history
        → let done = record w { history = registered (c ∷ cs) w.history } in
          (register_all env (c ∷ cs) w ≡ (ok tt, done))
          × (e : Error) × (register_all env (c ∷ cs) done
              ≡ (err e, record done { history = Call.register c ∷ done.history }))
    register_all_once c cs w d f =
        let done : World = record w { history = registered (c ∷ cs) w.history } in
        let (e, refused) = registry.refuses c done.history (taken_self c cs w.history f.0) in
        (register_all-Free (c ∷ cs) w d f, e, refuse_first c cs done e refused)

    -- All but the first of `metricsToRegister`.
    abbrev others : List Collector
    others =
        new_recorder.error_counter ∷ new_recorder.task_duration ∷ new_recorder.mem_used
        ∷ new_recorder.http_requests_inflight ∷ new_recorder.status_counter
        ∷ new_recorder.task_counter ∷ []

    -- The full names of the seven collectors.
    abbrev pub full_names : List String
    full_names =
        "task_active_tasks" ∷ "task_errors_total" ∷ "task_duration_seconds" ∷ "http_mem_used_bytes"
        ∷ "http_requests_inflight" ∷ "http_requests_accepted_total" ∷ "task_processed_tasks_total"
        ∷ []

    named :
        (c : Collector) (part rest : String)
        → c.namespace ≡ ""
        → c.subsystem ≡ part
        → c.name ≡ rest
        → str_eq part "" ≡ false
        → str_eq rest "" ≡ false
        → fq_name c ≡ str_append part (str_append "_" rest)
    named c part rest n p r pn rn =
        registry.joined c n (λ e. ground (arith, eq_iff part ""))
          (λ e. ground (arith, eq_iff rest ""))
        ∙ ap (λ (t : String). str_append t (str_append "_" c.name)) p
        ∙ ap (λ (t : String). str_append part (str_append "_" t)) r

    full_names_lem : map fq_name (metrics_to_register new_recorder) ≡ full_names
    unfolding metrics_to_register new_recorder
    full_names_lem = λ i.
        named new_recorder.active_tasks "task" "active_tasks" refl refl refl refl refl i
        ∷ named new_recorder.error_counter "task" "errors_total" refl refl refl refl refl i
        ∷ named new_recorder.task_duration "task" "duration_seconds" refl refl refl refl refl i
        ∷ named new_recorder.mem_used "http" "mem_used_bytes" refl refl refl refl refl i
        ∷ named new_recorder.http_requests_inflight "http" "requests_inflight" refl refl refl refl
            refl i
        ∷ named new_recorder.status_counter "http" "requests_accepted_total" refl refl refl refl
            refl i
        ∷ named new_recorder.task_counter "task" "processed_tasks_total" refl refl refl refl refl i
        ∷ []

    Distinct-full_names : Distinct full_names
    Distinct-full_names = ground arith

    -- Where none of the seven names is taken, `RegisterMetrics` registers the collectors of these
    -- names, in this order, and no other. Called once more, it fails at the first one.
    pub register_metrics_once :
        (w : World)
        → Free full_names w.history
        → let cs = metrics_to_register new_recorder in
          let done = record w { history = registered cs w.history } in
          (map fq_name cs ≡ full_names)
          × (register_metrics env new_recorder w ≡ (ok tt, done))
          × (e : Error) × (register_metrics env new_recorder done ≡ (
            err e,
            record done { history = Call.register new_recorder.active_tasks ∷ done.history },
          ))
    unfolding register_metrics metrics_to_register
    register_metrics_once w free =
        let (done, e, again) =
          register_all_once new_recorder.active_tasks others w
            (subst Distinct (sym full_names_lem) Distinct-full_names)
            (subst (λ ns. Free ns w.history) (sym full_names_lem) free) in
        (full_names_lem, done, e, again)
