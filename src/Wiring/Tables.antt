-- ===== src/Wiring/Tables.antt =====
-- The tables of ClickHouse, and what is begun behind them.
use mathlib.Core.Path.{subst}
use shortcut.Prelude.{
  String, str_eq, List, [], ◌∷◌, ◌++◌, Option, none, some, Bool, true, false, ◌&&◌, ◌||◌, All, ◌≡◌,
  refl, arith, ap, sym, ◌∙◌, eq_iff,
}
use shortcut.Runtime.{Call, Env, Error, World, Exec, Outcome, ok, >>=-eq-ok, call-eq-ok}
use shortcut.ClickHouse
use shortcut.ClickHouse.{ddls, exec, exec_all, ensure_tables, new_client, new_service}
use shortcut.Runtime.Keeps.{Keeps, OnCalls, tell-Keeps}
use shortcut.Wiring.{provide_repository, start_repository}

abbrev accepted : Option Error → Bool
accepted none = true
accepted (some _) = false

-- The statements of `ensureTables`.
abbrev pub statements : List String
statements = "ALTER TABLE tasks ADD COLUMN IF NOT EXISTS failed_payload Nullable(String)" ∷ ddls

abbrev Needs : Bool → Type 0 → Type 0
Needs true P = P
Needs false P = Unit

module _ (env : Env) where
  -- ClickHouse has accepted this statement.
  unfoldable pub ran : String → List Call → Bool
  ran sql [] = false
  ran sql (Call.exec s args ∷ h) =
      str_eq s sql && accepted (env.exec_reply (Call.exec s args ∷ h)) || ran sql h
  ran sql (_ ∷ h) = ran sql h

  abbrev pub HasTables : List Call → Type 0
  HasTables h = All (λ sql. ran sql h ≡ true) statements

  ran-later : (c : Call) (sql : String) (h : List Call) → ran sql h ≡ true → ran sql (c ∷ h) ≡ true
  unfolding ran
  ran-later (Call.exec s args) sql h r = ground arith
  ran-later (Call.log l m) sql h r = r
  ran-later _ sql h r = r

  ran_list-later :
      (c : Call) (h : List Call) (sqls : List String)
      → All (λ sql. ran sql h ≡ true) sqls
      → All (λ sql. ran sql (c ∷ h) ≡ true) sqls
  ran_list-later c h [] a = tt
  ran_list-later c h (sql ∷ sqls) a = (ran-later c sql h a.0, ran_list-later c h sqls a.1)

  pub HasTables-later : (c : Call) (h : List Call) → HasTables h → HasTables (c ∷ h)
  HasTables-later c h a = ran_list-later c h statements a

  -- A statement that returned without an error has run, and others that had run have.
  abbrev Grows : World → World → Type 0
  Grows w w' = (sql : String) → ran sql w.history ≡ true → ran sql w'.history ≡ true

  exec-ran :
      (sql : String) (w w' : World)
      → exec env sql [] w ≡ (ok tt, w')
      → (ran sql w'.history ≡ true) × Grows w w'
  unfolding exec ran
  exec-ran sql w w' e =
      let (same, took) = call-eq-ok (Call.exec sql []) env.exec_reply w w' e in
      let here : ran sql (Call.exec sql [] ∷ w.history) ≡ true =
        rw ((eq_iff sql sql).1 refl, took) refl in
      rw same (here, λ s r. ran-later (Call.exec sql []) s w.history r)

  ran_list-grow :
      (sqls : List String) (w w' : World)
      → Grows w w'
      → All (λ sql. ran sql w.history ≡ true) sqls
      → All (λ sql. ran sql w'.history ≡ true) sqls
  ran_list-grow [] w w' g a = tt
  ran_list-grow (sql ∷ sqls) w w' g a = (g sql a.0, ran_list-grow sqls w w' g a.1)

  exec_all-ran :
      (sqls : List String) (w w' : World)
      → exec_all env sqls w ≡ (ok tt, w')
      → All (λ sql. ran sql w'.history ≡ true) sqls × Grows w w'
  unfolding exec_all
  exec_all-ran [] w w' e =
      (tt, λ s r. ap (λ (p : Outcome (Unit {0}) × World). ran s p.1.history) (sym e) ∙ r)
  exec_all-ran (sql ∷ sqls) w w' e =
      let (a, w₁, one, more) = >>=-eq-ok (exec env sql []) (λ _. exec_all env sqls) w e in
      let (done, grow) = exec-ran sql w w₁ one in
      let (rest, grow') = exec_all-ran sqls w₁ w' more in
      ((grow' sql done, rest), λ s r. grow' s (grow s r))

  -- `ensureTables` returns without an error only behind the tables.
  pub ensure_tables-HasTables :
      (c : ClickHouse.Client) (w w' : World)
      → ensure_tables env c w ≡ (ok tt, w')
      → HasTables w'.history
  unfolding ensure_tables
  ensure_tables-HasTables c w w' e =
      let alter : String =
        "ALTER TABLE tasks ADD COLUMN IF NOT EXISTS failed_payload Nullable(String)" in
      let (a, w₁, made, added) = >>=-eq-ok (exec_all env ddls) (λ _. exec env alter []) w e in
      let (done, grow) = exec-ran alter w₁ w' added in
      (done, ran_list-grow ddls w₁ w' grow (exec_all-ran ddls w w₁ made).0)

-- A method that makes calls, and forgets none.
abbrev pub Adds : Exec (Unit {0}) → Type 0
Adds m = (w : World) → (cs : List Call) × ((m w).1.history ≡ cs ++ w.history)

module _ (env : Env) where
  new_service-HasTables :
      (conf : ClickHouse.Config) (b : Bool) (s : ClickHouse.Service) (w w' : World)
      → new_service env conf b w ≡ (ok s, w')
      → HasTables env w'.history
  unfolding new_service
  new_service-HasTables conf b s w w' e =
      let (c, w₁, opened, more) = >>=-eq-ok (new_client env conf) _ w e in
      let (u, w₂, made, rest) = >>=-eq-ok (ensure_tables env c) _ w₁ more in
      subst (λ (p : Outcome ClickHouse.Service × World). HasTables env p.1.history) rest
        (ensure_tables-HasTables env c w₁ w₂ made)

  pub provide_repository-HasTables :
      (conf : Option ClickHouse.Config) (s : ClickHouse.Service) (w w' : World)
      → provide_repository env conf w ≡ (ok s, w')
      → HasTables env w'.history
  unfolding provide_repository
  provide_repository-HasTables none s w w' e = cc
  provide_repository-HasTables (some conf) s w w' e = new_service-HasTables conf true s w w' e

-- A process, of which some calls begin what wants the tables.
module _ (env : Env) (begins : Call → Bool) where
  -- What wants the tables was begun behind them.
  abbrev pub TablesFirst : List Call → Type 0
  TablesFirst [] = Unit
  TablesFirst (c ∷ h) = Needs (begins c) (HasTables env h) × TablesFirst h

  pub TablesFirst-other :
      (c : Call) → begins c ≡ false → (h : List Call) → TablesFirst h → TablesFirst (c ∷ h)
  TablesFirst-other c other h t = rw other (tt, t)

  -- With the tables, everything may begin.
  abbrev pub Ready : List Call → Type 0
  Ready h = HasTables env h × TablesFirst h

  pub Ready-cons : (c : Call) (h : List Call) → Ready h → Ready (c ∷ h)
  Ready-cons c h (a, t) = (HasTables-later env c h a, (needed (begins c), t))
    where
      needed : (b : Bool) → Needs b (HasTables env h)
      needed true = a
      needed false = tt

  pub Ready-append : (cs h : List Call) → Ready h → Ready (cs ++ h)
  Ready-append [] h r = r
  Ready-append (c ∷ cs) h r = Ready-cons c (cs ++ h) (Ready-append cs h r)

  pub start_repository-Ready : Keeps (OnCalls Ready) start_repository
  unfolding start_repository
  start_repository-Ready =
      tell-Keeps (OnCalls Ready) (Call.spawn "Service.Start" [])
        (λ w. Ready-cons (Call.spawn "Service.Start" []) w.history)

  pub meanwhile-Ready :
      (meanwhile : Exec (Unit {0})) → Adds meanwhile → Keeps (OnCalls Ready) meanwhile
  meanwhile-Ready meanwhile adds = record {
    kept = λ w h. let (cs, e) = adds w in subst Ready (sym e) (Ready-append cs w.history h);
  }
