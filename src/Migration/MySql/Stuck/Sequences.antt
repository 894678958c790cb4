-- ===== src/Migration/MySql/Stuck/Sequences.antt =====
-- Sequences of calls of any sources, around a source that has a marker.
use mathlib.Core.Bool.{false≢true}
use toasty_mgr.Prelude.{
  Bool, ◌||◌, all, ◌≡◌, refl, ap, ◌∙◌, true, false, inl, inr, Bool-cases, List, [], ◌∷◌, Text,
  text_eq, arith, Result, ok, err,
}
use toasty_mgr.Prelude.Strings.{text_eq_iff}
use toasty_mgr.Migration.Types.{Error}
use toasty_mgr.Migration.MySql.Statements.{
  Statement, create_ledger, create_runs, ledger_exists, runs_exists, select_marker, insert_marker,
  set_progress, delete_marker, insert_row, delete_row, script, select_database, release_lock,
  get_lock, select_name, select_rows, select_newest, select_newest,
}
use toasty_mgr.Migration.MySql.Tables.{Mark, Contents, Server, IsLawful, effect, marks}
use toasty_mgr.Migration.MySql.Traces.{Ends}
use toasty_mgr.Migration.MySql.Local.{
  is_of, inspect_applied_ids-Stays, prepare_ledger-Stays, sync_schema-Stays,
}
use toasty_mgr.Migration.MySql.Local.Migrations.{apply_migration-Stays, rollback_migration-Stays}
use toasty_mgr.Migration.MySql.{
  inspect_applied_ids, prepare_ledger, apply_migration, sync_schema, rollback_migration,
}
use toasty_mgr.Migration.MySql.Stuck.{
  Call, inspect, prepare, apply, record_only, rollback, sync, source_of, is_plain_call, succeeded,
  run_call, run_calls, SameSource, run_call-refused,
}

foreign :
    (source other s : Text)
    → text_eq other source ≡ false
    → text_eq s other ≡ true
    → text_eq s source ≡ false
foreign source other s apart of =
    ground (arith, text_eq_iff s other, text_eq_iff s source, text_eq_iff other source)

module _ (e : Server) (law : IsLawful e) (source : Text) where
  open e use {App, Db, contents, exec}

  -- A statement of another source.
  effect-SameSource :
      (other : Text) (start : Contents App) (st : Statement) (c : Contents App)
      → text_eq other source ≡ false
      → is_of other st ≡ true
      → SameSource e source start c
      → SameSource e source start (effect e st c)
  effect-SameSource other start (insert_marker s id name direction) c apart of (m, l) =
      (rw (foreign source other s apart of) m, l)
  effect-SameSource other start (set_progress index s id direction) c apart of (m, l) =
      (rw (foreign source other s apart of) m, l)
  effect-SameSource other start (delete_marker s id direction) c apart of (m, l) =
      (rw (foreign source other s apart of) m, l)
  effect-SameSource other start (insert_row s id name) c apart of (m, l) =
      (m, λ i. rw (foreign source other s apart of) (l i))
  effect-SameSource other start (delete_row s id) c apart of (m, l) =
      (m, λ i. rw (foreign source other s apart of) (l i))
  effect-SameSource other start select_database c apart of h = h
  effect-SameSource other start (release_lock lock) c apart of h = h
  effect-SameSource other start (get_lock lock) c apart of h = h
  effect-SameSource other start create_ledger c apart of h = h
  effect-SameSource other start create_runs c apart of h = h
  effect-SameSource other start ledger_exists c apart of h = h
  effect-SameSource other start runs_exists c apart of h = h
  effect-SameSource other start (select_marker s) c apart of h = h
  effect-SameSource other start (select_name s id) c apart of h = h
  effect-SameSource other start (select_rows s) c apart of h = h
  effect-SameSource other start (select_newest s) c apart of h = h
  effect-SameSource other start (script sql) c apart of h = absurd (false≢true of)

  settled_call :
      {A : Type 0} (K : Contents App → Type 0) (r : Result Error A × Db)
      → Ends e (λ _. K) K r
      → K (contents (succeeded e r).1)
  settled_call K (ok a, db) h = h
  settled_call K (err x, db) h = h

  -- A call of another source.
  foreign_call :
      (call : Call) (db : Db)
      → is_plain_call e call ≡ true
      → text_eq (source_of call) source ≡ false
      → SameSource e source (contents db) (contents (run_call e call db).1)
  foreign_call (inspect s tracked) db plain apart =
      let K = SameSource e source (contents db) in
      settled_call K (inspect_applied_ids e s tracked db) (
        (inspect_applied_ids-Stays e law K s (λ st c. effect-SameSource s (contents db) st c apart)
            (λ _ _ k. k) tracked (contents db) (refl, λ _. refl)).at
          db refl)
  foreign_call (prepare s tracked) db plain apart =
      let K = SameSource e source (contents db) in
      settled_call K (prepare_ledger e s tracked db) (
        (prepare_ledger-Stays e law K s (λ st c. effect-SameSource s (contents db) st c apart)
            (λ _ _ k. k) tracked (contents db) (refl, λ _. refl)).at
          db refl)
  foreign_call (apply m) db plain apart =
      let K = SameSource e source (contents db) in
      settled_call K (apply_migration e m true db) (
        (apply_migration-Stays e law K m
            (λ st c. effect-SameSource m.source_code (contents db) st c apart) (λ _ _ k. k) true
            (λ _. plain) (contents db) (refl, λ _. refl)).at
          db refl)
  foreign_call (record_only m) db plain apart =
      let K = SameSource e source (contents db) in
      settled_call K (apply_migration e m false db) (
        (apply_migration-Stays e law K m
            (λ st c. effect-SameSource m.source_code (contents db) st c apart) (λ _ _ k. k) false
            (λ h. absurd (false≢true h)) (contents db) (refl, λ _. refl)).at
          db refl)
  foreign_call (rollback m) db plain apart =
      let K = SameSource e source (contents db) in
      settled_call K (rollback_migration e m db) (
        (rollback_migration-Stays e law K m
            (λ st c. effect-SameSource m.source_code (contents db) st c apart) (λ _ _ k. k) plain
            (contents db) (refl, λ _. refl)).at
          db refl)
  foreign_call (sync s sql) db plain apart =
      let K = SameSource e source (contents db) in
      settled_call K (sync_schema e s sql db) (
        (sync_schema-Stays e law K s (λ st c. effect-SameSource s (contents db) st c apart)
            (λ _ _ k. k) sql plain (contents db) (refl, λ _. refl)).at
          db refl)

  -- The call is one of this source, or its SQL leaves the metadata alone.
  abbrev pub is_harmless : Call → Bool
  is_harmless call = text_eq (source_of call) source || is_plain_call e call

  call-SameSource :
      (call : Call) (mark : Mark) (others : List Mark) (db : Db)
      → is_harmless call ≡ true
      → marks (contents db) source ≡ mark ∷ others
      → SameSource e source (contents db) (contents (run_call e call db).1)
  call-SameSource call mark others db harmless stuck =
      elim (Bool-cases (text_eq (source_of call) source)) [
        | inr apart ↦ foreign_call call db (ground arith) apart
        | inl own ↦
            let at_own = (text_eq_iff (source_of call) source).0 own in
            let same = run_call-refused e law call mark others db (rw at_own stuck) in
            (ap (λ f. f source) same.1.2, λ id. ap (λ f. f source id) same.1.0)
      ]

  -- A marked source stays marked: through any sequence of calls of `inspect_applied_ids`,
  -- `prepare_ledger`, `apply_migration`, `rollback_migration` and `sync_schema`, for this source with
  -- any SQL and for other sources with SQL that leaves the metadata tables and the lock alone, its
  -- markers and its ledger entries stay as they are.
  pub run_calls-SameSource :
      (calls : List Call) (mark : Mark) (others : List Mark) (db : Db)
      → all is_harmless calls ≡ true
      → marks (contents db) source ≡ mark ∷ others
      → SameSource e source (contents db) (contents (run_calls e calls db))
  run_calls-SameSource [] mark others db harmless stuck = (refl, λ _. refl)
  run_calls-SameSource (call ∷ calls) mark others db harmless stuck =
      let one = call-SameSource call mark others db (ground arith) stuck in
      let rest =
        run_calls-SameSource calls mark others (run_call e call db).1 (ground arith)
          (one.0 ∙ stuck) in
      (rest.0 ∙ one.0, λ id. rest.1 id ∙ one.1 id)
