-- ===== src/Migration/MySql/Local.antt =====
-- Every operation of the MySQL ledger executes statements of its own source alone, so what these
-- preserve, the operation preserves, whether it returns or fails.
pub mod Migrations
use toasty_mgr.Prelude.{
  ℕ, suc, ◌≡◌, refl, ◌&&◌, Bool, true, false, not, ◌||◌, Option, none, some, List, [], ◌∷◌, all,
  Text, text_eq, nat_eq, nat_has_eq, text_has_eq, ==_refl, arith, if◌then◌else◌, is_empty, Result,
  ok, err, collect,
}
use toasty_mgr.Prelude.Action.{Action, pure, fail, lift, ◌>>=◌, ◌>>◌, bail_when, for_each}
use toasty_mgr.Migration.Types.{
  Error, LedgerMigration, BackendMigration, nothing_to_roll_back, rollback_order_changed,
  ledger_name_mismatch,
}
use toasty_mgr.Migration.Sqlite.{Row, tracked_by_id, validated_ids, first_of_rows}
use toasty_mgr.Migration.MySql.Statements.{
  Statement, select_database, release_lock, get_lock, create_ledger, create_runs, ledger_exists,
  runs_exists, select_marker, insert_marker, set_progress, delete_marker, select_name, select_rows,
  select_newest, insert_row, delete_row, script, apply_direction, rollback_direction, ledger_row,
}
use toasty_mgr.Migration.MySql.Decoded.{check_marker, optional_name, newest_row}
use toasty_mgr.Migration.MySql.Tables.{Contents, Server, IsLawful, effect, is_script}
use toasty_mgr.Migration.MySql.Traces.{
  Traced, Traced-pure, Traced-fail, Traced-lift, Traced-bail_when, Traced-bind, Traced-post,
  Traced-exec, Traced-script,
}
use toasty_mgr.Migration.MySql.Locked.{with_lock-Traced}
use toasty_mgr.Migration.MySql.Marked.{is_plain_sql}
use toasty_mgr.Migration.MySql.{
  run_statement, create_metadata_tables, ensure_no_recovery_marker, create_run_marker,
  progress_from, execute_with_progress, delete_run_marker, table_exists, ledger_name,
  composite_rows, read_ids, inspect_applied_ids, prepare_body, prepare_ledger, record_row,
  record_new, record_found, apply_body, apply_migration, sync_body, sync_schema, roll_back_newest,
  rollback_found, rollback_body, rollback_migration, with_lock,
}

-- The statements that read or write rows of one source, or of none.
abbrev pub is_of : Text → Statement → Bool
is_of source (insert_marker s id name direction) = text_eq s source
is_of source (set_progress index s id direction) = text_eq s source
is_of source (delete_marker s id direction) = text_eq s source
is_of source (insert_row s id name) = text_eq s source
is_of source (delete_row s id) = text_eq s source
is_of source (script sql) = false
is_of source _ = true

module _ (e : Server) (law : IsLawful e) (K : Contents e.App → Type 0) where
  open e use {App, is_plain, statements, Db, exec}

  abbrev pub Stays : {A : Type 0} → Action Db Error A → Type 0
  Stays m = (c : Contents App) → K c → Traced e m c (λ _ c'. K c') K

  pub bind-Stays :
      {A B : Type 0} (m : Action Db Error A) (f : A → Action Db Error B)
      → Stays m
      → ((a : A) → Stays (f a))
      → Stays (m >>= f)
  bind-Stays m f h k c start =
      Traced-bind e (λ _ c'. K c') (λ _ c'. K c') K m f c (h c start) (λ a c' p. k a c' p)

  pub pure-Stays : {A : Type 0} (a : A) → Stays (pure a)
  pure-Stays a c start = Traced-pure e (λ _ c'. K c') K a c start

  pub lift-Stays : {A : Type 0} (r : Result Error A) → Stays (lift r)
  lift-Stays r c start = Traced-lift e (λ _ c'. K c') K r c start (λ _ _. start)

  pub bail_when-Stays : (b : Bool) (x : Error) → Stays (bail_when b x)
  bail_when-Stays b x c start = Traced-bail_when e (λ _ c'. K c') K b x c start (λ _. start)

  pub fail-Stays : {A : Type 0} (x : Error) → Stays (fail {A = A} x)
  fail-Stays x c start = Traced-fail e (λ _ c'. K c') K x c start

  pub choice-Stays :
      {A : Type 0} (b : Bool) (m n : Action Db Error A)
      → Stays m
      → Stays n
      → Stays (if b then m else n)
  choice-Stays true m n h k = h
  choice-Stays false m n h k = k

  pub lock-Stays :
      {A : Type 0} (source : Text) (body : Action Db Error A)
      → Stays body
      → Stays (with_lock e source body)
  lock-Stays source body h c start =
      with_lock-Traced e law (λ _ c'. K c') K source body c start (λ _ c' p. p) (h c start)

  module _ (source : Text)
      (own : (st : Statement) (c : Contents App) → is_of source st ≡ true → K c → K (effect e st c))
      (any_app : (app' : App) (c : Contents App) → K c → K (record c { app = app' })) where
    pub exec-Stays :
        (st : Statement) → is_script e st ≡ false → is_of source st ≡ true → Stays (exec st)
    exec-Stays st plain of c start =
        Traced-post e _ (λ _ c'. K c') K K (exec st) c
          (Traced-exec e law st K c plain start (own st c of start))
          (λ _ c' h. rw h.0 (own st c of start)) (λ _ p. p)

    pub statement-Stays :
        (st : Statement)
        → is_script e st ≡ false
        → is_of source st ≡ true
        → Stays (run_statement e st)
    statement-Stays st plain of =
        bind-Stays (exec st) (λ _. pure tt) (exec-Stays st plain of) (λ _. pure-Stays tt)

    pub script-Stays : (sql : Text) → is_plain sql ≡ true → Stays (run_statement e (script sql))
    script-Stays sql plain c start =
        Traced-post e _ (λ _ c'. K c') K K (run_statement e (script sql)) c
          (Traced-script e law sql K c plain (λ app'. any_app app' c start))
          (λ _ c' h. rw h (any_app (e.run sql c.app) c start)) (λ _ p. p)

    pub create_metadata_tables-Stays : Stays (create_metadata_tables e)
    unfolding create_metadata_tables
    create_metadata_tables-Stays =
        bind-Stays (run_statement e create_ledger) (λ _. run_statement e create_runs)
          (statement-Stays create_ledger refl refl) (λ _. statement-Stays create_runs refl refl)

    pub ensure_no_recovery_marker-Stays : Stays (ensure_no_recovery_marker e source)
    unfolding ensure_no_recovery_marker
    ensure_no_recovery_marker-Stays =
        bind-Stays (exec (select_marker source)) (λ rows. lift (check_marker source rows))
          (exec-Stays (select_marker source) refl refl)
          (λ rows. lift-Stays (check_marker source rows))

    pub read_ids-Stays : (tracked : List LedgerMigration) → Stays (read_ids e source tracked)
    unfolding composite_rows
    read_ids-Stays tracked =
        bind-Stays (exec (select_rows source) >>= λ rows. lift (collect ledger_row rows))
          (λ rows. lift (validated_ids (tracked_by_id tracked) rows))
          (bind-Stays (exec (select_rows source)) (λ rows. lift (collect ledger_row rows))
            (exec-Stays (select_rows source) refl refl)
            (λ rows. lift-Stays (collect ledger_row rows)))
          (λ rows. lift-Stays (validated_ids (tracked_by_id tracked) rows))

    pub table_exists-Stays :
        (st : Statement)
        → is_script e st ≡ false
        → is_of source st ≡ true
        → Stays (table_exists e st)
    unfolding table_exists
    table_exists-Stays st plain of =
        bind-Stays (exec st) (λ rows. pure (not (is_empty rows))) (exec-Stays st plain of)
          (λ rows. pure-Stays (not (is_empty rows)))

    pub inspect_applied_ids-Stays :
        (tracked : List LedgerMigration) → Stays (inspect_applied_ids e source tracked)
    unfolding inspect_applied_ids
    inspect_applied_ids-Stays tracked =
        bind-Stays (table_exists e runs_exists) _ (table_exists-Stays runs_exists refl refl)
          (λ runs.
            bind-Stays (if runs then ensure_no_recovery_marker e source else pure tt) _
              (choice-Stays runs (ensure_no_recovery_marker e source) (pure tt)
                ensure_no_recovery_marker-Stays (pure-Stays tt))
              (λ _.
                bind-Stays (table_exists e ledger_exists)
                  (λ ledger. if ledger then read_ids e source tracked else pure [])
                  (table_exists-Stays ledger_exists refl refl)
                  (λ ledger.
                    choice-Stays ledger (read_ids e source tracked) (pure [])
                      (read_ids-Stays tracked) (pure-Stays []))))

    pub checked_start-Stays :
        {A : Type 0} (k : Action Db Error A)
        → Stays k
        → Stays (create_metadata_tables e >>= λ _. ensure_no_recovery_marker e source >>= λ _. k)
    checked_start-Stays k h =
        bind-Stays (create_metadata_tables e) (λ _. ensure_no_recovery_marker e source >>= λ _. k)
          create_metadata_tables-Stays
          (λ _.
            bind-Stays (ensure_no_recovery_marker e source) (λ _. k) ensure_no_recovery_marker-Stays
              (λ _. h))

    pub prepare_ledger-Stays :
        (tracked : List LedgerMigration) → Stays (prepare_ledger e source tracked)
    unfolding prepare_ledger prepare_body
    prepare_ledger-Stays tracked =
        lock-Stays source (prepare_body e source tracked)
          (checked_start-Stays (read_ids e source tracked) (read_ids-Stays tracked))

    pub scripts-Stays :
        (sql : List Text)
        → all is_plain sql ≡ true
        → Stays (for_each (λ s. run_statement e (script s)) sql)
    unfolding for_each
    scripts-Stays [] plain = pure-Stays tt
    scripts-Stays (s ∷ rest) plain =
        bind-Stays (run_statement e (script s))
          (λ _. for_each (λ s. run_statement e (script s)) rest) (script-Stays s (ground arith))
          (λ _. scripts-Stays rest (ground arith))

    pub sync_schema-Stays :
        (sql : Text) → is_plain_sql e sql ≡ true → Stays (sync_schema e source sql)
    unfolding sync_schema sync_body
    sync_schema-Stays sql plain = lock-Stays source (sync_body e source sql) (
        bind-Stays (ensure_no_recovery_marker e source)
          (λ _. for_each (λ s. run_statement e (script s)) (statements sql))
          ensure_no_recovery_marker-Stays (λ _. scripts-Stays (statements sql) plain))
