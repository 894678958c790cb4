-- ===== src/Migration/MySql/Local/Migrations.antt =====
-- Applying and rolling back a migration: what the statements of its source preserve, they do.
use toasty_mgr.Prelude.{
  ℕ, suc, ◌≡◌, refl, Bool, true, false, not, ◌||◌, Option, none, some, List, [], ◌∷◌, all, Text,
  text_eq, nat_eq, nat_has_eq, text_has_eq, ==_refl, arith,
}
use toasty_mgr.Prelude.Action.{Action, pure, lift, ◌>>=◌, ◌>>◌, bail_when}
use toasty_mgr.Migration.Types.{
  Error, BackendMigration, nothing_to_roll_back, rollback_order_changed, ledger_name_mismatch,
}
use toasty_mgr.Migration.Sqlite.{first_of_rows}
use toasty_mgr.Migration.MySql.Statements.{
  Statement, insert_marker, set_progress, delete_marker, select_name, select_newest, insert_row,
  delete_row, script, apply_direction, rollback_direction,
}
use toasty_mgr.Migration.MySql.Decoded.{optional_name, newest_row}
use toasty_mgr.Migration.MySql.Tables.{Contents, Server, IsLawful, effect, is_script}
use toasty_mgr.Migration.MySql.Marked.{is_plain_sql, marked_work}
use toasty_mgr.Migration.MySql.{
  run_statement, create_run_marker, progress_from, execute_with_progress, delete_run_marker,
  ledger_name, record_row, record_new, record_found, apply_body, apply_migration, roll_back_newest,
  rollback_found, rollback_body, rollback_migration,
}
use toasty_mgr.Migration.MySql.Local.{
  is_of, Stays, bind-Stays, pure-Stays, lift-Stays, bail_when-Stays, fail-Stays, lock-Stays,
  exec-Stays, statement-Stays, script-Stays, checked_start-Stays,
}

module _ (e : Server) (law : IsLawful e) (K : Contents e.App → Type 0) (m : BackendMigration)
    (own : (st : Statement) (c : Contents e.App)
      → is_of m.source_code st ≡ true
      → K c
      → K (effect e st c))
    (any_app : (app' : e.App) (c : Contents e.App) → K c → K (record c { app = app' })) where
  open e use {App, is_plain, statements, Db, exec}

  abbrev Keeps : {A : Type 0} → Action Db Error A → Type 0
  Keeps = Stays e law K

  of_source :
      (st : Statement)
      → is_script e st ≡ false
      → is_of m.source_code st ≡ true
      → Keeps (run_statement e st)
  of_source = statement-Stays e law K m.source_code own any_app

  same_source : text_eq m.source_code m.source_code ≡ true
  same_source = ==_refl m.source_code

  progress_from-Stays :
      (direction : Text) (index : ℕ) (sql : List Text)
      → all is_plain sql ≡ true
      → Keeps (progress_from e m direction index sql)
  unfolding progress_from
  progress_from-Stays direction index [] plain = pure-Stays e law K tt
  progress_from-Stays direction index (s ∷ rest) plain =
      bind-Stays e law K
        (run_statement e (set_progress index m.source_code m.id direction)
          >> run_statement e (script s))
        (λ _. progress_from e m direction (suc index) rest)
        (bind-Stays e law K (run_statement e (set_progress index m.source_code m.id direction))
          (λ _. run_statement e (script s))
          (of_source (set_progress index m.source_code m.id direction) refl same_source)
          (λ _. script-Stays e law K m.source_code own any_app s (ground arith)))
        (λ _. progress_from-Stays direction (suc index) rest (ground arith))

  marked_work-Stays :
      {A : Type 0} (direction : Text) (st : Statement) (value : A)
      → is_plain_sql e m.sql ≡ true
      → is_script e st ≡ false
      → is_of m.source_code st ≡ true
      → Keeps (marked_work e law m direction st value)
  unfolding create_run_marker execute_with_progress delete_run_marker
  marked_work-Stays direction st value plain plain_st of =
      bind-Stays e law K (run_statement e (insert_marker m.source_code m.id m.name direction)) _
        (of_source (insert_marker m.source_code m.id m.name direction) refl same_source)
        (λ _.
          bind-Stays e law K (progress_from e m direction 0 (statements m.sql)) _
            (progress_from-Stays direction 0 (statements m.sql) plain)
            (λ _. bind-Stays e law K (run_statement e st) _ (of_source st plain_st of) (λ _.
              bind-Stays e law K (run_statement e (delete_marker m.source_code m.id direction))
                (λ _. pure value)
                (of_source (delete_marker m.source_code m.id direction) refl same_source)
                (λ _. pure-Stays e law K value))))

  record_new-Stays :
      (execute_sql : Bool)
      → (execute_sql ≡ true → is_plain_sql e m.sql ≡ true)
      → Keeps (record_new e m execute_sql)
  unfolding record_new
  record_new-Stays true plain =
      marked_work-Stays apply_direction (insert_row m.source_code m.id m.name) true (plain refl)
        refl same_source
  record_new-Stays false plain =
      bind-Stays e law K (record_row e m) (λ _. pure true)
        (of_source (insert_row m.source_code m.id m.name) refl same_source)
        (λ _. pure-Stays e law K true)

  record_found-Stays :
      (execute_sql : Bool) (found : Option Text)
      → (execute_sql ≡ true → is_plain_sql e m.sql ≡ true)
      → Keeps (record_found e m execute_sql found)
  unfolding record_found
  record_found-Stays execute_sql none plain = record_new-Stays execute_sql plain
  record_found-Stays execute_sql (some name) plain =
      bind-Stays e law K (bail_when (not (text_eq name m.name)) (ledger_name_mismatch m.id))
        (λ _. pure false) (bail_when-Stays e law K _ _) (λ _. pure-Stays e law K false)

  pub apply_migration-Stays :
      (execute_sql : Bool)
      → (execute_sql ≡ true → is_plain_sql e m.sql ≡ true)
      → Keeps (apply_migration e m execute_sql)
  unfolding apply_migration apply_body ledger_name
  apply_migration-Stays execute_sql plain =
      lock-Stays e law K m.source_code (apply_body e m execute_sql) (
        checked_start-Stays e law K m.source_code own any_app
          (ledger_name e m.source_code m.id >>= record_found e m execute_sql)
          (bind-Stays e law K (ledger_name e m.source_code m.id) (record_found e m execute_sql)
            (bind-Stays e law K (exec (select_name m.source_code m.id))
              (λ rows. lift (optional_name (first_of_rows rows)))
              (exec-Stays e law K m.source_code own any_app (select_name m.source_code m.id) refl
                refl)
              (λ rows. lift-Stays e law K (optional_name (first_of_rows rows))))
            (λ found. record_found-Stays execute_sql found plain)))

  rollback_found-Stays :
      (newest : Option (ℕ × Text)) → is_plain_sql e m.sql ≡ true → Keeps (rollback_found e m newest)
  unfolding rollback_found roll_back_newest
  rollback_found-Stays none plain = fail-Stays e law K (nothing_to_roll_back m.source_code)
  rollback_found-Stays (some (id, name)) plain =
      bind-Stays e law K
        (bail_when (not (nat_eq id m.id) || not (text_eq name m.name))
          (rollback_order_changed m.source_code))
        (λ _. roll_back_newest e m) (bail_when-Stays e law K _ _)
        (λ _.
          marked_work-Stays rollback_direction (delete_row m.source_code m.id) tt plain refl
            same_source)

  pub rollback_migration-Stays : is_plain_sql e m.sql ≡ true → Keeps (rollback_migration e m)
  unfolding rollback_migration rollback_body
  rollback_migration-Stays plain = lock-Stays e law K m.source_code (rollback_body e m) (
      checked_start-Stays e law K m.source_code own any_app
        (exec (select_newest m.source_code) >>= λ rows.
          lift (newest_row rows) >>= rollback_found e m)
        (bind-Stays e law K (exec (select_newest m.source_code))
          (λ rows. lift (newest_row rows) >>= rollback_found e m)
          (exec-Stays e law K m.source_code own any_app (select_newest m.source_code) refl refl)
          (λ rows.
            bind-Stays e law K (lift (newest_row rows)) (rollback_found e m)
              (lift-Stays e law K (newest_row rows))
              (λ newest. rollback_found-Stays newest plain))))
