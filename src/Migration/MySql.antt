-- ===== src/Migration/MySql.antt =====
-- The ledger of the MySQL backend (migration/backend/mysql.rs). Statements commit one by one, so
-- a marker in a second table says that a migration is under way; every operation that writes runs
-- under a named lock of the server.
pub mod Statements
pub mod Tables
pub mod Decoded
pub mod Traces
pub mod Locked
pub mod Marked
pub mod Started
pub mod Applied
pub mod RolledBack
pub mod Local
pub mod Synced
pub mod Stuck
pub mod Enums
pub use Statements.*
pub use Decoded.*
use toasty_mgr.Prelude.{
  ℕ, zero, suc, Bool, true, false, not, ◌||◌, Option, none, some, List, [], ◌∷◌, nat_eq, text_eq,
  if◌then◌else◌, is_empty, Text, Result, ok, err, collect,
}
use toasty_mgr.Prelude.Action.{Action, pure, fail, lift, ◌>>=◌, ◌>>◌, bail_when, for_each}
use toasty_mgr.Migration.Types.{
  LedgerMigration, BackendMigration, MigrationSourceConfig, Error, ledger_name_mismatch,
  nothing_to_roll_back, rollback_order_changed,
}
use toasty_mgr.Migration.Backend.{MigrationBackend}
use toasty_mgr.Migration.Sqlite.{Value, Row, tracked_by_id, validated_ids, first_of_rows}
use toasty_mgr.Migration.MySql.Tables.{Server}

module _ (e : Server) where
  open e use {statements, lock_name, Db, connection, exec}

  -- A statement whose rows are dropped.
  abbrev pub run_statement : Statement → Action Db Error (Unit {0})
  run_statement st = exec st >>= λ _. pure tt

  -- The lock that a task before this one left on the connection is released first.
  unfoldable pub acquire_lock : Text → Action Db Error Text
  acquire_lock source = do
    rows ← exec select_database
    database ← lift (current_database rows)
    run_statement (release_lock (lock_name database))
    answer ← exec (get_lock (lock_name database))
    lift (lock_taken source (first_of_rows answer))
    pure (lock_name database)

  -- `finish_lock`, on what the work under the lock returned.
  unfoldable pub finish_lock : {A : Type 0} → Text → Text → Result Error A → Action Db Error A
  finish_lock source lock result db =
      let (answer, db') = exec (release_lock lock) db in
      (joined result (released source answer), db')

  abbrev pub body_then_finish : {A : Type 0} → Text → Text → Action Db Error A → Action Db Error A
  body_then_finish source lock body db =
      let (result, db') = body db in finish_lock source lock result db'

  -- `db.connection()`, `acquire_lock`, the body and `finish_lock`
  unfoldable pub with_lock : {A : Type 0} → Text → Action Db Error A → Action Db Error A
  with_lock source body = do
    connection
    lock ← acquire_lock source
    body_then_finish source lock body

  unfoldable pub create_metadata_tables : Action Db Error (Unit {0})
  create_metadata_tables = do run_statement create_ledger; run_statement create_runs

  unfoldable pub ensure_no_recovery_marker : Text → Action Db Error (Unit {0})
  ensure_no_recovery_marker source = do
    rows ← exec (select_marker source)
    lift (check_marker source rows)

  unfoldable pub create_run_marker : BackendMigration → Text → Action Db Error (Unit {0})
  create_run_marker m direction = run_statement (insert_marker m.source_code m.id m.name direction)

  -- The loop of `execute_with_progress`, from the statement of this index on.
  unfoldable pub progress_from :
      BackendMigration → Text → ℕ → List Text → Action Db Error (Unit {0})
  progress_from m direction index [] = pure tt
  progress_from m direction index (s ∷ rest) =
      let later = progress_from m direction (suc index) rest in
      run_statement (set_progress index m.source_code m.id direction)
      >> run_statement (script s)
      >> later

  unfoldable pub execute_with_progress : BackendMigration → Text → Action Db Error (Unit {0})
  execute_with_progress m direction = progress_from m direction 0 (statements m.sql)

  unfoldable pub delete_run_marker : BackendMigration → Text → Action Db Error (Unit {0})
  delete_run_marker m direction = run_statement (delete_marker m.source_code m.id direction)

  unfoldable pub table_exists : Statement → Action Db Error Bool
  table_exists st = do rows ← exec st; pure (not (is_empty rows))

  unfoldable pub ledger_name : Text → ℕ → Action Db Error (Option Text)
  ledger_name source id = do
    rows ← exec (select_name source id)
    lift (optional_name (first_of_rows rows))

  unfoldable pub composite_rows : Text → Action Db Error (List (ℕ × Text))
  composite_rows source = do rows ← exec (select_rows source); lift (collect ledger_row rows)

  abbrev pub read_ids : Text → List LedgerMigration → Action Db Error (List ℕ)
  read_ids source tracked = do
    rows ← composite_rows source
    lift (validated_ids (tracked_by_id tracked) rows)

  unfoldable pub inspect_applied_ids : Text → List LedgerMigration → Action Db Error (List ℕ)
  inspect_applied_ids source tracked = do
    runs ← table_exists runs_exists
    if runs then ensure_no_recovery_marker source else pure tt
    ledger ← table_exists ledger_exists
    if ledger then read_ids source tracked else pure []

  unfoldable pub prepare_body : Text → List LedgerMigration → Action Db Error (List ℕ)
  prepare_body source tracked = do
    create_metadata_tables
    ensure_no_recovery_marker source
    read_ids source tracked

  unfoldable pub prepare_ledger : Text → List LedgerMigration → Action Db Error (List ℕ)
  prepare_ledger source tracked = with_lock source (prepare_body source tracked)

  abbrev pub record_row : BackendMigration → Action Db Error (Unit {0})
  record_row m = run_statement (insert_row m.source_code m.id m.name)

  -- What `apply_migration` does for a migration that the ledger does not have.
  unfoldable pub record_new : BackendMigration → Bool → Action Db Error Bool
  record_new m false = do record_row m; pure true
  record_new m true = do
    create_run_marker m apply_direction
    execute_with_progress m apply_direction
    record_row m
    delete_run_marker m apply_direction
    pure true

  unfoldable pub record_found : BackendMigration → Bool → Option Text → Action Db Error Bool
  record_found m execute_sql none = record_new m execute_sql
  record_found m execute_sql (some name) = do
    bail_when (not (text_eq name m.name)) (ledger_name_mismatch m.id)
    pure false

  unfoldable pub apply_body : BackendMigration → Bool → Action Db Error Bool
  apply_body m execute_sql = do
    create_metadata_tables
    ensure_no_recovery_marker m.source_code
    existing ← ledger_name m.source_code m.id
    record_found m execute_sql existing

  -- `apply_migration` of the module; the trait's `record_migration` does not execute the SQL.
  unfoldable pub apply_migration : BackendMigration → Bool → Action Db Error Bool
  apply_migration m execute_sql = with_lock m.source_code (apply_body m execute_sql)

  unfoldable pub sync_body : Text → Text → Action Db Error (Unit {0})
  sync_body source sql = do
    ensure_no_recovery_marker source
    for_each (λ s. run_statement (script s)) (statements sql)

  unfoldable pub sync_schema : Text → Text → Action Db Error (Unit {0})
  sync_schema source sql = with_lock source (sync_body source sql)

  -- The newest row is the migration's: its SQL, between the marker's two ends.
  unfoldable pub roll_back_newest : BackendMigration → Action Db Error (Unit {0})
  roll_back_newest m = do
    create_run_marker m rollback_direction
    execute_with_progress m rollback_direction
    run_statement (delete_row m.source_code m.id)
    delete_run_marker m rollback_direction
    pure tt

  unfoldable pub rollback_found : BackendMigration → Option (ℕ × Text) → Action Db Error (Unit {0})
  rollback_found m none = fail (nothing_to_roll_back m.source_code)
  rollback_found m (some (id, name)) = do
    bail_when (not (nat_eq id m.id) || not (text_eq name m.name))
        (rollback_order_changed m.source_code)
    roll_back_newest m

  unfoldable pub rollback_body : BackendMigration → Action Db Error (Unit {0})
  rollback_body m = do
    create_metadata_tables
    ensure_no_recovery_marker m.source_code
    rows ← exec (select_newest m.source_code)
    newest ← lift (newest_row rows)
    rollback_found m newest

  unfoldable pub rollback_migration : BackendMigration → Action Db Error (Unit {0})
  rollback_migration m = with_lock m.source_code (rollback_body m)

-- `impl MigrationBackend for MySqlMigrationBackend`
abbrev pub mysql_backend :
    {Schema : Type 0} (e : Server)
    → (MigrationSourceConfig → Action e.Db Error Schema)
    → MigrationBackend e.Db Schema
mysql_backend e observe = record {
  observe = observe;
  inspect_applied_ids = inspect_applied_ids e;
  prepare_ledger = prepare_ledger e;
  apply_migration = λ m. apply_migration e m true;
  record_migration = λ m. apply_migration e m false;
  rollback_migration = rollback_migration e;
}
