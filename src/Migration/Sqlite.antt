-- ===== src/Migration/Sqlite.antt =====
-- The ledger of the SQLite backend (migration/backend/sqlite.rs), which the Turso backend
-- (migration/backend/turso.rs) calls too: each operation runs in one `BEGIN IMMEDIATE` transaction.
pub mod Rows
pub mod Database
pub mod Runs
pub mod Ledger
pub mod Rollback
pub mod Inspect
pub mod Contract
pub use Rows.*
unfoldable pub use Rows.{value_i64, value_string, first_value, to_u64, to_i64, ledger_row}
use toasty_mgr.Prelude.{
  ℕ, Bool, true, false, not, ◌&&◌, ◌||◌, Option, none, some, List, [], ◌∷◌, map, nat_eq, text_eq,
  if◌then◌else◌, first, is_empty, Text, nat_has_eq, Result, ok, err, ok_or, collect,
}
use toasty_mgr.Prelude.Action.{Action, pure, fail, lift, ◌>>=◌, ◌>>◌, bail_when, for_each}
use toasty_mgr.Prelude.Map
use toasty_mgr.Prelude.Map.{Map}
use toasty_mgr.Migration.Types.{
  LedgerMigration, BackendMigration, MigrationSourceConfig, Error, unknown_in_ledger,
  ledger_name_mismatch, nothing_to_roll_back, rollback_order_changed, rollback_failed,
}
use toasty_mgr.Migration.Backend.{MigrationBackend}
use toasty_mgr.Migration.Sqlite.Database.{Engine}

-- A later entry of the same id replaces an earlier one, as in the `HashMap` that is collected.
unfoldable pub tracked_by_id : List LedgerMigration → Map ℕ Text
tracked_by_id [] = []
tracked_by_id (m ∷ ms) =
    let rest = tracked_by_id ms in
    if Map.contains_key rest m.id then rest else Map.insert rest m.id m.name

unfoldable pub validate_tracked_name : Map ℕ Text → ℕ × Text → Result Error (Unit {0})
validate_tracked_name tracked (id, name) = elim (Map.get tracked id) [
  | none ↦ err (unknown_in_ledger id)
  | some expected ↦ if text_eq expected name then ok tt else err (ledger_name_mismatch id)
]

-- The loop over the ledger's rows in `inspect_applied_ids` and `prepare_ledger`.
unfoldable pub validated_row : Map ℕ Text → ℕ × Text → Result Error ℕ
validated_row tracked (id, name) = elim (validate_tracked_name tracked (id, name)) [
  | ok _ ↦ ok id
  | err e ↦ err e
]

unfoldable pub validated_ids : Map ℕ Text → List (ℕ × Text) → Result Error (List ℕ)
validated_ids tracked = collect (validated_row tracked)

-- The error of a failed body gets a context when the rollback fails too.
abbrev pub rollback_error : Error → Result Error (List Row) → Error
rollback_error error (ok _) = error
rollback_error error (err _) = rollback_failed error

abbrev pub first_of_rows : List Row → Option Value
first_of_rows [] = none
first_of_rows (row ∷ rows) = first_value row

-- `rows.first().map(ledger_row).transpose()`
abbrev pub newest_row : List Row → Result Error (Option (ℕ × Text))
newest_row [] = ok none
newest_row (row ∷ rows) = elim (ledger_row row) [ ok pair ↦ ok (some pair) | err e ↦ err e ]

module _ (e : Engine) where
  open e use {statements, Db, connection, exec}

  -- A statement whose rows are dropped.
  abbrev pub run_statement : Statement → Action Db Error (Unit {0})
  run_statement st = exec st >>= λ _. pure tt

  -- `finish_transaction`, on what the body returned.
  abbrev pub finish_transaction : {A : Type 0} → Result Error A → Action Db Error A
  finish_transaction (ok value) db = (do run_statement commit; pure value) db
  finish_transaction (err error) db =
      let (rolled_back, db') = exec rollback db in (err (rollback_error error rolled_back), db')

  abbrev pub body_then_finish : {A : Type 0} → Action Db Error A → Action Db Error A
  body_then_finish body db = let (result, db') = body db in finish_transaction result db'

  -- `db.connection()`, `begin_immediate`, the body and `finish_transaction`
  abbrev pub in_transaction : {A : Type 0} → Action Db Error A → Action Db Error A
  in_transaction body = do connection; run_statement begin_immediate; body_then_finish body

  unfoldable pub composite_rows : Text → Action Db Error (List (ℕ × Text))
  composite_rows source = do rows ← exec (select_rows source); lift (collect ledger_row rows)

  unfoldable pub inspect_applied_ids : Text → List LedgerMigration → Action Db Error (List ℕ)
  inspect_applied_ids source tracked = do
    found ← exec table_exists
    if is_empty found
        then pure []
        else do rows ← composite_rows source; lift (validated_ids (tracked_by_id tracked) rows)

  unfoldable pub prepare_body : Text → List LedgerMigration → Action Db Error (List ℕ)
  prepare_body source tracked = do
    run_statement create_ledger
    rows ← composite_rows source
    lift (validated_ids (tracked_by_id tracked) rows)

  unfoldable pub prepare_ledger : Text → List LedgerMigration → Action Db Error (List ℕ)
  prepare_ledger source tracked = in_transaction (prepare_body source tracked)

  unfoldable pub execute_sql_statements : Text → Action Db Error (Unit {0})
  execute_sql_statements sql = for_each (λ s. run_statement (script s)) (statements sql)

  -- What `apply_migration` does with the row that it found, if any.
  unfoldable pub record_new : BackendMigration → Bool → Action Db Error Bool
  record_new m execute_sql = do
    if execute_sql then execute_sql_statements m.sql else pure tt
    id ← lift (to_i64 m.id)
    run_statement (insert_row m.source_code id m.name)
    pure true

  -- The migration is recorded already: under its own name, or the ledger is not this one's.
  unfoldable pub recorded_as : BackendMigration → Text → Action Db Error Bool
  recorded_as m name = do
    bail_when (not (text_eq name m.name)) (ledger_name_mismatch m.id)
    pure false

  unfoldable pub record_found : BackendMigration → Bool → Option Value → Action Db Error Bool
  record_found m execute_sql none = record_new m execute_sql
  record_found m execute_sql (some value) = do name ← lift (value_string value); recorded_as m name

  unfoldable pub apply_body : BackendMigration → Bool → Action Db Error Bool
  apply_body m execute_sql = do
    run_statement create_ledger
    id ← lift (to_i64 m.id)
    existing ← exec (select_name m.source_code id)
    record_found m execute_sql (first_of_rows existing)

  -- `apply_migration` of the module; the trait's `record_migration` does not execute the SQL.
  unfoldable pub apply_migration : BackendMigration → Bool → Action Db Error Bool
  apply_migration m execute_sql = in_transaction (apply_body m execute_sql)

  unfoldable pub rollback_found : BackendMigration → Option (ℕ × Text) → Action Db Error (Unit {0})
  rollback_found m none = fail (nothing_to_roll_back m.source_code)
  rollback_found m (some (id, name)) = do
    bail_when (not (nat_eq id m.id) || not (text_eq name m.name))
        (rollback_order_changed m.source_code)
    execute_sql_statements m.sql
    bound ← lift (to_i64 m.id)
    run_statement (delete_row m.source_code bound)

  unfoldable pub rollback_body : BackendMigration → Action Db Error (Unit {0})
  rollback_body m = do
    run_statement create_ledger
    rows ← exec (select_newest m.source_code)
    newest ← lift (newest_row rows)
    rollback_found m newest

  unfoldable pub rollback_migration : BackendMigration → Action Db Error (Unit {0})
  rollback_migration m = in_transaction (rollback_body m)

  unfoldable pub sync_schema : Text → Action Db Error (Unit {0})
  sync_schema sql = in_transaction (execute_sql_statements sql)

-- `impl MigrationBackend for SqliteMigrationBackend`, and for `TursoMigrationBackend`
abbrev pub sqlite_backend :
    {Schema : Type 0} (e : Engine)
    → (MigrationSourceConfig → Action e.Db Error Schema)
    → MigrationBackend e.Db Schema
sqlite_backend e observe = record {
  observe = observe;
  inspect_applied_ids = inspect_applied_ids e;
  prepare_ledger = prepare_ledger e;
  apply_migration = λ m. apply_migration e m true;
  record_migration = λ m. apply_migration e m false;
  rollback_migration = rollback_migration e;
}
