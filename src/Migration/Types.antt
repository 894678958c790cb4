-- ===== src/Migration/Types.antt =====
-- The data of migration/types.rs, migration/artifact.rs and the ledger records of
-- migration/backend/mod.rs, with the errors that the migration manager reports.
use toasty_mgr.Prelude.{ℕ, Bool, List, [], ◌∷◌, ◌++◌, Option, Text}

-- A path is its components; the names that are joined to one hold no separator.
abbrev pub FilePath : Type 0
FilePath = List Text

infixl 60 ◌/+◌
abbrev pub ◌/+◌ : FilePath → Text → FilePath
path /+ name = path ++ name ∷ []

pub record OwnedMigrationFile : Type 0 where
  pub id : ℕ
  pub name : Text
  pub sql : Text
  pub rollback_sql : Option Text
  pub snapshot_name : Option Text

pub record MigrationArtifactSet : Type 0 where
  pub migrations : List OwnedMigrationFile

-- `HistoryEntry` of the toasty crate, as far as this crate reads it.
pub record HistoryEntry : Type 0 where
  pub id : ℕ
  pub name : Text
  pub snapshot_name : Text

pub data ArtifactState : Type 0 where
  missing empty ready partial invalid : ArtifactState

pub data SchemaScope : Type 0 where
  managed : SchemaScope
  tables : List Text → SchemaScope
  prefixes : List Text → SchemaScope
  namespace_exclusive : SchemaScope

pub record MigrationSourceConfig : Type 0 where
  pub code : Text
  pub artifact_root : FilePath
  pub migration_group : Text
  pub backend_override : Option Text
  pub namespace : Option Text
  pub scope : SchemaScope

pub record MigrationSourcesConfig : Type 0 where
  pub artifact_root : FilePath
  pub migration_group : Text
  pub backend_override : Option Text
  pub namespace : Option Text
  pub scope : SchemaScope

-- `Embedded` holds the migrations of a `MigrationSet` of the toasty crate.
pub data MigrationArtifactInput : Type 0 where
  registered_filesystem : MigrationArtifactInput
  owned : MigrationArtifactSet → MigrationArtifactInput
  embedded : List (ℕ × Text × Text) → MigrationArtifactInput

pub data MigrationApplyMode : Type 0 where
  execute adopt_baseline : MigrationApplyMode

pub record MigrationApplyReport : Type 0 where
  pub applied : ℕ
  pub skipped : ℕ
  pub adopted : ℕ

pub data MigrationRollbackSelection : Type 0 where
  steps : ℕ → MigrationRollbackSelection
  target : ℕ → MigrationRollbackSelection

pub record MigrationRollbackReport : Type 0 where
  pub rolled_back : ℕ

pub record MigrationStatusReport : Type 0 where
  pub source : Text
  pub tracked : ℕ
  pub applied : ℕ
  pub pending : List ℕ
  pub unknown_applied : List ℕ
  pub model_drift : Bool
  pub database_fingerprint : Option Text

pub record LedgerMigration : Type 0 where
  pub id : ℕ
  pub name : Text

pub record BackendMigration : Type 0 where
  pub source_code : Text
  pub id : ℕ
  pub name : Text
  pub sql : Text

-- One constructor for each `bail!` or `context` of the manager, the artifacts and the ledger;
-- `external` is an error of code outside the crate.
pub data Error : Type 0 where
  duplicate_id : ℕ → Error
  duplicate_name : Text → Error
  empty_sql : Text → Error
  artifacts_missing artifacts_partial : Text → Error
  unknown_applied : List ℕ → Error
  lineage_gap : ℕ → Error
  steps_not_positive : Error
  too_many_steps : ℕ → ℕ → Error
  target_not_applied : ℕ → Error
  not_tracked : ℕ → Error
  rollback_missing : Text → Error
  id_exhausted : Error
  name_without_letter : Error
  sql_empty : Error
  sql_forbidden : Text → Error
  spec_without_separator spec_empty_side path_without_dot : Text → Error
  table_not_found column_not_found index_not_found : Text → Error
  source_not_registered artifacts_not_registered backend_not_registered : Text → Error
  backend_already_registered : Text → Error
  adoption_needs_filesystem adoption_needs_migration adoption_needs_history : Error
  adoption_needs_empty_ledger : Text → Error
  baseline_drift : Text → Error
  not_ready model_differs : Text → Error
  ledger_name_mismatch : ℕ → Error
  unknown_in_ledger : ℕ → Error
  nothing_to_roll_back rollback_order_changed : Text → Error
  bad_ledger_row bad_catalog_value : Error
  id_too_large : ℕ → Error
  schema_unsupported : Text → Error
  index_unknown_column : Text → Error
  no_primary_key : Text → Error
  read_failed history_unreadable snapshot_unreadable : FilePath → Error
  external : ℕ → Error
  rollback_failed : Error → Error
  recovery_ambiguous : Text → ℕ → Text → Text → ℕ → Error
  lock_timeout lock_not_owned : Text → Error
  no_current_database lock_unreadable : Error
  release_failed : Error → Error → Error
  unterminated_string unterminated_identifier unterminated_comment : Error
  unterminated_dollar : Text → Error
  refusing_to_overwrite : Text → Error
  enum_declaration enum_unquoted enum_incomplete enum_unterminated enum_empty : Error
