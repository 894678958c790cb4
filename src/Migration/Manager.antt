-- ===== src/Migration/Manager.antt =====
-- The migration manager (migration/manager.rs): its registries, and the operations that change a
-- database's ledger.
pub mod Recording
pub mod Apply
pub mod Rollback
pub mod RolledBack
use toasty_mgr.Prelude.{
  ℕ, ◌+◌, Bool, true, false, not, ◌&&◌, ◌||◌, Option, none, some, List, [], ◌∷◌, ◌++◌, map, nat_eq,
  if◌then◌else◌, first, find, length, is_empty, contains, Text, nat_has_eq, text_has_eq, Result, ok,
  err, ok_or, collect,
}
use toasty_mgr.Prelude.Action.{Action, pure, fail, lift, ◌>>=◌, ◌>>◌, bail_when, for_each}
use toasty_mgr.Prelude.Map
use toasty_mgr.Prelude.Map.{Map}
use toasty_mgr.Migration.Types.{
  OwnedMigrationFile, MigrationArtifactSet, MigrationSourceConfig, MigrationArtifactInput,
  registered_filesystem, owned, embedded, MigrationApplyMode, execute, adopt_baseline,
  MigrationApplyReport, MigrationRollbackSelection, MigrationRollbackReport, BackendMigration,
  Error, source_not_registered, artifacts_not_registered, backend_not_registered,
  adoption_needs_filesystem, adoption_needs_migration, adoption_needs_empty_ledger, baseline_drift,
  not_tracked, rollback_missing,
}
use toasty_mgr.Migration.Artifact.{FileSystem, resolve_artifacts, first_snapshot_schema}
use toasty_mgr.Migration.Backend.{MigrationBackend, is_some}
use toasty_mgr.Migration.Lineage.{
  validate_applied_ids, ledger_migrations, backend_migration, applied_lineage, select_rollback_ids,
}
use toasty_mgr.Migration.Naming.{validate_sql}

-- What the manager reads while it runs: the process-wide registries SOURCES, ARTIFACTS and
-- BACKENDS, the files, the connection to a source (`TcMgr::get`) with its driver's name in lower
-- case, and whether the toasty crate's diff of two schemas is not empty.
pub record Env (Db Schema : Type 0) : Type 0 where
  pub sources : Map Text MigrationSourceConfig
  pub artifacts : Map Text MigrationArtifactInput
  pub backends : Map Text (MigrationBackend Db Schema)
  pub fs : FileSystem Schema
  pub connect : Text → Result Error (Unit {0})
  pub driver_name : Text
  pub differs : Schema → Schema → Bool

module _ {Db Schema : Type 0} (env : Env Db Schema) where
  unfoldable pub source_config : Text → Result Error MigrationSourceConfig
  source_config code = ok_or (Map.get env.sources code) (source_not_registered code)

  unfoldable pub registered_artifact_input : Text → Result Error MigrationArtifactInput
  registered_artifact_input code =
      ok_or (Map.get env.artifacts code) (artifacts_not_registered code)

  abbrev pub backend_id : MigrationSourceConfig → Text
  backend_id config = elim config.backend_override [ none ↦ env.driver_name | some id ↦ id ]

  unfoldable pub backend_for : MigrationSourceConfig → Result Error (MigrationBackend Db Schema)
  backend_for config =
      ok_or (Map.get env.backends (backend_id config)) (backend_not_registered (backend_id config))

  -- The first schema of the lineage, where a baseline is adopted.
  unfoldable pub baseline_schema :
      MigrationApplyMode
      → MigrationSourceConfig
      → MigrationArtifactInput
      → Result Error (Option Schema)
  baseline_schema execute config input = ok none
  baseline_schema adopt_baseline config registered_filesystem =
      elim (first_snapshot_schema env.fs config) [ ok schema ↦ ok (some schema) | err e ↦ err e ]
  baseline_schema adopt_baseline config (owned _) = err adoption_needs_filesystem
  baseline_schema adopt_baseline config (embedded _) = err adoption_needs_filesystem

  -- A baseline is adopted only by a database that has exactly its schema.
  unfoldable pub check_baseline : MigrationSourceConfig → Option Schema → Action Db Error (Unit {0})
  check_baseline config none = pure tt
  check_baseline config (some baseline) = do
    backend ← lift (backend_for config)
    observed ← backend.observe config
    bail_when (env.differs baseline observed) (baseline_drift config.code)

-- The counters of the report; the adopted migration is left out of them.
abbrev pub count_applied : Option Bool → MigrationApplyReport → MigrationApplyReport
count_applied none r = r
count_applied (some true) r = record r { applied = r.applied + 1 }
count_applied (some false) r = record r { skipped = r.skipped + 1 }

abbrev pub zero_report : MigrationApplyReport
zero_report = record { applied = 0; skipped = 0; adopted = 0 }

abbrev pub is_id : Option ℕ → ℕ → Bool
is_id none id = false
is_id (some adopted) id = nat_eq adopted id

module _ {Db Schema : Type 0} (b : MigrationBackend Db Schema) (code : Text) where
  -- One migration of the loop of `apply`: left out if it was adopted, skipped when its id is
  -- applied, else checked and applied.
  unfoldable pub apply_one : Option ℕ → List ℕ → OwnedMigrationFile → Action Db Error (Option Bool)
  apply_one adopted applied_ids m =
      if is_id adopted m.id
      then pure none
      else (if contains applied_ids m.id then pure (some false) else (do
        lift (validate_sql m.sql)
        applied ← b.apply_migration (backend_migration code m m.sql)
        pure (some applied)))

  unfoldable pub apply_loop :
      Option ℕ
      → List ℕ
      → List OwnedMigrationFile
      → MigrationApplyReport
      → Action Db Error MigrationApplyReport
  apply_loop adopted applied_ids [] report = pure report
  apply_loop adopted applied_ids (m ∷ ms) report = do
    applied ← apply_one adopted applied_ids m
    apply_loop adopted (m.id ∷ applied_ids) ms (count_applied applied report)

  -- Records the first migration as applied, without its SQL.
  unfoldable pub adopt : List ℕ → List OwnedMigrationFile → Action Db Error ℕ
  adopt applied_ids ms = do
    bail_when (not (is_empty applied_ids)) (adoption_needs_empty_ledger code)
    baseline ← lift (ok_or (first ms) adoption_needs_migration)
    recorded ← b.record_migration (backend_migration code baseline [])
    pure baseline.id

  unfoldable pub run_migrations :
      MigrationApplyMode → List ℕ → List OwnedMigrationFile → Action Db Error MigrationApplyReport
  run_migrations execute applied_ids ms = apply_loop none applied_ids ms zero_report
  run_migrations adopt_baseline applied_ids ms = do
    baseline ← adopt applied_ids ms
    apply_loop (some baseline) (baseline ∷ applied_ids) ms
        (record { applied = 0; skipped = 0; adopted = 1 })

  -- The part of `apply` that works on the ledger.
  unfoldable pub apply_artifacts :
      MigrationApplyMode → MigrationArtifactSet → Action Db Error MigrationApplyReport
  apply_artifacts mode artifacts = do
    inspected ← b.inspect_applied_ids code (ledger_migrations artifacts)
    lift (validate_applied_ids artifacts inspected)
    applied_ids ← b.prepare_ledger code (ledger_migrations artifacts)
    lift (validate_applied_ids artifacts applied_ids)
    run_migrations mode applied_ids artifacts.migrations

  -- A migration that is to be rolled back, with its checked rollback SQL.
  unfoldable pub rollback_file : MigrationArtifactSet → ℕ → Result Error BackendMigration
  rollback_file artifacts id = elim (find (λ m. nat_eq m.id id) artifacts.migrations) [
    | none ↦ err (not_tracked id)
    | some m ↦ elim m.rollback_sql [
      | none ↦ err (rollback_missing m.name)
      | some sql ↦ elim (validate_sql sql) [
        | ok _ ↦ ok (backend_migration code m sql)
        | err e ↦ err e
      ]
    ]
  ]

  unfoldable pub roll_back_all : List BackendMigration → Action Db Error (Unit {0})
  roll_back_all [] = pure tt
  roll_back_all (m ∷ ms) = do b.rollback_migration m; roll_back_all ms

  unfoldable pub rollback_artifacts :
      MigrationRollbackSelection → MigrationArtifactSet → Action Db Error MigrationRollbackReport
  rollback_artifacts selection artifacts = do
    applied ← b.inspect_applied_ids code (ledger_migrations artifacts)
    lift (validate_applied_ids artifacts applied)
    prepared ← b.prepare_ledger code (ledger_migrations artifacts)
    lineage ← lift (applied_lineage artifacts applied)
    selected ← lift (select_rollback_ids lineage selection)
    migrations ← lift (collect (rollback_file artifacts) selected)
    roll_back_all migrations
    pure (record { rolled_back = length selected })

module _ {Db Schema : Type 0} (env : Env Db Schema) where
  -- `TcMigrationMgr::apply`
  unfoldable pub apply : Text → MigrationApplyMode → Action Db Error MigrationApplyReport
  apply source mode = do
    config ← lift (source_config env source)
    input ← lift (registered_artifact_input env source)
    baseline ← lift (baseline_schema env mode config input)
    artifacts ← lift (resolve_artifacts env.fs config input)
    bail_when (is_some baseline && is_empty artifacts.migrations) adoption_needs_migration
    lift (env.connect config.code)
    check_baseline env config baseline
    backend ← lift (backend_for env config)
    apply_artifacts backend config.code mode artifacts

  -- `TcMigrationMgr::rollback`
  unfoldable pub rollback :
      Text → MigrationRollbackSelection → Action Db Error MigrationRollbackReport
  rollback source selection = do
    config ← lift (source_config env source)
    input ← lift (registered_artifact_input env source)
    artifacts ← lift (resolve_artifacts env.fs config input)
    lift (env.connect config.code)
    backend ← lift (backend_for env config)
    rollback_artifacts backend config.code selection artifacts
