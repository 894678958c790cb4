-- ===== src/Migration/Backend.antt =====
-- The trait `MigrationBackend` (migration/backend/mod.rs), as far as it keeps the ledger of applied
-- migrations, and the contract that the manager relies on.
use toasty_mgr.Prelude.{
  ℕ, ◌<◌, ◌≡◌, Bool, true, false, ◌&&◌, Option, none, some, List, Text, text_eq, nat_eq, contains,
  nat_has_eq, if◌then◌else◌, Result, ok, err,
}
use toasty_mgr.Prelude.Action.{Action}
use toasty_mgr.Migration.Types.{LedgerMigration, BackendMigration, MigrationSourceConfig, Error}

pub record MigrationBackend (Db Schema : Type 0) : Type 0 where
  -- `inspect` with the source's namespace and scope, and `normalize` towards the model's schema
  pub observe : MigrationSourceConfig → Action Db Error Schema
  pub inspect_applied_ids : Text → List LedgerMigration → Action Db Error (List ℕ)
  pub prepare_ledger : Text → List LedgerMigration → Action Db Error (List ℕ)
  pub apply_migration : BackendMigration → Action Db Error Bool
  pub record_migration : BackendMigration → Action Db Error Bool
  pub rollback_migration : BackendMigration → Action Db Error (Unit {0})

-- The recorded name of each source and id.
abbrev pub Ledger : Type 0
Ledger = Text → ℕ → Option Text

abbrev pub entry_of : BackendMigration → Text → ℕ → Bool
entry_of m source id = text_eq m.source_code source && nat_eq m.id id

abbrev pub with_entry : BackendMigration → Ledger → Ledger
with_entry m ledger source id = if entry_of m source id then some m.name else ledger source id

abbrev pub without_entry : BackendMigration → Ledger → Ledger
without_entry m ledger source id = if entry_of m source id then none else ledger source id

abbrev pub is_some {ℓ} : {A : Type ℓ} → Option A → Bool
is_some none = false
is_some (some _) = true

-- The ids are those that the ledger has for the source.
abbrev pub IdsOf : Ledger → Text → List ℕ → Type 0
IdsOf ledger source l = (id : ℕ) → contains l id ≡ is_some (ledger source id)

module _ {Db : Type 0} (ledger : Db → Ledger) (IsIdle : Db → Type 0) where
  -- A call that only reads the ledger.
  abbrev pub Reads : Text → Db → Result Error (List ℕ) × Db → Type 0
  Reads source db (ok l, db') = (ledger db' ≡ ledger db) × IsIdle db' × IdsOf (ledger db) source l
  Reads source db (err _, db') = ledger db' ≡ ledger db

  -- A call that records a migration: `true` when it is new, `false` when it was recorded under
  -- this name before; a failure leaves the ledger alone.
  abbrev pub Records : BackendMigration → Db → Result Error Bool × Db → Type 0
  Records m db (ok true, db') =
      (ledger db m.source_code m.id ≡ none) × (ledger db' ≡ with_entry m (ledger db)) × IsIdle db'
  Records m db (ok false, db') =
      (ledger db m.source_code m.id ≡ some m.name) × (ledger db' ≡ ledger db) × IsIdle db'
  Records m db (err _, db') = ledger db' ≡ ledger db

  -- A call that removes the newest recorded migration of the source, or leaves the ledger alone.
  abbrev pub Removes : BackendMigration → Db → Result Error (Unit {0}) × Db → Type 0
  Removes m db (ok _, db') =
      (ledger db m.source_code m.id ≡ some m.name)
      × ((id : ℕ) → m.id < id → ledger db m.source_code id ≡ none)
      × (ledger db' ≡ without_entry m (ledger db))
      × IsIdle db'
  Removes m db (err _, db') = ledger db' ≡ ledger db

  -- A call that only looks at the database.
  abbrev pub Looks : {A : Type 0} → Db → Result Error A × Db → Type 0
  Looks db (ok _, db') = (ledger db' ≡ ledger db) × IsIdle db'
  Looks db (err _, db') = ledger db' ≡ ledger db

-- What the manager may rely on, from a database with no open transaction and for the SQL that the
-- backend can run inside one.
module _ {Db Schema : Type 0} (ledger : Db → Ledger) (IsIdle : Db → Type 0)
    (runs_in_transaction : Text → Bool) where
  pub record KeepsLedger (b : MigrationBackend Db Schema) : Type 0 where
    pub observe_law :
        (config : MigrationSourceConfig) (db : Db)
        → IsIdle db
        → Looks ledger IsIdle db (b.observe config db)
    pub inspect_law :
        (source : Text) (tracked : List LedgerMigration) (db : Db)
        → IsIdle db
        → Reads ledger IsIdle source db (b.inspect_applied_ids source tracked db)
    pub prepare_law :
        (source : Text) (tracked : List LedgerMigration) (db : Db)
        → IsIdle db
        → Reads ledger IsIdle source db (b.prepare_ledger source tracked db)
    pub apply_law :
        (m : BackendMigration) (db : Db)
        → IsIdle db
        → runs_in_transaction m.sql ≡ true
        → Records ledger IsIdle m db (b.apply_migration m db)
    pub record_law :
        (m : BackendMigration) (db : Db)
        → IsIdle db
        → Records ledger IsIdle m db (b.record_migration m db)
    pub rollback_law :
        (m : BackendMigration) (db : Db)
        → IsIdle db
        → runs_in_transaction m.sql ≡ true
        → Removes ledger IsIdle m db (b.rollback_migration m db)
