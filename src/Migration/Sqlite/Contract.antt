-- ===== src/Migration/Sqlite/Contract.antt =====
-- The SQLite backend keeps the contract of the trait.
use mathlib.Core.Bool.{false≢true}
use toasty_mgr.Prelude.{ap, Bool, true, false, Result, ok, err, Text, List, ℕ}
use toasty_mgr.Prelude.Action.{Action}
use toasty_mgr.Migration.Types.{Error, BackendMigration, MigrationSourceConfig}
use toasty_mgr.Migration.Backend.{KeepsLedger, Reads, Records, Removes, Looks}
use toasty_mgr.Migration.Sqlite.Database.{Engine, IsLawful, entries}
use toasty_mgr.Migration.Sqlite.Runs.{Atomic}
use toasty_mgr.Migration.Sqlite.Ledger.{is_transactional, Recorded, apply_migration-Atomic}
use toasty_mgr.Migration.Sqlite.Rollback.{RolledBack, rollback_migration-Atomic}
use toasty_mgr.Migration.Sqlite.Inspect.{
  Listed, IsIdle, recorded, prepare_ledger-Atomic, inspect_applied_ids-Reads,
}
use toasty_mgr.Migration.Sqlite.{sqlite_backend}

module _ (e : Engine) (law : IsLawful e) where
  open e use {App, Db, committed, working}

  Listed-Reads :
      (source : Text) (db : Db) (r : Result Error (List ℕ) × Db)
      → Atomic e law (Listed e law source (committed db)) db r
      → Reads (recorded e law) (IsIdle e law) source db r
  Listed-Reads source db (ok l, db') (idle, (same, _, ids)) = (same, idle, ids)
  Listed-Reads source db (err x, db') same = ap entries same

  Recorded-Records :
      (m : BackendMigration) (execute_sql : Bool) (db : Db) (r : Result Error Bool × Db)
      → Atomic e law (Recorded e law m execute_sql (committed db)) db r
      → Records (recorded e law) (IsIdle e law) m db r
  Recorded-Records m x db (ok true, db') (idle, (absent, added, _)) = (absent, added, idle)
  Recorded-Records m x db (ok false, db') (idle, (present, same, _)) = (present, same, idle)
  Recorded-Records m x db (err y, db') same = ap entries same

  RolledBack-Removes :
      (m : BackendMigration) (db : Db) (r : Result Error (Unit {0}) × Db)
      → Atomic e law (RolledBack e law m (committed db)) db r
      → Removes (recorded e law) (IsIdle e law) m db r
  RolledBack-Removes m db (ok _, db') (idle, (present, newest, removed, _)) =
      (present, newest, removed, idle)
  RolledBack-Removes m db (err y, db') same = ap entries same

  -- On a database that keeps its documented behaviour, the ledger operations of the SQLite and
  -- Turso backends keep what the manager relies on, if reading the catalog only reads.
  pub sqlite_backend-KeepsLedger :
      {Schema : Type 0} (observe : MigrationSourceConfig → Action Db Error Schema)
      → ((config : MigrationSourceConfig) (db : Db)
          → IsIdle e law db
          → Looks (recorded e law) (IsIdle e law) db (observe config db))
      → KeepsLedger (recorded e law) (IsIdle e law) (is_transactional e) (sqlite_backend e observe)
  sqlite_backend-KeepsLedger observe reads = record {
    observe_law = reads;
    inspect_law = inspect_applied_ids-Reads e law;
    prepare_law = λ source tracked db _.
        Listed-Reads source db _ (prepare_ledger-Atomic e law source tracked db);
    apply_law =
        λ m db _ h. Recorded-Records m true db _ (apply_migration-Atomic e law m true db (λ _. h));
    record_law = λ m db _.
        Recorded-Records m false db _
          (apply_migration-Atomic e law m false db (λ x. absurd (false≢true x)));
    rollback_law = λ m db _ h. RolledBack-Removes m db _ (rollback_migration-Atomic e law m db h);
  }
