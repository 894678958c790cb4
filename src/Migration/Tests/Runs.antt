-- ===== src/Migration/Tests/Runs.antt =====
-- The database in memory keeps the documented behaviour of SQLite, and the ledger operations run
-- on it.
use mathlib.Core.Bool.{false≢true}
use mathlib.Core.Option.{some-injective, none-ne-some}
use toasty_mgr.Prelude.{ℕ, ◌≡◌, refl, sym, true, none, some, List, [], ◌∷◌, Text, codes, ok}
use toasty_mgr.Prelude.Action.{Action}
use toasty_mgr.Migration.Types.{
  Error, BackendMigration, LedgerMigration, MigrationSourceConfig, execute, steps,
}
use toasty_mgr.Migration.Backend.{KeepsLedger, Reads, Looks}
use toasty_mgr.Migration.Sqlite.{
  Statement, begin_immediate, commit, rollback, create_ledger, table_exists, select_name,
  select_rows, select_newest, insert_row, delete_row, script, sqlite_backend, apply_migration,
  rollback_migration, prepare_ledger, inspect_applied_ids,
}
use toasty_mgr.Migration.Sqlite.Database.{
  Contents, IsLawful, Inside, Outside, Begins, Commits, is_data, is_query,
}
use toasty_mgr.Migration.Sqlite.Runs.{Atomic}
use toasty_mgr.Migration.Sqlite.Ledger.{is_transactional, Recorded, apply_migration-Atomic}
use toasty_mgr.Migration.Sqlite.Rollback.{RolledBack as Undone, rollback_migration-Atomic}
use toasty_mgr.Migration.Sqlite.Inspect.{
  Listed, IsIdle, recorded, prepare_ledger-Atomic, inspect_applied_ids-Reads,
}
use toasty_mgr.Migration.Sqlite.Contract.{sqlite_backend-KeepsLedger}
use toasty_mgr.Migration.Manager.{apply_artifacts, rollback_artifacts}
use toasty_mgr.Migration.Manager.RolledBack.{RolledBack, rollback_artifacts-RolledBack}
use toasty_mgr.Migration.Manager.Apply.{Executed, apply_artifacts-Executed}
use toasty_mgr.Migration.Tests.{two_files}
use toasty_mgr.Migration.Tests.Log.{added}
use toasty_mgr.Migration.Tests.Memory.{
  Memory, memory, in_memory, contents, in_memory-Inside, rows-Answers,
}

inside :
    (st : Statement) (db : Memory) (c : Contents (List Text))
    → is_data memory st ≡ true
    → memory.working db ≡ some c
    → Inside memory st c db (in_memory st db)
inside begin_immediate db c h e = absurd (false≢true h)
inside commit db c h e = absurd (false≢true h)
inside rollback db c h e = absurd (false≢true h)
inside st (s, none) c h e = absurd (none-ne-some c e)
inside create_ledger (s, some w) c h e =
    in_memory-Inside create_ledger s w c (some-injective (contents w) c e)
inside table_exists (s, some w) c h e =
    in_memory-Inside table_exists s w c (some-injective (contents w) c e)
inside (select_name source id) (s, some w) c h e =
    in_memory-Inside (select_name source id) s w c (some-injective (contents w) c e)
inside (select_rows source) (s, some w) c h e =
    in_memory-Inside (select_rows source) s w c (some-injective (contents w) c e)
inside (select_newest source) (s, some w) c h e =
    in_memory-Inside (select_newest source) s w c (some-injective (contents w) c e)
inside (insert_row source id name) (s, some w) c h e =
    in_memory-Inside (insert_row source id name) s w c (some-injective (contents w) c e)
inside (delete_row source id) (s, some w) c h e =
    in_memory-Inside (delete_row source id) s w c (some-injective (contents w) c e)
inside (script sql) (s, some w) c h e =
    in_memory-Inside (script sql) s w c (some-injective (contents w) c e)

outside :
    (st : Statement) (db : Memory)
    → is_query memory st ≡ true
    → memory.working db ≡ none
    → Outside memory st db (in_memory st db)
outside st (s, some w) h e = absurd (none-ne-some (contents w) (sym e))
outside table_exists (s, none) h e = (refl, refl, rows-Answers table_exists s)
outside (select_rows source) (s, none) h e = (refl, refl, rows-Answers (select_rows source) s)
outside begin_immediate (s, none) h e = absurd (false≢true h)
outside commit (s, none) h e = absurd (false≢true h)
outside rollback (s, none) h e = absurd (false≢true h)
outside create_ledger (s, none) h e = absurd (false≢true h)
outside (select_name source id) (s, none) h e = absurd (false≢true h)
outside (select_newest source) (s, none) h e = absurd (false≢true h)
outside (insert_row source id name) (s, none) h e = absurd (false≢true h)
outside (delete_row source id) (s, none) h e = absurd (false≢true h)
outside (script sql) (s, none) h e = absurd (false≢true h)

begins : (db : Memory) → Begins memory db (in_memory begin_immediate db)
begins (s, none) = (refl, refl)
begins (s, some w) = refl

commits :
    (db : Memory) (c : Contents (List Text))
    → memory.working db ≡ some c
    → Commits memory c db (in_memory commit db)
commits (s, none) c e = absurd (none-ne-some c e)
commits (s, some w) c e = (some-injective (contents w) c e, refl)

memory-IsLawful : IsLawful memory
memory-IsLawful = record {
  connection_law = λ db. refl;
  begin_law = begins;
  commit_law = commits;
  rollback_law = λ db. refl;
  inside_law = inside;
  outside_law = outside;
}

-- The first migration is applied, with one script.
abbrev applied_once : Memory
applied_once = (
  (
    some (added (codes "main") 1 (codes "0000_users") ∷ []),
    codes "CREATE TABLE users (id INT)" ∷ [],
  ),
  none,
)

abbrev users : BackendMigration
users = record {
  source_code = codes "main";
  id = 1;
  name = codes "0000_users";
  sql = codes "DROP TABLE users";
}

abbrev posts : BackendMigration
posts = record {
  source_code = codes "main";
  id = 2;
  name = codes "0001_posts";
  sql = codes "CREATE TABLE posts (id INT)";
}

abbrev looks_at : MigrationSourceConfig → Action Memory Error ℕ
looks_at config db = (ok 0, db)

looks_at-Looks :
    (config : MigrationSourceConfig) (db : Memory)
    → IsIdle memory memory-IsLawful db
    → Looks
        (recorded memory memory-IsLawful)
        (IsIdle memory memory-IsLawful)
        db
        (looks_at config db)
looks_at-Looks config db idle = (refl, idle)

apply_migration-Atomic_example :
    Atomic memory memory-IsLawful
      (Recorded memory memory-IsLawful posts true (memory.committed applied_once))
      applied_once
      (apply_migration memory posts true applied_once)
apply_migration-Atomic_example =
    apply_migration-Atomic memory memory-IsLawful posts true applied_once (λ _. refl)

rollback_migration-Atomic_example :
    Atomic memory memory-IsLawful
      (Undone memory memory-IsLawful users (memory.committed applied_once))
      applied_once
      (rollback_migration memory users applied_once)
rollback_migration-Atomic_example =
    rollback_migration-Atomic memory memory-IsLawful users applied_once refl

abbrev tracked : List LedgerMigration
tracked = record { id = 1; name = codes "0000_users" } ∷ []

prepare_ledger-Atomic_example :
    Atomic memory memory-IsLawful
      (Listed memory memory-IsLawful (codes "main") (memory.committed applied_once))
      applied_once
      (prepare_ledger memory (codes "main") tracked applied_once)
prepare_ledger-Atomic_example =
    prepare_ledger-Atomic memory memory-IsLawful (codes "main") tracked applied_once

inspect_applied_ids-Reads_example :
    Reads
      (recorded memory memory-IsLawful)
      (IsIdle memory memory-IsLawful)
      (codes "main")
      applied_once
      (inspect_applied_ids memory (codes "main") tracked applied_once)
inspect_applied_ids-Reads_example =
    inspect_applied_ids-Reads memory memory-IsLawful (codes "main") tracked applied_once refl

memory-KeepsLedger :
    KeepsLedger
      (recorded memory memory-IsLawful)
      (IsIdle memory memory-IsLawful)
      (is_transactional memory)
      (sqlite_backend memory looks_at)
memory-KeepsLedger = sqlite_backend-KeepsLedger memory memory-IsLawful looks_at looks_at-Looks

sqlite_backend-KeepsLedger_example :
    KeepsLedger
      (recorded memory memory-IsLawful)
      (IsIdle memory memory-IsLawful)
      (is_transactional memory)
      (sqlite_backend memory looks_at)
sqlite_backend-KeepsLedger_example =
    sqlite_backend-KeepsLedger memory memory-IsLawful looks_at looks_at-Looks

apply_artifacts-Executed_example :
    Executed
      (recorded memory memory-IsLawful)
      (IsIdle memory memory-IsLawful)
      (is_transactional memory)
      (sqlite_backend memory looks_at)
      memory-KeepsLedger
      (codes "main")
      two_files.migrations
      (recorded memory memory-IsLawful applied_once)
      (apply_artifacts
        (sqlite_backend memory looks_at)
        (codes "main")
        execute
        two_files
        applied_once)
apply_artifacts-Executed_example =
    apply_artifacts-Executed (recorded memory memory-IsLawful) (IsIdle memory memory-IsLawful)
      (is_transactional memory) (sqlite_backend memory looks_at) memory-KeepsLedger (codes "main")
      two_files applied_once refl (refl, (refl, tt))

rollback_artifacts-RolledBack_example :
    RolledBack
      (recorded memory memory-IsLawful)
      (IsIdle memory memory-IsLawful)
      (is_transactional memory)
      (sqlite_backend memory looks_at)
      memory-KeepsLedger
      (codes "main")
      two_files
      (steps 1)
      (recorded memory memory-IsLawful applied_once)
      (rollback_artifacts
        (sqlite_backend memory looks_at)
        (codes "main")
        (steps 1)
        two_files
        applied_once)
rollback_artifacts-RolledBack_example =
    rollback_artifacts-RolledBack (recorded memory memory-IsLawful) (IsIdle memory memory-IsLawful)
      (is_transactional memory) (sqlite_backend memory looks_at) memory-KeepsLedger (codes "main")
      two_files (steps 1) applied_once refl (λ sql h. refl, (λ sql h. refl, tt))
