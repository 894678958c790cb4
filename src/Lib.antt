-- ===== src/Lib.antt =====
-- A model of toasty-mgr, which manages data sources, transactions over them and their migrations for
-- the toasty ORM, with proofs of what its operations do.
--
-- The parts of the program and how they interact:
--   - The registry (src/registry.rs, src/ext.rs) keeps the connections, the model sets and the aliases
--     of data sources by code. It loads a source from a catalog row (src/base_ds.rs) on demand.
--   - Transactions (src/transaction.rs) take a connection from the registry and run a callback in a
--     transaction, once or with retries, or coordinate one transaction for each of several sources.
--   - The migration manager (src/migration/manager.rs) resolves the migrations of a source
--     (src/migration/artifact.rs), compares them with the ledger of applied migrations and asks a
--     backend (src/migration/backend/) to apply, record or roll back each.
--
-- Which file models which part:
--   - Prelude: shared names, Boolean tests, lists, texts (lists of code points), maps (association
--     lists, in iteration order), `Result` with `?`, and `Action`, a state with errors that keeps what
--     was written before a failure.
--   - BaseDs: the catalog row, its defaults and `toasty_url`.
--   - Registry: the data of src/registry.rs; Registry/Connections: the operations that publish, evict
--     and derive connections; Registry/Loading: those that look up and load, and `TcMgr::init_alias`;
--     Registry/Derived, Published, Evicted, Aliases: proofs about them.
--   - Transaction: `TcTxMgr`; Transaction/Codes, Retry, Attempts: proofs about it.
--   - Migration/Types, Lineage, Naming, Artifact: the data and the pure functions of the manager and
--     of artifact.rs, their proofs in child modules named for what they prove.
--   - Migration/Backend: the trait `MigrationBackend` with the contract that the manager relies on.
--   - Migration/Sqlite: the ledger operations of src/migration/backend/sqlite.rs, which turso.rs
--     forwards to. Sqlite/Rows has their statements and rows, Sqlite/Database what is documented of
--     the database, and Runs, Ledger, Rollback, Inspect and Contract the proofs.
--   - Migration/MySql: the ledger operations of src/migration/backend/mysql.rs, whose statements commit
--     one by one between a run marker's insertion and its deletion, under a lock. MySql/Statements and
--     Decoded have its statements and rows, MySql/Tables what is documented of the server; Traces is a
--     program logic with a postcondition for values and one for errors, and Locked, Started, Marked,
--     Applied, RolledBack, Local, Synced and Stuck are the proofs. MySql/Enums is `parse_mysql_enum`.
--   - Migration/Postgres: the splitter of scripts in src/migration/backend/postgresql.rs, over characters
--     where the program counts bytes. Postgres/Splitter has its states and steps; Tokens describes a
--     script as comments, strings, bodies and plain characters, independently of the splitter.
--   - Migration/Schema, Migration/Normalize: the observed schema and `normalize_observed` of
--     src/migration/backend/mod.rs; Normalize/Consistent is its proof.
--   - Migration/Generated: `write_generated` of src/migration/manager.rs, over a file system that is a
--     parameter. Generated/Places shows that its eight paths differ, Disk has what is documented of
--     std::fs, Steps and Written follow the files, Refused has what comes before the first write, and
--     Named is the operation as a whole.
--   - Migration/Manager: `apply` and `rollback`; Manager/Recording says what recording a list of
--     migrations does to a ledger, Manager/Apply proves that `apply` does that, and
--     Manager/Rollback and RolledBack that `rollback` removes what was selected.
--   - The modules named Tests hold concrete databases, drivers and registries, and runs on them.
--
-- Conventions: a u64, an i64 or a u16 is a number, with the program's range checks written out (an id
-- that does not fit an i64 is refused, as `i64::try_from` does). Loops are structural recursion; the
-- attempts of a retrying transaction count down from the maximum, so no fuel is needed. Code that is
-- not in this repository (the toasty crate, the database, the url crate, the file system, callbacks)
-- is a parameter, with its documented behaviour as named hypotheses: `IsLawful` of SQLite and of
-- MySQL, `IsDisk` of the file system, `IsIsolated` and `CountsConnects` of transactions (what a commit
-- that fails leaves is left open). The values of a MySQL enum are read on fuel, the length of the text,
-- of which each round consumes a character. Calls on the registry run one after another.
--
-- Not modelled: the PostgreSQL ledger, the inspection of catalogs, which reads what a database reports,
-- the type mappings between backends, the comparison of schemas that generates a migration (the toasty
-- crate does it), status reports, the query helpers and the procedural macros. The implementations of
-- the trait `Executor`, which only forward, are left out.
pub mod Prelude
pub mod BaseDs
pub mod Registry
pub mod Transaction
pub mod Migration
