-- ===== src/Migration/MySql/Stuck.antt =====
-- A source with a run marker: its operations under the lock and `inspect_applied_ids` fail and change
-- nothing, whatever happens to the other sources meanwhile.
pub mod Sequences
use toasty_mgr.Prelude.{
  ℕ, ◌≡◌, ◌≢◌, refl, sym, ap, ◌∙◌, Bool, true, false, inl, inr, Bool-cases, Option, none, some,
  List, [], ◌∷◌, Text, text_eq, arith, if◌then◌else◌, is_empty, not, Result, ok, err,
}
use toasty_mgr.Prelude.Strings.{text_eq_iff}
use toasty_mgr.Prelude.Action.{Action, pure, lift, ◌>>=◌, ◌>>◌, for_each}
use toasty_mgr.Migration.Types.{Error, LedgerMigration, BackendMigration}
use toasty_mgr.Migration.Sqlite.{Row}
use toasty_mgr.Migration.MySql.Statements.{
  Statement, create_ledger, create_runs, ledger_exists, runs_exists, select_marker, insert_marker,
  set_progress, delete_marker, insert_row, delete_row, script, select_database, release_lock,
  get_lock, select_name, select_rows, select_newest, select_newest,
}
use toasty_mgr.Migration.MySql.Tables.{
  Mark, Contents, Server, IsLawful, effect, entries, marks, Answers,
}
use toasty_mgr.Migration.MySql.Traces.{Ends, Traced, Traced-pure, Traced-bind, Traced-exec}
use toasty_mgr.Migration.MySql.Locked.{with_lock-Traced}
use toasty_mgr.Migration.MySql.Started.{checked_start-Traced, ensure_no_recovery_marker-Traced}
use toasty_mgr.Migration.MySql.Marked.{is_plain_sql}
use toasty_mgr.Migration.MySql.Local.{
  is_of, inspect_applied_ids-Stays, prepare_ledger-Stays, sync_schema-Stays,
}
use toasty_mgr.Migration.MySql.Local.Migrations.{apply_migration-Stays, rollback_migration-Stays}
use toasty_mgr.Migration.MySql.{
  create_metadata_tables, ensure_no_recovery_marker, table_exists, inspect_applied_ids,
  prepare_body, prepare_ledger, apply_body, apply_migration, sync_body, sync_schema, rollback_body,
  rollback_migration, with_lock, ledger_name, record_found, read_ids, rollback_found, newest_row,
}

-- The calls that look for a marker: `inspect_applied_ids`, `prepare_ledger`, `apply_migration` with
-- and without its SQL, `rollback_migration` and `sync_schema`. The backend's other two, `inspect` of
-- the catalog and `normalize`, only read, and do not look for one.
pub data Call : Type 0 where
  inspect prepare : Text → List LedgerMigration → Call
  apply record_only rollback : BackendMigration → Call
  sync : Text → Text → Call

abbrev pub source_of : Call → Text
source_of (inspect source tracked) = source
source_of (prepare source tracked) = source
source_of (apply m) = m.source_code
source_of (record_only m) = m.source_code
source_of (rollback m) = m.source_code
source_of (sync source sql) = source

module _ (e : Server) where
  open e use {App, Db, contents, exec}

  -- The SQL that the call executes leaves the metadata alone.
  abbrev pub is_plain_call : Call → Bool
  is_plain_call (apply m) = is_plain_sql e m.sql
  is_plain_call (rollback m) = is_plain_sql e m.sql
  is_plain_call (sync source sql) = is_plain_sql e sql
  is_plain_call _ = true

  -- Whether the call returned a value, and the database after it.
  abbrev pub succeeded : {A : Type 0} → Result Error A × Db → Bool × Db
  succeeded (ok _, db) = (true, db)
  succeeded (err _, db) = (false, db)

  abbrev pub run_call : Call → Db → Bool × Db
  run_call (inspect source tracked) db = succeeded (inspect_applied_ids e source tracked db)
  run_call (prepare source tracked) db = succeeded (prepare_ledger e source tracked db)
  run_call (apply m) db = succeeded (apply_migration e m true db)
  run_call (record_only m) db = succeeded (apply_migration e m false db)
  run_call (rollback m) db = succeeded (rollback_migration e m db)
  run_call (sync source sql) db = succeeded (sync_schema e source sql db)

  abbrev pub run_calls : List Call → Db → Db
  run_calls [] db = db
  run_calls (call ∷ calls) db = run_calls calls (run_call call db).1

  -- The same entries, data and markers.
  abbrev pub Unchanged : Contents App → Contents App → Type 0
  Unchanged c c' = (entries c' ≡ entries c) × (c'.app ≡ c.app) × (marks c' ≡ marks c)

  -- The same entries and markers of the source.
  abbrev pub SameSource : Text → Contents App → Contents App → Type 0
  SameSource source c c' =
      (marks c' source ≡ marks c source) × ((id : ℕ) → entries c' source id ≡ entries c source id)

module _ (e : Server) (law : IsLawful e) (source : Text) (mark : Mark) (others : List Mark)
    (c : Contents e.App) (stuck : marks c source ≡ mark ∷ others) where
  open e use {App, Db, contents, exec}

  abbrev Refused : {A : Type 0} → Action Db Error A → Type 0
  Refused {A} m = Traced e {A = A} m c (λ _ _. ⊥) (Unchanged e c)

  cons-ne-nil : marks c source ≢ []
  cons-ne-nil h = cc

  steady : Unchanged e c c
  steady = (refl, refl, refl)

  started_Refused :
      {A : Type 0} (k : Action Db Error A)
      → Refused (
          with_lock e source
            (create_metadata_tables e >>= λ _. ensure_no_recovery_marker e source >>= λ _. k))
  started_Refused k =
      with_lock-Traced e law _ (Unchanged e c) source _ c steady (λ _ _ h. absurd h)
        (checked_start-Traced e law source _ (Unchanged e c) k c steady steady steady
          (λ free. absurd (cons-ne-nil free)))

  ensure_Refused :
      {A : Type 0} (k : Action Db Error A) → Refused (ensure_no_recovery_marker e source >>= λ _. k)
  ensure_Refused k =
      Traced-bind e _ _ (Unchanged e c) (ensure_no_recovery_marker e source) (λ _. k) c
        (ensure_no_recovery_marker-Traced e law source (Unchanged e c) c steady)
        (λ _ c' free. absurd (cons-ne-nil free.1))

  prepare_Refused : (tracked : List LedgerMigration) → Refused (prepare_ledger e source tracked)
  unfolding prepare_ledger prepare_body
  prepare_Refused tracked = started_Refused (read_ids e source tracked)

  sync_Refused : (sql : Text) → Refused (sync_schema e source sql)
  unfolding sync_schema sync_body
  sync_Refused sql =
      with_lock-Traced e law _ (Unchanged e c) source (sync_body e source sql) c steady
        (λ _ _ h. absurd h) (ensure_Refused (for_each _ _))

  found : (rows : List Row) → Answers e runs_exists c rows → is_empty rows ≡ false
  found rows (inl (_, missing)) = absurd (cons-ne-nil (rw missing refl))
  found rows (inr (present, _)) = present

  runs_exists_Refused :
      Traced e (table_exists e runs_exists) c (λ b c'. (b ≡ true) × (c' ≡ c)) (Unchanged e c)
  unfolding table_exists
  runs_exists_Refused =
      Traced-bind e _ _ (Unchanged e c) (exec runs_exists) (λ rows. pure (not (is_empty rows))) c
        (Traced-exec e law runs_exists (Unchanged e c) c refl steady steady)
        (λ rows c' q.
          Traced-pure e (λ b c'. (b ≡ true) × (c' ≡ c)) (Unchanged e c) (not (is_empty rows)) c'
            (rw (found rows q.1) refl, q.0))

  inspect_Refused :
      (tracked : List LedgerMigration) → Refused (inspect_applied_ids e source tracked)
  unfolding inspect_applied_ids
  inspect_Refused tracked =
      let ids : Bool → Action Db Error (List ℕ) =
        λ b. if b then read_ids e source tracked else pure [] in
      let next : Action Db Error (List ℕ) = table_exists e ledger_exists >>= ids in
      let checked : Bool → Action Db Error (List ℕ) =
        λ b. (if b then ensure_no_recovery_marker e source else pure tt) >>= λ _. next in
      Traced-bind e _ (λ _ _. ⊥) (Unchanged e c) (table_exists e runs_exists) checked c
        runs_exists_Refused (λ b c' h. rw (h.0, h.1) (ensure_Refused next))

module _ (e : Server) (law : IsLawful e) where
  open e use {App, Db, contents, exec}

  apply_Refused :
      (m : BackendMigration) (execute_sql : Bool) (mark : Mark) (others : List Mark)
      (c : Contents App)
      → marks c m.source_code ≡ mark ∷ others
      → Traced e (apply_migration e m execute_sql) c (λ _ _. ⊥) (Unchanged e c)
  unfolding apply_migration apply_body
  apply_Refused m execute_sql mark others c stuck =
      started_Refused e law m.source_code mark others c stuck
        (ledger_name e m.source_code m.id >>= record_found e m execute_sql)

  rollback_Refused :
      (m : BackendMigration) (mark : Mark) (others : List Mark) (c : Contents App)
      → marks c m.source_code ≡ mark ∷ others
      → Traced e (rollback_migration e m) c (λ _ _. ⊥) (Unchanged e c)
  unfolding rollback_migration rollback_body
  rollback_Refused m mark others c stuck =
      started_Refused e law m.source_code mark others c stuck (
        exec (select_newest m.source_code) >>= λ rows.
        lift (newest_row rows) >>= rollback_found e m)

  refused :
      {A : Type 0} (c : Contents App) (r : Result Error A × Db)
      → Ends e (λ _ _. ⊥) (Unchanged e c) r
      → ((succeeded e r).0 ≡ false) × Unchanged e c (contents (succeeded e r).1)
  refused c (ok a, db) h = absurd h
  refused c (err x, db) h = (refl, h)

  -- A marker stops its source: while one stands, every call of `inspect_applied_ids`,
  -- `prepare_ledger`, `apply_migration`, `rollback_migration` and `sync_schema` for the source fails,
  -- and it changes no ledger entry, none of the data and no marker.
  pub run_call-refused :
      (call : Call) (mark : Mark) (others : List Mark) (db : Db)
      → marks (contents db) (source_of call) ≡ mark ∷ others
      → ((run_call e call db).0 ≡ false)
        × Unchanged e (contents db) (contents (run_call e call db).1)
  run_call-refused (inspect source tracked) mark others db stuck =
      refused (contents db) (inspect_applied_ids e source tracked db)
        ((inspect_Refused e law source mark others (contents db) stuck tracked).at db refl)
  run_call-refused (prepare source tracked) mark others db stuck =
      refused (contents db) (prepare_ledger e source tracked db)
        ((prepare_Refused e law source mark others (contents db) stuck tracked).at db refl)
  run_call-refused (apply m) mark others db stuck =
      refused (contents db) (apply_migration e m true db)
        ((apply_Refused m true mark others (contents db) stuck).at db refl)
  run_call-refused (record_only m) mark others db stuck =
      refused (contents db) (apply_migration e m false db)
        ((apply_Refused m false mark others (contents db) stuck).at db refl)
  run_call-refused (rollback m) mark others db stuck =
      refused (contents db) (rollback_migration e m db)
        ((rollback_Refused m mark others (contents db) stuck).at db refl)
  run_call-refused (sync source sql) mark others db stuck =
      refused (contents db) (sync_schema e source sql db)
        ((sync_Refused e law source mark others (contents db) stuck sql).at db refl)
