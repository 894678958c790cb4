-- ===== src/Migration/Sqlite/Ledger.antt =====
-- What the ledger operations leave behind, when the database keeps its documented behaviour.
use toasty_mgr.Prelude.{
  ℕ, ◌≡◌, refl, Bool, true, false, not, inl, inr, none, some, List, [], ◌∷◌, ok, arith, Text,
  text_eq, all, if◌then◌else◌, nat_has_eq,
}
use toasty_mgr.Prelude.Strings.{text_eq_iff}
use toasty_mgr.Prelude.Action.{pure, bail_when, for_each}
use toasty_mgr.Migration.Types.{Error, ledger_name_mismatch, BackendMigration}
use toasty_mgr.Migration.Backend.{with_entry}
use toasty_mgr.Migration.Sqlite.Database.{Contents, Engine, IsLawful, effect, entries, Answers}
use toasty_mgr.Migration.Sqlite.Runs.{
  Runs, Runs-pure, Runs-lift, Runs-bind, Runs-exec, Runs-statement, Atomic, in_transaction-Atomic,
}
use toasty_mgr.Migration.Sqlite.{
  create_ledger, select_name, insert_row, script, Row, value_string, to_i64, run_statement,
  execute_sql_statements, record_new, record_found, recorded_as, first_of_rows, apply_body,
  apply_migration, first_value,
}

module _ (e : Engine) where
  open e use {App, run, is_plain, statements, Db, committed, working}

  -- All statements of the SQL, one after the other.
  abbrev pub run_all : List Text → App → App
  run_all [] app = app
  run_all (s ∷ rest) app = run_all rest (run s app)

  -- No statement of the SQL holds transaction control.
  abbrev pub is_transactional : Text → Bool
  is_transactional sql = all is_plain (statements sql)

  abbrev pub with_app : Contents App → App → Contents App
  with_app c app = record c { app = app }

  -- the contents once the ledger table exists
  abbrev pub ready : Contents App → Contents App
  ready c = effect e create_ledger c

pub to_i64-same : (id bound : ℕ) → to_i64 id ≡ ok bound → bound ≡ id
unfolding to_i64
to_i64-same id bound h = ground arith

module _ (e : Engine) (law : IsLawful e) where
  open e use {App, run, is_plain, statements, Db, committed, working}

  pub scripts-run :
      (sql : List Text) (c : Contents App)
      → all is_plain sql ≡ true
      → Runs e
          (for_each (λ s. run_statement e (script s)) sql)
          c
          (λ _ c'. c' ≡ with_app e c (run_all e sql c.app))
  unfolding for_each
  scripts-run [] c h = Runs-pure e _ tt c refl
  scripts-run (s ∷ rest) c h =
      Runs-bind e _ (λ _ c'. c' ≡ with_app e c (run_all e rest (run s c.app)))
        (run_statement e (script s)) (λ _. for_each (λ s. run_statement e (script s)) rest) c
        (Runs-statement e law (script s) c (ground arith))
        (λ _ c' same. rw same (scripts-run rest (with_app e c (run s c.app)) (ground arith)))

  -- The contents after recording `m`, its SQL executed or not.
  abbrev pub Recorded : BackendMigration → Bool → Contents App → Bool → Contents App → Type 0
  Recorded m execute_sql c true c' =
      (entries c m.source_code m.id ≡ none)
      × (entries c' ≡ with_entry m (entries c))
      × (c'.app ≡ (if execute_sql then run_all e (statements m.sql) c.app else c.app))
  Recorded m execute_sql c false c' =
      (entries c m.source_code m.id ≡ some m.name) × (entries c' ≡ entries c) × (c'.app ≡ c.app)

  maybe-scripts :
      (m : BackendMigration) (execute_sql : Bool) (c : Contents App)
      → (execute_sql ≡ true → is_transactional e m.sql ≡ true)
      → Runs e
          (if execute_sql then execute_sql_statements e m.sql else pure tt)
          (ready e c)
          (λ _ c'.
            c'
            ≡ with_app e
                (ready e c)
                (if execute_sql then run_all e (statements m.sql) c.app else c.app))
  unfolding execute_sql_statements
  maybe-scripts m true c h = scripts-run (statements m.sql) (ready e c) (h refl)
  maybe-scripts m false c h = Runs-pure e _ tt (ready e c) refl

  record_new-Runs :
      (m : BackendMigration) (execute_sql : Bool) (c : Contents App)
      → (execute_sql ≡ true → is_transactional e m.sql ≡ true)
      → entries c m.source_code m.id ≡ none
      → Runs e (record_new e m execute_sql) (ready e c) (Recorded m execute_sql c)
  unfolding record_new
  record_new-Runs m execute_sql c h absent =
      Runs-bind e _ _ _ _ (ready e c) (maybe-scripts m execute_sql c h) (λ _ c' same.
        Runs-bind e (λ bound c''. (bound ≡ m.id) × (c'' ≡ c')) _ _ _ c'
          (Runs-lift e _ (to_i64 m.id) c' (λ bound b. (to_i64-same m.id bound b, refl)))
          (λ bound c'' b.
            Runs-bind e _ _ _ _ c''
              (Runs-statement e law (insert_row m.source_code bound m.name) c'' refl)
              (λ _ last done.
                Runs-pure e _ true last (rw (done, b.0, b.1, same) (absent, refl, refl)))))

  pub bail_when-Runs :
      (b : Bool) (x : Error) (c : Contents App)
      → Runs e (bail_when b x) c (λ _ c'. (b ≡ false) × (c' ≡ c))
  bail_when-Runs true x c = record { at = λ db w. refl }
  bail_when-Runs false x c = record { at = λ db w. (refl, c, w, (refl, refl)) }

  recorded_as-Runs :
      (m : BackendMigration) (execute_sql : Bool) (c : Contents App) (name : Text)
      → entries c m.source_code m.id ≡ some name
      → Runs e (recorded_as e m name) (ready e c) (Recorded m execute_sql c)
  unfolding recorded_as
  recorded_as-Runs m execute_sql c name present =
      Runs-bind e _ _ (bail_when (not (text_eq name m.name)) (ledger_name_mismatch m.id))
        (λ _. pure false) (ready e c)
        (bail_when-Runs (not (text_eq name m.name)) (ledger_name_mismatch m.id) (ready e c))
        (λ _ c' b.
          Runs-pure e _ false c' (rw b.1 (ground (arith, text_eq_iff name m.name), refl, refl)))

  record_found-Runs :
      (m : BackendMigration) (execute_sql : Bool) (c : Contents App) (rows : List Row)
      → (execute_sql ≡ true → is_transactional e m.sql ≡ true)
      → Answers e (select_name m.source_code m.id) (ready e c) rows
      → Runs e
          (record_found e m execute_sql (first_of_rows rows))
          (ready e c)
          (Recorded m execute_sql c)
  unfolding record_found first_value value_string
  record_found-Runs m execute_sql c rows h (inl (none_found, absent)) =
      rw none_found (record_new-Runs m execute_sql c h absent)
  record_found-Runs m execute_sql c rows h (inr (name, one, present)) =
      rw one (recorded_as-Runs m execute_sql c name present)

  apply_body-Runs :
      (m : BackendMigration) (execute_sql : Bool) (c : Contents App)
      → (execute_sql ≡ true → is_transactional e m.sql ≡ true)
      → Runs e (apply_body e m execute_sql) c (Recorded m execute_sql c)
  unfolding apply_body
  apply_body-Runs m execute_sql c h =
      Runs-bind e _ _ _ _ c (Runs-statement e law create_ledger c refl) (λ _ c' s.
        Runs-bind e (λ bound c''. (bound ≡ m.id) × (c'' ≡ ready e c)) _ _ _ c'
          (Runs-lift e _ (to_i64 m.id) c' (λ bound b. (to_i64-same m.id bound b, s)))
          (λ bound c'' b.
            Runs-bind e _ _ _ (λ rows. record_found e m execute_sql (first_of_rows rows)) c''
              (Runs-exec e law (select_name m.source_code bound) c'' refl)
              (λ rows last q.
                rw (q.0, b.1) (record_found-Runs m execute_sql c rows h (rw (b.0, b.1) at q.1)))))

  -- Recording a migration, whose SQL holds no transaction control where it is executed, is atomic.
  -- Either the migration was not in the ledger, and what is
  -- committed then has it, with the effect of all its statements where they were to be executed;
  -- or it was there under its name, and the ledger and the data stay; or the call fails and
  -- nothing that is committed has changed.
  pub apply_migration-Atomic :
      (m : BackendMigration) (execute_sql : Bool) (db : Db)
      → (execute_sql ≡ true → is_transactional e m.sql ≡ true)
      → Atomic e law (Recorded m execute_sql (committed db)) db (apply_migration e m execute_sql db)
  unfolding apply_migration
  apply_migration-Atomic m execute_sql db h =
      in_transaction-Atomic e law _ (apply_body e m execute_sql) db
        (apply_body-Runs m execute_sql (committed db) h)
