-- ===== src/Migration/MySql/Applied.antt =====
-- What `apply_migration` of the MySQL backend leaves behind.
use toasty_mgr.Prelude.{
  ℕ, ◌≡◌, refl, ◌∙◌, Bool, true, false, not, inl, inr, Option, none, some, List, [], Text, text_eq,
  nat_has_eq, arith, if◌then◌else◌, ok,
}
use toasty_mgr.Prelude.Strings.{text_eq_iff}
use toasty_mgr.Prelude.Action.{pure, lift, ◌>>=◌, bail_when}
use toasty_mgr.Migration.Types.{BackendMigration, ledger_name_mismatch}
use toasty_mgr.Migration.Backend.{with_entry}
use toasty_mgr.Migration.Sqlite.{Row, string, first_of_rows, value_string, first_value}
use toasty_mgr.Migration.MySql.Statements.{select_name, insert_row, apply_direction}
use toasty_mgr.Migration.MySql.Decoded.{optional_name}
use toasty_mgr.Migration.MySql.Tables.{Contents, Server, IsLawful, entries, marks, Answers}
use toasty_mgr.Migration.MySql.Traces.{
  Traced, Traced-pure, Traced-lift, Traced-bail_when, Traced-bind, Traced-post, Traced-exec,
  Traced-statement,
}
use toasty_mgr.Migration.MySql.Locked.{with_lock-Traced}
use toasty_mgr.Migration.MySql.Marked.{
  run_all, is_plain_sql, Completed, Untouched, Interrupted, marked_work-Traced,
}
use toasty_mgr.Migration.MySql.{
  ledger_name, record_row, record_new, record_found, apply_body, apply_migration,
}
use toasty_mgr.Migration.MySql.Started.{ready, checked_start-Traced}

named_none : (o : Option Text) → optional_name none ≡ ok o → none ≡ o
named_none o h = cc

named_some :
    (name : Text) (o : Option Text) → optional_name (some (string name)) ≡ ok o → some name ≡ o
unfolding value_string
named_some name o h = cc

module _ (e : Server) (law : IsLawful e) where
  open e use {App, run, is_plain, statements, Db, contents, exec}

  named :
      (source : Text) (id : ℕ) (c : Contents App) (rows : List Row) (o : Option Text)
      → Answers e (select_name source id) c rows
      → optional_name (first_of_rows rows) ≡ ok o
      → entries c source id ≡ o
  unfolding first_value value_string
  named source id c rows o (inl (nothing, absent)) h = absent ∙ named_none o (rw nothing at h)
  named source id c rows o (inr (name, one, present)) h = present ∙ named_some name o (rw one at h)

  ledger_name-Traced :
      (source : Text) (id : ℕ) (R : Contents App → Type 0) (c : Contents App)
      → R c
      → Traced e (ledger_name e source id) c (λ o c'. (c' ≡ c) × (entries c source id ≡ o)) R
  unfolding ledger_name
  ledger_name-Traced source id R c r =
      Traced-bind e _ _ R (exec (select_name source id))
        (λ rows. lift (optional_name (first_of_rows rows))) c
        (Traced-exec e law (select_name source id) R c refl r r)
        (λ rows c' q.
          Traced-lift e (λ o c'. (c' ≡ c) × (entries c source id ≡ o)) R
            (optional_name (first_of_rows rows)) c' (rw q.0 r)
            (λ o h. (q.0, named source id c rows o q.1 h)))

  module _ (m : BackendMigration) where
    -- the data after a call that executes the SQL, or does not
    abbrev pub applied_app : Bool → Contents App → App
    applied_app execute_sql c = if execute_sql then run_all e (statements m.sql) c.app else c.app

    abbrev pub Recorded : Bool → Contents App → Bool → Contents App → Type 0
    Recorded execute_sql c true c' =
        (entries c m.source_code m.id ≡ none)
        × Completed e law m apply_direction (with_entry m) (applied_app execute_sql c) c c'
    Recorded execute_sql c false c' =
        (entries c m.source_code m.id ≡ some m.name) × Untouched e law m apply_direction c c'

    abbrev pub Failed : Bool → Contents App → Contents App → Type 0
    Failed execute_sql c c' =
        Interrupted e law m apply_direction (with_entry m) (applied_app execute_sql c) c c'

    record_new-Traced :
        (execute_sql : Bool) (c : Contents App)
        → (execute_sql ≡ true → is_plain_sql e m.sql ≡ true)
        → entries c m.source_code m.id ≡ none
        → marks c m.source_code ≡ []
        → Traced e (record_new e m execute_sql) c (Recorded execute_sql c) (Failed execute_sql c)
    unfolding record_new
    record_new-Traced true c plain absent free =
        Traced-post e _ _ (Failed true c) (Failed true c) _ c
          (marked_work-Traced e law m apply_direction (insert_row m.source_code m.id m.name)
            (with_entry m) c (plain refl) refl (λ _. refl) free true)
          (λ a c' done. rw done.0 (absent, done.1)) (λ _ r. r)
    record_new-Traced false c plain absent free =
        Traced-bind e _ (Recorded false c) (Failed false c) (record_row e m) (λ _. pure true) c
          (Traced-statement e law (insert_row m.source_code m.id m.name) (Failed false c) c refl
            (inl (refl, refl, refl)) (inr (inr (refl, refl, free))))
          (λ _ c' h.
            Traced-pure e (Recorded false c) (Failed false c) true c'
              (rw h (absent, (refl, refl, free))))

    record_found-Traced :
        (execute_sql : Bool) (c : Contents App) (o : Option Text)
        → (execute_sql ≡ true → is_plain_sql e m.sql ≡ true)
        → entries c m.source_code m.id ≡ o
        → marks c m.source_code ≡ []
        → Traced e
            (record_found e m execute_sql o)
            c
            (Recorded execute_sql c)
            (Failed execute_sql c)
    unfolding record_found
    record_found-Traced execute_sql c none plain found free =
        record_new-Traced execute_sql c plain found free
    record_found-Traced execute_sql c (some name) plain found free =
        let differs = not (text_eq name m.name) in
        Traced-bind e (λ _ c'. (differs ≡ false) × (c' ≡ c)) (Recorded execute_sql c)
          (Failed execute_sql c) (bail_when differs (ledger_name_mismatch m.id)) (λ _. pure false) c
          (Traced-bail_when e _ (Failed execute_sql c) differs (ledger_name_mismatch m.id) c
            (inl (refl, refl, refl)) (λ h. (h, refl)))
          (λ _ c' h.
            Traced-pure e (Recorded execute_sql c) (Failed execute_sql c) false c'
              (rw h.1 (ground (arith, text_eq_iff name m.name), (refl, refl, refl))))

    untouched : (execute_sql : Bool) (c : Contents App) → Failed execute_sql c c
    untouched execute_sql c = inl (refl, refl, refl)

    apply_body-Traced :
        (execute_sql : Bool) (c : Contents App)
        → (execute_sql ≡ true → is_plain_sql e m.sql ≡ true)
        → Traced e (apply_body e m execute_sql) c (Recorded execute_sql c) (Failed execute_sql c)
    unfolding apply_body
    apply_body-Traced execute_sql c plain =
        let R = Failed execute_sql c in
        let same = untouched execute_sql c in
        checked_start-Traced e law m.source_code (Recorded execute_sql c) R
          (ledger_name e m.source_code m.id >>= record_found e m execute_sql) c same same same
          (λ free.
            Traced-bind e _ (Recorded execute_sql c) R (ledger_name e m.source_code m.id)
              (record_found e m execute_sql) (ready e law c)
              (ledger_name-Traced m.source_code m.id R (ready e law c) same)
              (λ o c' found.
                rw found.0 (record_found-Traced execute_sql (ready e law c) o plain found.1 free)))

    weaken :
        (execute_sql : Bool) (c : Contents App) (a : Bool) (c' : Contents App)
        → Recorded execute_sql c a c'
        → Failed execute_sql c c'
    weaken execute_sql c true c' h = inr (inr h.1)
    weaken execute_sql c false c' h = inl h.1

    -- Statements commit one by one, and still no failure of recording a migration goes unseen, if its
    -- SQL leaves the metadata tables and the lock alone where it is executed. When the call returns, the migration is recorded with the effect of all its statements (where they
    -- were to be executed), or it was recorded before under its name; the source has no marker
    -- then. When it fails, nothing has changed, or the marker of the migration stands in the
    -- database, or everything has been done and recorded.
    pub apply_migration-Traced :
        (execute_sql : Bool) (c : Contents App)
        → (execute_sql ≡ true → is_plain_sql e m.sql ≡ true)
        → Traced e
            (apply_migration e m execute_sql)
            c
            (Recorded execute_sql c)
            (Failed execute_sql c)
    unfolding apply_migration
    apply_migration-Traced execute_sql c plain =
        with_lock-Traced e law (Recorded execute_sql c) (Failed execute_sql c) m.source_code
          (apply_body e m execute_sql) c (untouched execute_sql c) (weaken execute_sql c)
          (apply_body-Traced execute_sql c plain)
