-- ===== src/Migration/Sqlite/Rollback.antt =====
-- What `rollback_migration` leaves behind.
use toasty_mgr.Prelude.{
  ℕ, ◌<◌, ◌≡◌, refl, ◌∙◌, true, false, not, ◌||◌, inl, inr, Option, none, some, List, [], ◌∷◌, ok,
  arith, Text, text_eq, nat_eq, nat_has_eq,
}
use toasty_mgr.Prelude.Strings.{text_eq_iff}
use toasty_mgr.Prelude.Action.{Action, lift, ◌>>=◌, ◌>>◌, bail_when, for_each}
use toasty_mgr.Migration.Types.{Error, BackendMigration, rollback_order_changed}
use toasty_mgr.Migration.Backend.{without_entry}
use toasty_mgr.Migration.Sqlite.Database.{Contents, Engine, IsLawful, entries, pair_row, Answers}
use toasty_mgr.Migration.Sqlite.Runs.{
  Runs, Runs-fail, Runs-lift, Runs-bind, Runs-post, Runs-exec, Runs-statement, Atomic,
  in_transaction-Atomic,
}
use toasty_mgr.Migration.Sqlite.Ledger.{
  run_all, is_transactional, scripts-run, to_i64-same, ready, bail_when-Runs,
}
use toasty_mgr.Migration.Sqlite.{
  create_ledger, select_newest, delete_row, script, Row, value_string, value_i64, to_u64, to_i64,
  ledger_row, run_statement, execute_sql_statements, newest_row, rollback_found, rollback_body,
  rollback_migration,
}

module _ (e : Engine) (law : IsLawful e) where
  open e use {App, run, is_plain, statements, Db, committed, working, exec}

  -- `m` was the newest migration of its source, and what remains is the ledger without it and the
  -- data after its SQL.
  abbrev pub RolledBack : BackendMigration → Contents App → Unit {0} → Contents App → Type 0
  RolledBack m c _ c' =
      (entries c m.source_code m.id ≡ some m.name)
      × ((later : ℕ) → m.id < later → entries c m.source_code later ≡ none)
      × (entries c' ≡ without_entry m (entries c))
      × (c'.app ≡ run_all e (statements m.sql) c.app)

  -- the newest row of the ledger, as it was decoded
  abbrev Newest : BackendMigration → Contents App → Option (ℕ × Text) → Type 0
  Newest m c none = Unit {0}
  Newest m c (some (id, name)) =
      (entries c m.source_code id ≡ some name)
      × ((later : ℕ) → id < later → entries c m.source_code later ≡ none)

  newest_none : (newest : Option (ℕ × Text)) → newest_row [] ≡ ok newest → newest ≡ none
  newest_none newest h = cc

  newest_some :
      (newest : Option (ℕ × Text)) (pair : ℕ × Text)
      → newest_row (pair_row pair ∷ []) ≡ ok newest
      → newest ≡ some pair
  unfolding ledger_row value_i64 to_u64 value_string
  newest_some newest pair h = cc

  newest_row-Newest :
      (m : BackendMigration) (c : Contents App) (rows : List Row) (newest : Option (ℕ × Text))
      → Answers e (select_newest m.source_code) c rows
      → newest_row rows ≡ ok newest
      → Newest m c newest
  newest_row-Newest m c rows newest (inl (nothing, _)) h =
      rw (newest_none newest (rw nothing at h)) tt
  newest_row-Newest m c rows newest (inr (id, name, one, here, last)) h =
      rw (newest_some newest (id, name) (rw one at h)) (here, last)

  -- the last three steps of `rollback_migration`
  abbrev deletes : BackendMigration → Action Db Error (Unit {0})
  deletes m =
      execute_sql_statements e m.sql
      >> (lift (to_i64 m.id) >>= λ bound. run_statement e (delete_row m.source_code bound))

  delete-Runs :
      (m : BackendMigration) (c : Contents App)
      → is_transactional e m.sql ≡ true
      → Newest m c (some (m.id, m.name))
      → Runs e (deletes m) (ready e c) (RolledBack m c)
  unfolding execute_sql_statements
  delete-Runs m c h new =
      Runs-bind e _ _ (for_each (λ s. run_statement e (script s)) (statements m.sql))
        (λ _. lift (to_i64 m.id) >>= λ bound. run_statement e (delete_row m.source_code bound))
        (ready e c) (scripts-run e law (statements m.sql) (ready e c) h)
        (λ _ c' s.
          Runs-bind e (λ bound c''. (bound ≡ m.id) × (c'' ≡ c')) _ (lift (to_i64 m.id))
            (λ bound. run_statement e (delete_row m.source_code bound)) c'
            (Runs-lift e _ (to_i64 m.id) c' (λ bound b. (to_i64-same m.id bound b, refl)))
            (λ bound c'' b.
              Runs-post e _ _ _ c'' (Runs-statement e law (delete_row m.source_code bound) c'' refl)
                (λ _ last done. rw (done, b.0, b.1, s) (new.0, new.1, refl, refl))))

  same_row :
      (id id' : ℕ) (name name' : Text)
      → not (nat_eq id id') || not (text_eq name name') ≡ false
      → (id ≡ id') × (name ≡ name')
  same_row id id' name name' h = ground (arith, text_eq_iff name name')

  rollback_found-Runs :
      (m : BackendMigration) (c : Contents App) (newest : Option (ℕ × Text))
      → is_transactional e m.sql ≡ true
      → Newest m c newest
      → Runs e (rollback_found e m newest) (ready e c) (RolledBack m c)
  unfolding rollback_found
  rollback_found-Runs m c none h new = Runs-fail e _ _ (ready e c)
  rollback_found-Runs m c (some (id, name)) h new =
      let differs = not (nat_eq id m.id) || not (text_eq name m.name) in
      Runs-bind e _ _ (bail_when differs (rollback_order_changed m.source_code)) (λ _. deletes m)
        (ready e c)
        (bail_when-Runs e law differs (rollback_order_changed m.source_code) (ready e c))
        (λ _ c' b. rw b.1 (
          delete-Runs m c h
            (let same = same_row id m.id name m.name b.0 in rw (same.0, same.1) at new)))

  rollback_body-Runs :
      (m : BackendMigration) (c : Contents App)
      → is_transactional e m.sql ≡ true
      → Runs e (rollback_body e m) c (RolledBack m c)
  unfolding rollback_body
  rollback_body-Runs m c h =
      Runs-bind e _ _ (run_statement e create_ledger)
        (λ _. exec (select_newest m.source_code) >>= λ rows.
          lift (newest_row rows) >>= rollback_found e m)
        c (Runs-statement e law create_ledger c refl)
        (λ _ c' s.
          Runs-bind e _ _ (exec (select_newest m.source_code))
            (λ rows. lift (newest_row rows) >>= rollback_found e m) c'
            (Runs-exec e law (select_newest m.source_code) c' refl)
            (λ rows c'' q.
              Runs-bind e (λ newest last. Newest m c newest × (last ≡ ready e c)) _
                (lift (newest_row rows)) (rollback_found e m) c''
                (Runs-lift e _ (newest_row rows) c''
                  (λ newest n. (newest_row-Newest m c rows newest (rw s at q.1) n, q.0 ∙ s)))
                (λ newest last n. rw n.1 (rollback_found-Runs m c newest h n.0))))

  -- Rolling back a migration, whose SQL holds no transaction control, is atomic. Either the migration was the newest of its source, and what
  -- is committed then is the ledger without it and the data after its SQL; or the call fails and
  -- nothing that is committed has changed.
  pub rollback_migration-Atomic :
      (m : BackendMigration) (db : Db)
      → is_transactional e m.sql ≡ true
      → Atomic e law (RolledBack m (committed db)) db (rollback_migration e m db)
  unfolding rollback_migration
  rollback_migration-Atomic m db h =
      in_transaction-Atomic e law _ (rollback_body e m) db (rollback_body-Runs m (committed db) h)
