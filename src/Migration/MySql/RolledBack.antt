-- ===== src/Migration/MySql/RolledBack.antt =====
-- What `rollback_migration` of the MySQL backend leaves behind.
use toasty_mgr.Prelude.{
  ℕ, ◌<◌, ◌≡◌, refl, true, false, not, ◌||◌, inl, inr, Option, none, some, List, [], ◌∷◌, Text,
  text_eq, nat_eq, nat_has_eq, arith, ok,
}
use toasty_mgr.Prelude.Strings.{text_eq_iff}
use toasty_mgr.Prelude.Action.{lift, ◌>>=◌, bail_when}
use toasty_mgr.Migration.Types.{BackendMigration, nothing_to_roll_back, rollback_order_changed}
use toasty_mgr.Migration.Backend.{without_entry}
use toasty_mgr.Migration.Sqlite.{Row, value_string}
use toasty_mgr.Migration.MySql.Statements.{
  select_newest, delete_row, rollback_direction, value_u64, row_fields, ledger_row,
}
use toasty_mgr.Migration.MySql.Decoded.{newest_row}
use toasty_mgr.Migration.MySql.Tables.{
  Contents, Server, IsLawful, entries, marks, Answers, pair_row,
}
use toasty_mgr.Migration.MySql.Traces.{
  Traced, Traced-fail, Traced-lift, Traced-bail_when, Traced-bind, Traced-post, Traced-exec,
}
use toasty_mgr.Migration.MySql.Locked.{with_lock-Traced}
use toasty_mgr.Migration.MySql.Marked.{
  run_all, is_plain_sql, Completed, Interrupted, marked_work-Traced,
}
use toasty_mgr.Migration.MySql.{roll_back_newest, rollback_found, rollback_body, rollback_migration}
use toasty_mgr.Migration.MySql.Started.{ready, checked_start-Traced}

newest_none : (o : Option (ℕ × Text)) → newest_row [] ≡ ok o → o ≡ none
newest_none o h = cc

newest_some :
    (pair : ℕ × Text) (o : Option (ℕ × Text))
    → newest_row (pair_row pair ∷ []) ≡ ok o
    → o ≡ some pair
unfolding ledger_row row_fields value_u64 value_string
newest_some pair o h = cc

module _ (e : Server) (law : IsLawful e) (m : BackendMigration) where
  open e use {App, run, is_plain, statements, Db, contents, exec}

  -- `m` was the newest migration of its source, and what remains is the ledger without it and the
  -- data after its SQL, with no marker of the source.
  abbrev pub RolledBack : Contents App → Unit {0} → Contents App → Type 0
  RolledBack c _ c' =
      (entries c m.source_code m.id ≡ some m.name)
      × ((later : ℕ) → m.id < later → entries c m.source_code later ≡ none)
      × Completed e law m rollback_direction (without_entry m) (run_all e (statements m.sql) c.app)
          c c'

  abbrev pub NotRolledBack : Contents App → Contents App → Type 0
  NotRolledBack c c' =
      Interrupted e law m rollback_direction (without_entry m) (run_all e (statements m.sql) c.app)
        c c'

  -- the newest row of the ledger, as it was decoded
  abbrev Newest : Contents App → Option (ℕ × Text) → Type 0
  Newest c none = Unit {0}
  Newest c (some (id, name)) =
      (entries c m.source_code id ≡ some name)
      × ((later : ℕ) → id < later → entries c m.source_code later ≡ none)

  newest_row-Newest :
      (c : Contents App) (rows : List Row) (newest : Option (ℕ × Text))
      → Answers e (select_newest m.source_code) c rows
      → newest_row rows ≡ ok newest
      → Newest c newest
  newest_row-Newest c rows newest (inl (nothing, _)) h =
      rw (newest_none newest (rw nothing at h)) tt
  newest_row-Newest c rows newest (inr (id, name, one, here, last)) h =
      rw (newest_some (id, name) newest (rw one at h)) (here, last)

  roll_back_newest-Traced :
      (c : Contents App)
      → is_plain_sql e m.sql ≡ true
      → Newest c (some (m.id, m.name))
      → marks c m.source_code ≡ []
      → Traced e (roll_back_newest e m) c (RolledBack c) (NotRolledBack c)
  unfolding roll_back_newest
  roll_back_newest-Traced c plain new free =
      Traced-post e _ _ (NotRolledBack c) (NotRolledBack c) _ c
        (marked_work-Traced e law m rollback_direction (delete_row m.source_code m.id)
          (without_entry m) c plain refl (λ _. refl) free tt)
        (λ _ c' done. (new.0, new.1, done.1)) (λ _ r. r)

  same_row :
      (id id' : ℕ) (name name' : Text)
      → not (nat_eq id id') || not (text_eq name name') ≡ false
      → (id ≡ id') × (name ≡ name')
  same_row id id' name name' h = ground (arith, text_eq_iff name name')

  rollback_found-Traced :
      (c : Contents App) (newest : Option (ℕ × Text))
      → is_plain_sql e m.sql ≡ true
      → Newest c newest
      → marks c m.source_code ≡ []
      → Traced e (rollback_found e m newest) c (RolledBack c) (NotRolledBack c)
  unfolding rollback_found
  rollback_found-Traced c none plain new free =
      Traced-fail e (RolledBack c) (NotRolledBack c) (nothing_to_roll_back m.source_code) c
        (inl (refl, refl, refl))
  rollback_found-Traced c (some (id, name)) plain new free =
      let differs = not (nat_eq id m.id) || not (text_eq name m.name) in
      Traced-bind e (λ _ c'. (differs ≡ false) × (c' ≡ c)) (RolledBack c) (NotRolledBack c)
        (bail_when differs (rollback_order_changed m.source_code)) (λ _. roll_back_newest e m) c
        (Traced-bail_when e _ (NotRolledBack c) differs (rollback_order_changed m.source_code) c
          (inl (refl, refl, refl)) (λ h. (h, refl)))
        (λ _ c' h. rw h.1 (
          roll_back_newest-Traced c plain
            (let same = same_row id m.id name m.name h.0 in rw (same.0, same.1) at new) free))

  rollback_body-Traced :
      (c : Contents App)
      → is_plain_sql e m.sql ≡ true
      → Traced e (rollback_body e m) c (RolledBack c) (NotRolledBack c)
  unfolding rollback_body
  rollback_body-Traced c plain =
      let R = NotRolledBack c in
      let same : R c = inl (refl, refl, refl) in
      checked_start-Traced e law m.source_code (RolledBack c) R
        (exec (select_newest m.source_code) >>= λ rows.
          lift (newest_row rows) >>= rollback_found e m)
        c same same same
        (λ free.
          Traced-bind e _ (RolledBack c) R (exec (select_newest m.source_code))
            (λ rows. lift (newest_row rows) >>= rollback_found e m) (ready e law c)
            (Traced-exec e law (select_newest m.source_code) R (ready e law c) refl same same)
            (λ rows c' q. rw q.0 (
              Traced-bind e (λ newest c'. Newest c newest × (c' ≡ ready e law c)) (RolledBack c) R
                (lift (newest_row rows)) (rollback_found e m) (ready e law c)
                (Traced-lift e _ R (newest_row rows) (ready e law c) same
                  (λ newest h. (newest_row-Newest c rows newest q.1 h, refl)))
                (λ newest c' h.
                  rw h.1 (rollback_found-Traced (ready e law c) newest plain h.0 free)))))

  -- Rolling back is not one transaction either. If the SQL leaves the metadata tables and the lock
  -- alone: when the call returns, the migration was the newest
  -- of its source, and it is gone from the ledger with the effect of its SQL and without a marker.
  -- When it fails, nothing has changed, or the marker of the migration stands in the database, or
  -- everything has been done.
  pub rollback_migration-Traced :
      (c : Contents App)
      → is_plain_sql e m.sql ≡ true
      → Traced e (rollback_migration e m) c (RolledBack c) (NotRolledBack c)
  unfolding rollback_migration
  rollback_migration-Traced c plain =
      with_lock-Traced e law (RolledBack c) (NotRolledBack c) m.source_code (rollback_body e m) c
        (inl (refl, refl, refl)) (λ _ c' h. inr (inr h.2)) (rollback_body-Traced c plain)
