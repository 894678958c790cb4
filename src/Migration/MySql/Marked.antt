-- ===== src/Migration/MySql/Marked.antt =====
-- The statements between the insertion of a run marker and its deletion.
use toasty_mgr.Prelude.{
  ℕ, suc, ◌≡◌, refl, ap, ◌∙◌, ◌⊎◌, Bool, true, false, inl, inr, some, List, [], ◌∷◌, ◌++◌, all,
  arith, Text, text_has_eq, nat_has_eq, ==_refl,
}
use toasty_mgr.Prelude.Action.{Action, pure, ◌>>=◌, ◌>>◌}
use toasty_mgr.Migration.Types.{Error, BackendMigration}
use toasty_mgr.Migration.Backend.{Ledger}
use toasty_mgr.Migration.MySql.Statements.{
  Statement, insert_marker, set_progress, delete_marker, script,
}
use toasty_mgr.Migration.MySql.Tables.{
  Mark, Marks, Contents, Server, IsLawful, effect, entries, marks, with_marks, is_marker, is_script,
}
use toasty_mgr.Migration.MySql.Traces.{
  Traced, Traced-pure, Traced-bind, Traced-post, Traced-statement, Traced-script,
}
use toasty_mgr.Migration.MySql.{
  run_statement, create_run_marker, progress_from, execute_with_progress, delete_run_marker,
}

abbrev pub mark_at : BackendMigration → Text → ℕ → Mark
mark_at m direction index = record {
  id = m.id;
  name = m.name;
  direction = direction;
  statement_index = index;
}

with_marks-same :
    (source : Text) (change : List Mark → List Mark) (table : Marks)
    → with_marks source change table source ≡ change (table source)
with_marks-same source change table = rw (==_refl source) refl

is_marker-mark_at :
    (m : BackendMigration) (direction : Text) (index : ℕ)
    → is_marker m.id direction (mark_at m direction index) ≡ true
is_marker-mark_at m direction index = rw (==_refl m.id, ==_refl direction) refl

module _ (e : Server) where
  open e use {App, run, is_plain, statements, Db, contents}

  -- All statements of the SQL, one after the other.
  abbrev pub run_all : List Text → App → App
  run_all [] app = app
  run_all (s ∷ rest) app = run_all rest (run s app)

  -- No statement of the SQL touches the metadata.
  abbrev pub is_plain_sql : Text → Bool
  is_plain_sql sql = all is_plain (statements sql)

  -- The source has one marker, the migration's.
  abbrev pub HasMarker : BackendMigration → Text → Contents App → Type 0
  HasMarker m direction c = (index : ℕ) × (marks c m.source_code ≡ mark_at m direction index ∷ [])

  -- The ledger's entries and the data are these, and the source has the migration's marker alone.
  abbrev pub Going : BackendMigration → Text → Ledger → App → Contents App → Type 0
  Going m direction ledger app c = (entries c ≡ ledger) × (c.app ≡ app) × HasMarker m direction c

module _ (e : Server) (law : IsLawful e) (m : BackendMigration) (direction : Text) where
  open e use {App, run, is_plain, statements, Db, contents}

  inserted :
      (c : Contents App)
      → marks c m.source_code ≡ []
      → Going e m direction
          (entries c)
          c.app
          (effect e (insert_marker m.source_code m.id m.name direction) c)
  inserted c none_yet = (
    refl,
    refl,
    (
      0,
      with_marks-same m.source_code (λ l. l ++ mark_at m direction 0 ∷ []) (marks c)
          ∙ ap (λ (l : List Mark). l ++ mark_at m direction 0 ∷ []) none_yet,
    ),
  )

  progressed :
      (index : ℕ) (ledger : Ledger) (app : App) (c : Contents App)
      → Going e m direction ledger app c
      → Going e m direction ledger app
          (effect e (set_progress index m.source_code m.id direction) c)
  progressed index ledger app c (same, data_same, (k, one)) = (
    same,
    data_same,
    (index, rw (==_refl m.source_code, one, is_marker-mark_at m direction k) refl),
  )

  deleted :
      (ledger : Ledger) (app : App) (c : Contents App)
      → Going e m direction ledger app c
      → (entries (effect e (delete_marker m.source_code m.id direction) c) ≡ ledger)
        × ((effect e (delete_marker m.source_code m.id direction) c).app ≡ app)
        × (marks (effect e (delete_marker m.source_code m.id direction) c) m.source_code ≡ [])
  deleted ledger app c (same, data_same, (k, one)) =
      (same, data_same, rw (==_refl m.source_code, one, is_marker-mark_at m direction k) refl)

  script-Traced :
      (R : Contents App → Type 0) (ledger : Ledger) (sql : Text) (app : App) (c : Contents App)
      → is_plain sql ≡ true
      → ((app' : App) (c' : Contents App) → Going e m direction ledger app' c' → R c')
      → Going e m direction ledger app c
      → Traced e
          (run_statement e (script sql))
          c
          (λ _ c'. Going e m direction ledger (run sql app) c')
          R
  script-Traced R ledger sql app c plain fails (same, data_same, one) =
      Traced-post e _ _ R R (run_statement e (script sql)) c
        (Traced-script e law sql R c plain (λ app'. fails app' _ (same, refl, one)))
        (λ _ c' ran. rw ran (same, ap (run sql) data_same, one)) (λ _ r. r)

  -- While the statements run, every failure leaves the marker and the entries.
  progress_from-Traced :
      (R : Contents App → Type 0) (ledger : Ledger) (sql : List Text) (index : ℕ) (app : App)
      (c : Contents App)
      → all is_plain sql ≡ true
      → ((app' : App) (c' : Contents App) → Going e m direction ledger app' c' → R c')
      → Going e m direction ledger app c
      → Traced e
          (progress_from e m direction index sql)
          c
          (λ _ c'. Going e m direction ledger (run_all e sql app) c')
          R
  unfolding progress_from
  progress_from-Traced R ledger [] index app c plain fails going =
      Traced-pure e (λ _ c'. Going e m direction ledger app c') R tt c going
  progress_from-Traced R ledger (s ∷ rest) index app c plain fails going =
      let next = progressed index ledger app c going in
      Traced-bind e _ _ R
        (run_statement e (set_progress index m.source_code m.id direction)
          >> run_statement e (script s))
        (λ _. progress_from e m direction (suc index) rest) c
        (Traced-bind e _ (λ _ c'. Going e m direction ledger (run s app) c') R
          (run_statement e (set_progress index m.source_code m.id direction))
          (λ _. run_statement e (script s)) c
          (Traced-statement e law (set_progress index m.source_code m.id direction) R c refl
            (fails app c going) (fails app _ next))
          (λ _ c' same. rw same (script-Traced R ledger s app _ (ground arith) fails next)))
        (λ _ c' going.
          progress_from-Traced R ledger rest (suc index) (run s app) c' (ground arith) fails going)

  -- The whole of it, around one statement `st` on the source's ledger.
  abbrev pub marked_work : {A : Type 0} → Statement → A → Action Db Error A
  marked_work st value = do
    create_run_marker e m direction
    execute_with_progress e m direction
    run_statement e st
    delete_run_marker e m direction
    pure value

  -- All of it has happened: the ledger has changed, the data is this, and no marker is left.
  abbrev pub Completed : (Ledger → Ledger) → App → Contents App → Contents App → Type 0
  Completed change after c c' =
      (entries c' ≡ change (entries c)) × (c'.app ≡ after) × (marks c' m.source_code ≡ [])

  abbrev pub Untouched : Contents App → Contents App → Type 0
  Untouched c c' = (entries c' ≡ entries c) × (c'.app ≡ c.app) × (marks c' ≡ marks c)

  -- Nothing has happened, or the marker shows that something has, or all of it has.
  abbrev pub Interrupted : (Ledger → Ledger) → App → Contents App → Contents App → Type 0
  Interrupted change after c c' =
      Untouched c c'
      ⊎ (((entries c' ≡ entries c) ⊎ (entries c' ≡ change (entries c)))
          × HasMarker e m direction c')
      ⊎ Completed change after c c'

  module _ (st : Statement) (change : Ledger → Ledger) (c : Contents App)
      (plain : is_plain_sql e m.sql ≡ true) (plain_st : is_script e st ≡ false)
      (does : (c' : Contents App)
        → effect e st c' ≡ record c' { ledger = some (change (entries c')) })
      (none_yet : marks c m.source_code ≡ []) where
    abbrev pub after : App
    after = run_all e (statements m.sql) c.app

    abbrev pub R : Contents App → Type 0
    R = Interrupted change after c

    going-R : (app' : App) (c' : Contents App) → Going e m direction (entries c) app' c' → R c'
    going-R app' c' (same, _, one) = inr (inl (inl same, one))

    changed :
        (c' : Contents App)
        → Going e m direction (entries c) after c'
        → Going e m direction (change (entries c)) after (effect e st c')
    changed c' (same, data_same, (k, one)) = rw (does c') (ap change same, data_same, (k, one))

    changed-R : (c' : Contents App) → Going e m direction (change (entries c)) after c' → R c'
    changed-R c' (same, _, one) = inr (inl (inr same, one))

    abbrev pub Valued : {A : Type 0} → A → A → Contents App → Type 0
    Valued value a c' = (a ≡ value) × Completed change after c c'

    delete-Traced :
        {A : Type 0} (value : A) (c' : Contents App)
        → Going e m direction (change (entries c)) after c'
        → Traced e (delete_run_marker e m direction >>= λ _. pure value) c' (Valued value) R
    unfolding delete_run_marker
    delete-Traced value c' going =
        let last = deleted (change (entries c)) after c' going in
        Traced-bind e (λ _ last. Completed change after c last) (Valued value) R
          (run_statement e (delete_marker m.source_code m.id direction)) (λ _. pure value) c'
          (Traced-post e _ _ R R (run_statement e (delete_marker m.source_code m.id direction)) c'
            (Traced-statement e law (delete_marker m.source_code m.id direction) R c' refl
              (changed-R c' going) (inr (inr last)))
            (λ _ c'' h. rw h last) (λ _ r. r))
          (λ _ c'' h. Traced-pure e (Valued value) R value c'' (refl, h))

    ledger-Traced :
        {A : Type 0} (value : A) (c' : Contents App)
        → Going e m direction (entries c) after c'
        → Traced e
            (run_statement e st >>= λ _. delete_run_marker e m direction >>= λ _. pure value)
            c'
            (Valued value)
            R
    ledger-Traced value c' going =
        let next = changed c' going in
        Traced-bind e _ _ R (run_statement e st)
          (λ _. delete_run_marker e m direction >>= λ _. pure value) c'
          (Traced-statement e law st R c' plain_st (going-R after c' going)
            (changed-R (effect e st c') next))
          (λ _ c'' h. rw h (delete-Traced value (effect e st c') next))

    -- Whatever fails, the marker is there unless nothing or all of it has happened.
    pub marked_work-Traced :
        {A : Type 0} (value : A) → Traced e (marked_work st value) c (Valued value) R
    unfolding create_run_marker execute_with_progress
    marked_work-Traced value =
        let start = inserted c none_yet in
        let marker = insert_marker m.source_code m.id m.name direction in
        Traced-bind e _ _ R (run_statement e marker)
          (λ _. execute_with_progress e m direction >>= λ _.
            run_statement e st >>= λ _. delete_run_marker e m direction >>= λ _. pure value)
          c
          (Traced-statement e law marker R c refl (inl (refl, refl, refl))
            (going-R c.app (effect e marker c) start))
          (λ _ c' h. rw h (
            Traced-bind e _ _ R (progress_from e m direction 0 (statements m.sql))
              (λ _. run_statement e st >>= λ _. delete_run_marker e m direction >>= λ _. pure value)
              (effect e marker c)
              (progress_from-Traced R (entries c) (statements m.sql) 0 c.app (effect e marker c)
                plain going-R start)
              (λ _ c'' going. ledger-Traced value c'' going)))
