-- ===== src/Migration/MySql/Synced.antt =====
-- What `sync_schema` of the MySQL backend leaves behind.
use mathlib.Core.Option.{none-ne-some}
use toasty_mgr.Prelude.{all, ◌≡◌, refl, sym, ◌∙◌, true, none, some, List, [], ◌∷◌, Text, arith}
use toasty_mgr.Prelude.Action.{Action, ◌>>=◌, for_each}
use toasty_mgr.Migration.Types.{Error}
use toasty_mgr.Migration.MySql.Statements.{script}
use toasty_mgr.Migration.MySql.Tables.{Contents, Server, IsLawful, entries, marks}
use toasty_mgr.Migration.MySql.Traces.{Traced, Traced-pure, Traced-bind}
use toasty_mgr.Migration.MySql.Locked.{with_lock-Traced}
use toasty_mgr.Migration.MySql.Started.{ensure_no_recovery_marker-Traced}
use toasty_mgr.Migration.MySql.Marked.{is_plain_sql}
use toasty_mgr.Migration.MySql.{run_statement, ensure_no_recovery_marker, sync_body, sync_schema}
use toasty_mgr.Migration.MySql.Tables.{Marks}
use toasty_mgr.Migration.MySql.Marked.{run_all}
use toasty_mgr.Migration.MySql.Traces.{Traced-post, Traced-script}

module _ (e : Server) (law : IsLawful e) (source : Text) where
  open e use {App, Db, contents, exec, is_plain, run, statements}

  -- Metadata as before: a failure may leave any data.
  abbrev pub SameMetadata : Contents App → Contents App → Type 0
  SameMetadata c c' = (entries c' ≡ entries c) × (marks c' ≡ marks c)

  -- The data after the SQL, of a database with the table of markers, and none for the source.
  abbrev pub Synced : Text → Contents App → Contents App → Type 0
  Synced sql c c' =
      (c' ≡ record c { app = run_all e (statements sql) c.app })
      × (marks c source ≡ [])
      × ((t : Marks) × (c.runs ≡ some t))

  scripts-Traced :
      (R : Contents App → Type 0) (sql : List Text) (c : Contents App)
      → all is_plain sql ≡ true
      → ((app' : App) → R (record c { app = app' }))
      → Traced e
          (for_each (λ s. run_statement e (script s)) sql)
          c
          (λ _ c'. c' ≡ record c { app = run_all e sql c.app })
          R
  unfolding for_each
  scripts-Traced R [] c plain fails = Traced-pure e (λ _ c'. c' ≡ c) R tt c refl
  scripts-Traced R (s ∷ rest) c plain fails =
      Traced-bind e _ (λ _ c'. c' ≡ record c { app = run_all e rest (run s c.app) }) R
        (run_statement e (script s)) (λ _. for_each (λ s. run_statement e (script s)) rest) c
        (Traced-script e law s R c (ground arith) fails)
        (λ _ c' h.
          rw h (scripts-Traced R rest (record c { app = run s c.app }) (ground arith) fails))

  -- When the statements of a synchronization leave the metadata tables and the lock alone: a call
  -- that returns has found the table of markers and none for the source, and it has run all its
  -- statements, in order, and nothing else; a call that fails leaves the ledger and the markers as
  -- they were.
  pub sync_schema-Traced :
      (sql : Text) (c : Contents App)
      → is_plain_sql e sql ≡ true
      → Traced e (sync_schema e source sql) c (λ _ c'. Synced sql c c') (SameMetadata c)
  unfolding sync_schema sync_body
  sync_schema-Traced sql c plain =
      let scripts : Action Db Error (Unit {0}) =
        for_each (λ s. run_statement e (script s)) (statements sql) in
      let R = SameMetadata c in
      with_lock-Traced e law (λ _ c'. Synced sql c c') R source
        (ensure_no_recovery_marker e source >>= λ _. scripts) c (refl, refl)
        (λ _ c' h. rw h.0 (refl, refl))
        (Traced-bind e _ (λ _ c'. Synced sql c c') R (ensure_no_recovery_marker e source)
          (λ _. scripts) c (ensure_no_recovery_marker-Traced e law source R c (refl, refl))
          (λ _ c' h. rw h.0 (
            Traced-post e _ (λ _ c'. Synced sql c c') R R scripts c
              (scripts-Traced R (statements sql) c plain (λ _. (refl, refl)))
              (λ _ c' ran. (ran, h.1, h.2)) (λ _ r. r))))

  -- On a database without the table of markers, where no migration was prepared or applied yet,
  -- `sync_schema` fails and changes nothing.
  pub sync_schema-fails :
      (sql : Text) (c : Contents App)
      → c.runs ≡ none
      → Traced e (sync_schema e source sql) c (λ _ _. ⊥) (λ c'. c' ≡ c)
  unfolding sync_schema sync_body
  sync_schema-fails sql c missing =
      let scripts : Action Db Error (Unit {0}) =
        for_each (λ s. run_statement e (script s)) (statements sql) in
      with_lock-Traced e law (λ _ _. ⊥) (λ c'. c' ≡ c) source
        (ensure_no_recovery_marker e source >>= λ _. scripts) c refl (λ _ _ h. absurd h)
        (Traced-bind e _ (λ _ _. ⊥) (λ c'. c' ≡ c) (ensure_no_recovery_marker e source)
          (λ _. scripts) c (ensure_no_recovery_marker-Traced e law source (λ c'. c' ≡ c) c refl)
          (λ _ c' h. absurd (none-ne-some h.2.0 (sym missing ∙ h.2.1))))
