-- ===== src/Migration/MySql/Started.antt =====
-- The start of the MySQL ledger operations: the metadata tables and the check for a marker.
use toasty_mgr.Prelude.{◌≡◌, ◌≢◌, refl, inl, inr, some, List, [], ◌∷◌, Text, nat_has_eq, ok}
use toasty_mgr.Prelude.Action.{Action, lift, ◌>>=◌}
use toasty_mgr.Migration.Types.{Error}
use toasty_mgr.Migration.Sqlite.{Row, value_string}
use toasty_mgr.Migration.MySql.Statements.{
  create_ledger, create_runs, select_marker, value_u64, row_fields,
}
use toasty_mgr.Migration.MySql.Decoded.{check_marker}
use toasty_mgr.Migration.MySql.Tables.{
  Mark, Marks, Contents, Server, IsLawful, effect, marks, Answers, mark_row,
}
use toasty_mgr.Migration.MySql.Traces.{
  Traced, Traced-lift, Traced-bind, Traced-exec, Traced-statement,
}
use toasty_mgr.Migration.MySql.{run_statement, create_metadata_tables, ensure_no_recovery_marker}

check_marker-mark :
    (source : Text) (m : Mark) (rows : List Row) → check_marker source (mark_row m ∷ rows) ≢ ok tt
unfolding check_marker row_fields value_u64 value_string
check_marker-mark source m rows h = cc

module _ (e : Server) (law : IsLawful e) where
  open e use {App, run, is_plain, statements, Db, contents, exec}

  -- the contents once the metadata tables exist
  abbrev pub ready : Contents App → Contents App
  ready c = effect e create_runs (effect e create_ledger c)

  pub create_metadata_tables-Traced :
      (R : Contents App → Type 0) (c : Contents App)
      → R c
      → R (effect e create_ledger c)
      → R (ready c)
      → Traced e (create_metadata_tables e) c (λ _ c'. c' ≡ ready c) R
  unfolding create_metadata_tables
  create_metadata_tables-Traced R c r s t =
      Traced-bind e _ _ R (run_statement e create_ledger) (λ _. run_statement e create_runs) c
        (Traced-statement e law create_ledger R c refl r s)
        (λ _ c' h. rw h (Traced-statement e law create_runs R (effect e create_ledger c) refl s t))

  checked :
      (source : Text) (c : Contents App) (rows : List Row)
      → Answers e (select_marker source) c rows
      → check_marker source rows ≡ ok tt
      → marks c source ≡ []
  checked source c rows (_, inl (_, free)) h = free
  checked source c rows (_, inr (m, others, one, _)) h =
      absurd (check_marker-mark source m [] (rw one at h))

  -- Contents that have the table of markers, and none for the source.
  abbrev pub Free : Text → Contents App → Contents App → Type 0
  Free source c c' = (c' ≡ c) × (marks c source ≡ []) × ((t : Marks) × (c.runs ≡ some t))

  -- It goes on only where the source has no marker.
  pub ensure_no_recovery_marker-Traced :
      (source : Text) (R : Contents App → Type 0) (c : Contents App)
      → R c
      → Traced e (ensure_no_recovery_marker e source) c (λ _ c'. Free source c c') R
  unfolding ensure_no_recovery_marker
  ensure_no_recovery_marker-Traced source R c r =
      Traced-bind e _ _ R (exec (select_marker source)) (λ rows. lift (check_marker source rows)) c
        (Traced-exec e law (select_marker source) R c refl r r)
        (λ rows c' q.
          Traced-lift e (λ _ c'. Free source c c') R (check_marker source rows) c' (rw q.0 r)
            (λ _ h. (q.0, checked source c rows q.1 h, q.1.0)))

  -- The start of each body but `sync_schema`'s.
  pub checked_start-Traced :
      {A : Type 0} (source : Text) (Q : A → Contents App → Type 0) (R : Contents App → Type 0)
      (k : Action Db Error A) (c : Contents App)
      → R c
      → R (effect e create_ledger c)
      → R (ready c)
      → (marks c source ≡ [] → Traced e k (ready c) Q R)
      → Traced e
          (create_metadata_tables e >>= λ _. ensure_no_recovery_marker e source >>= λ _. k)
          c
          Q
          R
  checked_start-Traced source Q R k c r s t next =
      Traced-bind e _ Q R (create_metadata_tables e)
        (λ _. ensure_no_recovery_marker e source >>= λ _. k) c
        (create_metadata_tables-Traced R c r s t)
        (λ _ c' h. rw h (
          Traced-bind e _ Q R (ensure_no_recovery_marker e source) (λ _. k) (ready c)
            (ensure_no_recovery_marker-Traced source R (ready c) t)
            (λ _ c' free. rw free.0 (next free.1))))
