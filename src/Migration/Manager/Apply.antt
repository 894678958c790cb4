-- ===== src/Migration/Manager/Apply.antt =====
-- What `apply` does to the ledger, for every backend that keeps it.
use mathlib.Core.Path.{subst}
use toasty_mgr.Prelude.{
  ℕ, ◌+◌, ◌≡◌, refl, sym, ap, ◌∙◌, Bool, true, false, not, Option, none, some, List, [], ◌∷◌, ◌++◌,
  arith, Text, contains, nat_has_eq, length, All, Bool-cases, Result-cases, inl, inr, Result, ok,
  err,
}
use toasty_mgr.Prelude.Action.{Action, pure, lift, returned, ◌>>=◌}
use toasty_mgr.Migration.Types.{
  OwnedMigrationFile, MigrationArtifactSet, MigrationApplyReport, execute, Error,
}
use toasty_mgr.Migration.Backend.{
  MigrationBackend, Ledger, KeepsLedger, IdsOf, Reads, Records, is_some,
}
use toasty_mgr.Migration.Lineage.{backend_migration, validate_applied_ids, ledger_migrations}
use toasty_mgr.Migration.Naming.{validate_sql}
use toasty_mgr.Migration.Manager.Recording.{record_file, record_all, new_count, record_file-IdsOf}
use toasty_mgr.Migration.Manager.{
  apply_one, apply_loop, apply_artifacts, run_migrations, count_applied, zero_report,
}

module _ {Db Schema : Type 0} (ledger : Db → Ledger) (IsIdle : Db → Type 0) (plain : Text → Bool)
    (b : MigrationBackend Db Schema) (keeps : KeepsLedger ledger IsIdle plain b) (code : Text) where
  -- What one round of the loop did to the ledger, and whether it counts as applied.
  abbrev One : OwnedMigrationFile → Db → Result Error (Option Bool) × Db → Type 0
  One m db (ok x, db') =
      (ledger db' ≡ record_file code m (ledger db))
      × IsIdle db'
      × (x ≡ some (not (is_some (ledger db code m.id))))
  One m db (err _, db') = ledger db' ≡ ledger db

  applied-One :
      (m : OwnedMigrationFile) (db : Db) (r : Result Error Bool × Db)
      → is_some (ledger db code m.id) ≡ false
      → Records ledger IsIdle (backend_migration code m m.sql) db r
      → One m db ((returned r >>= λ applied. pure (some applied)) db)
  unfolding backend_migration
  applied-One m db (ok true, db') new (absent, added, idle) = rw new (added, idle, refl)
  applied-One m db (ok false, db') new (present, same, idle) = absurd (ground arith)
  applied-One m db (err x, db') new same = same

  apply_one-One :
      (applied_ids : List ℕ) (m : OwnedMigrationFile) (db : Db)
      → IsIdle db
      → IdsOf (ledger db) code applied_ids
      → plain m.sql ≡ true
      → One m db (apply_one b code none applied_ids m db)
  unfolding apply_one backend_migration
  apply_one-One applied_ids m db idle known p = elim (Bool-cases (contains applied_ids m.id)) [
    | inl old ↦ rw (old, sym (known m.id) ∙ old) (refl, idle, refl)
    | inr new ↦ elim (Result-cases (validate_sql m.sql)) [
      | inl (_, good) ↦
          rw (new, good)
            (applied-One m db (b.apply_migration (backend_migration code m m.sql) db)
              (sym (known m.id) ∙ new) (keeps.apply_law (backend_migration code m m.sql) db idle p))
      | inr (x, bad) ↦ rw (new, bad) refl
    ]
  ]

  -- What the loop did to the ledger, which was `before`: the migrations that it came to are
  -- recorded, and the counters of the report are right.
  abbrev Looped :
      List OwnedMigrationFile
      → MigrationApplyReport
      → Ledger
      → Result Error MigrationApplyReport × Db
      → Type 0
  Looped ms report before (ok r, db') =
      (ledger db' ≡ record_all code ms before)
      × IsIdle db'
      × (r.applied ≡ report.applied + new_count code ms before)
      × (r.applied + r.skipped ≡ report.applied + report.skipped + length ms)
      × (r.adopted ≡ report.adopted)
  Looped ms report before (err _, db') =
      (done : List OwnedMigrationFile) × (rest : List OwnedMigrationFile) × (ms ≡ done ++ rest)
      × (ledger db' ≡ record_all code done before)

  Looped-cons :
      (m : OwnedMigrationFile) (ms : List OwnedMigrationFile) (report : MigrationApplyReport)
      (before : Ledger) (old : Bool) (r : Result Error MigrationApplyReport × Db)
      → is_some (before code m.id) ≡ old
      → Looped ms (count_applied (some (not old)) report) (record_file code m before) r
      → Looped (m ∷ ms) report before r
  Looped-cons m ms report before true (ok r, db') h (same, idle, applied, total, adopted) =
      (same, idle, ground arith, omega arith, adopted)
  Looped-cons m ms report before false (ok r, db') h (same, idle, applied, total, adopted) =
      (same, idle, ground arith, omega arith, adopted)
  Looped-cons m ms report before old (err x, db') h (done, rest, split, same) =
      (m ∷ done, rest, ap (λ l. m ∷ l) split, same)

  Looped-step :
      (m : OwnedMigrationFile) (ms : List OwnedMigrationFile) (report : MigrationApplyReport)
      (db : Db) (r : Result Error (Option Bool) × Db)
      (loop : MigrationApplyReport → Action Db Error MigrationApplyReport)
      → One m db r
      → ((report' : MigrationApplyReport) (db' : Db)
          → ledger db' ≡ record_file code m (ledger db)
          → IsIdle db'
          → Looped ms report' (ledger db') (loop report' db'))
      → Looped (m ∷ ms) report (ledger db) ((returned r >>= λ x. loop (count_applied x report)) db)
  Looped-step m ms report db (ok x, db') loop (e, idle, fresh) rest =
      let next = count_applied (some (not (is_some (ledger db code m.id)))) report in
      rw fresh (
        Looped-cons m ms report (ledger db) (is_some (ledger db code m.id)) (loop next db') refl
          (subst (λ l. Looped ms next l (loop next db')) e (rest next db' e idle)))
  Looped-step m ms report db (err x, db') loop same rest = ([], m ∷ ms, refl, same)

  apply_loop-Looped :
      (applied_ids : List ℕ) (ms : List OwnedMigrationFile) (report : MigrationApplyReport)
      (db : Db)
      → IsIdle db
      → IdsOf (ledger db) code applied_ids
      → All (λ m. plain m.sql ≡ true) ms
      → Looped ms report (ledger db) (apply_loop b code none applied_ids ms report db)
  unfolding apply_loop
  apply_loop-Looped applied_ids [] report db idle known plains =
      (refl, idle, omega arith, omega arith, refl)
  apply_loop-Looped applied_ids (m ∷ ms) report db idle known (p, plains) =
      Looped-step m ms report db (apply_one b code none applied_ids m db)
        (apply_loop b code none (m.id ∷ applied_ids) ms)
        (apply_one-One applied_ids m db idle known p)
        (λ report' db' e idle'.
          apply_loop-Looped (m.id ∷ applied_ids) ms report' db' idle'
            (subst (λ l. IdsOf l code (m.id ∷ applied_ids)) (sym e)
              (record_file-IdsOf code m (ledger db) applied_ids known))
            plains)

  read-Looped :
      (ms : List OwnedMigrationFile) (db : Db) (r : Result Error (List ℕ) × Db)
      (check : List ℕ → Result Error (Unit {0}))
      (rest : List ℕ → Action Db Error MigrationApplyReport)
      → Reads ledger IsIdle code db r
      → ((l : List ℕ) (db' : Db)
          → IsIdle db'
          → IdsOf (ledger db') code l
          → Looped ms zero_report (ledger db') (rest l db'))
      → Looped ms zero_report (ledger db) ((returned r >>= λ l. lift (check l) >>= λ _. rest l) db)
  read-Looped ms db (ok l, db') check rest (e, idle, known) loop = elim (Result-cases (check l)) [
    | inl (_, good) ↦ rw good (
        subst (λ t. Looped ms zero_report t (rest l db')) e
          (loop l db' idle (subst (λ t. IdsOf t code l) (sym e) known)))
    | inr (x, bad) ↦ rw bad ([], ms, refl, e)
  ]
  read-Looped ms db (err x, db') check rest e loop = ([], ms, refl, e)

  -- A run in the mode `Execute` that succeeds.
  abbrev pub Succeeds : List OwnedMigrationFile → Ledger → MigrationApplyReport → Db → Type 0
  Succeeds ms before r db' =
      (ledger db' ≡ record_all code ms before)
      × IsIdle db'
      × (r.applied ≡ new_count code ms before)
      × (r.applied + r.skipped ≡ length ms)
      × (r.adopted ≡ 0)

  -- A run that fails: a part of the list from its start is recorded.
  abbrev pub Stops : List OwnedMigrationFile → Ledger → Db → Type 0
  Stops ms before db' =
      (done : List OwnedMigrationFile) × (rest : List OwnedMigrationFile) × (ms ≡ done ++ rest)
      × (ledger db' ≡ record_all code done before)

  abbrev pub Executed :
      List OwnedMigrationFile → Ledger → Result Error MigrationApplyReport × Db → Type 0
  Executed ms before (ok r, db') = Succeeds ms before r db'
  Executed ms before (err _, db') = Stops ms before db'

  Looped-Executed :
      (ms : List OwnedMigrationFile) (before : Ledger) (r : Result Error MigrationApplyReport × Db)
      → Looped ms zero_report before r
      → Executed ms before r
  Looped-Executed ms before (ok r, db') (same, idle, applied, total, adopted) =
      (same, idle, omega arith, omega arith, adopted)
  Looped-Executed ms before (err x, db') h = h

  -- On a backend that keeps its contract, with no open transaction and migrations whose SQL runs
  -- inside one, a run in the mode `Execute` either records every migration of the list, in order,
  -- unless its id was recorded before, reports how many were new and that all others were skipped,
  -- or fails with the migrations of a first part of the list recorded and nothing else changed in
  -- the ledger.
  pub apply_artifacts-Executed :
      (artifacts : MigrationArtifactSet) (db : Db)
      → IsIdle db
      → All (λ m. plain m.sql ≡ true) artifacts.migrations
      → Executed artifacts.migrations (ledger db) (apply_artifacts b code execute artifacts db)
  unfolding apply_artifacts run_migrations
  apply_artifacts-Executed artifacts db idle plains =
      Looped-Executed artifacts.migrations (ledger db) _ (
        read-Looped artifacts.migrations db
          (b.inspect_applied_ids code (ledger_migrations artifacts) db)
          (validate_applied_ids artifacts)
          (λ _. b.prepare_ledger code (ledger_migrations artifacts) >>= λ l.
            lift (validate_applied_ids artifacts l) >>= λ _.
            apply_loop b code none l artifacts.migrations zero_report)
          (keeps.inspect_law code (ledger_migrations artifacts) db idle)
          (λ l db' idle' known.
            read-Looped artifacts.migrations db'
              (b.prepare_ledger code (ledger_migrations artifacts) db')
              (validate_applied_ids artifacts)
              (λ l. apply_loop b code none l artifacts.migrations zero_report)
              (keeps.prepare_law code (ledger_migrations artifacts) db' idle')
              (λ l db2 idle2 known2.
                apply_loop-Looped l artifacts.migrations zero_report db2 idle2 known2 plains)))
