-- ===== src/Migration/Manager/RolledBack.antt =====
-- What `rollback` does to the ledger, for every backend that keeps it.
use mathlib.Core.Path.{subst}
use toasty_mgr.Prelude.{
  ℕ, ◌⊎◌, ◌≡◌, refl, ◌∙◌, Bool, List, ◌++◌, Text, length, Result-cases, inl, inr, Result, ok, err,
  collect,
}
use toasty_mgr.Prelude.Action.{Action, pure, lift, returned, ◌>>=◌}
use toasty_mgr.Migration.Types.{
  MigrationArtifactSet, MigrationRollbackReport, MigrationRollbackSelection, Error,
}
use toasty_mgr.Migration.Backend.{MigrationBackend, Ledger, KeepsLedger, Reads, IdsOf}
use toasty_mgr.Migration.Lineage.{
  validate_applied_ids, ledger_migrations, applied_lineage, select_rollback_ids,
}
use toasty_mgr.Migration.Manager.{rollback_file, roll_back_all, rollback_artifacts}
use toasty_mgr.Migration.Manager.Rollback.{
  remove_ids, Removed, roll_back_all-Removed, PlainRollbacks, collect-StandsFor,
}

module _ {Db Schema : Type 0} (ledger : Db → Ledger) (IsIdle : Db → Type 0) (plain : Text → Bool)
    (b : MigrationBackend Db Schema) (keeps : KeepsLedger ledger IsIdle plain b) (code : Text) where
  -- The ids that the selection stands for in the lineage of the applied migrations.
  abbrev pub Chosen : MigrationArtifactSet → MigrationRollbackSelection → Ledger → List ℕ → Type 0
  Chosen artifacts selection before selected =
      (applied : List ℕ) × (lineage : List ℕ) × IdsOf before code applied
      × (applied_lineage artifacts applied ≡ ok lineage)
      × (select_rollback_ids lineage selection ≡ ok selected)

  abbrev pub RolledBack :
      MigrationArtifactSet
      → MigrationRollbackSelection
      → Ledger
      → Result Error MigrationRollbackReport × Db
      → Type 0
  RolledBack artifacts selection before (ok report, db') =
      (selected : List ℕ) × Chosen artifacts selection before selected
      × (report.rolled_back ≡ length selected)
      × (ledger db' ≡ remove_ids code selected before)
      × IsIdle db'
  RolledBack artifacts selection before (err _, db') =
      (ledger db' ≡ before)
      ⊎ ((done : List ℕ) × (rest : List ℕ) × Chosen artifacts selection before (done ++ rest)
          × (ledger db' ≡ remove_ids code done before))

  finish_rollback :
      (artifacts : MigrationArtifactSet) (selection : MigrationRollbackSelection) (before : Ledger)
      (selected : List ℕ) (db : Db) (r : Result Error (Unit {0}) × Db)
      → Chosen artifacts selection before selected
      → Removed ledger IsIdle plain b keeps code selected before r
      → RolledBack artifacts selection before
          ((returned r >>= λ _. pure (record { rolled_back = length selected })) db)
  finish_rollback artifacts selection before selected db (ok _, db') c (same, idle) =
      (selected, c, refl, same, idle)
  finish_rollback artifacts selection before selected db (err x, db') c (done, rest, split, same) =
      inr (done, rest, subst (Chosen artifacts selection before) split c, same)

  prepared_rollback :
      (artifacts : MigrationArtifactSet) (selection : MigrationRollbackSelection) (before : Ledger)
      (applied : List ℕ) (db : Db)
      → PlainRollbacks ledger IsIdle plain b keeps code artifacts.migrations
      → IdsOf before code applied
      → ledger db ≡ before
      → IsIdle db
      → RolledBack artifacts selection before (
          (lift (applied_lineage artifacts applied) >>= λ lineage.
          lift (select_rollback_ids lineage selection) >>= λ selected.
          lift (collect (rollback_file b code artifacts) selected) >>= λ migrations.
          roll_back_all b code migrations >>= λ _. pure (record { rolled_back = length selected }))
            db)
  prepared_rollback artifacts selection before applied db plains known same idle =
      elim (Result-cases (applied_lineage artifacts applied)) [
        | inr (x, bad) ↦ rw bad (inl same)
        | inl (lineage, good) ↦ elim (Result-cases (select_rollback_ids lineage selection)) [
          | inr (x, bad) ↦ rw (good, bad) (inl same)
          | inl (selected, chosen) ↦
              elim (Result-cases (collect (rollback_file b code artifacts) selected)) [
                | inr (x, bad) ↦ rw (good, chosen, bad) (inl same)
                | inl (ms, found) ↦
                    rw (good, chosen, found)
                      (finish_rollback artifacts selection before selected db
                        (roll_back_all b code ms db) (applied, lineage, known, good, chosen)
                        (subst
                          (λ l.
                            Removed ledger IsIdle plain b keeps code selected l
                              (roll_back_all b code ms db))
                          same
                          (roll_back_all-Removed ledger IsIdle plain b keeps code selected ms db
                            idle
                            (collect-StandsFor ledger IsIdle plain b keeps code artifacts selected
                              ms plains found))))
              ]
        ]
      ]

  abbrev Rest :
      MigrationArtifactSet
      → MigrationRollbackSelection
      → List ℕ
      → Action Db Error MigrationRollbackReport
  Rest artifacts selection applied = lift (applied_lineage artifacts applied) >>= λ lineage.
      lift (select_rollback_ids lineage selection) >>= λ selected.
      lift (collect (rollback_file b code artifacts) selected) >>= λ migrations.
      roll_back_all b code migrations >>= λ _. pure (record { rolled_back = length selected })

  after_prepare :
      (artifacts : MigrationArtifactSet) (selection : MigrationRollbackSelection) (before : Ledger)
      (applied : List ℕ) (db : Db) (r : Result Error (List ℕ) × Db)
      → PlainRollbacks ledger IsIdle plain b keeps code artifacts.migrations
      → IdsOf before code applied
      → ledger db ≡ before
      → Reads ledger IsIdle code db r
      → RolledBack artifacts selection before
          ((returned r >>= λ _. Rest artifacts selection applied) db)
  after_prepare artifacts selection before applied db (ok l, db') plains known same (e, idle, _) =
      prepared_rollback artifacts selection before applied db' plains known (e ∙ same) idle
  after_prepare artifacts selection before applied db (err x, db') plains known same e =
      inl (e ∙ same)

  after_inspect :
      (artifacts : MigrationArtifactSet) (selection : MigrationRollbackSelection) (db : Db)
      (r : Result Error (List ℕ) × Db)
      → PlainRollbacks ledger IsIdle plain b keeps code artifacts.migrations
      → Reads ledger IsIdle code db r
      → RolledBack artifacts selection (ledger db) (
          (returned r >>= λ applied. lift (validate_applied_ids artifacts applied) >>= λ _.
          b.prepare_ledger code (ledger_migrations artifacts) >>= λ _.
          Rest artifacts selection applied)
            db)
  after_inspect artifacts selection db (ok applied, db') plains (same, idle, known) =
      elim (Result-cases (validate_applied_ids artifacts applied)) [
        | inr (x, bad) ↦ rw bad (inl same)
        | inl (_, good) ↦ rw good (
            after_prepare artifacts selection (ledger db) applied db'
              (b.prepare_ledger code (ledger_migrations artifacts) db') plains known same
              (keeps.prepare_law code (ledger_migrations artifacts) db' idle))
      ]
  after_inspect artifacts selection db (err x, db') plains same = inl same

  -- On a backend that keeps its contract, with no open transaction and rollback SQL that runs inside
  -- one, `rollback` either removes from the ledger exactly the ids that the selection stands for in
  -- the lineage of the applied migrations, and reports their number, or fails with the ledger as it
  -- was or with a first part of those ids removed.
  pub rollback_artifacts-RolledBack :
      (artifacts : MigrationArtifactSet) (selection : MigrationRollbackSelection) (db : Db)
      → IsIdle db
      → PlainRollbacks ledger IsIdle plain b keeps code artifacts.migrations
      → RolledBack artifacts selection
          (ledger db)
          (rollback_artifacts b code selection artifacts db)
  unfolding rollback_artifacts
  rollback_artifacts-RolledBack artifacts selection db idle plains =
      after_inspect artifacts selection db
        (b.inspect_applied_ids code (ledger_migrations artifacts) db) plains
        (keeps.inspect_law code (ledger_migrations artifacts) db idle)
