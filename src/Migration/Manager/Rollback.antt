-- ===== src/Migration/Manager/Rollback.antt =====
-- The loop of `rollback`, and the migrations that it runs.
use mathlib.Core.Path.{subst}
use mathlib.Core.Option.{some-injective}
use toasty_mgr.Prelude.{
  ℕ, ◌≡◌, refl, sym, ap, ◌∙◌, Bool, true, Option, none, some, List, [], ◌∷◌, ◌++◌, arith, Text,
  nat_eq, find, if◌then◌else◌, All, Bool-cases, inl, inr, Result, ok, err, collect, collect-cons,
}
use toasty_mgr.Prelude.Action.{returned, ◌>>=◌}
use toasty_mgr.Migration.Types.{
  OwnedMigrationFile, MigrationArtifactSet, Error, BackendMigration, not_tracked, rollback_missing,
}
use toasty_mgr.Migration.Backend.{MigrationBackend, Ledger, KeepsLedger, Removes, without_entry}
use toasty_mgr.Migration.Lineage.{backend_migration}
use toasty_mgr.Migration.Naming.{validate_sql}
use toasty_mgr.Migration.Manager.{rollback_file, roll_back_all}

-- The ledger without the ids of a source.
abbrev pub remove_ids : Text → List ℕ → Ledger → Ledger
remove_ids code [] ledger = ledger
remove_ids code (id ∷ rest) ledger =
    remove_ids code rest
      (without_entry (record { source_code = code; id = id; name = []; sql = [] }) ledger)

module _ {Db Schema : Type 0} (ledger : Db → Ledger) (IsIdle : Db → Type 0) (plain : Text → Bool)
    (b : MigrationBackend Db Schema) (keeps : KeepsLedger ledger IsIdle plain b) (code : Text) where
  -- The migrations that stand for these ids, with SQL that runs inside a transaction.
  abbrev pub StandsFor : List ℕ → List BackendMigration → Type 0
  StandsFor [] [] = Unit
  StandsFor (id ∷ ids) (m ∷ ms) =
      ((m.source_code ≡ code) × (m.id ≡ id) × (plain m.sql ≡ true)) × StandsFor ids ms
  StandsFor _ _ = ⊥

  abbrev pub Removed : {A : Type 0} → List ℕ → Ledger → Result Error A × Db → Type 0
  Removed ids before (ok _, db') = (ledger db' ≡ remove_ids code ids before) × IsIdle db'
  Removed ids before (err _, db') =
      (done : List ℕ) × (rest : List ℕ) × (ids ≡ done ++ rest)
      × (ledger db' ≡ remove_ids code done before)

  pub roll_back_all-Removed :
      (ids : List ℕ) (ms : List BackendMigration) (db : Db)
      → IsIdle db
      → StandsFor ids ms
      → Removed ids (ledger db) (roll_back_all b code ms db)
  unfolding roll_back_all
  roll_back_all-Removed [] [] db idle h = (refl, idle)
  roll_back_all-Removed [] (m ∷ ms) db idle h = absurd h
  roll_back_all-Removed (id ∷ ids) [] db idle h = absurd h
  roll_back_all-Removed (id ∷ ids) (m ∷ ms) db idle ((source, same, p), h) =
      go (b.rollback_migration m db) (keeps.rollback_law m db idle p)
        (λ db' i. roll_back_all-Removed ids ms db' i h)
    where
      removes :
          without_entry m (ledger db)
          ≡ without_entry (record { source_code = code; id = id; name = []; sql = [] }) (ledger db)
      removes =
          ap
            (λ s.
              without_entry (record { source_code = s; id = m.id; name = []; sql = [] })
                (ledger db))
            source
          ∙ ap
              (λ i.
                without_entry (record { source_code = code; id = i; name = []; sql = [] })
                  (ledger db))
              same

      later :
          (db' : Db) (r : Result Error (Unit {0}) × Db)
          → ledger db' ≡ without_entry m (ledger db)
          → Removed ids (ledger db') r
          → Removed (id ∷ ids) (ledger db) r
      later db' (ok _, db2) e (done, i) = (done ∙ ap (remove_ids code ids) (e ∙ removes), i)
      later db' (err x, db2) e (done, rest, split, l) =
          (id ∷ done, rest, ap (λ t. id ∷ t) split, l ∙ ap (remove_ids code done) (e ∙ removes))

      go :
          (r : Result Error (Unit {0}) × Db)
          → Removes ledger IsIdle m db r
          → ((db' : Db) → IsIdle db' → Removed ids (ledger db') (roll_back_all b code ms db'))
          → Removed (id ∷ ids) (ledger db) ((returned r >>= λ _. roll_back_all b code ms) db)
      go (ok _, db') (present, newest, removed, i) rest =
          later db' (roll_back_all b code ms db') removed (rest db' i)
      go (err x, db') l rest = ([], id ∷ ids, refl, l)

  -- The rollback SQL of every migration runs inside a transaction.
  abbrev pub PlainRollbacks : List OwnedMigrationFile → Type 0
  PlainRollbacks ms = All (λ m. (sql : Text) → m.rollback_sql ≡ some sql → plain sql ≡ true) ms

  find-plain :
      (ms : List OwnedMigrationFile) (id : ℕ) (m : OwnedMigrationFile)
      → PlainRollbacks ms
      → find (λ m. nat_eq m.id id) ms ≡ some m
      → (m.id ≡ id) × ((sql : Text) → m.rollback_sql ≡ some sql → plain sql ≡ true)
  find-plain [] id m h e = absurd (ground arith)
  find-plain (x ∷ ms) id m (p, h) e = elim (Bool-cases (nat_eq x.id id)) [
    | inl here ↦
        let same =
          some-injective x m
            (subst (λ c. (if c then some x else find (λ m. nat_eq m.id id) ms) ≡ some m) here e) in
        (
          subst (λ m. m.id ≡ id) same (ground (arith, here)),
          subst (λ m. (sql : Text) → m.rollback_sql ≡ some sql → plain sql ≡ true) same p,
        )
    | inr there ↦
        find-plain ms id m h
          (subst (λ c. (if c then some x else find (λ m. nat_eq m.id id) ms) ≡ some m) there e)
  ]

  rollback_file-plain :
      (artifacts : MigrationArtifactSet) (id : ℕ) (m : BackendMigration)
      → PlainRollbacks artifacts.migrations
      → rollback_file b code artifacts id ≡ ok m
      → (m.source_code ≡ code) × (m.id ≡ id) × (plain m.sql ≡ true)
  unfolding rollback_file backend_migration
  rollback_file-plain artifacts id m plains e =
      go (find (λ m. nat_eq m.id id) artifacts.migrations) refl e
    where
      checked :
          (file : OwnedMigrationFile) (sql : Text) (r : Result Error (Unit {0}))
          → file.id ≡ id
          → plain sql ≡ true
          → elim r as (λ _. Result Error BackendMigration) [
            | ok _ ↦ ok (backend_migration code file sql)
            | err x ↦ err x
          ]
            ≡ ok m
          → (m.source_code ≡ code) × (m.id ≡ id) × (plain m.sql ≡ true)
      checked file sql (ok _) same p k =
          subst (λ x. (x.source_code ≡ code) × (x.id ≡ id) × (plain x.sql ≡ true))
            (ap (λ r. elim r [ ok x ↦ x | err _ ↦ m ]) k) (refl, same, p)
      checked file sql (err x) same p k = absurd (ground arith)

      with_sql :
          (file : OwnedMigrationFile) (o : Option Text)
          → file.id ≡ id
          → ((sql : Text) → o ≡ some sql → plain sql ≡ true)
          → elim o as (λ _. Result Error BackendMigration) [
            | none ↦ err (rollback_missing file.name)
            | some sql ↦ elim (validate_sql sql) [
              | ok _ ↦ ok (backend_migration code file sql)
              | err x ↦ err x
            ]
          ]
            ≡ ok m
          → (m.source_code ≡ code) × (m.id ≡ id) × (plain m.sql ≡ true)
      with_sql file none same p k = absurd (ground arith)
      with_sql file (some sql) same p k = checked file sql (validate_sql sql) same (p sql refl) k

      go :
          (o : Option OwnedMigrationFile)
          → find (λ m. nat_eq m.id id) artifacts.migrations ≡ o
          → elim o as (λ _. Result Error BackendMigration) [
            | none ↦ err (not_tracked id)
            | some file ↦ elim file.rollback_sql [
              | none ↦ err (rollback_missing file.name)
              | some sql ↦ elim (validate_sql sql) [
                | ok _ ↦ ok (backend_migration code file sql)
                | err x ↦ err x
              ]
            ]
          ]
            ≡ ok m
          → (m.source_code ≡ code) × (m.id ≡ id) × (plain m.sql ≡ true)
      go none found k = absurd (ground arith)
      go (some file) found k =
          let (same, p) = find-plain artifacts.migrations id file plains found in
          with_sql file file.rollback_sql same p k

  pub collect-StandsFor :
      (artifacts : MigrationArtifactSet) (selected : List ℕ) (ms : List BackendMigration)
      → PlainRollbacks artifacts.migrations
      → collect (rollback_file b code artifacts) selected ≡ ok ms
      → StandsFor selected ms
  unfolding collect
  collect-StandsFor artifacts [] ms plains e =
      subst (StandsFor []) (ap (λ r. elim r [ ok l ↦ l | err _ ↦ [] ]) e) tt
  collect-StandsFor artifacts (id ∷ selected) ms plains e =
      let (m, rest, one, others, split) =
        collect-cons (rollback_file b code artifacts) id selected e in
      subst (StandsFor (id ∷ selected)) (sym split) (
        rollback_file-plain artifacts id m plains one,
        collect-StandsFor artifacts selected rest plains others,
      )
