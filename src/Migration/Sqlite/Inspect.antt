-- ===== src/Migration/Sqlite/Inspect.antt =====
-- The ids that `inspect_applied_ids` and `prepare_ledger` return.
use mathlib.Core.Bool.{true≢false}
use toasty_mgr.Prelude.{
  ℕ, ◌≡◌, refl, ap, ◌∙◌, inl, inr, none, List, [], ◌∷◌, map, Result, ok, err, arith, Text,
  if◌then◌else◌, collect, nat_has_eq, contains, collect-cons, is_empty,
}
use toasty_mgr.Prelude.Action.{returned, pure, lift, ◌>>=◌}
use toasty_mgr.Prelude.Map
use toasty_mgr.Prelude.Map.{Map}
use toasty_mgr.Migration.Types.{Error, LedgerMigration}
use toasty_mgr.Migration.Backend.{Ledger, is_some, IdsOf, Reads}
use toasty_mgr.Migration.Sqlite.Database.{
  Contents, Engine, IsLawful, entries, pair_row, Answers, Outside,
}
use toasty_mgr.Migration.Sqlite.Runs.{
  Runs, Runs-lift, Runs-bind, Runs-exec, Runs-statement, Atomic, in_transaction-Atomic,
}
use toasty_mgr.Migration.Sqlite.Ledger.{ready}
use toasty_mgr.Migration.Sqlite.{
  create_ledger, select_rows, Row, table_exists, value_string, value_i64, to_u64, ledger_row,
  run_statement, composite_rows, validated_ids, prepare_body, prepare_ledger, inspect_applied_ids,
  tracked_by_id, validated_row,
}

-- Rows that were made from pairs are decoded to these pairs.
collect-ledger_row : (pairs : List (ℕ × Text)) → collect ledger_row (map pair_row pairs) ≡ ok pairs
unfolding collect ledger_row value_i64 to_u64 value_string
collect-ledger_row [] = refl
collect-ledger_row (p ∷ ps) = rw (collect-ledger_row ps)

validated_row-id :
    (tracked : Map ℕ Text) (row : ℕ × Text) (id : ℕ)
    → validated_row tracked row ≡ ok id
    → id ≡ row.0
unfolding validated_row
validated_row-id tracked (i, n) id h = ground arith

validated_ids-contains :
    (tracked : Map ℕ Text) (pairs : List (ℕ × Text)) (l : List ℕ) (id : ℕ)
    → validated_ids tracked pairs ≡ ok l
    → contains l id ≡ is_some (Map.get pairs id)
unfolding validated_ids Map.get
validated_ids-contains tracked [] l id h = unfold collect in ground arith
validated_ids-contains tracked ((i, n) ∷ ps) l id h =
    let (y, ys, hy, hs, same) = collect-cons (validated_row tracked) (i, n) ps h in
    let head = validated_row-id tracked (i, n) y hy in
    let tail = validated_ids-contains tracked ps ys id hs in rw (same, head) (ground arith)

module _ (e : Engine) (law : IsLawful e) where
  open e use {App, run, is_plain, statements, Db, committed, working, exec}

  -- The ids of the source, and contents with the same ledger and data.
  abbrev pub Listed : Text → Contents App → List ℕ → Contents App → Type 0
  Listed source c l c' = (entries c' ≡ entries c) × (c'.app ≡ c.app) × IdsOf (entries c) source l

  decode-IdsOf :
      (source : Text) (tracked : Map ℕ Text) (c : Contents App) (rows : List Row)
      (pairs : List (ℕ × Text)) (l : List ℕ)
      → Answers e (select_rows source) c rows
      → collect ledger_row rows ≡ ok pairs
      → validated_ids tracked pairs ≡ ok l
      → IdsOf (entries c) source l
  decode-IdsOf source tracked c rows pairs l (given, same, all_rows) h v id =
      let decoded : pairs ≡ given = cc (collect-ledger_row given) in
      validated_ids-contains tracked pairs l id v
      ∙ ap is_some (ap (λ (m : List (ℕ × Text)). Map.get m id) decoded ∙ all_rows id)

  composite_rows-Runs :
      (source : Text) (tracked : Map ℕ Text) (c : Contents App)
      → Runs e
          (composite_rows e source >>= λ rows. lift (validated_ids tracked rows))
          (ready e c)
          (Listed source c)
  unfolding composite_rows
  composite_rows-Runs source tracked c =
      Runs-bind e
        (λ pairs c'.
          (c' ≡ ready e c)
          × ((l : List ℕ) → validated_ids tracked pairs ≡ ok l → IdsOf (entries c) source l))
        _ (exec (select_rows source) >>= λ rows. lift (collect ledger_row rows))
        (λ pairs. lift (validated_ids tracked pairs)) (ready e c)
        (Runs-bind e _ _ (exec (select_rows source)) (λ rows. lift (collect ledger_row rows))
          (ready e c) (Runs-exec e law (select_rows source) (ready e c) refl)
          (λ rows c' q.
            Runs-lift e _ (collect ledger_row rows) c'
              (λ pairs h. (q.0, λ l v. decode-IdsOf source tracked c rows pairs l q.1 h v))))
        (λ pairs c' q.
          Runs-lift e _ (validated_ids tracked pairs) c' (λ l v. rw q.0 (refl, refl, q.1 l v)))

  prepare_body-Runs :
      (source : Text) (tracked : List LedgerMigration) (c : Contents App)
      → Runs e (prepare_body e source tracked) c (Listed source c)
  unfolding prepare_body
  prepare_body-Runs source tracked c =
      Runs-bind e _ _ (run_statement e create_ledger)
        (λ _. composite_rows e source >>= λ rows. lift (validated_ids (tracked_by_id tracked) rows))
        c (Runs-statement e law create_ledger c refl)
        (λ _ c' s. rw s (composite_rows-Runs source (tracked_by_id tracked) c))

  -- `prepare_ledger` is atomic and changes no entry and no data; the ids that it returns are exactly
  -- those in the source's ledger.
  pub prepare_ledger-Atomic :
      (source : Text) (tracked : List LedgerMigration) (db : Db)
      → Atomic e law (Listed source (committed db)) db (prepare_ledger e source tracked db)
  unfolding prepare_ledger
  prepare_ledger-Atomic source tracked db =
      in_transaction-Atomic e law _ (prepare_body e source tracked) db
        (prepare_body-Runs source tracked (committed db))

  -- outside a transaction: the ledger that is committed is read
  abbrev pub IsIdle : Db → Type 0
  IsIdle db = working db ≡ none

  abbrev pub recorded : Db → Ledger
  recorded db = entries (committed db)

  validated-Reads :
      (source : Text) (start db' : Db) (r : Result Error (List ℕ))
      → recorded db' ≡ recorded start
      → IsIdle db'
      → ((l : List ℕ) → r ≡ ok l → IdsOf (recorded start) source l)
      → Reads recorded IsIdle source start (r, db')
  validated-Reads source start db' (ok l) same idle k = (same, idle, k l refl)
  validated-Reads source start db' (err x) same idle k = same

  decoded-Reads :
      (source : Text) (tracked : Map ℕ Text) (start db' : Db) (r : Result Error (List (ℕ × Text)))
      → recorded db' ≡ recorded start
      → IsIdle db'
      → ((pairs : List (ℕ × Text))
          → r ≡ ok pairs
          → (l : List ℕ) → validated_ids tracked pairs ≡ ok l
          → IdsOf (recorded start) source l)
      → Reads recorded IsIdle source start
          ((lift r >>= λ rows. lift (validated_ids tracked rows)) db')
  decoded-Reads source tracked start db' (ok pairs) same idle k =
      validated-Reads source start db' (validated_ids tracked pairs) same idle (k pairs refl)
  decoded-Reads source tracked start db' (err x) same idle k = same

  rows-Reads :
      (source : Text) (tracked : Map ℕ Text) (db start : Db) (r : Result Error (List Row) × Db)
      → committed db ≡ committed start
      → Outside e (select_rows source) db r
      → Reads recorded IsIdle source start (
          (returned r >>= (λ rows. lift (collect ledger_row rows)) >>= λ rows.
          lift (validated_ids tracked rows))
            db)
  rows-Reads source tracked db start (ok rows, db') same (h, idle, answers) =
      decoded-Reads source tracked start db' (collect ledger_row rows) (ap entries (h ∙ same)) idle
        (λ pairs decoded l valid.
          rw (ap entries same) at
            (decode-IdsOf source tracked (committed db) rows pairs l answers decoded valid))
  rows-Reads source tracked db start (err x, db') same h = ap entries (h ∙ same)

  table-Reads :
      (source : Text) (tracked : List LedgerMigration) (db : Db) (r : Result Error (List Row) × Db)
      → Outside e table_exists db r
      → Reads recorded IsIdle source db (
          (returned r >>= λ found.
          if is_empty found
          then pure []
          else (composite_rows e source >>= λ rows.
              lift (validated_ids (tracked_by_id tracked) rows)))
            db)
  unfolding composite_rows
  table-Reads source tracked db (ok [], db') (h, idle, answers) = elim answers [
    | inl (_, absent) ↦ (ap entries h, idle, λ id. rw absent)
    | inr present ↦ absurd (true≢false present)
  ]
  table-Reads source tracked db (ok (row ∷ rows), db') (h, idle, answers) =
      rows-Reads source (tracked_by_id tracked) db' db (exec (select_rows source) db') h
        (law.outside_law (select_rows source) db' refl idle)
  table-Reads source tracked db (err x, db') h = ap entries h

  -- Outside a transaction `inspect_applied_ids` changes no entry, and the ids that it returns are
  -- exactly those in the source's ledger, none where the ledger does not exist yet.
  pub inspect_applied_ids-Reads :
      (source : Text) (tracked : List LedgerMigration) (db : Db)
      → IsIdle db
      → Reads recorded IsIdle source db (inspect_applied_ids e source tracked db)
  unfolding inspect_applied_ids
  inspect_applied_ids-Reads source tracked db idle =
      table-Reads source tracked db (exec table_exists db)
        (law.outside_law table_exists db refl idle)
