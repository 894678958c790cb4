-- ===== src/Migration/Normalize/Consistent.antt =====
-- A schema that `normalize_observed` returns is consistent: its ids, its indices and its primary
-- keys refer to what they should.
use toasty_mgr.Prelude.{
  ℕ, suc, ◌+◌, ◌≡◌, refl, sym, ap, ◌∙◌, inl, inr, Bool, true, false, Option, List, [], ◌∷◌, ◌++◌,
  map, find, length, All, Text, Result, ok, ok_or, ◌>>=◌, >>=-eq-ok, arith,
}
use toasty_mgr.Migration.Types.{Error, no_primary_key}
use toasty_mgr.Migration.Schema.{
  ObservedColumn, ObservedIndex, ObservedTable, ObservedSchema, Vocabulary, Column, Index, Table,
  Schema,
}
use toasty_mgr.Migration.Normalize.{
  normalize_columns, column_of, versionable_of, index_columns, normalize_indices, new_index,
  is_partial, is_left_out, matching_index, normalize_table, target_of, normalize_tables,
  normalize_observed,
}
use toasty_mgr.Migration.Normalize.Indices.{
  err-ne-ok, ok-injective, ok_or-some, k_zero, k_suc, Entry, entry_of, expected, FromObserved,
  HasPlaces, IsConsistent, AllConsistent, index_columns-Referred,
}

module _ (v : Vocabulary) where
  open v use {StmtType, StorageType}

  -- The indices so far are in place and come from the observed ones.
  abbrev Placed : ℕ → List Entry → List ObservedIndex → List (Index v) → Type 0
  Placed table entries os is = HasPlaces v table 0 is × All (FromObserved v entries os) is

  HasPlaces-snoc :
      (table k n : ℕ) (is : List (Index v)) (i : Index v)
      → HasPlaces v table k is
      → n ≡ k + length is
      → i.id ≡ record { table = table; index = n }
      → i.on ≡ table
      → HasPlaces v table k (is ++ i ∷ [])
  HasPlaces-snoc table k n [] i h e place on = (rw (e ∙ k_zero k) at place, on, tt)
  HasPlaces-snoc table k n (x ∷ is) i (x_place, x_on, h) e place on =
      (x_place, x_on, HasPlaces-snoc table (suc k) n is i h (e ∙ k_suc k (length is)) place on)

  All-snoc :
      (P : Index v → Type 0) (is : List (Index v)) (i : Index v)
      → All P is
      → P i
      → All P (is ++ i ∷ [])
  All-snoc P [] i h p = (p, tt)
  All-snoc P (x ∷ is) i (q, h) p = (q, All-snoc P is i h p)

  -- One of the observed indices that are still to come, or that were there before.
  abbrev Has : List ObservedIndex → List ObservedIndex → Type 0
  Has rest os =
      (entries : List Entry) (i : Index v)
      → FromObserved v entries rest i
      → FromObserved v entries os i

  abbrev Indexed : ℕ → List Entry → List ObservedIndex → List (Column v) × List (Index v) → Type 0
  Indexed table entries os parts =
      (map (entry_of v) parts.0 ≡ entries) × Placed table entries os parts.1

  normalize_indices-Indexed :
      (table : ℕ) (target : Option (Table v)) (observed : ObservedTable) (entries : List Entry)
      (rest : List ObservedIndex) (columns : List (Column v)) (indices : List (Index v))
      (parts : List (Column v) × List (Index v))
      → Has rest observed.indices
      → map (entry_of v) columns ≡ entries
      → Placed table entries observed.indices indices
      → normalize_indices v table target observed rest columns indices ≡ ok parts
      → Indexed table entries observed.indices parts
  unfolding normalize_indices
  normalize_indices-Indexed table target observed entries [] columns indices parts has same placed
        h =
      rw (sym (ok-injective h)) (same, placed)
  normalize_indices-Indexed table target observed entries (o ∷ rest) columns indices parts has same
        placed h =
      go (is_partial v o) (is_left_out v target observed o) refl refl
        (normalize_indices-Indexed table target observed entries rest columns indices parts
          (λ l i f. has l i (inr f)) same placed)
        (λ columns' indices' same' placed'.
          normalize_indices-Indexed table target observed entries rest columns' indices' parts
            (λ l i f. has l i (inr f)) same' placed')
        h
    where
      go :
          (partial left_out : Bool)
          → is_partial v o ≡ partial
          → is_left_out v target observed o ≡ left_out
          → (normalize_indices v table target observed rest columns indices ≡ ok parts
              → Indexed table entries observed.indices parts)
          → ((columns' : List (Column v)) (indices' : List (Index v))
              → map (entry_of v) columns' ≡ entries
              → Placed table entries observed.indices indices'
              → normalize_indices v table target observed rest columns' indices' ≡ ok parts
              → Indexed table entries observed.indices parts)
          → normalize_indices v table target observed (o ∷ rest) columns indices ≡ ok parts
          → Indexed table entries observed.indices parts
      go true left_out a b skip next h = skip (rw (normalize_indices, a) at h)
      go false true a b skip next h = skip (rw (normalize_indices, a, b) at h)
      go false false a b skip next h =
          let target_index = matching_index v target o in
          let (made, e, done) =
            >>=-eq-ok (index_columns v target target_index o 0 o.columns columns)
              (λ made.
                normalize_indices v table target observed rest made.0
                  (indices ++ new_index v table target_index o (length indices) made.1 ∷ []))
              (rw (normalize_indices, a, b) at h) in
          let (kept, refers) =
            index_columns-Referred v target target_index o 0 o.columns columns made e in
          let new = new_index v table target_index o (length indices) made.1 in
          next made.0 (indices ++ new ∷ []) (kept ∙ same)
            (
              HasPlaces-snoc table 0 (length indices) indices new placed.0 (omega arith) refl refl,
              All-snoc (FromObserved v entries observed.indices) indices new placed.1
                  (has entries new (inl (refl, refl, rw same at refers))),
            )
            done

  module _
      (column_type : ObservedColumn
        → Option (Column v)
        → Result Error (StmtType × StorageType)) where
    normalize_columns-entries :
        (table : ℕ) (target : Option (Table v)) (index : ℕ) (os : List ObservedColumn)
        (columns : List (Column v))
        → normalize_columns v column_type table target index os ≡ ok columns
        → map (entry_of v) columns ≡ expected v table index os
    unfolding normalize_columns
    normalize_columns-entries table target index [] columns h = rw (sym (ok-injective h)) refl
    normalize_columns-entries table target index (o ∷ os) columns h =
        let (types, _, k) =
          >>=-eq-ok (column_type o (column_of v target o.name))
            (λ types. normalize_columns v column_type table target (suc index) os >>= λ columns.
              ok (
                record {
                  id = record { table = table; index = index };
                  name = o.name;
                  ty = types.0;
                  storage_ty = types.1;
                  nullable = o.nullable;
                  primary_key = false;
                  auto_increment = o.auto_increment;
                  versionable = versionable_of v (column_of v target o.name);
                }
                ∷ columns))
            h in
        let (later, e, done) =
          >>=-eq-ok (normalize_columns v column_type table target (suc index) os) _ k in
        rw (sym (ok-injective done)) (
          ap
            (λ l.
              (record { table = table; index = index }, o.name, o.nullable, o.auto_increment) ∷ l)
            (normalize_columns-entries table target (suc index) os later e))

    normalize_table-IsConsistent :
        (index : ℕ) (target : Option (Table v)) (o : ObservedTable) (t : Table v)
        → normalize_table v column_type index target o ≡ ok t
        → IsConsistent v index o t
    unfolding normalize_table
    normalize_table-IsConsistent index target o t h =
        let (columns, e, k) =
          >>=-eq-ok (normalize_columns v column_type index target 0 o.columns) _ h in
        let (parts, f, l) =
          >>=-eq-ok (normalize_indices v index target o o.indices columns []) _ k in
        let (primary, g, done) =
          >>=-eq-ok (ok_or (find (λ (i : Index v). i.primary_key) parts.1) (no_primary_key o.name))
            _ l in
        let (same, placed) =
          normalize_indices-Indexed index target o (expected v index 0 o.columns) o.indices columns
            [] parts (λ _ _ h. h) (normalize_columns-entries index target 0 o.columns columns e)
            (tt, tt) f in
        rw (sym (ok-injective done))
          (refl, refl, same, placed.0, placed.1, (primary, ok_or-some _ _ primary g, refl, refl))

    normalize_tables-AllConsistent :
        (target : Schema v) (index : ℕ) (os : List ObservedTable) (ts : List (Table v))
        → normalize_tables v column_type target index os ≡ ok ts
        → AllConsistent v index os ts
    unfolding normalize_tables
    normalize_tables-AllConsistent target index [] ts h = rw (sym (ok-injective h)) tt
    normalize_tables-AllConsistent target index (o ∷ os) ts h =
        let (t, e, k) =
          >>=-eq-ok (normalize_table v column_type index (target_of v column_type target o) o)
            (λ t. normalize_tables v column_type target (suc index) os >>= λ ts. ok (t ∷ ts)) h in
        let (later, f, done) =
          >>=-eq-ok (normalize_tables v column_type target (suc index) os) (λ ts. ok (t ∷ ts)) k in
        rw (sym (ok-injective done)) (
          normalize_table-IsConsistent index (target_of v column_type target o) o t e,
          normalize_tables-AllConsistent target (suc index) os later f,
        )

    -- A schema that is returned has the observed tables, each with the observed columns (their names,
    -- nullability and auto-increment), ids that are positions, indices that are observed ones with
    -- columns of the table, and the primary key of its first primary index; and it is returned only
    -- if nothing was diagnosed.
    pub normalize_observed-AllConsistent :
        (observed : ObservedSchema) (target s : Schema v)
        → normalize_observed v column_type observed target ≡ ok s
        → (observed.diagnostics ≡ []) × AllConsistent v 0 observed.tables s.tables
    unfolding normalize_observed
    normalize_observed-AllConsistent observed target s h = go observed.diagnostics refl
      where
        go :
            (l : List Text)
            → observed.diagnostics ≡ l
            → (observed.diagnostics ≡ []) × AllConsistent v 0 observed.tables s.tables
        go (d ∷ ds) e = absurd (err-ne-ok (rw (normalize_observed, e) at h))
        go [] e =
            let (tables, f, done) =
              >>=-eq-ok (normalize_tables v column_type target 0 observed.tables)
                (λ tables. ok (record { tables = tables })) (rw (normalize_observed, e) at h) in
            (
              e,
              rw (sym (ok-injective done))
                  (normalize_tables-AllConsistent target 0 observed.tables tables f),
            )
