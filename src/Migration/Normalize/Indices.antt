-- ===== src/Migration/Normalize/Indices.antt =====
-- What a consistent schema is, and the columns of an index in it.
use mathlib.Core.Option.{none-ne-some, some-injective}
use toasty_mgr.Prelude.{
  ℕ, suc, ◌+◌, ◌≡◌, ◌≢◌, refl, sym, ap, ◌∙◌, ◌⊎◌, inl, inr, Bool, true, false, Option, none, some,
  List, [], ◌∷◌, map, find, text_eq, All, if◌then◌else◌, Text, Result, ok, err, ok_or, >>=-eq-ok,
  arith, Bool-cases,
}
use toasty_mgr.Prelude.Strings.{text_eq_iff}
use toasty_mgr.Migration.Types.{Error}
use toasty_mgr.Migration.Schema.{
  ObservedColumn, ObservedIndex, ObservedTable, Vocabulary, PlaceId, Column, IndexColumn, Index,
  PrimaryKey, Table,
}
use toasty_mgr.Migration.Normalize.{
  set_primary, primary_flag, index_columns, index_column, target_column,
}

pub err-ne-ok : {A : Type 0} {x : Error} {a : A} → err x ≢ ok a
err-ne-ok h = cc

abbrev pub Returned : Type 0 → Type 0
Returned A = Result Error A

pub ok-injective : {A : Type 0} {a b : A} → Path (Returned A) (ok a) (ok b) → a ≡ b
ok-injective h = cc

pub ok_or-some : {A : Type 0} (o : Option A) (x : Error) (a : A) → ok_or o x ≡ ok a → o ≡ some a
ok_or-some none x a h = absurd (err-ne-ok h)
ok_or-some (some b) x a h = ap some (ok-injective h)

-- Of a column: its id, its name, and whether it is nullable and counts up by itself.
abbrev pub Entry : Type 0
Entry = PlaceId × Text × Bool × Bool

abbrev pub IsIn : PlaceId × Text → List Entry → Type 0
IsIn e [] = ⊥
IsIn e (x ∷ xs) = ((x.0, x.1) ≡ e) ⊎ IsIn e xs

pub k_zero : (k : ℕ) → k + 0 ≡ k
k_zero k = omega arith

pub k_suc : (k n : ℕ) → k + suc n ≡ suc k + n
k_suc k n = omega arith

module _ (v : Vocabulary) where
  abbrev pub entry_of : Column v → Entry
  entry_of c = (c.id, c.name, c.nullable, c.auto_increment)

  -- The entries that the columns of a table should have.
  abbrev pub expected : ℕ → ℕ → List ObservedColumn → List Entry
  expected table index [] = []
  expected table index (o ∷ os) =
      (record { table = table; index = index }, o.name, o.nullable, o.auto_increment)
      ∷ expected table (suc index) os

  -- The index's columns are the table's columns of these names.
  abbrev pub Refers : List Entry → List (IndexColumn v) → List Text → Type 0
  Refers entries [] [] = Unit {0}
  Refers entries (c ∷ columns) (n ∷ names) =
      IsIn (c.column, n) entries × Refers entries columns names
  Refers entries _ _ = ⊥

  -- The index is what one of the observed ones becomes.
  abbrev pub FromObserved : List Entry → List ObservedIndex → Index v → Type 0
  FromObserved entries [] i = ⊥
  FromObserved entries (o ∷ os) i =
      ((i.unique ≡ o.unique) × (i.primary_key ≡ o.primary_key) × Refers entries i.columns o.columns)
      ⊎ FromObserved entries os i

  -- The ids are the positions, from this one on.
  abbrev pub HasPlaces : ℕ → ℕ → List (Index v) → Type 0
  HasPlaces table index [] = Unit {0}
  HasPlaces table index (i ∷ is) =
      (i.id ≡ record { table = table; index = index })
      × (i.on ≡ table)
      × HasPlaces table (suc index) is

  abbrev pub IsPrimary : List (Index v) → PrimaryKey → Type 0
  IsPrimary indices key =
      (i : Index v) × (find (λ (i : Index v). i.primary_key) indices ≡ some i)
      × (key.index ≡ i.id)
      × (key.columns ≡ map (λ (c : IndexColumn v). c.column) i.columns)

  abbrev pub IsConsistent : ℕ → ObservedTable → Table v → Type 0
  IsConsistent index o t =
      (t.id ≡ index)
      × (t.name ≡ o.name)
      × (map entry_of t.columns ≡ expected index 0 o.columns)
      × HasPlaces index 0 t.indices
      × All (FromObserved (expected index 0 o.columns) o.indices) t.indices
      × IsPrimary t.indices t.primary_key

  abbrev pub AllConsistent : ℕ → List ObservedTable → List (Table v) → Type 0
  AllConsistent index [] [] = Unit {0}
  AllConsistent index (o ∷ os) (t ∷ ts) = IsConsistent index o t × AllConsistent (suc index) os ts
  AllConsistent index _ _ = ⊥

  open v use {StmtType, StorageType}

  set_primary-entries :
      (name : Text) (primary : Bool) (columns : List (Column v))
      → map entry_of (set_primary v name primary columns) ≡ map entry_of columns
  set_primary-entries name primary [] = refl
  set_primary-entries name primary (c ∷ columns) = elim (Bool-cases (text_eq c.name name)) [
    | inl same ↦ rw same refl
    | inr other ↦ rw other (ap (λ l. entry_of c ∷ l) (set_primary-entries name primary columns))
  ]

  choice-entries :
      (b : Bool) (name : Text) (primary : Bool) (columns : List (Column v))
      → map entry_of (if b then set_primary v name primary columns else columns)
        ≡ map entry_of columns
  choice-entries true name primary columns = set_primary-entries name primary columns
  choice-entries false name primary columns = refl

  find-IsIn :
      (name : Text) (columns : List (Column v)) (c : Column v)
      → find (λ (c : Column v). text_eq c.name name) columns ≡ some c
      → IsIn (c.id, name) (map entry_of columns)
  find-IsIn name [] c h = absurd (none-ne-some c h)
  find-IsIn name (d ∷ columns) c h = elim (Bool-cases (text_eq d.name name)) [
    | inl same ↦
        let one = some-injective d c (rw same at h) in
        inl (
          ap (λ n. (d.id, n)) ((text_eq_iff d.name name).0 same)
          ∙ ap (λ (x : Column v). (x.id, name)) one)
    | inr other ↦ inr (find-IsIn name columns c (rw other at h))
  ]

  -- What the columns of an index are made to.
  abbrev pub Referred :
      List (Column v) → List Text → List (Column v) × List (IndexColumn v) → Type 0
  Referred columns names parts =
      (map entry_of parts.0 ≡ map entry_of columns) × Refers (map entry_of columns) parts.1 names

  index_column-place :
      (id : PlaceId) (target : Option (IndexColumn v)) → (index_column v id target).column ≡ id
  index_column-place id none = refl
  index_column-place id (some c) = refl

  found-Referred :
      (target : Option (Table v)) (target_index : Option (Index v)) (o : ObservedIndex)
      (position : ℕ) (name : Text) (names : List Text) (columns : List (Column v))
      (r : Option (Column v)) (parts : List (Column v) × List (IndexColumn v))
      → find (λ (c : Column v). text_eq c.name name) columns ≡ r
      → ((columns' : List (Column v)) (parts' : List (Column v) × List (IndexColumn v))
          → index_columns v target target_index o (suc position) names columns' ≡ ok parts'
          → Referred columns' names parts')
      → index_columns v target target_index o position (name ∷ names) columns ≡ ok parts
      → Referred columns (name ∷ names) parts
  unfolding index_columns
  found-Referred target target_index o position name names columns none parts found later h =
      absurd (err-ne-ok (rw (index_columns, found) at h))
  found-Referred target target_index o position name names columns (some c) parts found later h =
      let next =
        if o.primary_key
        then set_primary v name (primary_flag v target name) columns
        else columns in
      let (rest, e, done) =
        >>=-eq-ok (index_columns v target target_index o (suc position) names next)
          (λ rest.
            ok (rest.0, index_column v c.id (target_column v target_index position) ∷ rest.1))
          (rw (index_columns, found) at h) in
      let same = choice-entries o.primary_key name (primary_flag v target name) columns in
      let (entries, refers) = later next rest e in
      rw (sym (ok-injective done)) (
        entries ∙ same,
        (
          rw (index_column-place c.id (target_column v target_index position))
              (find-IsIn name columns c found),
          rw same at refers,
        ),
      )

  pub index_columns-Referred :
      (target : Option (Table v)) (target_index : Option (Index v)) (o : ObservedIndex)
      (position : ℕ) (names : List Text) (columns : List (Column v))
      (parts : List (Column v) × List (IndexColumn v))
      → index_columns v target target_index o position names columns ≡ ok parts
      → Referred columns names parts
  unfolding index_columns
  index_columns-Referred target target_index o position [] columns parts h =
      rw (sym (ok-injective h)) (refl, tt)
  index_columns-Referred target target_index o position (name ∷ names) columns parts h =
      found-Referred target target_index o position name names columns
        (find (λ (c : Column v). text_eq c.name name) columns) parts refl
        (index_columns-Referred target target_index o (suc position) names) h
