-- ===== src/Migration/Normalize.antt =====
-- `normalize_observed` and `index_shape_matches` of migration/backend/mod.rs. `column_type` is the
-- backend's closure.
pub mod Indices
pub mod Consistent
use toasty_mgr.Prelude.{
  ℕ, zero, suc, Bool, true, false, ◌&&◌, Option, none, some, List, [], ◌∷◌, ◌++◌, map, any, find,
  first, length, text_eq, if◌then◌else◌, Text, Result, ok, err, ok_or, ◌>>=◌, ◌>>◌,
}
use toasty_mgr.Migration.Types.{Error, schema_unsupported, index_unknown_column, no_primary_key}
use toasty_mgr.Migration.Schema.{
  ObservedColumn, ObservedIndex, ObservedTable, ObservedSchema, Vocabulary, PlaceId, Column,
  IndexColumn, Index, PrimaryKey, Table, Schema,
}

abbrev pub same_flag : Bool → Bool → Bool
same_flag true b = b
same_flag false true = false
same_flag false false = true

-- `slice.get(position)`
abbrev pub get_elem? : {A : Type 0} → List A → ℕ → Option A
get_elem? [] n = none
get_elem? (x ∷ xs) zero = some x
get_elem? (x ∷ xs) (suc n) = get_elem? xs n

module _ (v : Vocabulary) where
  open v use {StmtType, StorageType, IndexOp, IndexScope, eq_op, local_scope}

  -- `table.column(id).name`; the ids of a table's indices lie in it.
  abbrev pub column_named : Table v → PlaceId → Text → Bool
  column_named table id name = elim (get_elem? table.columns id.index) [
    | none ↦ false
    | some column ↦ text_eq column.name name
  ]

  abbrev pub all_named : Table v → List (IndexColumn v) → List Text → Bool
  all_named table [] [] = true
  all_named table [] (n ∷ names) = false
  all_named table (c ∷ columns) [] = false
  all_named table (c ∷ columns) (n ∷ names) =
      column_named table c.column n && all_named table columns names

  unfoldable pub index_shape_matches : Table v → Index v → ObservedIndex → Bool
  index_shape_matches table index observed =
      same_flag index.primary_key observed.primary_key
      && same_flag index.unique observed.unique
      && all_named table index.columns observed.columns

  abbrev pub column_of : Option (Table v) → Text → Option (Column v)
  column_of none name = none
  column_of (some table) name = find (λ column. text_eq column.name name) table.columns

  abbrev pub versionable_of : Option (Column v) → Bool
  versionable_of none = false
  versionable_of (some column) = column.versionable

  module _
      (column_type : ObservedColumn
        → Option (Column v)
        → Result Error (StmtType × StorageType)) where
    unfoldable pub normalize_columns :
        ℕ → Option (Table v) → ℕ → List ObservedColumn → Result Error (List (Column v))
    normalize_columns table target index [] = ok []
    normalize_columns table target index (o ∷ rest) =
        let later = normalize_columns table target (suc index) rest in
        do
          types ← column_type o (column_of target o.name)
          columns ← later
          ok (
              record {
                id = record { table = table; index = index };
                name = o.name;
                ty = types.0;
                storage_ty = types.1;
                nullable = o.nullable;
                primary_key = false;
                auto_increment = o.auto_increment;
                versionable = versionable_of (column_of target o.name);
              }
              ∷ columns)

  -- `columns[column_index].primary_key = …`, for the first column of the name
  abbrev pub set_primary : Text → Bool → List (Column v) → List (Column v)
  set_primary name primary [] = []
  set_primary name primary (c ∷ columns) =
      if text_eq c.name name
      then record c { primary_key = primary } ∷ columns
      else c ∷ set_primary name primary columns

  abbrev pub primary_flag : Option (Table v) → Text → Bool
  primary_flag target name = elim (column_of target name) [
    | none ↦ true
    | some column ↦ column.primary_key
  ]

  abbrev pub target_column : Option (Index v) → ℕ → Option (IndexColumn v)
  target_column none position = none
  target_column (some index) position = get_elem? index.columns position

  abbrev pub index_column : PlaceId → Option (IndexColumn v) → IndexColumn v
  index_column id none = record { column = id; op = eq_op; scope = local_scope }
  index_column id (some c) = record { column = id; op = c.op; scope = c.scope }

  -- The closure over an index's columns; it marks those of a primary key in the table's.
  unfoldable pub index_columns :
      Option (Table v)
      → Option (Index v)
      → ObservedIndex
      → ℕ
      → List Text
      → List (Column v)
      → Result Error (List (Column v) × List (IndexColumn v))
  index_columns target target_index o position [] columns = ok (columns, [])
  index_columns target target_index o position (name ∷ names) columns =
      elim (find (λ (c : Column v). text_eq c.name name) columns) [
        | none ↦ err (index_unknown_column o.name)
        | some c ↦ (do
          rest ← index_columns target target_index o (suc position) names (
              if o.primary_key
              then set_primary name (primary_flag target name) columns
              else columns)
          ok (rest.0, index_column c.id (target_column target_index position) ∷ rest.1))
      ]

  abbrev pub matching_index : Option (Table v) → ObservedIndex → Option (Index v)
  matching_index none o = none
  matching_index (some table) o =
      find (λ candidate. index_shape_matches table candidate o) table.indices

  -- The name is that of a target index which another observed index has the shape of.
  abbrev pub is_shadowing : Option (Table v) → ObservedTable → ObservedIndex → Bool
  is_shadowing none observed o = false
  is_shadowing (some table) observed o =
      any
        (λ (candidate : Index v).
          text_eq candidate.name o.name
          && any (λ other. index_shape_matches table candidate other) observed.indices)
        table.indices

  abbrev pub is_left_out : Option (Table v) → ObservedTable → ObservedIndex → Bool
  is_left_out target observed o = elim (matching_index target o) [
    | none ↦ is_shadowing target observed o
    | some _ ↦ false
  ]

  abbrev pub index_name : Option (Index v) → ObservedIndex → Text
  index_name none o = o.name
  index_name (some index) o = index.name

  abbrev pub new_index : ℕ → Option (Index v) → ObservedIndex → ℕ → List (IndexColumn v) → Index v
  new_index table target_index o position columns = record {
    id = record { table = table; index = position };
    name = index_name target_index o;
    on = table;
    columns = columns;
    unique = o.unique;
    primary_key = o.primary_key;
  }

  abbrev pub is_partial : ObservedIndex → Bool
  is_partial o = elim o.predicate [ none ↦ false | some _ ↦ true ]

  -- The loop over the indices, with the columns and the indices so far.
  unfoldable pub normalize_indices :
      ℕ
      → Option (Table v)
      → ObservedTable
      → List ObservedIndex
      → List (Column v)
      → List (Index v)
      → Result Error (List (Column v) × List (Index v))
  normalize_indices table target observed [] columns indices = ok (columns, indices)
  normalize_indices table target observed (o ∷ rest) columns indices = elim (is_partial o) [
    | true ↦ normalize_indices table target observed rest columns indices
    | false ↦ elim (is_left_out target observed o) [
      | true ↦ normalize_indices table target observed rest columns indices
      | false ↦ (do
        parts ← index_columns target (matching_index target o) o 0 o.columns columns
        normalize_indices table target observed rest parts.0
            (indices ++ new_index table (matching_index target o) o (length indices) parts.1 ∷ []))
    ]
  ]

  module _
      (column_type : ObservedColumn
        → Option (Column v)
        → Result Error (StmtType × StorageType)) where
    unfoldable pub normalize_table : ℕ → Option (Table v) → ObservedTable → Result Error (Table v)
    normalize_table table target observed = do
      columns ← normalize_columns column_type table target 0 observed.columns
      parts ← normalize_indices table target observed observed.indices columns []
      primary ← ok_or (find (λ (i : Index v). i.primary_key) parts.1) (no_primary_key observed.name)
      ok (record {
        id = table;
        name = observed.name;
        columns = parts.0;
        primary_key = record {
          columns = map (λ (c : IndexColumn v). c.column) primary.columns;
          index = primary.id;
        };
        indices = parts.1;
      })

    abbrev pub target_of : Schema v → ObservedTable → Option (Table v)
    target_of target observed = find (λ table. text_eq table.name observed.name) target.tables

    unfoldable pub normalize_tables :
        Schema v → ℕ → List ObservedTable → Result Error (List (Table v))
    normalize_tables target index [] = ok []
    normalize_tables target index (o ∷ rest) =
        let later = normalize_tables target (suc index) rest in
        do table ← normalize_table index (target_of target o) o; tables ← later; ok (table ∷ tables)

    unfoldable pub normalize_observed : ObservedSchema → Schema v → Result Error (Schema v)
    normalize_observed observed target = elim (first observed.diagnostics) [
      | some diagnostic ↦ err (schema_unsupported diagnostic)
      | none ↦ (do
        tables ← normalize_tables target 0 observed.tables
        ok (record { tables = tables }))
    ]
