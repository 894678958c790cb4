-- ===== src/Migration/Tests/Schemas.antt =====
-- Schemas that are normalized.
use toasty_mgr.Prelude.{
  ◌≡◌, ℕ, refl, Bool, true, false, none, List, [], ◌∷◌, Text, codes, text_eq, Result, ok, Option,
}
use toasty_mgr.Migration.Types.{Error}
use toasty_mgr.Migration.Schema.{
  ObservedColumn, ObservedIndex, ObservedSchema, Vocabulary, PlaceId, Column, Index, Schema,
}
use toasty_mgr.Migration.Normalize.{
  normalize_observed, normalize_tables, normalize_table, normalize_columns, normalize_indices,
  index_columns, index_shape_matches,
}
use toasty_mgr.Migration.Normalize.Indices.{AllConsistent}
use toasty_mgr.Migration.Normalize.Consistent.{normalize_observed-AllConsistent}

-- One type of columns, and one kind of indices.
abbrev small : Vocabulary
small = record {
  StmtType = Unit {0};
  StorageType = Unit {0};
  IndexOp = Unit {0};
  IndexScope = Unit {0};
  eq_op = tt;
  local_scope = tt;
}

abbrev any_type : ObservedColumn → Option (Column small) → Result Error (Unit {0} × Unit {0})
any_type o target = ok (tt, tt)

abbrev id_column : ObservedColumn
id_column = record {
  name = codes "id";
  data_type = codes "bigint";
  native_type = codes "bigint";
  nullable = false;
  auto_increment = true;
  default = none;
  ordinal = 1;
  comment = none;
}

abbrev index_named : Text → Bool → ObservedIndex
index_named name primary = record {
  name = name;
  columns = codes "id" ∷ [];
  unique = primary;
  primary_key = primary;
  predicate = none;
}

abbrev demo : List ObservedIndex → ObservedSchema
demo indices = record {
  namespace = codes "public";
  tables =
      record { name = codes "demo"; comment = none; columns = id_column ∷ []; indices = indices }
      ∷ [];
  diagnostics = [];
}

abbrev nothing : Schema small
nothing = record { tables = [] }

abbrev place : ℕ → ℕ → PlaceId
place t i = record { table = t; index = i }

abbrev demo_schema : List (Index small) → Schema small
demo_schema indices = record {
  tables =
      record {
        id = 0;
        name = codes "demo";
        columns =
            record {
              id = place 0 0;
              name = codes "id";
              ty = tt;
              storage_ty = tt;
              nullable = false;
              primary_key = true;
              auto_increment = true;
              versionable = false;
            }
            ∷ [];
        primary_key = record { columns = place 0 0 ∷ []; index = place 0 0 };
        indices = indices;
      }
      ∷ [];
}

abbrev demo_index : ℕ → Text → Bool → Index small
demo_index position name primary = record {
  id = place 0 position;
  name = name;
  on = 0;
  columns = record { column = place 0 0; op = tt; scope = tt } ∷ [];
  unique = primary;
  primary_key = primary;
}

abbrev demo_indices : List ObservedIndex
demo_indices = index_named (codes "demo_pkey") true ∷ index_named (codes "by_id") false ∷ []

normalizes :
    normalize_observed small any_type (demo demo_indices) nothing
    ≡ ok (
        demo_schema
          (demo_index 0 (codes "demo_pkey") true ∷ demo_index 1 (codes "by_id") false ∷ []))
unfolding normalize_observed normalize_tables normalize_table normalize_columns normalize_indices
    index_columns index_shape_matches text_eq
normalizes = refl

-- Two physical indices of the shape of one target index both get its name.
name_twice :
    normalize_observed small any_type
      (demo (
        index_named (codes "demo_pkey") true
        ∷ index_named (codes "a") false
        ∷ index_named (codes "b") false
        ∷ []))
      (demo_schema
        (demo_index 0 (codes "demo_pkey") true ∷ demo_index 1 (codes "by_id") false ∷ []))
    ≡ ok (
        demo_schema (
          demo_index 0 (codes "demo_pkey") true
          ∷ demo_index 1 (codes "by_id") false
          ∷ demo_index 2 (codes "by_id") false
          ∷ []))
unfolding normalize_observed normalize_tables normalize_table normalize_columns normalize_indices
    index_columns index_shape_matches text_eq
name_twice = refl

normalize_observed-AllConsistent_example :
    ((demo demo_indices).diagnostics ≡ [])
    × AllConsistent small 0
        (demo demo_indices).tables
        (demo_schema
          (demo_index 0 (codes "demo_pkey") true ∷ demo_index 1 (codes "by_id") false ∷ [])).tables
normalize_observed-AllConsistent_example =
    normalize_observed-AllConsistent small any_type (demo demo_indices) nothing
      (demo_schema
        (demo_index 0 (codes "demo_pkey") true ∷ demo_index 1 (codes "by_id") false ∷ []))
      normalizes
