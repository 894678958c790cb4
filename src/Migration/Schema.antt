-- ===== src/Migration/Schema.antt =====
-- The observed schema of migration/backend/mod.rs, and the parts of the toasty crate's `db::Schema`
-- that this crate reads and builds.
use toasty_mgr.Prelude.{ℕ, Bool, List, Option, Text}

pub record ObservedColumn : Type 0 where
  pub name : Text
  pub data_type : Text
  pub native_type : Text
  pub nullable : Bool
  pub auto_increment : Bool
  pub default : Option Text
  pub ordinal : ℕ
  pub comment : Option Text

pub record ObservedIndex : Type 0 where
  pub name : Text
  pub columns : List Text
  pub unique : Bool
  pub primary_key : Bool
  pub predicate : Option Text

pub record ObservedTable : Type 0 where
  pub name : Text
  pub comment : Option Text
  pub columns : List ObservedColumn
  pub indices : List ObservedIndex

pub record ObservedSchema : Type 0 where
  pub namespace : Text
  pub tables : List ObservedTable
  pub diagnostics : List Text

-- The types of the toasty crate that are passed through: `stmt::Type`, `db::Type`, `IndexOp` and
-- `IndexScope`, with `IndexOp::Eq` and `IndexScope::Local`.
pub record Vocabulary : Type 1 where
  pub StmtType : Type 0
  pub StorageType : Type 0
  pub IndexOp : Type 0
  pub IndexScope : Type 0
  pub eq_op : IndexOp
  pub local_scope : IndexScope

-- `ColumnId`, and with the same fields `IndexId`: the table's position and the one in it.
pub record PlaceId : Type 0 where
  pub table : ℕ
  pub index : ℕ

pub record Column (v : Vocabulary) : Type 0 where
  pub id : PlaceId
  pub name : Text
  pub ty : v.StmtType
  pub storage_ty : v.StorageType
  pub nullable : Bool
  pub primary_key : Bool
  pub auto_increment : Bool
  pub versionable : Bool

pub record IndexColumn (v : Vocabulary) : Type 0 where
  pub column : PlaceId
  pub op : v.IndexOp
  pub scope : v.IndexScope

pub record Index (v : Vocabulary) : Type 0 where
  pub id : PlaceId
  pub name : Text
  pub on : ℕ
  pub columns : List (IndexColumn v)
  pub unique : Bool
  pub primary_key : Bool

pub record PrimaryKey : Type 0 where
  pub columns : List PlaceId
  pub index : PlaceId

pub record Table (v : Vocabulary) : Type 0 where
  pub id : ℕ
  pub name : Text
  pub columns : List (Column v)
  pub primary_key : PrimaryKey
  pub indices : List (Index v)

pub record Schema (v : Vocabulary) : Type 0 where
  pub tables : List (Table v)
