-- ===== src/Migration/Sqlite/Rows.antt =====
-- The statements that the ledger code executes, one constructor for each SQL text, and the rows that
-- the driver returns, with the helpers that read them.
use toasty_mgr.Prelude.{
  ℕ, ◌^◌, Option, none, some, List, [], ◌∷◌, ltb, if◌then◌else◌, Text, Result, ok, err, ok_or,
  ◌>>=◌,
}
use toasty_mgr.Prelude.Int.{ℤ, pos, negsuc}
use toasty_mgr.Migration.Types.{Error, bad_ledger_row, bad_catalog_value, id_too_large}

pub data Statement : Type 0 where
  begin_immediate commit rollback : Statement
  -- CREATE TABLE IF NOT EXISTS __toasty_mgr_migrations
  create_ledger : Statement
  -- SELECT 1 FROM sqlite_schema for the ledger's name
  table_exists : Statement
  -- SELECT name … WHERE source_code = ?1 AND id = ?2
  select_name : Text → ℕ → Statement
  -- SELECT id, name … WHERE source_code = ?1 ORDER BY id
  select_rows : Text → Statement
  -- SELECT id, name … WHERE source_code = ?1 ORDER BY id DESC LIMIT 1
  select_newest : Text → Statement
  -- INSERT INTO … (source_code, id, name)
  insert_row : Text → ℕ → Text → Statement
  -- DELETE FROM … WHERE source_code = ?1 AND id = ?2
  delete_row : Text → ℕ → Statement
  -- a statement of a migration's SQL
  script : Text → Statement

-- `stmt::Value`: the widths that fit an i64 together, the unsigned one that may not, and the rest.
pub data Value : Type 0 where
  integer : ℤ → Value
  unsigned : ℕ → Value
  string : Text → Value
  null other : Value

pub data Row : Type 0 where
  fields : List Value → Row
  scalar : Value → Row

unfoldable pub value_i64 : Value → Result Error ℤ
value_i64 (integer n) = ok n
value_i64 (unsigned n) = if ltb n (2 ^ 63) then ok (pos n) else err bad_catalog_value
value_i64 _ = err bad_catalog_value

unfoldable pub value_optional_string : Value → Result Error (Option Text)
value_optional_string (string s) = ok (some s)
value_optional_string null = ok none
value_optional_string _ = err bad_catalog_value

unfoldable pub value_string : Value → Result Error Text
unfolding value_optional_string
value_string v = do s ← value_optional_string v; ok_or s bad_catalog_value

unfoldable pub first_value : Row → Option Value
first_value (fields []) = none
first_value (fields (v ∷ vs)) = some v
first_value (scalar v) = none

-- `u64::try_from` of an i64
unfoldable pub to_u64 : ℤ → Result Error ℕ
to_u64 (pos n) = ok n
to_u64 (negsuc n) = err bad_ledger_row

-- `to_i64`: what `i64::try_from` lets through
unfoldable pub to_i64 : ℕ → Result Error ℕ
to_i64 id = if ltb id (2 ^ 63) then ok id else err (id_too_large id)

unfoldable pub ledger_row : Row → Result Error (ℕ × Text)
unfolding value_i64 value_string to_u64
ledger_row (fields (id ∷ name ∷ [])) = do
  i ← value_i64 id
  n ← to_u64 i
  s ← value_string name
  ok (n, s)
ledger_row _ = err bad_ledger_row
