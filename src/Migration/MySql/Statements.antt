-- ===== src/Migration/MySql/Statements.antt =====
-- The statements that the ledger code of migration/backend/mysql.rs executes, one constructor for
-- each SQL text, and the helpers that read the rows, next to those that it shares with SQLite.
use toasty_mgr.Prelude.{
  ℕ, List, ◌∷◌, ltb, length, if◌then◌else◌, Text, codes, Result, ok, err, ◌>>=◌,
}
use toasty_mgr.Prelude.Int.{ℤ, pos, negsuc}
use toasty_mgr.Migration.Types.{Error, bad_ledger_row, bad_catalog_value}
use toasty_mgr.Migration.Sqlite.Rows.{Value, unsigned, Row, fields, scalar, value_i64, value_string}

pub data Statement : Type 0 where
  -- SELECT DATABASE()
  select_database : Statement
  -- SELECT RELEASE_LOCK(?) and SELECT GET_LOCK(?, 30)
  release_lock get_lock : Text → Statement
  -- CREATE TABLE IF NOT EXISTS, for the ledger and for the run markers
  create_ledger create_runs : Statement
  -- SELECT 1 FROM information_schema.TABLES, for the two names
  ledger_exists runs_exists : Statement
  -- SELECT id, name, direction, statement_index … WHERE source_code = ? ORDER BY started_at LIMIT 1
  select_marker : Text → Statement
  -- INSERT INTO … (source_code, id, name, direction, statement_index) VALUES (?, ?, ?, ?, 0)
  insert_marker : Text → ℕ → Text → Text → Statement
  -- UPDATE … SET statement_index = ? WHERE source_code = ? AND id = ? AND direction = ?
  set_progress : ℕ → Text → ℕ → Text → Statement
  -- DELETE FROM … WHERE source_code = ? AND id = ? AND direction = ?
  delete_marker : Text → ℕ → Text → Statement
  -- SELECT name … WHERE source_code = ? AND id = ?
  select_name : Text → ℕ → Statement
  -- SELECT id, name … WHERE source_code = ? ORDER BY id
  select_rows : Text → Statement
  -- SELECT id, name … WHERE source_code = ? ORDER BY id DESC LIMIT 1
  select_newest : Text → Statement
  -- INSERT INTO … (source_code, id, name)
  insert_row : Text → ℕ → Text → Statement
  -- DELETE FROM … WHERE source_code = ? AND id = ?
  delete_row : Text → ℕ → Statement
  -- a statement of a migration's SQL
  script : Text → Statement

abbrev pub apply_direction : Text
apply_direction = codes "apply"

abbrev pub rollback_direction : Text
rollback_direction = codes "rollback"

-- `u64::try_from` of an i64 that `value_i64` read
unfoldable pub not_negative : ℤ → Result Error ℕ
not_negative (pos n) = ok n
not_negative (negsuc n) = err bad_catalog_value

unfoldable pub value_u64 : Value → Result Error ℕ
unfolding not_negative value_i64
value_u64 (unsigned n) = ok n
value_u64 v = do i ← value_i64 v; not_negative i

-- `record`: a row of at least so many fields
unfoldable pub row_fields : Row → ℕ → Result Error (List Value)
row_fields (scalar v) minimum = err bad_ledger_row
row_fields (fields vs) minimum = if ltb (length vs) minimum then err bad_ledger_row else ok vs

abbrev pub id_and_name : List Value → Result Error (ℕ × Text)
id_and_name (id ∷ name ∷ _) = do n ← value_u64 id; s ← value_string name; ok (n, s)
id_and_name _ = err bad_ledger_row

unfoldable pub ledger_row : Row → Result Error (ℕ × Text)
unfolding row_fields value_u64 value_string
ledger_row row = do values ← row_fields row 2; id_and_name values
