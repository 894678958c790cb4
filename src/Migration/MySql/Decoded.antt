-- ===== src/Migration/MySql/Decoded.antt =====
-- What the MySQL ledger code reads in the rows that a statement returned.
use toasty_mgr.Prelude.{
  ℕ, Bool, false, Option, none, some, List, [], ◌∷◌, nat_eq, if◌then◌else◌, Text, Result, ok, err,
  ok_or, ◌>>=◌,
}
use toasty_mgr.Prelude.Int.{ℤ, pos, negsuc}
use toasty_mgr.Migration.Types.{
  Error, bad_ledger_row, recovery_ambiguous, lock_timeout, lock_not_owned, no_current_database,
  lock_unreadable, release_failed,
}
use toasty_mgr.Migration.Sqlite.{Value, Row, value_i64, value_string, first_of_rows}
use toasty_mgr.Migration.MySql.Statements.{value_u64, row_fields, ledger_row}

-- The `bail!` for a marker that was found.
abbrev pub marker_error : Text → List Value → Result Error (Unit {0})
marker_error source (id ∷ name ∷ direction ∷ index ∷ _) = do
  i ← value_u64 id
  n ← value_string name
  d ← value_string direction
  k ← value_u64 index
  err (recovery_ambiguous source i n d k)
marker_error source _ = err bad_ledger_row

unfoldable pub check_marker : Text → List Row → Result Error (Unit {0})
unfolding row_fields value_u64 value_string
check_marker source [] = ok tt
check_marker source (row ∷ rows) = do values ← row_fields row 4; marker_error source values

unfoldable pub current_database : List Row → Result Error Text
unfolding value_string
current_database rows = do v ← ok_or (first_of_rows rows) no_current_database; value_string v

-- `GET_LOCK` returned 1, 0 or something else.
abbrev pub is_one : ℤ → Bool
is_one (pos n) = nat_eq n 1
is_one (negsuc n) = false

abbrev pub lock_taken : Text → Option Value → Result Error (Unit {0})
lock_taken source none = err (lock_timeout source)
lock_taken source (some v) =
    value_i64 v >>= λ n. if is_one n then ok tt else err (lock_timeout source)

unfoldable pub lock_released : Text → List Row → Result Error (Unit {0})
unfolding value_i64
lock_released source rows = do
  v ← ok_or (first_of_rows rows) lock_unreadable
  n ← value_i64 v
  if is_one n then ok tt else err (lock_not_owned source)

-- What `RELEASE_LOCK` returned, or its error.
abbrev pub released : Text → Result Error (List Row) → Result Error (Unit {0})
released source (ok rows) = lock_released source rows
released source (err error) = err error

unfoldable pub joined : {A : Type 0} → Result Error A → Result Error (Unit {0}) → Result Error A
joined (ok value) (ok _) = ok value
joined (err error) (ok _) = err error
joined (ok value) (err error) = err error
joined (err error) (err release_error) = err (release_failed error release_error)

abbrev pub newest_row : List Row → Result Error (Option (ℕ × Text))
newest_row [] = ok none
newest_row (row ∷ rows) = elim (ledger_row row) [ ok pair ↦ ok (some pair) | err e ↦ err e ]

-- `rows.first().and_then(first_value).map(value_string).transpose()`
abbrev pub optional_name : Option Value → Result Error (Option Text)
optional_name none = ok none
optional_name (some v) = elim (value_string v) [ ok name ↦ ok (some name) | err e ↦ err e ]
