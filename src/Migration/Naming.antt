-- ===== src/Migration/Naming.antt =====
-- The texts of the migration manager (migration/manager.rs): migration and source names as slugs,
-- the policy on SQL, and the specifications of renames.
pub mod Slug
use toasty_mgr.Prelude.{
  ℕ, ◌-◌, Bool, true, false, not, ◌&&◌, ◌||◌, Option, none, some, List, [], ◌∷◌, ◌++◌, map, nat_eq,
  if◌then◌else◌, length, find, is_empty, Text, codes, Result, ok, err, ◌>>=◌, ◌>>◌, bail_if, ok_or,
}
use toasty_mgr.Prelude.Strings.{
  trim, trim_matches, is_ascii_alphanumeric, to_ascii_lowercase, to_ascii_uppercase, includes,
  replace_from, replace, split_once,
}
use toasty_mgr.Migration.Types.{
  Error, name_without_letter, sql_empty, sql_forbidden, spec_without_separator, spec_empty_side,
  path_without_dot,
}

abbrev pub is_underscore : ℕ → Bool
is_underscore c = nat_eq c b'_'

abbrev pub slug_char : ℕ → ℕ
slug_char c = if is_ascii_alphanumeric c then to_ascii_lowercase c else b'_'

-- The loop of `sanitize_name`, with its flag `underscore`, and what it pushes.
unfoldable pub sanitize_loop : Bool → Text → Text
sanitize_loop underscore [] = []
sanitize_loop underscore (c ∷ s) =
    let next = slug_char c in
    let rest = sanitize_loop (is_underscore next) s in
    if is_underscore next && underscore then rest else next ∷ rest

unfoldable pub sanitize_name : Text → Result Error Text
unfolding sanitize_loop trim trim_matches
sanitize_name name =
    let slug = trim_matches is_underscore (sanitize_loop false (trim name)) in
    if is_empty slug then err name_without_letter else ok slug

unfoldable pub normalize_sql : Text → Text
unfolding replace_from
normalize_sql sql = replace_from (codes "DROP INDEX \"") (codes "DROP INDEX IF EXISTS \"") 11 0 sql

abbrev pub forbidden_clauses : List Text
forbidden_clauses =
    codes "REFERENCES" ∷ codes " ON DELETE CASCADE" ∷ codes " ON UPDATE CASCADE" ∷ []

unfoldable pub forbid : Text → List Text → Result Error (Unit {0})
unfolding includes
forbid upper [] = ok tt
forbid upper (clause ∷ rest) =
    if includes upper clause then err (sql_forbidden clause) else forbid upper rest

unfoldable pub validate_sql : Text → Result Error (Unit {0})
unfolding trim forbid
validate_sql sql =
    if is_empty (trim sql)
    then err sql_empty
    else forbid (map to_ascii_uppercase sql) forbidden_clauses

unfoldable pub split_spec : Text → Result Error (Text × Text)
unfolding trim split_once
split_spec spec = do
  sides ← ok_or (split_once b'=' spec) (spec_without_separator spec)
  bail_if (is_empty (trim sides.0) || is_empty (trim sides.1)) (spec_empty_side spec)
  ok (trim sides.0, trim sides.1)

unfoldable pub split_path : Text → Result Error (Text × Text)
unfolding split_once
split_path path = ok_or (split_once b'.' path) (path_without_dot path)
