-- ===== src/Migration/MySql/Enums.antt =====
-- `parse_mysql_enum` of migration/backend/mysql.rs.
pub mod RoundTrip
use mathlib.Core.List.{reverse}
use toasty_mgr.Prelude.{
  ℕ, zero, suc, Bool, true, false, ◌||◌, ◌&&◌, Option, none, some, List, [], ◌∷◌, nat_eq, length,
  if◌then◌else◌, is_empty, Text, codes, Result, ok, err, ok_or, bail_if, ◌>>=◌, ◌>>◌,
}
use toasty_mgr.Migration.Types.{
  Error, enum_declaration, enum_unquoted, enum_incomplete, enum_unterminated, enum_empty,
}

-- `strip_prefix`
unfoldable pub strip_prefix : Text → Text → Option Text
strip_prefix s [] = some s
strip_prefix [] (p ∷ ps) = none
strip_prefix (c ∷ s) (p ∷ ps) = let rest = strip_prefix s ps in if nat_eq c p then rest else none

-- `strip_suffix` of one character
unfoldable pub strip_last : ℕ → Text → Option Text
strip_last c [] = none
strip_last c (d ∷ []) = if nat_eq d c then some [] else none
strip_last c (d ∷ e ∷ s) = elim (strip_last c (e ∷ s)) [ none ↦ none | some rest ↦ some (d ∷ rest) ]

-- `char::is_ascii_whitespace`, or a comma
abbrev pub is_gap : ℕ → Bool
is_gap c = nat_eq c 9 || nat_eq c 10 || nat_eq c 12 || nat_eq c 13 || nat_eq c b' ' || nat_eq c b','

unfoldable pub skip_gaps : Text → Text
skip_gaps [] = []
skip_gaps (c ∷ s) = if is_gap c then skip_gaps s else c ∷ s

-- What the inner loop does at a character of a value: take one, that one or the next.
pub data ValueStep : Type 0 where
  incomplete closes : ValueStep
  takes : ℕ → Bool → ValueStep

abbrev pub escaped_step : Text → ValueStep
escaped_step [] = incomplete
escaped_step (c ∷ _) = takes c true

abbrev pub quote_step : Text → ValueStep
quote_step [] = closes
quote_step (c ∷ _) = if nat_eq c b'\'' then takes b'\'' true else closes

abbrev pub value_step : ℕ → Text → ValueStep
value_step c rest =
    if nat_eq c b'\\'
    then escaped_step rest
    else if nat_eq c b'\''
    then quote_step rest
    else takes c false

-- The inner loop: the value and what follows its closing quote.
unfoldable pub read_value : Bool → Text → Text → Result Error (Text × Text)
read_value skip taken [] = err enum_unterminated
read_value true taken (c ∷ rest) = read_value false taken rest
read_value false taken (c ∷ rest) = elim (value_step c rest) [
  | incomplete ↦ err enum_incomplete
  | closes ↦ ok (reverse taken, rest)
  | takes d skip ↦ read_value skip (d ∷ taken) rest
]

-- The opening quote.
abbrev pub open_value : Text → Result Error (Text × Text)
open_value [] = err enum_unquoted
open_value (c ∷ rest) = if nat_eq c b'\'' then read_value false [] rest else err enum_unquoted

-- The outer loop; each round consumes a character, so the body's length is fuel enough.
unfoldable pub read_values : ℕ → Text → Result Error (List Text)
unfolding skip_gaps read_value
read_values fuel [] = ok []
read_values zero (c ∷ s) = err enum_unterminated
read_values (suc fuel) (c ∷ s) = elim (open_value (skip_gaps (c ∷ s))) [
  | err e ↦ err e
  | ok (value, rest) ↦ elim (read_values fuel rest) [
    | err e ↦ err e
    | ok values ↦ ok (value ∷ values)
  ]
]

abbrev pub enum_body : Text → Result Error Text
enum_body native = elim (strip_prefix native (codes "enum(")) [
  | none ↦ err enum_declaration
  | some rest ↦ ok_or (strip_last b')' rest) enum_declaration
]

unfoldable pub parse_mysql_enum : Text → Result Error (List Text)
unfolding strip_prefix strip_last read_values
parse_mysql_enum native = do
  body ← enum_body native
  values ← read_values (length body) body
  bail_if (is_empty values) enum_empty
  ok values
