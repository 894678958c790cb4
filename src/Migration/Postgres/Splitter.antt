-- ===== src/Migration/Postgres/Splitter.antt =====
-- `split_postgresql_statements` (migration/backend/postgresql.rs). The source scans UTF-8 bytes; all
-- the bytes that it looks for are ASCII, and it treats every byte of another character alike, so
-- the model scans characters. An iteration that moves the index by more than one leaves the rest
-- to iterations that skip.
use toasty_mgr.Prelude.{
  ℕ, zero, suc, ◌-◌, Bool, true, false, not, ◌&&◌, ◌||◌, Option, none, some, List, [], ◌∷◌, ◌++◌,
  nat_eq, leb, length, if◌then◌else◌, Text, Result, ok, err,
}
use mathlib.Core.List.{reverse}
use toasty_mgr.Prelude.Strings.{
  starts_with, trim, is_ascii_uppercase, is_ascii_lowercase, is_ascii_digit, to_ascii_lowercase,
}
use toasty_mgr.Migration.Types.{
  Error, unterminated_string, unterminated_identifier, unterminated_comment, unterminated_dollar,
}

-- `PostgreSqlLexState`
pub data LexState : Type 0 where
  normal : LexState
  single_quoted : Bool → LexState
  double_quoted : LexState
  dollar_quoted : Text → LexState
  line_comment : LexState
  block_comment : ℕ → LexState

abbrev pub is_identifier_start : ℕ → Bool
is_identifier_start c = is_ascii_uppercase c || is_ascii_lowercase c || nat_eq c b'_' || leb 128 c

abbrev pub is_identifier_continue : ℕ → Bool
is_identifier_continue c = is_identifier_start c || is_ascii_digit c || nat_eq c b'$'

-- `u8::is_ascii_whitespace`
abbrev pub is_ascii_whitespace : ℕ → Bool
is_ascii_whitespace c = nat_eq c 9 || nat_eq c 10 || nat_eq c 12 || nat_eq c 13 || nat_eq c 32

-- The characters before the quote, the nearest first, end the text or an identifier.
abbrev pub ends_word : Text → Bool
ends_word [] = true
ends_word (c ∷ _) = not (is_identifier_continue c)

abbrev pub is_escape_prefix : Text → Bool
is_escape_prefix [] = false
is_escape_prefix (c ∷ before) = (nat_eq c b'e' || nat_eq c b'E') && ends_word before

abbrev pub is_unicode_prefix : Text → Bool
is_unicode_prefix (c ∷ d ∷ before) =
    nat_eq c b'&' && nat_eq (to_ascii_lowercase d) b'u' && ends_word before
is_unicode_prefix _ = false

-- Of the characters before the quote, the nearest first.
unfoldable pub quote_uses_backslash_escapes : Text → Bool
quote_uses_backslash_escapes before = is_escape_prefix before || is_unicode_prefix before

-- The tag up to the next `$`, as far as it is one.
unfoldable pub tag_end : Text → Option Text
tag_end [] = none
tag_end (c ∷ s) =
    let rest = tag_end s in
    if nat_eq c b'$'
    then some (b'$' ∷ [])
    else if is_identifier_continue c
    then elim rest [ none ↦ none | some tag ↦ some (c ∷ tag) ]
    else none

-- What follows the first `$`.
unfoldable pub dollar_quote_delimiter : Text → Option Text
unfolding tag_end
dollar_quote_delimiter [] = none
dollar_quote_delimiter (next ∷ s) =
    if nat_eq next b'$'
    then some (b'$' ∷ b'$' ∷ [])
    else if is_identifier_start next
    then elim (tag_end s) [ none ↦ none | some tag ↦ some (b'$' ∷ next ∷ tag) ]
    else none

-- The new state, the further characters that the iteration consumes, and `has_code`.
abbrev pub Move : Type 0
Move = LexState × ℕ × Bool

abbrev pub next_is : Text → ℕ → Bool
next_is [] c = false
next_is (d ∷ _) c = nat_eq d c

abbrev pub dollar_move : Option Text → Move
dollar_move (some delimiter) = (dollar_quoted delimiter, length delimiter - 1, true)
dollar_move none = (normal, 0, true)

-- An iteration in the state Normal at `c`, but for `;`.
unfoldable pub normal_move : Text → Bool → ℕ → Text → Move
unfolding quote_uses_backslash_escapes dollar_quote_delimiter
normal_move before has_code c rest =
    if nat_eq c b'-' && next_is rest b'-'
    then (line_comment, 1, has_code)
    else if nat_eq c b'/' && next_is rest b'*'
    then (block_comment 1, 1, has_code)
    else if nat_eq c b'\''
    then (single_quoted (quote_uses_backslash_escapes before), 0, true)
    else if nat_eq c b'"'
    then (double_quoted, 0, true)
    else if nat_eq c b'$'
    then dollar_move (dollar_quote_delimiter rest)
    else (normal, 0, has_code || not (is_ascii_whitespace c))

-- A quote that is doubled stays inside; another closes.
abbrev pub quote_move : ℕ → LexState → Bool → ℕ → Text → Move
quote_move quote inside has_code c rest =
    if nat_eq c quote
    then if next_is rest quote then (inside, 1, has_code) else (normal, 0, has_code)
    else (inside, 0, has_code)

abbrev pub has_next : Text → Bool
has_next [] = false
has_next (_ ∷ _) = true

abbrev pub single_move : Bool → Bool → ℕ → Text → Move
single_move escapes has_code c rest =
    if escapes && nat_eq c b'\\'
    then (single_quoted escapes, if has_next rest then 1 else 0, has_code)
    else quote_move b'\'' (single_quoted escapes) has_code c rest

abbrev pub dollar_end : Text → Bool → Text → Move
dollar_end delimiter has_code text =
    if starts_with text delimiter
    then (normal, length delimiter - 1, has_code)
    else (dollar_quoted delimiter, 0, has_code)

abbrev pub comment_closed : ℕ → LexState
comment_closed zero = normal
comment_closed (suc depth) = block_comment (suc depth)

abbrev pub comment_move : ℕ → Bool → ℕ → Text → Move
comment_move depth has_code c rest =
    if nat_eq c b'/' && next_is rest b'*'
    then (block_comment (suc depth), 1, has_code)
    else if nat_eq c b'*' && next_is rest b'/'
    then (comment_closed (depth - 1), 1, has_code)
    else (block_comment depth, 0, has_code)

-- One iteration's move, but for `;` in the state Normal.
unfoldable pub move : LexState → Text → Bool → ℕ → Text → Move
unfolding normal_move starts_with
move normal before has_code c rest = normal_move before has_code c rest
move (single_quoted escapes) before has_code c rest = single_move escapes has_code c rest
move double_quoted before has_code c rest = quote_move b'"' double_quoted has_code c rest
move (dollar_quoted delimiter) before has_code c rest = dollar_end delimiter has_code (c ∷ rest)
move line_comment before has_code c rest =
    (if nat_eq c 10 || nat_eq c 13 then normal else line_comment, 0, has_code)
move (block_comment depth) before has_code c rest = comment_move depth has_code c rest

-- The loop's variables: the characters up to `index` and those from `start` to it, the nearest
-- first, and those of the move that are still to be skipped.
pub record Scanner : Type 0 where
  pub state : LexState
  pub skip : ℕ
  pub has_code : Bool
  pub taken : Text
  pub before : Text
  pub statements : List Text

abbrev pub with_statement : Scanner → List Text
with_statement s = if s.has_code then s.statements ++ trim (reverse s.taken) ∷ [] else s.statements

-- The iteration at `;`.
abbrev pub separate : Scanner → Scanner
separate s = record {
  state = normal;
  skip = 0;
  has_code = false;
  taken = [];
  before = b';' ∷ s.before;
  statements = with_statement s;
}

abbrev pub moved : Scanner → ℕ → Move → Scanner
moved s c (state, skip, has_code) = record s {
  state = state;
  skip = skip;
  has_code = has_code;
  taken = c ∷ s.taken;
  before = c ∷ s.before;
}

abbrev pub is_separator : LexState → ℕ → Bool
is_separator normal c = nat_eq c b';'
is_separator _ c = false

abbrev pub iterate : ℕ → Scanner → ℕ → Text → Scanner
iterate (suc skip) s c rest = record s { skip = skip; taken = c ∷ s.taken; before = c ∷ s.before }
iterate zero s c rest =
    if is_separator s.state c
    then separate s
    else moved s c (move s.state s.before s.has_code c rest)

unfoldable pub scan : Scanner → Text → Scanner
unfolding move trim
scan s [] = s
scan s (c ∷ rest) = scan (iterate s.skip s c rest) rest

-- The match after the loop.
unfoldable pub finished : LexState → Result Error (Unit {0})
finished normal = ok tt
finished line_comment = ok tt
finished (single_quoted _) = err unterminated_string
finished double_quoted = err unterminated_identifier
finished (dollar_quoted delimiter) = err (unterminated_dollar delimiter)
finished (block_comment _) = err unterminated_comment

abbrev pub start : Scanner
start = record {
  state = normal;
  skip = 0;
  has_code = false;
  taken = [];
  before = [];
  statements = [];
}

unfoldable pub split_postgresql_statements : Text → Result Error (List Text)
unfolding scan finished
split_postgresql_statements sql =
    let s = scan start sql in
    elim (finished s.state) [ ok _ ↦ ok (with_statement s) | err e ↦ err e ]
