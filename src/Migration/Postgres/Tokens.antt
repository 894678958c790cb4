-- ===== src/Migration/Postgres/Tokens.antt =====
-- An independent description of SQL scripts for PostgreSQL: statements of tokens, and their text.
use toasty_mgr.Prelude.{
  ℕ, Bool, true, not, ◌&&◌, ◌||◌, List, [], ◌∷◌, ◌++◌, nat_eq, all, any, if◌then◌else◌, Text,
}
use toasty_mgr.Prelude.Strings.{starts_with, trim}
use toasty_mgr.Migration.Postgres.Splitter.{
  is_identifier_start, is_identifier_continue, is_ascii_whitespace,
}

-- The inside of a block comment: its end, a character, or a comment inside it.
pub data Comment : Type 0 where
  done : Comment
  char : ℕ → Comment → Comment
  nested : Comment → Comment → Comment

pub data Token : Type 0 where
  -- a character outside of quotes and comments
  plain : ℕ → Token
  -- a minus, a slash or a dollar sign that starts nothing, and the character after it
  sign : ℕ → ℕ → Token
  -- a character, and '…', E'…', "…" and $tag$…$tag$ with their contents right after it
  quoted escaped identifier : ℕ → Text → Token
  dollar : ℕ → Text → Text → Token
  -- a character, and --… with its line feed, and /*…*/
  line : ℕ → Text → Token
  block : ℕ → Comment → Token

abbrev pub is_plain : ℕ → Bool
is_plain c = not (
    nat_eq c b'\''
    || nat_eq c b'"'
    || nat_eq c b'$'
    || nat_eq c b';'
    || nat_eq c b'-'
    || nat_eq c b'/')

-- A quote inside its quotes is written twice.
abbrev pub doubled : ℕ → Text → Text
doubled quote [] = []
doubled quote (c ∷ s) =
    if nat_eq c quote then quote ∷ quote ∷ doubled quote s else c ∷ doubled quote s

-- A backslash before each quote and each backslash.
abbrev pub backslashed : Text → Text
backslashed [] = []
backslashed (c ∷ s) =
    if nat_eq c b'\'' || nat_eq c b'\\' then b'\\' ∷ c ∷ backslashed s else c ∷ backslashed s

abbrev pub delimiter_of : Text → Text
delimiter_of tag = b'$' ∷ tag ++ b'$' ∷ []

-- The text of a comment's inside, and of what follows it.
abbrev pub comment_text : Comment → Text → Text
comment_text done after = b'*' ∷ b'/' ∷ after
comment_text (char c more) after = c ∷ comment_text more after
comment_text (nested inner more) after = b'/' ∷ b'*' ∷ comment_text inner (comment_text more after)

-- The text of a token.
abbrev pub token_text : Token → Text
token_text (plain c) = c ∷ []
token_text (sign c d) = c ∷ d ∷ []
token_text (quoted a s) = a ∷ b'\'' ∷ doubled b'\'' s ++ b'\'' ∷ []
token_text (escaped a s) = a ∷ b'E' ∷ b'\'' ∷ backslashed s ++ b'\'' ∷ []
token_text (identifier a s) = a ∷ b'"' ∷ doubled b'"' s ++ b'"' ∷ []
token_text (dollar a tag s) = a ∷ delimiter_of tag ++ (s ++ delimiter_of tag)
token_text (line a s) = a ∷ b'-' ∷ b'-' ∷ s ++ 10 ∷ []
token_text (block a comment) = a ∷ b'/' ∷ b'*' ∷ comment_text comment []

abbrev pub tokens_text : List Token → Text
tokens_text [] = []
tokens_text (t ∷ ts) = token_text t ++ tokens_text ts

-- The statements with `;` between them.
abbrev pub script_text : List Token → List (List Token) → Text
script_text ts [] = tokens_text ts
script_text ts (next ∷ more) = tokens_text ts ++ b';' ∷ script_text next more

-- What the inside of a comment starts with.
abbrev pub starts : Comment → ℕ → Bool
starts done c = nat_eq b'*' c
starts (char d _) c = nat_eq d c
starts (nested _ _) c = nat_eq b'/' c

-- A character is not read together with the next one as the end or the start of a comment.
abbrev pub is_comment : Comment → Bool
is_comment done = true
is_comment (char c more) =
    not (nat_eq c b'*' && starts more b'/' || nat_eq c b'/' && starts more b'*') && is_comment more
is_comment (nested inner more) = is_comment inner && is_comment more

abbrev pub is_tag_rest : Text → Bool
is_tag_rest tag = all (λ c. is_identifier_continue c && not (nat_eq c b'$')) tag

abbrev pub is_tag : Text → Bool
is_tag [] = true
is_tag (c ∷ tag) = is_identifier_start c && is_tag_rest tag

-- Followed by the delimiter, the text has it nowhere earlier.
abbrev pub avoids : Text → Text → Bool
avoids delimiter [] = true
avoids delimiter (c ∷ s) = not (starts_with (c ∷ s ++ delimiter) delimiter) && avoids delimiter s

-- `--`, `/*` and a delimiter are no signs.
abbrev pub is_sign : ℕ → ℕ → Bool
is_sign c d =
    is_plain d
    && (nat_eq c b'-'
        || nat_eq c b'/' && not (nat_eq d b'*')
        || nat_eq c b'$' && not (is_identifier_start d))

-- Neither part of a word nor `&`, so that it makes no `U&` and no other prefix of a quote.
abbrev pub is_lead : ℕ → Bool
is_lead c = is_plain c && not (is_identifier_continue c) && not (nat_eq c b'&')

abbrev pub is_token : Token → Bool
is_token (plain c) = is_plain c
is_token (sign c d) = is_sign c d
is_token (quoted a s) = is_lead a
is_token (escaped a s) = is_lead a
is_token (identifier a s) = is_lead a
is_token (dollar a tag s) = is_lead a && is_tag tag && avoids (delimiter_of tag) s
is_token (line a s) = is_lead a && all (λ c. not (nat_eq c 10 || nat_eq c 13)) s
is_token (block a comment) = is_lead a && is_comment comment

-- More than space and comments.
abbrev pub is_code : Token → Bool
is_code (plain c) = not (is_ascii_whitespace c)
is_code (line a s) = not (is_ascii_whitespace a)
is_code (block a comment) = not (is_ascii_whitespace a)
is_code _ = true

-- The statements to be executed.
abbrev pub statement_texts : List (List Token) → List Text
statement_texts [] = []
statement_texts (ts ∷ more) =
    if any is_code ts then trim (tokens_text ts) ∷ statement_texts more else statement_texts more
