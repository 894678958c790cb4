-- ===== src/Migration/Tests/Scripts.antt =====
-- Scripts that the PostgreSQL splitter takes apart.
use toasty_mgr.Prelude.{◌≡◌, refl, List, [], ◌∷◌, codes, ok, err}
use toasty_mgr.Prelude.Strings.{
  trim, trim_matches, trim_start_matches, trim_end_matches, is_whitespace, starts_with,
}
use toasty_mgr.Migration.Types.{unterminated_dollar}
use toasty_mgr.Migration.Postgres.Splitter.{
  split_postgresql_statements, scan, move, normal_move, finished, quote_uses_backslash_escapes,
  dollar_quote_delimiter, tag_end,
}
use toasty_mgr.Migration.Postgres.Tokens.{
  Token, plain, sign, quoted, escaped, identifier, dollar, line, block, done, char, nested,
}

-- Separators in quotes and comments do not separate.
splits :
    split_postgresql_statements (codes "A $x$;$$;$x$ E'\\';';/*;/*;*/*/B--;")
    ≡ ok (codes "A $x$;$$;$x$ E'\\';'" ∷ codes "/*;/*;*/*/B--;" ∷ [])
unfolding split_postgresql_statements scan move normal_move finished quote_uses_backslash_escapes
    dollar_quote_delimiter tag_end trim trim_matches trim_start_matches trim_end_matches
    is_whitespace starts_with
splits = refl

-- PostgreSQL reads `a$b$c` as one identifier; the splitter reads the start of a string.
dollar_in_identifier :
    split_postgresql_statements (codes "SELECT a$b$c") ≡ err (unterminated_dollar (codes "$b$"))
unfolding split_postgresql_statements scan move normal_move finished quote_uses_backslash_escapes
    dollar_quote_delimiter tag_end trim trim_matches trim_start_matches trim_end_matches
    is_whitespace starts_with
dollar_in_identifier = refl

abbrev first_tokens : List Token
first_tokens =
    plain b'A'
    ∷ sign b'-' b'1'
    ∷ sign b'/' b'2'
    ∷ quoted b'=' (codes "it's; here")
    ∷ dollar b' ' (codes "x") (codes "$$;")
    ∷ sign b'$' b'1'
    ∷ line b' ' (codes ";")
    ∷ []

abbrev more_tokens : List (List Token)
more_tokens =
    (block b' ' (char b'*' (char b';' (nested (char b';' done) done))) ∷ [])
    ∷ (escaped b'(' (codes "\\';") ∷ identifier b',' (codes "a\";b") ∷ [])
    ∷ []
