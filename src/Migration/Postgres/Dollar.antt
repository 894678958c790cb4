-- ===== src/Migration/Postgres/Dollar.antt =====
-- The scanner in a dollar-quoted string.
use toasty_mgr.Prelude.{
  suc, ◌-◌, ◌≡◌, ◌≤◌, refl, ◌∙◌, ap, Bool, true, false, ◌&&◌, some, List, [], ◌∷◌, ◌++◌, nat_eq,
  nat_eq_iff, length, Text, arith, length-append,
}
use toasty_mgr.Prelude.Strings.{starts_with}
use toasty_mgr.Migration.Postgres.Splitter.{
  LexState, normal, dollar_quoted, scan, move, tag_end, dollar_quote_delimiter,
}
use toasty_mgr.Migration.Postgres.Tokens.{delimiter_of, is_tag_rest, is_tag, avoids}
use toasty_mgr.Migration.Postgres.Scanned.{at, onto, Scans, scan-move}

-- A text starts with itself, and a long enough text decides what starts it.
pub starts_with_refl : (p t : Text) → starts_with (p ++ t) p ≡ true
unfolding starts_with
starts_with_refl [] [] = refl
starts_with_refl [] (c ∷ t) = refl
starts_with_refl (c ∷ p) t = rw ((nat_eq_iff c c).1 refl) (starts_with_refl p t)

starts_with-append : (s p t : Text) → length p ≤ length s → starts_with (s ++ t) p ≡ starts_with s p
unfolding starts_with
starts_with-append [] [] [] h = refl
starts_with-append [] [] (c ∷ t) h = refl
starts_with-append [] (c ∷ p) t h = absurd (omega arith)
starts_with-append (c ∷ s) [] t h = refl
starts_with-append (c ∷ s) (d ∷ p) t h =
    ap (λ b. nat_eq c d && b) (starts_with-append s p t (omega arith))

-- The tag's end is found.
tag_end-tag :
    (tag rest : Text)
    → is_tag_rest tag ≡ true
    → tag_end (tag ++ b'$' ∷ rest) ≡ some (tag ++ b'$' ∷ [])
unfolding tag_end
tag_end-tag [] rest h = refl
tag_end-tag (c ∷ tag) rest h = rw (tag_end-tag tag rest (ground arith)) (ground arith)

pub dollar_quote_delimiter-tag :
    (tag rest : Text)
    → is_tag tag ≡ true
    → dollar_quote_delimiter (tag ++ b'$' ∷ rest) ≡ some (delimiter_of tag)
unfolding dollar_quote_delimiter
dollar_quote_delimiter-tag [] rest h = refl
dollar_quote_delimiter-tag (c ∷ tag) rest h =
    rw (tag_end-tag tag rest (ground arith)) (ground arith)

-- Characters that a move skips.
pub skip-scan :
    (s rest taken before : Text) (state : LexState) (has_code : Bool) (out : List Text)
    → scan
        (record {
          state = state;
          skip = length s;
          has_code = has_code;
          taken = taken;
          before = before;
          statements = out;
        })
        (s ++ rest)
      ≡ scan (at state has_code (onto s taken) (onto s before) out) rest
unfolding scan
skip-scan [] rest taken before state has_code out = refl
skip-scan (c ∷ s) rest taken before state has_code out =
    skip-scan s rest (c ∷ taken) (c ∷ before) state has_code out

-- Through the contents to the end of the closing delimiter.
pub dollar-Scans :
    (tag s : Text) (has_code : Bool) (taken before rest : Text)
    → avoids (delimiter_of tag) s ≡ true
    → Scans
        (dollar_quoted (delimiter_of tag))
        has_code
        (s ++ delimiter_of tag)
        normal
        has_code
        taken
        before
        rest
unfolding scan move
dollar-Scans tag [] has_code taken before rest h out =
    let tail = tag ++ b'$' ∷ [] in
    let less : suc (length tail) - 1 ≡ length tail = omega arith in
    scan-move (normal, length tail, has_code) (dollar_quoted (delimiter_of tag)) has_code b'$' taken
      before (tail ++ rest) out refl (rw (starts_with_refl (delimiter_of tag) rest, less) refl)
    ∙ skip-scan tail rest (b'$' ∷ taken) (b'$' ∷ before) normal has_code out
dollar-Scans tag (c ∷ s) has_code taken before rest h out =
    let delimiter = delimiter_of tag in
    let long : length delimiter ≤ length (c ∷ s ++ delimiter) =
      omega (arith, length-append s delimiter) in
    let shut : starts_with (c ∷ s ++ delimiter) delimiter ≡ false = ground arith in
    scan-move (dollar_quoted delimiter, 0, has_code) (dollar_quoted delimiter) has_code c taken
      before ((s ++ delimiter) ++ rest) out refl
      (rw (starts_with-append (c ∷ s ++ delimiter) delimiter rest long, shut) refl)
    ∙ dollar-Scans tag s has_code (c ∷ taken) (c ∷ before) rest (ground arith) out
