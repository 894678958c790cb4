-- ===== src/Migration/Postgres/Scanned.antt =====
-- What the scanner does with the text of one token, whatever follows it.
use toasty_mgr.Prelude.{
  Bool-cases, inl, inr, nat_eq_iff, ℕ, suc, ◌-◌, ◌≡◌, refl, ◌∙◌, sym, ap, Bool, true, false, not,
  ◌||◌, List, [], ◌∷◌, ◌++◌, nat_eq, all, Text, arith,
}
use toasty_mgr.Migration.Postgres.Splitter.{
  LexState, normal, single_quoted, line_comment, block_comment, Scanner, scan, move, is_separator,
  quote_move, next_is, moved, is_ascii_whitespace, normal_move, Move, comment_closed,
}
use toasty_mgr.Migration.Postgres.Tokens.{
  Comment, done, char, nested, is_plain, doubled, backslashed, comment_text, starts, is_comment,
}

-- A scanner between two moves.
abbrev pub at : LexState → Bool → Text → Text → List Text → Scanner
at state has_code taken before statements = record {
  state = state;
  skip = 0;
  has_code = has_code;
  taken = taken;
  before = before;
  statements = statements;
}

-- The text, reversed, in front of another.
abbrev pub onto : Text → Text → Text
onto [] acc = acc
onto (c ∷ s) acc = onto s (c ∷ acc)

pub onto-append : (s t acc : Text) → onto (s ++ t) acc ≡ onto t (onto s acc)
onto-append [] t acc = refl
onto-append (c ∷ s) t acc = onto-append s t (c ∷ acc)

-- From the state, over the text, to the other state.
abbrev pub Scans : LexState → Bool → Text → LexState → Bool → Text → Text → Text → Type 0
Scans state has_code text state' has_code' taken before rest =
    (out : List Text)
    → scan (at state has_code taken before out) (text ++ rest)
      ≡ scan (at state' has_code' (onto text taken) (onto text before) out) rest

-- One move.
pub scan-move :
    (m : Move) (state : LexState) (has_code : Bool) (c : ℕ) (taken before rest : Text)
    (out : List Text)
    → is_separator state c ≡ false
    → move state before has_code c rest ≡ m
    → scan (at state has_code taken before out) (c ∷ rest)
      ≡ scan (moved (at state has_code taken before out) c m) rest
unfolding scan
scan-move m state has_code c taken before rest out h e = rw (h, e) refl

-- A plain character.
pub plain-Scans :
    (c : ℕ) (has_code : Bool) (taken before rest : Text)
    → is_plain c ≡ true
    → Scans normal has_code
        (c ∷ [])
        normal
        (has_code || not (is_ascii_whitespace c))
        taken
        before
        rest
unfolding move normal_move
plain-Scans c has_code taken before rest h out =
    scan-move (normal, 0, has_code || not (is_ascii_whitespace c)) normal has_code c taken before
      rest out (ground arith) (ground arith)

-- Inside quotes that end at one that is not doubled.
module _ (quote : ℕ) (inside : LexState)
    (moves : (before : Text) (has_code : Bool) (c : ℕ) (rest : Text)
      → move inside before has_code c rest ≡ quote_move quote inside has_code c rest)
    (stays : (c : ℕ) → is_separator inside c ≡ false) where
  pub quoted-Scans :
      (s : Text) (has_code : Bool) (taken before rest : Text)
      → next_is rest quote ≡ false
      → Scans inside has_code (doubled quote s ++ quote ∷ []) normal has_code taken before rest
  unfolding scan
  quoted-Scans [] has_code taken before rest h out =
      scan-move (normal, 0, has_code) inside has_code quote taken before rest out (stays quote)
        (moves before has_code quote rest ∙ rw h (ground arith))
  quoted-Scans (c ∷ s) has_code taken before rest h out = elim (Bool-cases (nat_eq c quote)) [
    | inl same ↦ rw same (
        scan-move (inside, 1, has_code) inside has_code quote taken before
          (quote ∷ doubled quote s ++ quote ∷ [] ++ rest) out (stays quote)
          (moves before has_code quote (quote ∷ doubled quote s ++ quote ∷ [] ++ rest)
            ∙ rw ((nat_eq_iff quote quote).1 refl) refl)
        ∙ quoted-Scans s has_code (quote ∷ quote ∷ taken) (quote ∷ quote ∷ before) rest h out)
    | inr other ↦ rw other (
        scan-move (inside, 0, has_code) inside has_code c taken before
          (doubled quote s ++ quote ∷ [] ++ rest) out (stays c)
          (moves before has_code c (doubled quote s ++ quote ∷ [] ++ rest) ∙ rw other refl)
        ∙ quoted-Scans s has_code (c ∷ taken) (c ∷ before) rest h out)
  ]

-- Inside a string with backslashes.
pub escaped-Scans :
    (s : Text) (has_code : Bool) (taken before rest : Text)
    → next_is rest b'\'' ≡ false
    → Scans
        (single_quoted true)
        has_code
        (backslashed s ++ b'\'' ∷ [])
        normal
        has_code
        taken
        before
        rest
unfolding scan move
escaped-Scans [] has_code taken before rest h out =
    scan-move (normal, 0, has_code) (single_quoted true) has_code b'\'' taken before rest out refl
      (rw h refl)
escaped-Scans (c ∷ s) has_code taken before rest h out =
    elim (Bool-cases (nat_eq c b'\'' || nat_eq c b'\\')) [
      | inl special ↦ rw special (
          scan-move (single_quoted true, 1, has_code) (single_quoted true) has_code b'\\' taken
            before (c ∷ backslashed s ++ b'\'' ∷ [] ++ rest) out refl refl
          ∙ escaped-Scans s has_code (c ∷ b'\\' ∷ taken) (c ∷ b'\\' ∷ before) rest h out)
      | inr other ↦ rw other (
          scan-move (single_quoted true, 0, has_code) (single_quoted true) has_code c taken before
            (backslashed s ++ b'\'' ∷ [] ++ rest) out refl (ground arith)
          ∙ escaped-Scans s has_code (c ∷ taken) (c ∷ before) rest h out)
    ]

-- In a line comment, with its line feed.
pub line-Scans :
    (s : Text) (has_code : Bool) (taken before rest : Text)
    → all (λ c. not (nat_eq c 10 || nat_eq c 13)) s ≡ true
    → Scans line_comment has_code (s ++ 10 ∷ []) normal has_code taken before rest
unfolding scan move
line-Scans [] has_code taken before rest h out = refl
line-Scans (c ∷ s) has_code taken before rest h out =
    scan-move (line_comment, 0, has_code) line_comment has_code c taken before
      (s ++ 10 ∷ [] ++ rest) out refl (ground arith)
    ∙ line-Scans s has_code (c ∷ taken) (c ∷ before) rest (ground arith) out

-- What follows a comment is its text's rest.
pub comment_text-append :
    (comment : Comment) (s t : Text) → comment_text comment (s ++ t) ≡ comment_text comment s ++ t
comment_text-append done s t = refl
comment_text-append (char c more) s t = ap (λ l. c ∷ l) (comment_text-append more s t)
comment_text-append (nested inner more) s t =
    ap (λ l. b'/' ∷ b'*' ∷ l)
      (ap (comment_text inner) (comment_text-append more s t)
        ∙ comment_text-append inner (comment_text more s) t)

onto-comments :
    (inner : Comment) (s acc : Text)
    → onto s (onto (comment_text inner []) acc) ≡ onto (comment_text inner s) acc
onto-comments inner s acc =
    sym (onto-append (comment_text inner []) s acc)
    ∙ ap (λ l. onto l acc) (sym (comment_text-append inner [] s))

starts-comment_text :
    (comment : Comment) (rest : Text) (c : ℕ)
    → next_is (comment_text comment rest) c ≡ starts comment c
starts-comment_text done rest c = refl
starts-comment_text (char d more) rest c = refl
starts-comment_text (nested inner more) rest c = refl

-- In a block comment: to its end, through the comments inside it.
pub comment-Scans :
    (comment : Comment) (depth : ℕ) (has_code : Bool) (taken before rest : Text) (out : List Text)
    → is_comment comment ≡ true
    → scan (at (block_comment (suc depth)) has_code taken before out) (comment_text comment rest)
      ≡ scan
          (at
            (comment_closed depth)
            has_code
            (onto (comment_text comment []) taken)
            (onto (comment_text comment []) before)
            out)
          rest
unfolding scan move
comment-Scans done depth has_code taken before rest out h =
    scan-move (comment_closed depth, 1, has_code) (block_comment (suc depth)) has_code b'*' taken
      before (b'/' ∷ rest) out refl (let one : suc depth - 1 ≡ depth = omega arith in rw one refl)
comment-Scans (char c more) depth has_code taken before rest out h =
    scan-move (block_comment (suc depth), 0, has_code) (block_comment (suc depth)) has_code c taken
      before (comment_text more rest) out refl
      (ground (arith, starts-comment_text more rest b'*', starts-comment_text more rest b'/'))
    ∙ comment-Scans more depth has_code (c ∷ taken) (c ∷ before) rest out (ground arith)
comment-Scans (nested inner more) depth has_code taken before rest out h =
    scan-move (block_comment (suc (suc depth)), 1, has_code) (block_comment (suc depth)) has_code
      b'/' taken before (b'*' ∷ comment_text inner (comment_text more rest)) out refl refl
    ∙ comment-Scans inner (suc depth) has_code (b'*' ∷ b'/' ∷ taken) (b'*' ∷ b'/' ∷ before)
        (comment_text more rest) out (ground arith)
    ∙ comment-Scans more depth has_code (onto (comment_text inner []) (b'*' ∷ b'/' ∷ taken))
        (onto (comment_text inner []) (b'*' ∷ b'/' ∷ before)) rest out (ground arith)
    ∙ rw
        (
          onto-comments inner (comment_text more []) (b'*' ∷ b'/' ∷ taken),
          onto-comments inner (comment_text more []) (b'*' ∷ b'/' ∷ before),
        )
        refl
