-- ===== src/Migration/MySql/Enums/RoundTrip.antt =====
-- The enum parser on the declarations that MySQL reports.
use mathlib.Core.List.{reverse, reverse-cons}
use toasty_mgr.Prelude.{
  ℕ, zero, suc, ◌≡◌, ◌≤◌, refl, sym, ap, ◌∙◌, Bool, true, false, not, all, ◌||◌, some, List, [],
  ◌∷◌, ◌++◌, map, nat_eq, nat_eq_iff, length, length-append, if◌then◌else◌, Text, codes, ok,
  Bool-cases, inl, inr, arith, append_assoc, append-nil,
}
use toasty_mgr.Migration.MySql.Enums.{
  strip_prefix, strip_last, skip_gaps, open_value, read_value, read_values, parse_mysql_enum,
  value_step, quote_step, closes, takes,
}

-- A line feed, a carriage return and NUL, which MySQL reports as `\n`, `\r` and `\0`.
abbrev pub is_control : ℕ → Bool
is_control c = nat_eq c 10 || nat_eq c 13 || nat_eq c 0

-- What follows the backslash.
abbrev pub letter_of : ℕ → ℕ
letter_of c =
    if nat_eq c 10 then b'n' else if nat_eq c 13 then b'r' else if nat_eq c 0 then b'0' else c

-- A value as MySQL reports it: a quote and a backslash are written twice, those three are escaped.
abbrev pub value_text : Text → Text
value_text [] = []
value_text (c ∷ s) =
    if nat_eq c b'\'' || nat_eq c b'\\'
    then c ∷ c ∷ value_text s
    else if is_control c
    then b'\\' ∷ letter_of c ∷ value_text s
    else c ∷ value_text s

-- What the parser makes of a value: of an escape it keeps the letter.
abbrev pub read_back : Text → Text
read_back = map letter_of

-- The values in quotes, with commas between them.
abbrev pub values_text : Text → List Text → Text
values_text v [] = b'\'' ∷ value_text v ++ b'\'' ∷ []
values_text v (w ∷ more) = b'\'' ∷ value_text v ++ b'\'' ∷ b',' ∷ values_text w more

abbrev pub enum_text : Text → List Text → Text
enum_text v more = codes "enum(" ++ (values_text v more ++ b')' ∷ [])

-- What follows a value's closing quote.
abbrev Closed : Text → Type 0
Closed rest = quote_step rest ≡ closes

reverse-cons_append : (c : ℕ) (taken v : Text) → reverse (c ∷ taken) ++ v ≡ reverse taken ++ (c ∷ v)
reverse-cons_append c taken v =
    ap (λ l. l ++ v) (reverse-cons c taken) ∙ append_assoc (reverse taken) (c ∷ []) v

read_value-step :
    (c : ℕ) (taken rest : Text) (d : ℕ) (skip : Bool)
    → value_step c rest ≡ takes d skip
    → read_value false taken (c ∷ rest) ≡ read_value skip (d ∷ taken) rest
unfolding read_value
read_value-step c taken rest d skip h = rw (read_value, h) refl

read_value-text :
    (v taken rest : Text)
    → Closed rest
    → read_value false taken (value_text v ++ b'\'' ∷ rest)
      ≡ ok (reverse taken ++ read_back v, rest)
unfolding read_value
read_value-text [] taken rest h =
    rw (read_value, h) (ap (λ l. ok (l, rest)) (sym (append-nil (reverse taken))))
read_value-text (c ∷ v) taken rest h = elim (Bool-cases (nat_eq c b'\'')) [
  | inl quote ↦ rw ((nat_eq_iff c b'\'').0 quote) (
      read_value-text v (b'\'' ∷ taken) rest h
      ∙ ap (λ l. ok (l, rest)) (reverse-cons_append b'\'' taken (read_back v)))
  | inr other ↦ elim (Bool-cases (nat_eq c b'\\')) [
    | inl backslash ↦ rw ((nat_eq_iff c b'\\').0 backslash) (
        read_value-text v (b'\\' ∷ taken) rest h
        ∙ ap (λ l. ok (l, rest)) (reverse-cons_append b'\\' taken (read_back v)))
    | inr single ↦ elim (Bool-cases (is_control c)) [
      | inl control ↦
          rw (other, single, control)
            (read_value-step b'\\' taken (letter_of c ∷ value_text v ++ b'\'' ∷ rest) (letter_of c)
                true refl
              ∙ read_value-text v (letter_of c ∷ taken) rest h
              ∙ ap (λ l. ok (l, rest)) (reverse-cons_append (letter_of c) taken (read_back v)))
      | inr plain ↦
          let same : letter_of c ≡ c = ground arith in
          rw (other, single, plain, same)
            (read_value-step c taken (value_text v ++ b'\'' ∷ rest) c false (ground arith)
              ∙ read_value-text v (c ∷ taken) rest h
              ∙ ap (λ l. ok (l, rest)) (reverse-cons_append c taken (read_back v)))
    ]
  ]
]

-- Between two values.
gap_values :
    (fuel : ℕ) (w : Text) (more : List Text)
    → read_values (suc fuel) (b',' ∷ values_text w more)
      ≡ read_values (suc fuel) (values_text w more)
unfolding read_values skip_gaps
gap_values fuel w [] = refl
gap_values fuel w (x ∷ more) = refl

read_values-nil : (fuel : ℕ) → read_values fuel [] ≡ ok []
unfolding read_values
read_values-nil fuel = refl

read_values-step :
    (fuel c : ℕ) (s v rest : Text) (values : List Text)
    → open_value (skip_gaps (c ∷ s)) ≡ ok (v, rest)
    → read_values fuel rest ≡ ok values
    → read_values (suc fuel) (c ∷ s) ≡ ok (v ∷ values)
unfolding read_values
read_values-step fuel c s v rest values h k = rw (read_values, h, k) refl

read_values-text :
    (v : Text) (more : List Text) (fuel : ℕ)
    → length (values_text v more) ≤ fuel
    → read_values fuel (values_text v more) ≡ ok (map read_back (v ∷ more))
unfolding read_values skip_gaps
read_values-text v [] zero h = absurd (omega arith)
read_values-text v (w ∷ more) zero h = absurd (omega arith)
read_values-text v [] (suc fuel) h =
    read_values-step fuel b'\'' (value_text v ++ b'\'' ∷ []) (read_back v) [] []
      (read_value-text v [] [] refl) (read_values-nil fuel)
read_values-text v (w ∷ more) (suc zero) h =
    absurd (omega (arith, length-append (value_text v) (b'\'' ∷ b',' ∷ values_text w more)))
read_values-text v (w ∷ more) (suc (suc fuel)) h =
    read_values-step (suc fuel) b'\'' (value_text v ++ b'\'' ∷ b',' ∷ values_text w more)
      (read_back v) (b',' ∷ values_text w more) (map read_back (w ∷ more))
      (read_value-text v [] (b',' ∷ values_text w more) refl)
      (gap_values fuel w more
        ∙ read_values-text w more (suc fuel)
            (omega (arith, length-append (value_text v) (b'\'' ∷ b',' ∷ values_text w more))))

strip_last-append : (c : ℕ) (s : Text) → strip_last c (s ++ c ∷ []) ≡ some s
unfolding strip_last
strip_last-append c [] = rw ((nat_eq_iff c c).1 refl) refl
strip_last-append c (d ∷ []) = rw (strip_last, (nat_eq_iff c c).1 refl) refl
strip_last-append c (d ∷ e ∷ s) = rw (strip_last, strip_last-append c (e ∷ s)) refl

parse_mysql_enum-read_back :
    (v : Text) (more : List Text)
    → parse_mysql_enum (enum_text v more) ≡ ok (map read_back (v ∷ more))
unfolding parse_mysql_enum strip_prefix
parse_mysql_enum-read_back v more =
    rw
      (
        parse_mysql_enum,
        strip_last-append b')' (values_text v more),
        read_values-text v more (length (values_text v more)) (omega arith),
      )
      refl

-- A value with no line feed, carriage return or NUL.
abbrev pub is_printable : Text → Bool
is_printable = all (λ c. not (is_control c))

read_back-is_printable : (v : Text) → is_printable v ≡ true → read_back v ≡ v
read_back-is_printable [] h = refl
read_back-is_printable (c ∷ v) h = ground (arith, read_back-is_printable v (ground arith))

map-read_back :
    (values : List Text) → all is_printable values ≡ true → map read_back values ≡ values
map-read_back [] h = refl
map-read_back (v ∷ values) h =
    rw (read_back-is_printable v (ground arith), map-read_back values (ground arith)) refl

-- Parsing the declaration of an enum as MySQL reports it gives back its values, if none holds a line
-- feed, a carriage return or NUL; quotes, backslashes, commas and parentheses may be in them.
pub parse_mysql_enum-enum_text :
    (v : Text) (more : List Text)
    → all is_printable (v ∷ more) ≡ true
    → parse_mysql_enum (enum_text v more) ≡ ok (v ∷ more)
parse_mysql_enum-enum_text v more h =
    parse_mysql_enum-read_back v more ∙ ap ok (map-read_back (v ∷ more) h)
