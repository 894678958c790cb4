-- ===== src/Migration/Naming/Slug.antt =====
-- The slugs that `sanitize_name` makes.
use mathlib.Core.Bool.{true≢false}
use toasty_mgr.Prelude.{
  All-first, All-last, ℕ, ◌≡◌, ◌≢◌, refl, Bool, true, false, [], ◌∷◌, some, arith, ok, All, first,
  last, if◌then◌else◌, Text, ◌||◌, is_empty, ◌&&◌,
}
use toasty_mgr.Prelude.Strings.{
  trim, trim_matches, trim_start_matches, trim_end_matches, keep_end, is_whitespace,
  is_ascii_lowercase, is_ascii_digit,
}
use toasty_mgr.Prelude.Strings.Trim.{
  trim_matches-All, first-trim_matches, last-trim_matches, trim_matches-id,
}
use toasty_mgr.Migration.Naming.{sanitize_name, sanitize_loop, is_underscore, slug_char}

abbrev pub is_slug_char : ℕ → Bool
is_slug_char c = is_ascii_lowercase c || is_ascii_digit c || is_underscore c

-- No underscore follows an underscore; the flag tells whether one stands just before the text.
abbrev pub NoDouble : Bool → Text → Type 0
NoDouble before [] = Unit {0}
NoDouble before (c ∷ s) = (is_underscore c && before ≡ false) × NoDouble (is_underscore c) s

-- A slug: lower-case letters, digits and single underscores, at neither end an underscore.
pub record IsSlug (s : Text) : Type 0 where
  pub chars : All (λ c. is_slug_char c ≡ true) s
  pub no_double : NoDouble false s
  pub nonempty : is_empty s ≡ false
  pub starts : first s ≢ some b'_'
  pub ends : last s ≢ some b'_'

loop-chars : (u : Bool) (s : Text) → All (λ c. is_slug_char c ≡ true) (sanitize_loop u s)
unfolding sanitize_loop
loop-chars u [] = tt
loop-chars u (c ∷ s) = ground (arith, loop-chars (is_underscore (slug_char c)) s)

loop-NoDouble : (u : Bool) (s : Text) → NoDouble u (sanitize_loop u s)
unfolding sanitize_loop
loop-NoDouble u [] = tt
loop-NoDouble u (c ∷ s) = ground (arith, loop-NoDouble (is_underscore (slug_char c)) s)

loop-weaken : (u : Bool) (s : Text) → NoDouble u s → NoDouble false s
loop-weaken u [] h = tt
loop-weaken u (c ∷ s) h = (ground arith, h.1)

trim_start-NoDouble :
    (u : Bool) (s : Text) → NoDouble u s → NoDouble false (trim_start_matches is_underscore s)
unfolding trim_start_matches
trim_start-NoDouble u [] h = tt
trim_start-NoDouble u (c ∷ s) h =
    elim (is_underscore c)
      as (λ b. NoDouble false (if b then trim_start_matches is_underscore s else c ∷ s)) [
        | true ↦ trim_start-NoDouble (is_underscore c) s h.1
        | false ↦ loop-weaken u (c ∷ s) h
      ]

keep_end-NoDouble :
    (u : Bool) (c : ℕ) (s : Text) → NoDouble u (c ∷ s) → NoDouble u (keep_end is_underscore c s)
keep_end-NoDouble u c [] h =
    elim (is_underscore c) as (λ b. NoDouble u (if b then [] else c ∷ [])) [ true ↦ tt | false ↦ h ]
keep_end-NoDouble u c (d ∷ s) h = h

trim_end-NoDouble :
    (u : Bool) (s : Text) → NoDouble u s → NoDouble u (trim_end_matches is_underscore s)
unfolding trim_end_matches
trim_end-NoDouble u [] h = tt
trim_end-NoDouble u (c ∷ s) h =
    keep_end-NoDouble u c (trim_end_matches is_underscore s)
      (h.0, trim_end-NoDouble (is_underscore c) s h.1)

sanitize_name-ok :
    (name slug : Text)
    → sanitize_name name ≡ ok slug
    → (slug ≡ trim_matches is_underscore (sanitize_loop false (trim name)))
      × (is_empty slug ≡ false)
unfolding sanitize_name
sanitize_name-ok name slug h = ground arith

trim_matches-NoDouble :
    (s : Text) → NoDouble false s → NoDouble false (trim_matches is_underscore s)
unfolding trim_matches
trim_matches-NoDouble s h = trim_end-NoDouble false _ (trim_start-NoDouble false s h)

-- What trimming underscores off the loop's result gives, when it is not empty.
trimmed-IsSlug :
    (s slug : Text)
    → slug ≡ trim_matches is_underscore s
    → is_empty slug ≡ false
    → All (λ c. is_slug_char c ≡ true) s
    → NoDouble false s
    → IsSlug slug
trimmed-IsSlug s slug e n hc hd = record {
  chars = rw e (trim_matches-All is_underscore _ s hc);
  no_double = rw e (trim_matches-NoDouble s hd);
  nonempty = n;
  starts = λ h. absurd (true≢false (first-trim_matches is_underscore s b'_' (rw e at h)));
  ends = λ h. absurd (true≢false (last-trim_matches is_underscore s b'_' (rw e at h)));
}

-- A name that is accepted becomes a slug.
pub sanitize_name-IsSlug : (name slug : Text) → sanitize_name name ≡ ok slug → IsSlug slug
sanitize_name-IsSlug name slug h =
    let (e, n) = sanitize_name-ok name slug h in
    trimmed-IsSlug _ slug e n (loop-chars false (trim name)) (loop-NoDouble false (trim name))

slug_char-whitespace : (c : ℕ) → is_slug_char c ≡ true → is_whitespace c ≡ false
unfolding is_whitespace
slug_char-whitespace c h = ground arith

loop-id :
    (u : Bool) (s : Text)
    → All (λ c. is_slug_char c ≡ true) s
    → NoDouble u s
    → sanitize_loop u s ≡ s
unfolding sanitize_loop
loop-id u [] hc hd = refl
loop-id u (c ∷ s) hc hd = ground (arith, loop-id (is_underscore c) s)

slug-trim : (s : Text) → All (λ c. is_slug_char c ≡ true) s → trim s ≡ s
unfolding trim
slug-trim s h =
    trim_matches-id is_whitespace s (λ c e. slug_char-whitespace c (All-first _ s c h e))
      (λ c e. slug_char-whitespace c (All-last _ s c h e))

slug-trim_matches : (s : Text) → IsSlug s → trim_matches is_underscore s ≡ s
slug-trim_matches s h =
    trim_matches-id is_underscore s (λ c e. ground (arith, λ (q : c ≡ b'_'). h.starts (rw q at e)))
      (λ c e. ground (arith, λ (q : c ≡ b'_'). h.ends (rw q at e)))

-- A slug is its own slug, so `sanitize_name` changes an accepted name only once.
pub sanitize_name-slug : (s : Text) → IsSlug s → sanitize_name s ≡ ok s
sanitize_name-slug s h =
    unfold sanitize_name in
    rw (slug-trim s h.chars, loop-id false s h.chars h.no_double, slug-trim_matches s h, h.nonempty)
