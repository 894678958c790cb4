-- ===== src/Migration/Postgres/Split.antt =====
-- Splitting a script gives back the statements that it was made of.
use toasty_mgr.Prelude.{ℕ, not, ◌≡◌, Bool, false, ◌||◌, List, Text}
use toasty_mgr.Migration.Postgres.Splitter.{is_ascii_whitespace, next_is}

-- What may follow a token: no quote that would be read as a doubled one.
abbrev IsCalm : Text → Type 0
IsCalm rest = (next_is rest b'\'' ≡ false) × (next_is rest b'"' ≡ false)

-- The flag after a character.
abbrev flag : Bool → ℕ → Bool
flag has_code a = has_code || not (is_ascii_whitespace a)
