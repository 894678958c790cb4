-- ===== src/Migration/Tests/Log.antt =====
-- A ledger that is kept as the log of its changes, for concrete runs.
use toasty_mgr.Prelude.{
  ℕ, ◌<◌, ◌≡◌, refl, Option, none, some, List, [], ◌∷◌, leb, nat_has_eq, Text, text_eq,
  if◌then◌else◌, arith, inl, inr, Bool-cases,
}
use toasty_mgr.Prelude.Map
use toasty_mgr.Prelude.Map.{Map, get-remove}
use toasty_mgr.Migration.Backend.{Ledger, with_entry, without_entry}
use toasty_mgr.Migration.Sqlite.Database.{row_entry}

pub data Change : Type 0 where
  added : Text → ℕ → Text → Change
  removed : Text → ℕ → Change

abbrev pub entries_of : List Change → Ledger
entries_of [] source id = none
entries_of (added s i n ∷ log) source id = with_entry (row_entry s i n) (entries_of log) source id
entries_of (removed s i ∷ log) source id =
    without_entry (row_entry s i []) (entries_of log) source id

-- The entries of a source.
abbrev pub pairs_of : Text → List Change → List (ℕ × Text)
pairs_of source [] = []
pairs_of source (added s i n ∷ log) =
    if text_eq s source then (i, n) ∷ pairs_of source log else pairs_of source log
pairs_of source (removed s i ∷ log) =
    if text_eq s source then Map.remove (pairs_of source log) i else pairs_of source log

pub pairs_of-get :
    (source : Text) (log : List Change) (id : ℕ)
    → Map.get (pairs_of source log) id ≡ entries_of log source id
unfolding Map.get
pairs_of-get source [] id = refl
pairs_of-get source (added s i n ∷ log) id = elim (Bool-cases (text_eq s source)) [
  | inl same ↦ rw same (ground (arith, pairs_of-get source log id))
  | inr other ↦ rw other (pairs_of-get source log id)
]
pairs_of-get source (removed s i ∷ log) id = elim (Bool-cases (text_eq s source)) [
  | inl same ↦
      rw same (ground (arith, pairs_of-get source log id, get-remove (pairs_of source log) i id))
  | inr other ↦ rw other (pairs_of-get source log id)
]

-- The entry with the largest id.
abbrev larger : ℕ × Text → Option (ℕ × Text) → Option (ℕ × Text)
larger p none = some p
larger p (some q) = if leb q.0 p.0 then some p else some q

abbrev pub newest : List (ℕ × Text) → Option (ℕ × Text)
newest [] = none
newest (p ∷ ps) = larger p (newest ps)

-- What `newest` says of a list of entries.
abbrev pub IsNewestOf : List (ℕ × Text) → Option (ℕ × Text) → Type 0
IsNewestOf ps none = (id : ℕ) → Map.get ps id ≡ none
IsNewestOf ps (some (i, n)) =
    (Map.get ps i ≡ some n) × ((later : ℕ) → i < later → Map.get ps later ≡ none)

larger-IsNewestOf :
    (i : ℕ) (n : Text) (ps : List (ℕ × Text)) (o : Option (ℕ × Text))
    → IsNewestOf ps o
    → IsNewestOf ((i, n) ∷ ps) (larger (i, n) o)
unfolding Map.get
larger-IsNewestOf i n ps none h = (ground arith, λ later l. ground (arith, h later))
larger-IsNewestOf i n ps (some (j, m)) (found, beyond) = elim (Bool-cases (leb j i)) [
  | inl here ↦ rw here (ground arith, λ later l. ground (arith, beyond later))
  | inr there ↦ rw there (ground arith, λ later l. ground (arith, beyond later))
]

pub newest-IsNewestOf : (ps : List (ℕ × Text)) → IsNewestOf ps (newest ps)
unfolding Map.get
newest-IsNewestOf [] = λ id. refl
newest-IsNewestOf ((i, n) ∷ ps) = larger-IsNewestOf i n ps (newest ps) (newest-IsNewestOf ps)
