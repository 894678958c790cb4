-- ===== src/Migration/Manager/Recording.antt =====
-- What recording a list of migrations in order does to a ledger, described without the loop.
use toasty_mgr.Prelude.{
  ℕ, ◌+◌, ◌≡◌, true, List, [], ◌∷◌, arith, Text, nat_eq, if◌then◌else◌, contains, nat_has_eq,
  Bool-cases, inl, inr, text_has_eq,
}
use toasty_mgr.Prelude.Strings.{text_eq_iff}
use toasty_mgr.Migration.Types.{OwnedMigrationFile}
use toasty_mgr.Migration.Backend.{Ledger, with_entry, is_some, IdsOf}
use toasty_mgr.Migration.Lineage.{ids}

-- A migration is recorded under its name, unless the ledger has its id.
abbrev pub record_file : Text → OwnedMigrationFile → Ledger → Ledger
record_file code m ledger =
    if is_some (ledger code m.id)
    then ledger
    else with_entry (record { source_code = code; id = m.id; name = m.name; sql = m.sql }) ledger

abbrev pub record_all : Text → List OwnedMigrationFile → Ledger → Ledger
record_all code [] ledger = ledger
record_all code (m ∷ ms) ledger = record_all code ms (record_file code m ledger)

-- How many of the migrations are new when they are recorded in order.
abbrev pub new_count : Text → List OwnedMigrationFile → Ledger → ℕ
new_count code [] ledger = 0
new_count code (m ∷ ms) ledger =
    (if is_some (ledger code m.id) then 0 else 1) + new_count code ms (record_file code m ledger)

pub record_file-IdsOf :
    (code : Text) (m : OwnedMigrationFile) (ledger : Ledger) (l : List ℕ)
    → IdsOf ledger code l
    → IdsOf (record_file code m ledger) code (m.id ∷ l)
record_file-IdsOf code m ledger l h i = elim (Bool-cases (is_some (ledger code m.id))) [
  | inl old ↦ rw old (ground (arith, h i))
  | inr new ↦ rw new (ground (arith, h i, text_eq_iff code code))
]

record_file-keeps :
    (code : Text) (m : OwnedMigrationFile) (ledger : Ledger) (source : Text) (id : ℕ)
    → is_some (ledger source id) ≡ true
    → is_some (record_file code m ledger source id) ≡ true
record_file-keeps code m ledger source id h = ground (arith)

record_file-has :
    (code : Text) (m : OwnedMigrationFile) (ledger : Ledger)
    → is_some (record_file code m ledger code m.id) ≡ true
record_file-has code m ledger = ground (arith, text_eq_iff code code)

record_all-keeps :
    (code : Text) (ms : List OwnedMigrationFile) (ledger : Ledger) (source : Text) (id : ℕ)
    → is_some (ledger source id) ≡ true
    → is_some (record_all code ms ledger source id) ≡ true
record_all-keeps code [] ledger source id h = h
record_all-keeps code (m ∷ ms) ledger source id h =
    record_all-keeps code ms (record_file code m ledger) source id
      (record_file-keeps code m ledger source id h)

-- Afterwards the ledger has every migration of the list.
pub record_all-has :
    (code : Text) (ms : List OwnedMigrationFile) (ledger : Ledger) (id : ℕ)
    → contains (ids ms) id ≡ true
    → is_some (record_all code ms ledger code id) ≡ true
record_all-has code [] ledger id h = ground arith
record_all-has code (m ∷ ms) ledger id h = elim (Bool-cases (nat_eq m.id id)) [
  | inl same ↦
      record_all-keeps code ms (record_file code m ledger) code id
        (ground (arith, record_file-has code m ledger))
  | inr other ↦ record_all-has code ms (record_file code m ledger) id (ground arith)
]
