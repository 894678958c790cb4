-- ===== src/Migration/Tests.antt =====
-- Concrete runs of the migration components.
pub mod Log
pub mod Memory
pub mod Runs
pub mod Server
pub mod Markers
pub mod Scripts
pub mod Schemas
pub mod Disk
use toasty_mgr.Prelude.{
  ℕ, ◌≡◌, refl, ◌↔◌, ◌<◌, ◌≤◌, ◌⊎◌, Option, none, some, List, [], ◌∷◌, Text, codes, Result, ok, err,
  Bool, true, false, nat_has_eq, text_has_eq, contains, arith, map, collect,
}
use toasty_mgr.Prelude.Strings.{
  trim, trim_matches, trim_start_matches, trim_end_matches, is_whitespace,
}
use toasty_mgr.Migration.Types.{
  OwnedMigrationFile, MigrationArtifactSet, steps, target, id_exhausted, HistoryEntry, ready,
  FilePath,
}
use toasty_mgr.Migration.Lineage.{
  applied_lineage, validate_applied_ids, select_rollback_ids, next_migration_id, u64_max, ids,
  lineage_loop,
}
use toasty_mgr.Migration.Lineage.Applied.{
  applied_lineage_iff, validate_applied_ids_iff, IsLineage, Tracked,
}
use toasty_mgr.Migration.Lineage.Rollback.{select_rollback_ids-Selects, Selects}
use toasty_mgr.Migration.Lineage.NextId.{next_migration_id_grows}
use toasty_mgr.Migration.Naming.{sanitize_name}
use toasty_mgr.Migration.Naming.Slug.{IsSlug, sanitize_name-IsSlug, sanitize_name-slug}
use toasty_mgr.Migration.Artifact.{
  FileSystem, new, load_entry, check_loop, inspect_state, from_history, entry_names,
}
use toasty_mgr.Migration.Artifact.Valid.{new_iff, IsValid, names}
use toasty_mgr.Migration.Artifact.State.{inspect_state_iff, from_history-IsValid, IsReady}

abbrev pub first_file : OwnedMigrationFile
first_file = record {
  id = 1;
  name = codes "0000_users";
  sql = codes "CREATE TABLE users (id INT)";
  rollback_sql = some (codes "DROP TABLE users");
  snapshot_name = none;
}

abbrev pub second_file : OwnedMigrationFile
second_file = record {
  id = 2;
  name = codes "0001_posts";
  sql = codes "CREATE TABLE posts (id INT)";
  rollback_sql = none;
  snapshot_name = none;
}

abbrev pub two_files : MigrationArtifactSet
two_files = record { migrations = first_file ∷ second_file ∷ [] }

applied_lineage_iff_example :
    (applied_lineage two_files (1 ∷ []) ≡ ok (1 ∷ []))
    ↔ IsLineage (1 ∷ []) two_files.migrations (1 ∷ [])
applied_lineage_iff_example = applied_lineage_iff two_files (1 ∷ []) (1 ∷ [])

validate_applied_ids_iff_example :
    (validate_applied_ids two_files (2 ∷ 3 ∷ []) ≡ ok tt)
    ↔ Tracked (ids two_files.migrations) (2 ∷ 3 ∷ [])
validate_applied_ids_iff_example = validate_applied_ids_iff two_files (2 ∷ 3 ∷ [])

select_rollback_ids-Selects_example :
    Selects (1 ∷ 2 ∷ 3 ∷ []) (steps 2) (select_rollback_ids (1 ∷ 2 ∷ 3 ∷ []) (steps 2))
select_rollback_ids-Selects_example = select_rollback_ids-Selects (1 ∷ 2 ∷ 3 ∷ []) (steps 2)

next_migration_id_grows_example :
    ((id : ℕ) × (next_migration_id (some 7) ≡ ok id) × (7 < id) × (id ≤ u64_max))
    ⊎ ((7 ≡ u64_max) × (next_migration_id (some 7) ≡ err id_exhausted))
next_migration_id_grows_example = next_migration_id_grows 7 (ground arith)

add_users_slug : sanitize_name (codes " Add  Users! ") ≡ ok (codes "add_users")
add_users_slug = unfold sanitize_name in refl

sanitize_name-IsSlug_example : IsSlug (codes "add_users")
sanitize_name-IsSlug_example =
    sanitize_name-IsSlug (codes " Add  Users! ") (codes "add_users") add_users_slug

sanitize_name-slug_example : sanitize_name (codes "add_users") ≡ ok (codes "add_users")
sanitize_name-slug_example =
    sanitize_name-slug (codes "add_users")
      (sanitize_name-IsSlug (codes " Add  Users! ") (codes "add_users") add_users_slug)

new_iff_example : (new (first_file ∷ second_file ∷ []) ≡ ok two_files) ↔ (
    (two_files.migrations ≡ first_file ∷ second_file ∷ [])
    × IsValid (first_file ∷ second_file ∷ []))
new_iff_example = new_iff (first_file ∷ second_file ∷ []) two_files

abbrev users_entry : HistoryEntry
users_entry = record {
  id = 1;
  name = codes "0000_users.sql";
  snapshot_name = codes "0000_users.toml";
}

-- A directory with one migration.
abbrev one_migration : FileSystem ℕ
one_migration = record {
  exists = λ _. true;
  is_file = λ _. true;
  read_dir = λ _. codes "0000_users.sql" ∷ [];
  read_to_string = λ _. some (codes "CREATE TABLE users (id INT)");
  extension = λ _. some (codes "sql");
  load_history = λ _. some (users_entry ∷ []);
  parse_snapshot = λ _. some 1;
}

inspect_state_iff_example :
    (inspect_state one_migration [] ≡ ready)
    ↔ ((entries : List HistoryEntry) × IsReady one_migration [] entries)
inspect_state_iff_example = inspect_state_iff one_migration []

abbrev users_file : OwnedMigrationFile
users_file = record {
  id = 1;
  name = codes "0000_users.sql";
  sql = codes "CREATE TABLE users (id INT)";
  rollback_sql = some (codes "CREATE TABLE users (id INT)");
  snapshot_name = some (codes "0000_users.toml");
}

users_loaded :
    from_history one_migration [] [] (users_entry ∷ [])
    ≡ ok (record { migrations = users_file ∷ [] })
unfolding from_history load_entry collect new check_loop trim trim_matches trim_start_matches
    trim_end_matches is_whitespace
users_loaded = refl

from_history-IsValid_example :
    (ids (users_file ∷ []) ≡ 1 ∷ [])
    × (names (users_file ∷ []) ≡ codes "0000_users.sql" ∷ [])
    × IsValid (users_file ∷ [])
from_history-IsValid_example =
    from_history-IsValid one_migration [] [] (users_entry ∷ [])
      (record { migrations = users_file ∷ [] }) users_loaded
