-- ===== src/Migration/Generated.antt =====
-- `write_generated` of migration/manager.rs: a generated migration, its rollback and its snapshot are
-- written beside their places and moved there, and the history is moved last.
pub mod Places
pub mod Disk
pub mod Steps
pub mod Written
pub mod Refused
pub mod Named
use toasty_mgr.Prelude.{
  ℕ, Bool, true, false, ◌||◌, Option, none, some, List, [], ◌∷◌, ◌++◌, last, Text, codes, Result,
  ok, err, any,
}
use toasty_mgr.Prelude.Action.{Action, pure, lift, ◌>>=◌, ◌>>◌, bail_when}
use toasty_mgr.Migration.Types.{
  FilePath, ◌/+◌, HistoryEntry, MigrationSourceConfig, Error, refusing_to_overwrite,
}
use toasty_mgr.Migration.Lineage.{next_migration_id}
use toasty_mgr.Migration.Naming.{sanitize_name, normalize_sql, validate_sql}

-- The directories below the artifact root, and the root itself for the history.
pub data Folder : Type 0 where
  migrations rollbacks snapshots history : Folder

-- The eight paths: a file in its place, or the temporary one beside it.
pub data Slot : Type 0 where
  file temp : Folder → Slot

abbrev pub folder_path : FilePath → Folder → FilePath
folder_path root migrations = root /+ codes "migrations"
folder_path root rollbacks = root /+ codes "rollbacks"
folder_path root snapshots = root /+ codes "snapshots"
folder_path root history = root

-- `{source}_{id}_{slug}.sql` and `.toml`, without the ending
abbrev pub file_name : Text → Folder → Text
file_name stem migrations = stem ++ codes ".sql"
file_name stem rollbacks = stem ++ codes ".sql"
file_name stem snapshots = stem ++ codes ".toml"
file_name stem history = codes "history.toml"

abbrev pub slot_path : FilePath → Text → Slot → FilePath
slot_path root stem (file f) = folder_path root f /+ file_name stem f
slot_path root stem (temp f) = folder_path root f /+ (codes "." ++ file_name stem f ++ codes ".tmp")

-- `Generated` of the toasty crate.
pub record Generated (Schema : Type 0) : Type 0 where
  pub sql : Text
  pub snapshot : Schema

-- The file system of the standard library, the texts that the toasty crate saves for a snapshot and
-- a history, and the decimal digits of an id.
pub record Tools (Fs Schema : Type 0) : Type 0 where
  pub exists : Fs → FilePath → Bool
  pub create_dir_all : FilePath → Action Fs Error (Unit {0})
  pub write : FilePath → Text → Action Fs Error (Unit {0})
  pub rename : FilePath → FilePath → Action Fs Error (Unit {0})
  pub snapshot_text : Schema → Text
  pub history_text : List HistoryEntry → Text
  pub decimal : ℕ → Text

abbrev pub last_id : List HistoryEntry → Option ℕ
last_id entries = elim (last entries) [ none ↦ none | some entry ↦ some entry.id ]

abbrev pub checked_slots : List Slot
checked_slots =
    file migrations
    ∷ file rollbacks
    ∷ file snapshots
    ∷ temp migrations
    ∷ temp rollbacks
    ∷ temp snapshots
    ∷ temp history
    ∷ []

module _ {Fs Schema : Type 0} (t : Tools Fs Schema) where
  abbrev pub stem_of : Text → ℕ → Text → Text
  stem_of source id slug = source ++ codes "_" ++ t.decimal id ++ codes "_" ++ slug

  abbrev pub is_occupied : FilePath → Text → Fs → Bool
  is_occupied root stem fs = any (λ slot. t.exists fs (slot_path root stem slot)) checked_slots

  -- The test of the seven paths.
  abbrev pub refuse_occupied : FilePath → Text → Text → Action Fs Error (Unit {0})
  refuse_occupied root stem label fs =
      bail_when (is_occupied root stem fs) (refusing_to_overwrite label) fs

  abbrev pub added_entry : ℕ → Text → HistoryEntry
  added_entry id stem = record {
    id = id;
    name = file_name stem migrations;
    snapshot_name = file_name stem snapshots;
  }

  -- The writes of the four temporary files, and the four renames.
  unfoldable pub write_temps :
      FilePath → Text → Text → Text → Schema → List HistoryEntry → Action Fs Error (Unit {0})
  write_temps root stem sql rollback_sql snapshot entries = do
    t.write (slot_path root stem (temp migrations)) (normalize_sql sql ++ 10 ∷ [])
    t.write (slot_path root stem (temp rollbacks)) (normalize_sql rollback_sql ++ 10 ∷ [])
    t.write (slot_path root stem (temp snapshots)) (t.snapshot_text snapshot)
    t.write (slot_path root stem (temp history)) (t.history_text entries)

  abbrev pub move_temp : FilePath → Text → Folder → Action Fs Error (Unit {0})
  move_temp root stem f = t.rename (slot_path root stem (temp f)) (slot_path root stem (file f))

  unfoldable pub move_temps : FilePath → Text → Action Fs Error (Unit {0})
  move_temps root stem = do
    move_temp root stem migrations
    move_temp root stem rollbacks
    move_temp root stem snapshots
    move_temp root stem history

  -- From the names on: the id, the stem of the paths and the history with the new entry.
  unfoldable pub write_named :
      FilePath
      → List HistoryEntry
      → ℕ
      → Text
      → Text
      → Generated Schema
      → Generated Schema
      → Action Fs Error (ℕ × Text × List HistoryEntry)
  write_named root entries id stem label generated rollback = do
    t.create_dir_all (folder_path root migrations)
    t.create_dir_all (folder_path root rollbacks)
    t.create_dir_all (folder_path root snapshots)
    refuse_occupied root stem label
    lift (validate_sql generated.sql)
    lift (validate_sql rollback.sql)
    write_temps root stem generated.sql rollback.sql generated.snapshot
        (entries ++ added_entry id stem ∷ [])
    move_temps root stem
    pure (id, stem, entries ++ added_entry id stem ∷ [])

  unfoldable pub write_generated :
      MigrationSourceConfig
      → List HistoryEntry
      → Text
      → Generated Schema
      → Generated Schema
      → Action Fs Error (ℕ × Text × List HistoryEntry)
  write_generated config entries name generated rollback = do
    id ← lift (next_migration_id (last_id entries))
    slug ← lift (sanitize_name name)
    source ← lift (sanitize_name config.code)
    write_named config.artifact_root entries id (stem_of source id slug)
        (t.decimal id ++ codes "_" ++ slug) generated rollback
