-- ===== src/Migration/Artifact.antt =====
-- The artifacts of a source on disk and in memory (migration/artifact.rs), and how the manager
-- resolves them (`resolve_artifacts` and `check` of migration/manager.rs).
pub mod Valid
pub mod Names
pub mod State
use toasty_mgr.Prelude.{
  ℕ, Bool, true, false, not, ◌&&◌, ◌||◌, Option, none, some, List, [], ◌∷◌, map, if◌then◌else◌, any,
  all, is_empty, contains, nat_has_eq, text_has_eq, filter, Text, codes, Result, ok, err, ◌>>=◌,
  ◌>>◌, bail_if, ok_or, first, last, collect, ◌==◌,
}
use toasty_mgr.Prelude.Strings.{trim, replace, replace_from}
use toasty_mgr.Migration.Types.{
  FilePath, ◌/+◌, OwnedMigrationFile, MigrationArtifactSet, HistoryEntry, ArtifactState, missing,
  empty, ready, partial, invalid, MigrationSourceConfig, MigrationArtifactInput,
  registered_filesystem, owned, embedded, Error, duplicate_id, duplicate_name, empty_sql,
  artifacts_missing, artifacts_partial, read_failed, history_unreadable, snapshot_unreadable,
  adoption_needs_history,
}

-- The loop of `MigrationArtifactSet::new`, with the ids and the names seen before.
unfoldable pub check_loop : List ℕ → List Text → List OwnedMigrationFile → Result Error (Unit {0})
unfolding trim
check_loop seen_ids seen_names [] = ok tt
check_loop seen_ids seen_names (m ∷ ms) =
    let rest = check_loop (m.id ∷ seen_ids) (m.name ∷ seen_names) ms in
    if contains seen_ids m.id
    then err (duplicate_id m.id)
    else (if contains seen_names m.name
        then err (duplicate_name m.name)
        else (if is_empty (trim m.sql) then err (empty_sql m.name) else rest))

-- `MigrationArtifactSet::new`
unfoldable pub new : List OwnedMigrationFile → Result Error MigrationArtifactSet
unfolding check_loop
new ms = do check_loop [] [] ms; ok (record { migrations = ms })

unfoldable pub from_embedded : List (ℕ × Text × Text) → Result Error MigrationArtifactSet
from_embedded set = new (
    map
      (λ (id, name, sql). record {
        id = id;
        name = name;
        sql = sql;
        rollback_sql = none;
        snapshot_name = none;
      })
      set)

-- What the crate asks of the file system and of the toasty crate: `none` is a failed read or a
-- text that does not parse. `read_dir` lists the names in a directory that can be read, and
-- `extension` is that of a file name.
pub record FileSystem (Schema : Type 0) : Type 0 where
  pub exists : FilePath → Bool
  pub is_file : FilePath → Bool
  pub read_dir : FilePath → List Text
  pub read_to_string : FilePath → Option Text
  pub extension : Text → Option Text
  pub load_history : FilePath → Option (List HistoryEntry)
  pub parse_snapshot : Text → Option Schema

-- Two sets of names have the same members.
abbrev pub is_subset : List Text → List Text → Bool
is_subset xs ys = all (contains ys) xs

abbrev pub same_names : List Text → List Text → Bool
same_names xs ys = is_subset xs ys && is_subset ys xs

abbrev pub entry_names : List HistoryEntry → List Text
entry_names = map (λ e. e.name)

abbrev pub entry_snapshots : List HistoryEntry → List Text
entry_snapshots = map (λ e. e.snapshot_name)

abbrev pub history_path : FilePath → FilePath
history_path root = root /+ codes "history.toml"

abbrev pub migrations_dir : FilePath → FilePath
migrations_dir root = root /+ codes "migrations"

abbrev pub snapshots_dir : FilePath → FilePath
snapshots_dir root = root /+ codes "snapshots"

abbrev pub rollbacks_dir : FilePath → FilePath
rollbacks_dir root = root /+ codes "rollbacks"

module _ {Schema : Type 0} (fs : FileSystem Schema) where
  unfoldable pub file_names : FilePath → Text → List Text
  file_names path extension =
      filter (λ name. elim (fs.extension name) [ none ↦ false | some x ↦ x == extension ])
        (fs.read_dir path)

  unfoldable pub has_files : FilePath → Bool
  has_files path = any (λ name. fs.is_file (path /+ name)) (fs.read_dir path)

  -- Reviewed artifacts keep Toasty's old spelling of the type.
  unfoldable pub load_snapshot : FilePath → Result Error Schema
  unfolding replace_from
  load_snapshot path = do
    contents ← ok_or (fs.read_to_string path) (read_failed path)
    ok_or
        (fs.parse_snapshot
          (replace contents (codes "storage_ty = \"Bool\"") (codes "storage_ty = \"Boolean\"")))
        (snapshot_unreadable path)

  abbrev pub optional_read : Bool → FilePath → Result Error (Option Text)
  optional_read true path = do
    text ← ok_or (fs.read_to_string path) (read_failed path)
    ok (some text)
  optional_read false path = ok none

  -- One round of the loop of `from_history`.
  unfoldable pub load_entry : FilePath → FilePath → HistoryEntry → Result Error OwnedMigrationFile
  load_entry migrations rollbacks entry = do
    sql ←
        ok_or (fs.read_to_string (migrations /+ entry.name))
          (read_failed (migrations /+ entry.name))
    rollback_sql ← optional_read (fs.is_file (rollbacks /+ entry.name)) (rollbacks /+ entry.name)
    ok (record {
      id = entry.id;
      name = entry.name;
      sql = sql;
      rollback_sql = rollback_sql;
      snapshot_name = some entry.snapshot_name;
    })

  unfoldable pub from_history :
      FilePath → FilePath → List HistoryEntry → Result Error MigrationArtifactSet
  from_history migrations rollbacks history = do
    files ← collect (load_entry migrations rollbacks) history
    new files

  -- `History::load_or_default`: no file is an empty history.
  unfoldable pub load_or_default : FilePath → Result Error (List HistoryEntry)
  load_or_default path =
      if fs.exists path then ok_or (fs.load_history path) (history_unreadable path) else ok []

  -- `MigrationArtifactSet::load`
  unfoldable pub load : FilePath → Result Error MigrationArtifactSet
  load root = do
    history ← load_or_default (history_path root)
    from_history (migrations_dir root) (rollbacks_dir root) history

  -- The last loop of `inspect_state`.
  unfoldable pub entries_state : FilePath → List HistoryEntry → ArtifactState
  entries_state root [] = ready
  entries_state root (entry ∷ rest) =
      let later = entries_state root rest in
      if not (fs.is_file (migrations_dir root /+ entry.name))
        || not (fs.is_file (snapshots_dir root /+ entry.snapshot_name))
      then partial
      else elim (load_snapshot (snapshots_dir root /+ entry.snapshot_name)) [
        | ok _ ↦ later
        | err _ ↦ invalid
      ]

  abbrev pub names_match : FilePath → List HistoryEntry → Bool
  names_match root entries =
      same_names (file_names (migrations_dir root) (codes "sql")) (entry_names entries)
      && same_names (file_names (snapshots_dir root) (codes "toml")) (entry_snapshots entries)
      && is_subset (file_names (rollbacks_dir root) (codes "sql")) (entry_names entries)

  abbrev pub orphan_state : FilePath → ArtifactState
  orphan_state root =
      if has_files (migrations_dir root) || has_files (snapshots_dir root) then partial else empty

  unfoldable pub lineage_state : FilePath → Option (List HistoryEntry) → ArtifactState
  lineage_state root none = invalid
  lineage_state root (some []) = orphan_state root
  lineage_state root (some (entry ∷ rest)) =
      if names_match root (entry ∷ rest) then entries_state root (entry ∷ rest) else partial

  unfoldable pub inspect_state : FilePath → ArtifactState
  inspect_state root =
      if not (fs.exists root)
      then missing
      else (if not (fs.exists (history_path root))
          then orphan_state root
          else lineage_state root (fs.load_history (history_path root)))

  unfoldable pub resolve_artifacts :
      MigrationSourceConfig → MigrationArtifactInput → Result Error MigrationArtifactSet
  resolve_artifacts config registered_filesystem = elim (inspect_state config.artifact_root) [
    | ready ↦ load config.artifact_root
    | missing ↦ err (artifacts_missing config.code)
    | empty ↦ err (artifacts_missing config.code)
    | partial ↦ err (artifacts_partial config.code)
    | invalid ↦ err (artifacts_partial config.code)
  ]
  resolve_artifacts config (owned artifacts) = ok artifacts
  resolve_artifacts config (embedded set) = from_embedded set

  -- `latest_schema`, with the default schema of the toasty crate
  unfoldable pub latest_schema : Schema → FilePath → List HistoryEntry → Result Error Schema
  latest_schema default root history = elim (last history) [
    | none ↦ ok default
    | some entry ↦ load_snapshot (snapshots_dir root /+ entry.snapshot_name)
  ]

  unfoldable pub first_snapshot_schema : MigrationSourceConfig → Result Error Schema
  first_snapshot_schema config = do
    history ←
        ok_or (fs.load_history (history_path config.artifact_root))
          (history_unreadable (history_path config.artifact_root))
    entry ← ok_or (first history) adoption_needs_history
    load_snapshot (snapshots_dir config.artifact_root /+ entry.snapshot_name)
