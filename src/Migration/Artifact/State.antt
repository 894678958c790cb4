-- ===== src/Migration/Artifact/State.antt =====
-- When a lineage on disk is ready, and what is then loaded from it.
use mathlib.Core.Bool.{false≢true}
use toasty_mgr.Prelude.{
  collect-cons, ◌∙◌, sym, ◌≡◌, refl, ◌↔◌, true, false, List, [], ◌∷◌, arith, ok, All, Option, none,
  some, Result-cases, inl, inr, >>=-eq-ok, map, ap, Bool-cases, collect, is_empty,
}
use toasty_mgr.Migration.Types.{
  FilePath, ◌/+◌, OwnedMigrationFile, MigrationArtifactSet, HistoryEntry, ready, partial,
}
use toasty_mgr.Migration.Lineage.{ids}
use toasty_mgr.Migration.Artifact.{
  FileSystem, entries_state, lineage_state, inspect_state, load_snapshot, history_path,
  migrations_dir, snapshots_dir, names_match, load_entry, from_history, new, entry_names,
}
use toasty_mgr.Migration.Artifact.Names.{AreNamed, names_match-AreNamed}
use toasty_mgr.Migration.Artifact.Valid.{IsValid, names, new_iff}

module _ {Schema : Type 0} (fs : FileSystem Schema) where
  -- Both files of the entry are there, and its snapshot can be loaded.
  pub record IsComplete (root : FilePath) (entry : HistoryEntry) : Type 0 where
    pub has_migration : fs.is_file (migrations_dir root /+ entry.name) ≡ true
    pub has_snapshot : fs.is_file (snapshots_dir root /+ entry.snapshot_name) ≡ true
    pub snapshot : Schema
    pub loads : load_snapshot fs (snapshots_dir root /+ entry.snapshot_name) ≡ ok snapshot

  -- The history at `root` has these entries, at least one, its files are exactly those that the
  -- entries name, with no rollback of another name, and every entry is complete.
  pub record IsReady (root : FilePath) (entries : List HistoryEntry) : Type 0 where
    pub root_exists : fs.exists root ≡ true
    pub history_exists : fs.exists (history_path root) ≡ true
    pub loaded : fs.load_history (history_path root) ≡ some entries
    pub nonempty : is_empty entries ≡ false
    pub named : AreNamed fs root entries
    pub complete : All (IsComplete root) entries

  entries_state-IsComplete :
      (root : FilePath) (entries : List HistoryEntry)
      → entries_state fs root entries ≡ ready
      → All (IsComplete root) entries
  unfolding entries_state
  entries_state-IsComplete root [] h = tt
  entries_state-IsComplete root (entry ∷ rest) h =
      elim (Result-cases (load_snapshot fs (snapshots_dir root /+ entry.snapshot_name))) [
        | inl (schema, e) ↦ (
          record {
            has_migration = ground arith;
            has_snapshot = ground arith;
            snapshot = schema;
            loads = e;
          },
          entries_state-IsComplete root rest (ground arith),
        )
        | inr (error, e) ↦ absurd (ground arith)
      ]

  complete-entries_state :
      (root : FilePath) (entries : List HistoryEntry)
      → All (IsComplete root) entries
      → entries_state fs root entries ≡ ready
  unfolding entries_state
  complete-entries_state root [] h = refl
  complete-entries_state root (entry ∷ rest) h =
      rw (h.0.has_migration, h.0.has_snapshot, h.0.loads) (complete-entries_state root rest h.1)

  lineage_state-ready :
      (root : FilePath) (loaded : Option (List HistoryEntry))
      → lineage_state fs root loaded ≡ ready
      → (entries : List HistoryEntry) × (loaded ≡ some entries)
        × (is_empty entries ≡ false)
        × (names_match fs root entries ≡ true)
        × All (IsComplete root) entries
  unfolding lineage_state
  lineage_state-ready root none h = cc
  lineage_state-ready root (some []) h = ground arith
  lineage_state-ready root (some (entry ∷ rest)) h =
      elim (Bool-cases (names_match fs root (entry ∷ rest))) [
        | inl match ↦ (
          entry ∷ rest,
          refl,
          refl,
          match,
          entries_state-IsComplete root (entry ∷ rest) (rw match at h),
        )
        | inr differ ↦ absurd (let bad : partial ≡ ready = rw differ at h in cc)
      ]

  inspect_state-IsReady :
      (root : FilePath)
      → inspect_state fs root ≡ ready
      → (entries : List HistoryEntry) × IsReady root entries
  unfolding inspect_state
  inspect_state-IsReady root h =
      let here : fs.exists root ≡ true = ground arith in
      let there : fs.exists (history_path root) ≡ true = ground arith in
      let state : lineage_state fs root (fs.load_history (history_path root)) ≡ ready =
        ground arith in
      let (entries, loaded, nonempty, matches, complete) = lineage_state-ready root _ state in
      (
        entries,
        record {
          root_exists = here;
          history_exists = there;
          loaded = loaded;
          nonempty = nonempty;
          named = (names_match-AreNamed fs root entries).0 matches;
          complete = complete;
        },
      )

  IsReady-lineage_state :
      (root : FilePath) (entries : List HistoryEntry)
      → IsReady root entries
      → lineage_state fs root (some entries) ≡ ready
  unfolding lineage_state
  IsReady-lineage_state root [] h = absurd (false≢true (sym h.nonempty))
  IsReady-lineage_state root (entry ∷ rest) h =
      rw ((names_match-AreNamed fs root (entry ∷ rest)).1 h.named)
        (complete-entries_state root (entry ∷ rest) h.complete)

  -- The state of a root is `ready` exactly when it has a history with an entry whose files are
  -- complete: the migrations and snapshots that its directories list are those that the entries
  -- name, they list no other rollback, and every entry's migration and snapshot are files, and the
  -- snapshot can be loaded.
  pub inspect_state_iff :
      (root : FilePath)
      → (inspect_state fs root ≡ ready) ↔ ((entries : List HistoryEntry) × IsReady root entries)
  inspect_state_iff root = (
    inspect_state-IsReady root,
    λ (entries, h).
        unfold inspect_state in
        rw (h.root_exists, h.history_exists, h.loaded) (IsReady-lineage_state root entries h),
  )

  load_entry-id :
      (migrations rollbacks : FilePath) (entry : HistoryEntry) (file : OwnedMigrationFile)
      → load_entry fs migrations rollbacks entry ≡ ok file
      → (file.id ≡ entry.id) × (file.name ≡ entry.name)
  unfolding load_entry
  load_entry-id migrations rollbacks entry file h = ground arith

  collect-ids :
      (migrations rollbacks : FilePath) (entries : List HistoryEntry)
      (files : List OwnedMigrationFile)
      → collect (load_entry fs migrations rollbacks) entries ≡ ok files
      → (ids files ≡ map (λ e. e.id) entries) × (names files ≡ entry_names entries)
  unfolding collect
  collect-ids migrations rollbacks [] files h = ground arith
  collect-ids migrations rollbacks (entry ∷ rest) files h =
      let (y, ys, hy, hs, e) = collect-cons (load_entry fs migrations rollbacks) entry rest h in
      let same = load_entry-id migrations rollbacks entry y hy in
      let later = collect-ids migrations rollbacks rest ys hs in (cc, cc)

  -- What is loaded from a history has the history's ids and names in its order, and is valid.
  pub from_history-IsValid :
      (migrations rollbacks : FilePath) (entries : List HistoryEntry) (set : MigrationArtifactSet)
      → from_history fs migrations rollbacks entries ≡ ok set
      → (ids set.migrations ≡ map (λ e. e.id) entries)
        × (names set.migrations ≡ entry_names entries)
        × IsValid set.migrations
  unfolding from_history
  from_history-IsValid migrations rollbacks entries set h =
      let (files, e, k) = >>=-eq-ok (collect (load_entry fs migrations rollbacks) entries) new h in
      let (same, valid) = (new_iff files set).0 k in
      let read = collect-ids migrations rollbacks entries files e in
      (ap ids same ∙ read.0, ap names same ∙ read.1, rw same valid)
