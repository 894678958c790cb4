-- ===== src/Migration/Generated/Named.antt =====
-- `write_generated` as a whole.
use toasty_mgr.Prelude.{
  ℕ, ◌≡◌, ◌≢◌, refl, Option, some, List, [], ◌∷◌, ◌++◌, Text, codes, Result, ok, err,
}
use toasty_mgr.Prelude.Action.{Action, pure, lift, ◌>>=◌, ◌>>◌}
use toasty_mgr.Migration.Types.{FilePath, ◌/+◌, HistoryEntry, MigrationSourceConfig, Error}
use toasty_mgr.Migration.Naming.{normalize_sql, validate_sql, sanitize_name}
use toasty_mgr.Migration.Lineage.{next_migration_id}
use toasty_mgr.Migration.Generated.{
  Folder, migrations, rollbacks, snapshots, Generated, Tools, folder_path, is_occupied,
  refuse_occupied, added_entry, write_temps, move_temps, write_named, write_generated, stem_of,
  last_id,
}
use toasty_mgr.Migration.Generated.Disk.{Ends, Ends-bind, Ends-post, IsDisk}
use toasty_mgr.Migration.Generated.Steps.{Unwritten}
use toasty_mgr.Migration.Generated.Written.{Written, write_temps-Ends, move_temps-Ends}
use toasty_mgr.Migration.Generated.Refused.{
  Same, start-Same, create-Ends, refuse-Ends, lift-Ends, Same-Seen,
}

module _ {Fs Schema : Type 0} (t : Tools Fs Schema) (read : Fs → FilePath → Option Text)
    (law : IsDisk t read) (start : Fs) where
  module _ (root : FilePath) (stem : Text) where
    abbrev pub Named : List HistoryEntry → ℕ → Generated Schema → Generated Schema → Fs → Type 0
    Named entries id generated rollback fs =
        Written t read law root stem start (normalize_sql generated.sql ++ 10 ∷ [])
          (normalize_sql rollback.sql ++ 10 ∷ []) (t.snapshot_text generated.snapshot)
          (t.history_text (entries ++ added_entry t id stem ∷ [])) fs

    pub write_named-Ends :
        (entries : List HistoryEntry) (id : ℕ) (label : Text)
        (generated rollback : Generated Schema)
        → Ends
            (λ made fs.
              (made ≡ (id, stem, entries ++ added_entry t id stem ∷ []))
              × Named entries id generated rollback fs)
            (Unwritten t read law root stem start)
            (write_named t root entries id stem label generated rollback start)
    unfolding write_named
    write_named-Ends entries id label generated rollback =
        let new = entries ++ added_entry t id stem ∷ [] in
        let Made = λ (made : ℕ × Text × List HistoryEntry) (fs : Fs).
          (made ≡ (id, stem, new)) × Named entries id generated rollback fs in
        let Bad = Unwritten t read law root stem start in
        let Good = λ (u : Unit {0}) (fs : Fs). Same t read law start fs in
        let moving = move_temps t root stem >> pure (id, stem, new) in
        let writing =
          write_temps t root stem generated.sql rollback.sql generated.snapshot new >> moving in
        let checked = lift (validate_sql rollback.sql) >> writing in
        let checking = lift (validate_sql generated.sql) >> checked in
        let refusing = refuse_occupied t root stem label >> checking in
        let third = t.create_dir_all (folder_path root snapshots) >> refusing in
        let second = t.create_dir_all (folder_path root rollbacks) >> third in
        let create = λ (f : Folder) (fs : Fs) (same : Same t read law start fs).
          create-Ends t read law start root stem (folder_path root f) fs
            (t.create_dir_all (folder_path root f) fs)
            (λ q. law.create_law (folder_path root f) q fs) same in
        Ends-bind Good Made Bad (λ _. second) _
          (create migrations start (start-Same t read law start root stem))
          (λ _ fs same.
            Ends-bind Good Made Bad (λ _. third) _ (create rollbacks fs same)
              (λ _ fs same.
                Ends-bind Good Made Bad (λ _. refusing) _ (create snapshots fs same)
                  (λ _ fs same.
                    Ends-bind _ Made Bad (λ _. checking) _
                      (refuse-Ends t read law start root stem label fs (is_occupied t root stem fs)
                        refl same)
                      (λ _ fs ready.
                        Ends-bind Good Made Bad (λ _. checked) _
                          (lift-Ends t read law start root stem (validate_sql generated.sql) fs
                            ready.0)
                          (λ _ fs same.
                            Ends-bind Good Made Bad (λ _. writing) _
                              (lift-Ends t read law start root stem (validate_sql rollback.sql) fs
                                same)
                              (λ _ fs same.
                                Ends-bind _ Made Bad (λ _. moving) _
                                  (write_temps-Ends t read law root stem start ready.1 generated.sql
                                    rollback.sql generated.snapshot new fs
                                    (Same-Seen t read law start root stem fs same ready.1))
                                  (λ _ fs seen.
                                    Ends-bind _ Made Bad (λ _. pure (id, stem, new)) _
                                      (move_temps-Ends t read law root stem start ready.1 _ _ _ _ fs
                                        seen)
                                      (λ _ fs done. (refl, done)))))))))

  -- Where the history is.
  abbrev pub history_file : FilePath → FilePath
  history_file root = root /+ codes "history.toml"

  -- Every file that was there is there with its text, the history too.
  abbrev pub IsUntouched : FilePath → Fs → Type 0
  IsUntouched root fs =
      ((q : FilePath) (x : Text)
        → q ≢ history_file root
        → read start q ≡ some x
        → read fs q ≡ some x)
      × (read fs (history_file root) ≡ read start (history_file root))

  -- The three files and the history are in place under the names of the id, the source and the
  -- slug, and every other file is as it was.
  abbrev pub IsGenerated :
      MigrationSourceConfig
      → List HistoryEntry
      → Text
      → Generated Schema
      → Generated Schema
      → ℕ × Text × List HistoryEntry
      → Fs
      → Type 0
  IsGenerated config entries name generated rollback made fs =
      (id : ℕ) × (slug : Text) × (source : Text) × (next_migration_id (last_id entries) ≡ ok id)
      × (sanitize_name name ≡ ok slug)
      × (sanitize_name config.code ≡ ok source)
      × (made ≡ (
        id,
        stem_of t source id slug,
        entries ++ added_entry t id (stem_of t source id slug) ∷ [],
      ))
      × Named config.artifact_root (stem_of t source id slug) entries id generated rollback fs

  lifted :
      {A B : Type 0} (Q : B → Fs → Type 0) (R : Fs → Type 0) (r : Result Error A)
      (f : A → Action Fs Error B)
      → R start
      → ((a : A) → r ≡ ok a → Ends Q R (f a start))
      → Ends Q R ((lift r >>= f) start)
  lifted Q R (ok a) f bad k = k a refl
  lifted Q R (err _) f bad k = bad

  -- `write_generated` on a disk, for a history and two generated migrations: when it succeeds, the
  -- paths of the migration, its rollback and its snapshot, under the id, the source and the slug of
  -- the names, hold the new texts, `history.toml` holds the history with the entry added, and every
  -- other file that was there is there with its text. When it fails, at any step, every file that
  -- was there has its text, and `history.toml` is as it was.
  pub write_generated-Ends :
      (config : MigrationSourceConfig) (entries : List HistoryEntry) (name : Text)
      (generated rollback : Generated Schema)
      → Ends
          (IsGenerated config entries name generated rollback)
          (IsUntouched config.artifact_root)
          (write_generated t config entries name generated rollback start)
  unfolding write_generated
  write_generated-Ends config entries name generated rollback =
      let Q = IsGenerated config entries name generated rollback in
      let R = IsUntouched config.artifact_root in
      let label = λ (id : ℕ) (slug : Text). t.decimal id ++ codes "_" ++ slug in
      let finish = λ (id : ℕ) (slug source : Text).
        write_named t config.artifact_root entries id (stem_of t source id slug) (label id slug)
          generated rollback in
      let of_slug = λ (id : ℕ) (slug : Text). lift (sanitize_name config.code) >>= finish id slug in
      let of_id = λ (id : ℕ). lift (sanitize_name name) >>= of_slug id in
      let untouched : R start = (λ q x _ content. content, refl) in
      lifted Q R (next_migration_id (last_id entries)) of_id untouched (λ id counted.
        lifted Q R (sanitize_name name) (of_slug id) untouched (λ slug named.
          lifted Q R (sanitize_name config.code) (finish id slug) untouched (λ source coded.
            Ends-post
              (λ (made : ℕ × Text × List HistoryEntry) (fs : Fs).
                (made ≡ (
                  id,
                  stem_of t source id slug,
                  entries ++ added_entry t id (stem_of t source id slug) ∷ [],
                ))
                × Named config.artifact_root (stem_of t source id slug) entries id generated
                    rollback fs)
              Q R (λ made fs done. (id, slug, source, counted, named, coded, done.0, done.1))
              (finish id slug source start)
              (write_named-Ends config.artifact_root (stem_of t source id slug) entries id
                (label id slug) generated rollback))))
