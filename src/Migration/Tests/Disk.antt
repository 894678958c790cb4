-- ===== src/Migration/Tests/Disk.antt =====
-- A disk in memory, and the generation of a migration on it.
use toasty_mgr.Prelude.{
  ◌+◌, ◌≡◌, ◌≢◌, refl, Bool, true, false, ◌&&◌, Bool-cases, inl, inr, Option, none, some, [], ◌∷◌,
  ◌↔◌, Text, codes, if◌then◌else◌, arith, ok,
}
use toasty_mgr.Prelude.Strings.{text_eq, text_eq_iff}
use toasty_mgr.Migration.Types.{FilePath, MigrationSourceConfig, managed}
use toasty_mgr.Migration.Generated.{Generated, Tools, write_generated}
use toasty_mgr.Migration.Generated.Disk.{Ends, IsDisk}
use toasty_mgr.Migration.Generated.Named.{IsGenerated, IsUntouched, write_generated-Ends}

unfoldable path_eq : FilePath → FilePath → Bool
path_eq [] [] = true
path_eq [] (y ∷ ys) = false
path_eq (x ∷ xs) [] = false
path_eq (x ∷ xs) (y ∷ ys) = text_eq x y && path_eq xs ys

path_eq_iff : (a b : FilePath) → (path_eq a b ≡ true) ↔ (a ≡ b)
unfolding path_eq
path_eq_iff [] [] = (λ _. refl, λ _. refl)
path_eq_iff [] (y ∷ ys) = ground arith
path_eq_iff (x ∷ xs) [] = ground arith
path_eq_iff (x ∷ xs) (y ∷ ys) = ground (arith, text_eq_iff x y, path_eq_iff xs ys)

path_eq-same : (a : FilePath) → path_eq a a ≡ true
path_eq-same a = (path_eq_iff a a).1 refl

path_eq-other : (a b : FilePath) → a ≢ b → path_eq a b ≡ false
path_eq-other a b h = elim (Bool-cases (path_eq a b)) [
  | inl same ↦ absurd (h ((path_eq_iff a b).0 same))
  | inr other ↦ other
]

abbrev MemoryDisk : Type 0
MemoryDisk = FilePath → Option Text

abbrev content_of : MemoryDisk → FilePath → Option Text
content_of disk p = disk p

abbrev is_there : Option Text → Bool
is_there none = false
is_there (some _) = true

abbrev stored : FilePath → Option Text → MemoryDisk → MemoryDisk
stored p x disk q = if path_eq q p then x else disk q

abbrev disk_tools : Tools MemoryDisk Text
disk_tools = record {
  exists = λ disk p. is_there (disk p);
  create_dir_all = λ p disk. (ok tt, disk);
  write = λ p x disk. (ok tt, stored p (some x) disk);
  rename = λ a b disk. (ok tt, stored b (disk a) (stored a none disk));
  snapshot_text = λ schema. schema;
  history_text = λ entries. elim entries [ [] ↦ codes "empty" | _ ∷ _ ↦ codes "entries" ];
  decimal = λ n. (b'0' + n) ∷ [];
}

is_there-false : (x : Option Text) → is_there x ≡ false → x ≡ none
is_there-false none h = refl
is_there-false (some _) h = cc

disk_IsDisk : IsDisk disk_tools content_of
disk_IsDisk = record {
  exists_law = λ disk p h. is_there-false (disk p) h;
  create_law = λ p q disk. refl;
  write_law = λ p x disk. (rw (path_eq-same p) refl, λ q other. rw (path_eq-other q p other) refl);
  rename_law = λ a b disk apart. (
    rw (path_eq-same b) refl,
    rw (path_eq-other a b apart, path_eq-same a) refl,
    λ q from to. rw (path_eq-other q b to, path_eq-other q a from) refl,
  );
}

abbrev main_config : MigrationSourceConfig
main_config = record {
  code = codes "main";
  artifact_root = codes "data" ∷ [];
  migration_group = codes "main";
  backend_override = none;
  namespace = none;
  scope = managed;
}

abbrev users_table : Generated Text
users_table = record { sql = codes "CREATE TABLE users (id INT)"; snapshot = codes "users" }

abbrev users_drop : Generated Text
users_drop = record { sql = codes "DROP TABLE users"; snapshot = codes "nothing" }

-- A history, and a file that has nothing to do with it.
abbrev old_disk : MemoryDisk
old_disk =
    stored (codes "data" ∷ codes "history.toml" ∷ []) (some (codes "empty"))
      (stored (codes "data" ∷ codes "notes" ∷ []) (some (codes "keep")) (λ _. none))

write_generated-Ends_example :
    Ends
      (IsGenerated disk_tools content_of disk_IsDisk old_disk main_config []
        (codes "Add users")
        users_table
        users_drop)
      (IsUntouched disk_tools content_of disk_IsDisk old_disk (codes "data" ∷ []))
      (write_generated disk_tools main_config []
        (codes "Add users")
        users_table
        users_drop
        old_disk)
write_generated-Ends_example =
    write_generated-Ends disk_tools content_of disk_IsDisk old_disk main_config []
      (codes "Add users") users_table users_drop
