-- ===== src/Migration/Artifact/Names.antt =====
-- The comparison of the names of the files with those in the history (migration/artifact.rs).
use mathlib.Core.Path.{subst}
use mathlib.Core.Bool.{false≢true}
use toasty_mgr.Prelude.{
  ◌≡◌, refl, sym, ap, ◌∙◌, ◌↔◌, Bool, true, false, ◌&&◌, List, [], ◌∷◌, Text, text_eq, contains,
  text_has_eq, filter, Option, none, some, arith, Bool-cases, inl, inr, codes,
}
use toasty_mgr.Prelude.Strings.{text_eq_iff}
use toasty_mgr.Migration.Types.{FilePath, HistoryEntry}
use toasty_mgr.Migration.Artifact.{
  FileSystem, file_names, is_subset, same_names, migrations_dir, snapshots_dir, rollbacks_dir,
  entry_names, entry_snapshots, names_match,
}

contains-filter :
    (p : Text → Bool) (xs : List Text) (a : Text)
    → contains (filter p xs) a ≡ (contains xs a && p a)
contains-filter p [] a = refl
contains-filter p (x ∷ xs) a = elim (Bool-cases (text_eq x a)) [
  | inl same ↦ ground (arith, contains-filter p xs a, ap p ((text_eq_iff x a).0 same))
  | inr other ↦ ground (arith, contains-filter p xs a)
]

-- Everything in the one list is in the other.
abbrev pub IsWithin : List Text → List Text → Type 0
IsWithin xs ys = (a : Text) → contains xs a ≡ true → contains ys a ≡ true

is_subset-IsWithin : (xs ys : List Text) → is_subset xs ys ≡ true → IsWithin xs ys
is_subset-IsWithin [] ys h a k = absurd (false≢true k)
is_subset-IsWithin (x ∷ xs) ys h a k = elim (Bool-cases (text_eq x a)) [
  | inl same ↦ subst (λ y. contains ys y ≡ true) ((text_eq_iff x a).0 same) (ground arith)
  | inr other ↦ is_subset-IsWithin xs ys (ground arith) a (ground arith)
]

IsWithin-is_subset : (xs ys : List Text) → IsWithin xs ys → is_subset xs ys ≡ true
IsWithin-is_subset [] ys h = refl
IsWithin-is_subset (x ∷ xs) ys h = ground (
  arith,
  h x (rw ((text_eq_iff x x).1 refl) refl),
  IsWithin-is_subset xs ys (λ a k. h a (ground arith)),
)

same_names-IsWithin :
    (xs ys : List Text) → (same_names xs ys ≡ true) ↔ (IsWithin xs ys × IsWithin ys xs)
same_names-IsWithin xs ys = (
  λ h. (is_subset-IsWithin xs ys (ground arith), is_subset-IsWithin ys xs (ground arith)),
  λ h. ground (arith, IsWithin-is_subset xs ys h.0, IsWithin-is_subset ys xs h.1),
)

module _ {Schema : Type 0} (fs : FileSystem Schema) where
  -- The directory lists the name, and the name has the extension.
  abbrev pub Lists : FilePath → Text → Text → Type 0
  Lists path extension name =
      (contains (fs.read_dir path) name ≡ true) × (fs.extension name ≡ some extension)

  HasExtension : (o : Option Text) (extension : Text) → Type 0
  HasExtension o extension =
      (elim o [ none ↦ false | some x ↦ text_eq x extension ] ≡ true) ↔ (o ≡ some extension)

  extension_iff : (o : Option Text) (extension : Text) → HasExtension o extension
  unfolding HasExtension
  extension_iff none extension = (λ h. absurd (false≢true h), λ h. cc)
  extension_iff (some x) extension = ground (arith, text_eq_iff x extension)

  file_names-Lists :
      (path : FilePath) (extension name : Text)
      → (contains (file_names fs path extension) name ≡ true) ↔ Lists path extension name
  unfolding file_names HasExtension
  file_names-Lists path extension name =
      let both =
        contains-filter
          (λ name. elim (fs.extension name) [ none ↦ false | some x ↦ text_eq x extension ])
          (fs.read_dir path) name in
      let kind = extension_iff (fs.extension name) extension in
      (
        λ h. let k = sym both ∙ h in (ground arith, kind.0 (ground arith)),
        λ h. both ∙ rw (h.0, kind.1 h.1) refl,
      )

  -- The migrations and the snapshots on disk are those that the entries name, and there is no
  -- rollback that no entry names.
  pub record AreNamed (root : FilePath) (entries : List HistoryEntry) : Type 0 where
    pub migrations :
        (name : Text)
        → Lists (migrations_dir root) (codes "sql") name
          ↔ (contains (entry_names entries) name ≡ true)
    pub snapshots :
        (name : Text)
        → Lists (snapshots_dir root) (codes "toml") name
          ↔ (contains (entry_snapshots entries) name ≡ true)
    pub rollbacks :
        (name : Text)
        → Lists (rollbacks_dir root) (codes "sql") name
        → contains (entry_names entries) name ≡ true

  abbrev Agree : FilePath → Text → List Text → Type 0
  Agree path extension expected =
      (name : Text) → Lists path extension name ↔ (contains expected name ≡ true)

  same_names-Agree :
      (path : FilePath) (extension : Text) (expected : List Text)
      → (same_names (file_names fs path extension) expected ≡ true) ↔ Agree path extension expected
  same_names-Agree path extension expected =
      let both = same_names-IsWithin (file_names fs path extension) expected in
      (
        λ h name.
            let listed = file_names-Lists path extension name in
            let (there, here) = both.0 h in
            (λ l. there name (listed.1 l), λ k. listed.0 (here name k)),
        λ h. both.1 (
          λ name k. (h name).0 ((file_names-Lists path extension name).0 k),
          λ name k. (file_names-Lists path extension name).1 ((h name).1 k),
        ),
      )

  pub names_match-AreNamed :
      (root : FilePath) (entries : List HistoryEntry)
      → (names_match fs root entries ≡ true) ↔ AreNamed root entries
  names_match-AreNamed root entries =
      let m = same_names-Agree (migrations_dir root) (codes "sql") (entry_names entries) in
      let s = same_names-Agree (snapshots_dir root) (codes "toml") (entry_snapshots entries) in
      let rolled = file_names fs (rollbacks_dir root) (codes "sql") in
      let listed = file_names-Lists (rollbacks_dir root) (codes "sql") in
      (
        λ h. record {
          migrations = m.0 (ground arith);
          snapshots = s.0 (ground arith);
          rollbacks = λ name l.
              is_subset-IsWithin rolled (entry_names entries) (ground arith) name
                ((listed name).1 l);
        },
        λ h.
            rw
              (
                m.1 h.migrations,
                s.1 h.snapshots,
                IsWithin-is_subset rolled (entry_names entries)
                    (λ name k. h.rollbacks name ((listed name).0 k)),
              )
              refl,
      )
