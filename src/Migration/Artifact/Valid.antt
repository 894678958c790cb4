-- ===== src/Migration/Artifact/Valid.antt =====
-- Which lists of migrations `MigrationArtifactSet::new` accepts.
use toasty_mgr.Prelude.{
  ℕ, ◌≡◌, refl, ◌↔◌, false, List, [], ◌∷◌, arith, ok, All, IsUnique, Fresh, Fresh-cons_iff,
  Fresh-nil, nat_has_eq, text_has_eq, is_empty, Text,
}
use toasty_mgr.Prelude.Strings.{trim}
use toasty_mgr.Migration.Types.{OwnedMigrationFile, MigrationArtifactSet}
use toasty_mgr.Migration.Lineage.{ids}
use toasty_mgr.Migration.Artifact.{check_loop, new}

abbrev pub names : List OwnedMigrationFile → List Text
names [] = []
names (m ∷ ms) = m.name ∷ names ms

abbrev pub HasSql : OwnedMigrationFile → Type 0
HasSql m = is_empty (trim m.sql) ≡ false

-- Ids and names are unique, and no SQL is blank.
pub record IsValid (ms : List OwnedMigrationFile) : Type 0 where
  pub unique_ids : IsUnique (ids ms)
  pub unique_names : IsUnique (names ms)
  pub has_sql : All HasSql ms

abbrev Accepts : List ℕ → List Text → List OwnedMigrationFile → Type 0
Accepts seen_ids seen_names ms = Fresh seen_ids (ids ms) × Fresh seen_names (names ms) × IsValid ms

check_loop-Accepts :
    (seen_ids : List ℕ) (seen_names : List Text) (ms : List OwnedMigrationFile)
    → (check_loop seen_ids seen_names ms ≡ ok tt) ↔ Accepts seen_ids seen_names ms
unfolding check_loop
check_loop-Accepts seen_ids seen_names [] =
    (λ _. (tt, tt, record { unique_ids = tt; unique_names = tt; has_sql = tt }), λ _. refl)
check_loop-Accepts seen_ids seen_names (m ∷ ms) = ground (
  arith,
  Fresh-cons_iff m.id seen_ids (ids ms),
  Fresh-cons_iff m.name seen_names (names ms),
  check_loop-Accepts (m.id ∷ seen_ids) (m.name ∷ seen_names) ms,
)

-- `MigrationArtifactSet::new` accepts a list exactly when its ids are unique, its names are
-- unique and no SQL is blank, and then holds that list in its order.
pub new_iff :
    (ms : List OwnedMigrationFile) (set : MigrationArtifactSet)
    → (new ms ≡ ok set) ↔ ((set.migrations ≡ ms) × IsValid ms)
unfolding new
new_iff ms set =
    ground (arith, check_loop-Accepts [] [] ms, Fresh-nil (ids ms), Fresh-nil (names ms))
