-- ===== src/Migration/Lineage/NextId.antt =====
-- The id of a new migration.
use toasty_mgr.Prelude.{ℕ, ◌<◌, ◌≤◌, ◌≡◌, some, arith, ok, err, ltb, ◌⊎◌, inl, inr, Bool-cases, ◌+◌}
use toasty_mgr.Migration.Types.{id_exhausted}
use toasty_mgr.Migration.Lineage.{next_migration_id, u64_max}

-- A new id is above the previous one and fits a u64, so ids grow along a history; the only failure
-- is a previous id that is the largest u64.
pub next_migration_id_grows :
    (previous : ℕ)
    → previous ≤ u64_max
    → ((id : ℕ) × (next_migration_id (some previous) ≡ ok id) × (previous < id) × (id ≤ u64_max))
      ⊎ ((previous ≡ u64_max) × (next_migration_id (some previous) ≡ err id_exhausted))
unfolding next_migration_id
next_migration_id_grows previous h = elim (Bool-cases (ltb previous u64_max)) [
  | inl below ↦ inl (previous + 1, ground arith, omega arith, ground arith)
  | inr top ↦ inr (ground arith, ground arith)
]
