-- ===== src/Migration/Lineage.antt =====
-- The ids of a source's migrations (migration/manager.rs): which are applied, in which order they
-- are rolled back, and the id that comes next.
pub mod Applied
pub mod Rollback
pub mod NextId
use toasty_mgr.Prelude.{
  ℕ, zero, suc, ◌+◌, ◌^◌, ◌-◌, Bool, true, false, not, Option, none, some, List, [], ◌∷◌, map, ltb,
  nat_eq, nat_has_eq, if◌then◌else◌, length, take, contains, filter, is_empty, Result, ok, err,
  ◌>>=◌,
}
use mathlib.Core.List.{reverse}
use toasty_mgr.Migration.Types.{
  OwnedMigrationFile, MigrationArtifactSet, LedgerMigration, BackendMigration,
  MigrationRollbackSelection, steps, target, Error, unknown_applied, lineage_gap,
  steps_not_positive, too_many_steps, target_not_applied, id_exhausted,
}
use toasty_mgr.Prelude.{Text}

abbrev pub ids : List OwnedMigrationFile → List ℕ
ids [] = []
ids (m ∷ ms) = m.id ∷ ids ms

-- `HashSet` differences keep the iteration order of the first set.
unfoldable pub unknown_ids : List ℕ → List ℕ → List ℕ
unknown_ids tracked [] = []
unknown_ids tracked (id ∷ rest) =
    if contains tracked id then unknown_ids tracked rest else id ∷ unknown_ids tracked rest

unfoldable pub validate_applied_ids : MigrationArtifactSet → List ℕ → Result Error (Unit {0})
unfolding unknown_ids
validate_applied_ids artifacts applied =
    let unknown = unknown_ids (ids artifacts.migrations) applied in
    if is_empty unknown then ok tt else err (unknown_applied unknown)

unfoldable pub ledger_migrations : MigrationArtifactSet → List LedgerMigration
ledger_migrations artifacts = map (λ m. record { id = m.id; name = m.name }) artifacts.migrations

unfoldable pub backend_migration : Text → OwnedMigrationFile → Text → BackendMigration
backend_migration source m sql = record {
  source_code = source;
  id = m.id;
  name = m.name;
  sql = sql;
}

-- The loop of `applied_lineage`, with `pending_seen`; the pushed ids come back in order.
unfoldable pub lineage_loop : List ℕ → Bool → List OwnedMigrationFile → Result Error (List ℕ)
lineage_loop applied pending_seen [] = ok []
lineage_loop applied pending_seen (m ∷ ms) =
    let here = contains applied m.id in
    let rest = lineage_loop applied (if here then pending_seen else true) ms in
    if here
    then (if pending_seen then err (lineage_gap m.id) else do l ← rest; ok (m.id ∷ l))
    else rest

unfoldable pub applied_lineage : MigrationArtifactSet → List ℕ → Result Error (List ℕ)
unfolding lineage_loop
applied_lineage artifacts applied = lineage_loop applied false artifacts.migrations

-- `&applied[index..]` for the position of `target`
unfoldable pub from_target : ℕ → List ℕ → Option (List ℕ)
from_target t [] = none
from_target t (id ∷ rest) = if nat_eq id t then some (id ∷ rest) else from_target t rest

abbrev pub select_suffix : ℕ → Option (List ℕ) → Result Error (List ℕ)
select_suffix t none = err (target_not_applied t)
select_suffix t (some suffix) = ok (reverse suffix)

unfoldable pub select_rollback_ids : List ℕ → MigrationRollbackSelection → Result Error (List ℕ)
unfolding from_target
select_rollback_ids applied (steps zero) = err steps_not_positive
select_rollback_ids applied (steps (suc n)) =
    if ltb (length applied) (suc n)
    then err (too_many_steps (suc n) (length applied))
    else ok (take (suc n) (reverse applied))
select_rollback_ids applied (target t) = select_suffix t (from_target t applied)

abbrev pub u64_max : ℕ
u64_max = 2 ^ 64 - 1

-- `id.checked_add(1)` on a u64
unfoldable pub next_migration_id : Option ℕ → Result Error ℕ
next_migration_id none = ok 1
next_migration_id (some id) = if ltb id u64_max then ok (id + 1) else err id_exhausted
