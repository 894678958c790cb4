-- ===== src/Migration/Lineage/Applied.antt =====
-- What `validate_applied_ids` and `applied_lineage` accept.
use toasty_mgr.Prelude.{
  ℕ, ◌≡◌, refl, sym, ◌↔◌, Bool, true, false, List, [], ◌∷◌, ◌++◌, arith, ok, contains, All,
  nat_has_eq, Bool-cases, inl, inr, >>=-eq-ok, ap,
}
use toasty_mgr.Migration.Types.{MigrationArtifactSet, OwnedMigrationFile}
use toasty_mgr.Migration.Lineage.{
  ids, unknown_ids, validate_applied_ids, lineage_loop, applied_lineage,
}

-- Every applied id is one of the tracked ones.
abbrev pub Tracked : List ℕ → List ℕ → Type 0
Tracked tracked applied = All (λ id. contains tracked id ≡ true) applied

unknown_ids-nil :
    (tracked applied : List ℕ) → (unknown_ids tracked applied ≡ []) ↔ Tracked tracked applied
unfolding unknown_ids
unknown_ids-nil tracked [] = (λ _. tt, λ _. refl)
unknown_ids-nil tracked (x ∷ xs) = ground (arith, unknown_ids-nil tracked xs)

-- The check passes exactly when every applied id is tracked.
pub validate_applied_ids_iff :
    (artifacts : MigrationArtifactSet) (applied : List ℕ)
    → (validate_applied_ids artifacts applied ≡ ok tt) ↔ Tracked (ids artifacts.migrations) applied
unfolding validate_applied_ids
validate_applied_ids_iff artifacts applied =
    ground (arith, unknown_ids-nil (ids artifacts.migrations) applied)

-- After the first pending migration no further one may be applied.
abbrev NoneApplied : List ℕ → List OwnedMigrationFile → Type 0
NoneApplied applied ms = All (λ (m : OwnedMigrationFile). contains applied m.id ≡ false) ms

lineage_loop_pending :
    (applied : List ℕ) (ms : List OwnedMigrationFile) (l : List ℕ)
    → lineage_loop applied true ms ≡ ok l
    → (l ≡ []) × NoneApplied applied ms
unfolding lineage_loop
lineage_loop_pending applied [] l h = ground arith
lineage_loop_pending applied (m ∷ ms) l h = ground (arith, lineage_loop_pending applied ms l)

-- The tracked migrations are the applied ones, in order, followed by the pending ones.
abbrev pub IsLineage : List ℕ → List OwnedMigrationFile → List ℕ → Type 0
IsLineage applied ms l =
    (done : List OwnedMigrationFile) × (pending : List OwnedMigrationFile) × (ms ≡ done ++ pending)
    × (ids done ≡ l)
    × All (λ (m : OwnedMigrationFile). contains applied m.id ≡ true) done
    × NoneApplied applied pending

lineage_loop-IsLineage :
    (applied : List ℕ) (ms : List OwnedMigrationFile) (l : List ℕ)
    → lineage_loop applied false ms ≡ ok l
    → IsLineage applied ms l
unfolding lineage_loop
lineage_loop-IsLineage applied [] l h = ([], [], refl, ground arith, tt, tt)
lineage_loop-IsLineage applied (m ∷ ms) l h = elim (Bool-cases (contains applied m.id)) [
  | inl here ↦
      let (l', e, cons) =
        >>=-eq-ok (lineage_loop applied false ms) (λ l'. ok (m.id ∷ l')) (rw (here) at h) in
      let (done, pending, split, same, hd, hp) = lineage_loop-IsLineage applied ms l' e in
      (m ∷ done, pending, ap (λ (x : List OwnedMigrationFile). m ∷ x) split, cc, (here, hd), hp)
  | inr later ↦
      let tail = lineage_loop_pending applied ms l (rw later at h) in
      ([], m ∷ ms, refl, sym tail.0, tt, (later, tail.1))
]

lineage_loop-pending_ok :
    (applied : List ℕ) (ms : List OwnedMigrationFile) (seen : Bool)
    → NoneApplied applied ms
    → lineage_loop applied seen ms ≡ ok []
unfolding lineage_loop
lineage_loop-pending_ok applied [] seen h = refl
lineage_loop-pending_ok applied (m ∷ ms) seen h =
    ground (arith, lineage_loop-pending_ok applied ms true h.1)

IsLineage-lineage_loop :
    (applied : List ℕ) (done pending : List OwnedMigrationFile)
    → All (λ (m : OwnedMigrationFile). contains applied m.id ≡ true) done
    → NoneApplied applied pending
    → lineage_loop applied false (done ++ pending) ≡ ok (ids done)
unfolding lineage_loop
IsLineage-lineage_loop applied [] pending hd hp = lineage_loop-pending_ok applied pending false hp
IsLineage-lineage_loop applied (m ∷ done) pending hd hp =
    ground (arith, IsLineage-lineage_loop applied done pending hd.1 hp)

-- The lineage is accepted exactly when the tracked migrations are applied ones followed by pending
-- ones only, with no gap, and then the result is the ids of the applied ones, in order.
pub applied_lineage_iff :
    (artifacts : MigrationArtifactSet) (applied l : List ℕ)
    → (applied_lineage artifacts applied ≡ ok l) ↔ IsLineage applied artifacts.migrations l
unfolding applied_lineage
applied_lineage_iff artifacts applied l = (
  lineage_loop-IsLineage applied artifacts.migrations l,
  λ (done, pending, split, same, hd, hp).
      rw (split, ← same) (IsLineage-lineage_loop applied done pending hd hp),
)
