-- ===== src/Migration/Lineage/Rollback.antt =====
-- The ids that `select_rollback_ids` chooses.
use mathlib.Core.List.{reverse, reverse-reverse, reverse-append}
use toasty_mgr.Prelude.{
  ℕ, zero, suc, ◌<◌, ◌≡◌, refl, sym, ap, ◌⊎◌, inl, inr, false, List, [], ◌∷◌, ◌++◌, Option, none,
  some, arith, Result, ok, err, length, take, drop, contains, nat_has_eq, Bool-cases,
  take-append-drop, length-take_le, length-reverse, ltb, nat_eq, first,
}
use toasty_mgr.Migration.Types.{
  MigrationRollbackSelection, steps, target, Error, steps_not_positive, too_many_steps,
  target_not_applied,
}
use toasty_mgr.Migration.Lineage.{from_target, select_suffix, select_rollback_ids}

-- The selected ids are the last applied ones, newest first.
abbrev pub IsNewest : List ℕ → List ℕ → Type 0
IsNewest applied selected = (kept : List ℕ) × (applied ≡ kept ++ reverse selected)

from_target-some :
    (t : ℕ) (applied suffix : List ℕ)
    → from_target t applied ≡ some suffix
    → (kept : List ℕ) × (applied ≡ kept ++ suffix)
      × (first suffix ≡ some t)
      × (contains kept t ≡ false)
unfolding from_target
from_target-some t [] suffix h = cc
from_target-some t (id ∷ rest) suffix h = elim (Bool-cases (nat_eq id t)) [
  | inl same ↦ ([], ground arith, ground arith, refl)
  | inr other ↦
      let (kept, split, head, fresh) = from_target-some t rest suffix (rw other at h) in
      (id ∷ kept, ap (λ (x : List ℕ). id ∷ x) split, head, rw other fresh)
]

from_target-none :
    (t : ℕ) (applied : List ℕ) → from_target t applied ≡ none → contains applied t ≡ false
unfolding from_target
from_target-none t [] h = refl
from_target-none t (id ∷ rest) h = ground (arith, from_target-none t rest)

-- What a selection may lead to. For n steps: the n newest ids, newest first, or a refusal of zero
-- steps or of more than are applied. For a target: the ids from the newest one down to the target,
-- or a refusal of a target that is not applied.
abbrev pub Selects : List ℕ → MigrationRollbackSelection → Result Error (List ℕ) → Type 0
Selects applied (steps n) (ok l) = (0 < n) × (length l ≡ n) × IsNewest applied l
Selects applied (steps n) (err e) =
    ((n ≡ 0) × (e ≡ steps_not_positive))
    ⊎ ((length applied < n) × (e ≡ too_many_steps n (length applied)))
Selects applied (target t) (ok l) =
    (kept : List ℕ) × (applied ≡ kept ++ reverse l)
    × (first (reverse l) ≡ some t)
    × (contains kept t ≡ false)
Selects applied (target t) (err e) = (contains applied t ≡ false) × (e ≡ target_not_applied t)

IsNewest-reverse : (n : ℕ) (applied : List ℕ) → IsNewest applied (take n (reverse applied))
IsNewest-reverse n applied = (
  reverse (drop n (reverse applied)),
  rw (← reverse-append) (rw take-append-drop (sym (reverse-reverse applied))),
)

select_suffix-Selects :
    (t : ℕ) (applied : List ℕ) (found : Option (List ℕ))
    → from_target t applied ≡ found
    → Selects applied (target t) (select_suffix t found)
select_suffix-Selects t applied none e = (from_target-none t applied e, refl)
select_suffix-Selects t applied (some suffix) e =
    rw reverse-reverse (from_target-some t applied suffix e)

-- Every selection is answered by the ids that it stands for, or refused for the stated reason.
pub select_rollback_ids-Selects :
    (applied : List ℕ) (selection : MigrationRollbackSelection)
    → Selects applied selection (select_rollback_ids applied selection)
unfolding select_rollback_ids
select_rollback_ids-Selects applied (steps zero) = inl (refl, refl)
select_rollback_ids-Selects applied (steps (suc n)) =
    elim (Bool-cases (ltb (length applied) (suc n))) [
      | inl short ↦ rw short (inr (ground arith, refl))
      | inr enough ↦ rw enough (
        omega arith,
        length-take_le (suc n) (reverse applied) (rw length-reverse (ground arith)),
        IsNewest-reverse (suc n) applied,
      )
    ]
select_rollback_ids-Selects applied (target t) =
    select_suffix-Selects t applied (from_target t applied) refl
