-- ===== src/Prelude/Strings/Trim.antt =====
-- What trimming keeps of a text.
use toasty_mgr.Prelude.Lists.{All, first, last}
use toasty_mgr.Prelude.Tests.{if◌then◌else◌}
use toasty_mgr.Prelude.Strings.{Text, keep_end, trim_start_matches, trim_end_matches, trim_matches}
use Prim.Native.Nat.{ℕ}
use mathlib.Core.Path.{◌≡◌, refl, ap}
use mathlib.Core.Bool.{Bool, true, false}
use mathlib.Core.Option.{some}
use mathlib.Core.List.{[], ◌∷◌}
use native.Mathlib.Omega.{arith}

module _ (p : ℕ → Bool) where
  keep_end-All : (P : ℕ → Type 0) (c : ℕ) (s : Text) → P c → All P s → All P (keep_end p c s)
  keep_end-All P c [] hc hs = elim (p c) as (λ b. All P (if b then [] else c ∷ [])) [
    | true ↦ tt
    | false ↦ (hc, tt)
  ]
  keep_end-All P c (d ∷ s) hc hs = (hc, hs)

  trim_start_matches-All : (P : ℕ → Type 0) (s : Text) → All P s → All P (trim_start_matches p s)
  unfolding trim_start_matches
  trim_start_matches-All P [] h = tt
  trim_start_matches-All P (c ∷ s) h =
      elim (p c) as (λ b. All P (if b then trim_start_matches p s else c ∷ s)) [
        | true ↦ trim_start_matches-All P s h.1
        | false ↦ h
      ]

  trim_end_matches-All : (P : ℕ → Type 0) (s : Text) → All P s → All P (trim_end_matches p s)
  unfolding trim_end_matches
  trim_end_matches-All P [] h = tt
  trim_end_matches-All P (c ∷ s) h =
      keep_end-All P c (trim_end_matches p s) h.0 (trim_end_matches-All P s h.1)

  first-trim_start_matches :
      (s : Text) (c : ℕ) → first (trim_start_matches p s) ≡ some c → p c ≡ false
  unfolding trim_start_matches
  first-trim_start_matches [] c h = cc
  first-trim_start_matches (d ∷ s) c h = ground (arith, first-trim_start_matches s c)

  keep_end-last :
      (c : ℕ) (s : Text) (d : ℕ)
      → (last s ≡ some d → p d ≡ false)
      → last (keep_end p c s) ≡ some d
      → p d ≡ false
  keep_end-last c [] d h e = ground arith
  keep_end-last c (x ∷ s) d h e = h e

  last-trim_end_matches : (s : Text) (c : ℕ) → last (trim_end_matches p s) ≡ some c → p c ≡ false
  unfolding trim_end_matches
  last-trim_end_matches [] c h = cc
  last-trim_end_matches (d ∷ s) c h =
      keep_end-last d (trim_end_matches p s) c (last-trim_end_matches s c) h

  keep_end-first : (c : ℕ) (s : Text) (d : ℕ) → first (keep_end p c s) ≡ some d → c ≡ d
  keep_end-first c [] d h = ground arith
  keep_end-first c (x ∷ s) d h = ground arith

  first-trim_end_matches :
      (s : Text) (c : ℕ) → first (trim_end_matches p s) ≡ some c → first s ≡ some c
  unfolding trim_end_matches
  first-trim_end_matches [] c h = h
  first-trim_end_matches (d ∷ s) c h = ap some (keep_end-first d (trim_end_matches p s) c h)

  pub first-trim_matches : (s : Text) (c : ℕ) → first (trim_matches p s) ≡ some c → p c ≡ false
  unfolding trim_matches
  first-trim_matches s c h =
      first-trim_start_matches s c (first-trim_end_matches (trim_start_matches p s) c h)

  pub last-trim_matches : (s : Text) (c : ℕ) → last (trim_matches p s) ≡ some c → p c ≡ false
  unfolding trim_matches
  last-trim_matches s = last-trim_end_matches (trim_start_matches p s)

  pub trim_matches-All : (P : ℕ → Type 0) (s : Text) → All P s → All P (trim_matches p s)
  unfolding trim_matches
  trim_matches-All P s h = trim_end_matches-All P _ (trim_start_matches-All P s h)

  -- What begins and ends outside the test is left whole.
  trim_end_matches-id :
      (s : Text) → ((c : ℕ) → last s ≡ some c → p c ≡ false) → trim_end_matches p s ≡ s
  unfolding trim_end_matches
  trim_end_matches-id [] h = refl
  trim_end_matches-id (c ∷ []) h = ground (arith, h c)
  trim_end_matches-id (c ∷ d ∷ s) h = rw (trim_end_matches-id (d ∷ s) h)

  pub trim_matches-id :
      (s : Text)
      → ((c : ℕ) → first s ≡ some c → p c ≡ false)
      → ((c : ℕ) → last s ≡ some c → p c ≡ false)
      → trim_matches p s ≡ s
  unfolding trim_matches
  trim_matches-id [] hf hl = refl
  trim_matches-id (c ∷ s) hf hl = rw (hf c refl) (trim_end_matches-id (c ∷ s) hl)
