-- ===== src/Prelude/Map.antt =====
-- Rust's `HashMap`: an association list whose order stands for the iteration order.
use mathlib.Core.Path.{◌≡◌, refl}
use mathlib.Core.Bool.{Bool, true, false}
use mathlib.Core.Option.{Option, none, some}
use mathlib.Core.List.{List, [], ◌∷◌}
use native.Mathlib.Omega.{arith}
use toasty_mgr.Prelude.Lists.{contains}
use toasty_mgr.Prelude.Tests.{Eq, ◌==◌, if◌then◌else◌}

abbrev pub Map {ℓ κ} : Type ℓ → Type κ → Type (ℓ ⊔ κ)
Map K V = List (K × V)

abbrev pub keys {ℓ κ} : {K : Type ℓ} {V : Type κ} → Map K V → List K
keys [] = []
keys ((k, _) ∷ m) = k ∷ keys m

module _ {ℓ κ} {K : Type ℓ} {V : Type κ} ⦃e : Eq K⦄ where
  unfoldable pub get : Map K V → K → Option V
  get [] k = none
  get ((j, v) ∷ m) k = if j == k then some v else get m k

  unfoldable pub contains_key : Map K V → K → Bool
  contains_key m k = elim (get m k) [ none ↦ false | some _ ↦ true ]

  pub contains_key-none : (m : Map K V) (k : K) → get m k ≡ none → contains_key m k ≡ false
  unfolding contains_key
  contains_key-none m k h = rw (contains_key, h) refl

  pub contains_key-some : (m : Map K V) (k : K) (v : V) → get m k ≡ some v → contains_key m k ≡ true
  unfolding contains_key
  contains_key-some m k v h = rw (contains_key, h) refl

  unfoldable pub insert : Map K V → K → V → Map K V
  insert [] k v = (k, v) ∷ []
  insert ((j, w) ∷ m) k v = if j == k then (k, v) ∷ m else (j, w) ∷ insert m k v

  unfoldable pub remove : Map K V → K → Map K V
  remove [] k = []
  remove ((j, w) ∷ m) k = let rest = remove m k in if j == k then rest else (j, w) ∷ rest

  pub get-insert :
      (m : Map K V) (k : K) (v : V) (j : K)
      → get (insert m k v) j ≡ (if k == j then some v else get m j)
  unfolding get insert
  get-insert [] k v j = refl
  get-insert ((i, w) ∷ m) k v j =
      ground (arith, e.same_iff k j, e.same_iff i k, e.same_iff i j, get-insert m k v j)

  pub get-remove : (m : Map K V) (k j : K) → get (remove m k) j ≡ (if k == j then none else get m j)
  unfolding get remove
  get-remove [] k j = ground arith
  get-remove ((i, w) ∷ m) k j =
      ground (arith, e.same_iff k j, e.same_iff i k, e.same_iff i j, get-remove m k j)

  pub get-keys : (m : Map K V) (k : K) → contains (keys m) k ≡ false → get m k ≡ none
  unfolding get
  get-keys [] k h = refl
  get-keys ((j, v) ∷ m) k h = ground (arith, get-keys m k)
