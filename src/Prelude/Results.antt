-- ===== src/Prelude/Results.antt =====
-- Rust's `Result<A, E>` and its `?` operator.
use mathlib.Core.Path.{◌≡◌, refl}
use mathlib.Core.Logic.{◌⊎◌, inl, inr}
use mathlib.Core.Bool.{Bool, true, false}
use mathlib.Core.Option.{Option, none, some}
use mathlib.Core.List.{List, [], ◌∷◌}

pub data Result {ℓ κ} (E : Type ℓ) (A : Type κ) : Type (ℓ ⊔ κ) where
  ok : A → Result E A
  err : E → Result E A

module _ {ℓ κ} {E : Type ℓ} {A : Type κ} where
  pub Result-cases : (r : Result E A) → ((a : A) × (r ≡ ok a)) ⊎ ((e : E) × (r ≡ err e))
  Result-cases (ok a) = inl (a, refl)
  Result-cases (err e) = inr (e, refl)

  -- `option.ok_or(e)`, `option.context(e)`
  abbrev pub ok_or : Option A → E → Result E A
  ok_or none e = err e
  ok_or (some a) e = ok a

-- `if c { bail!(e) }`
abbrev pub bail_if {ℓ} : {E : Type ℓ} → Bool → E → Result E (Unit {0})
bail_if false e = ok tt
bail_if true e = err e

infixl 5 ◌>>=◌ ◌>>◌
abbrev pub ◌>>=◌ {ℓ κ μ} :
    {E : Type ℓ} {A : Type κ} {B : Type μ} → Result E A → (A → Result E B) → Result E B
err x >>= next = err x
ok v >>= next = next v

abbrev pub ◌>>◌ {ℓ μ} : {E : Type ℓ} {B : Type μ} → Result E (Unit {0}) → Result E B → Result E B
first >> next = first >>= λ _. next

-- `iter.map(f).collect::<Result<Vec<_>>>()`: the first error ends it.
unfoldable pub collect {ℓ κ μ} :
    {E : Type ℓ} {A : Type κ} {B : Type μ} → (A → Result E B) → List A → Result E (List B)
collect f [] = ok []
collect f (x ∷ xs) = let rest = collect f xs in do y ← f x; ys ← rest; ok (y ∷ ys)

-- Inversion of a successful bind.
pub >>=-eq-ok {ℓ κ μ} :
    {E : Type ℓ} {A : Type κ} {B : Type μ} (r : Result E A) (next : A → Result E B) {value : B}
    → (r >>= next) ≡ ok value
    → (given : A) × (r ≡ ok given) × (next given ≡ ok value)
>>=-eq-ok (err x) next h = cc
>>=-eq-ok (ok v) next h = (v, refl, h)

-- Inversion of a successful `collect`: the first entry, and the rest.
pub collect-cons {ℓ κ μ} :
    {E : Type ℓ} {A : Type κ} {B : Type μ} (f : A → Result E B) (x : A) (xs : List A) {l : List B}
    → collect f (x ∷ xs) ≡ ok l
    → (y : B) × (ys : List B) × (f x ≡ ok y) × (collect f xs ≡ ok ys) × (l ≡ y ∷ ys)
unfolding collect
collect-cons f x xs h =
    let (y, hy, k) = >>=-eq-ok (f x) (λ y. collect f xs >>= λ ys. ok (y ∷ ys)) h in
    let (ys, hs, e) = >>=-eq-ok (collect f xs) (λ ys. ok (y ∷ ys)) k in (y, ys, hy, hs, cc)
