-- ===== src/Prelude/Action.antt =====
-- An operation that changes a state and may fail. What was written before a failure stays written,
-- so the state comes back beside the error too.
use mathlib.Core.Bool.{Bool, true, false}
use mathlib.Core.List.{List, [], ◌∷◌}
use toasty_mgr.Prelude.Results.{Result, ok, err}

abbrev pub Action {ℓ κ μ} : Type ℓ → Type κ → Type μ → Type (ℓ ⊔ κ ⊔ μ)
Action S E A = S → Result E A × S

module _ {ℓ κ μ} {S : Type ℓ} {E : Type κ} {A : Type μ} where
  abbrev pub pure : A → Action S E A
  pure a s = (ok a, s)

  abbrev pub fail : E → Action S E A
  fail e s = (err e, s)

  -- a fallible computation that leaves the state alone
  abbrev pub lift : Result E A → Action S E A
  lift r s = (r, s)

infixl 5 ◌>>=◌ ◌>>◌
abbrev pub ◌>>=◌ {ℓ κ μ ν} :
    {S : Type ℓ} {E : Type κ} {A : Type μ} {B : Type ν}
    → Action S E A
    → (A → Action S E B)
    → Action S E B
◌>>=◌ m f s = let (r, s') = m s in elim r [ ok a ↦ f a s' | err e ↦ (err e, s') ]

abbrev pub ◌>>◌ {ℓ κ ν} :
    {S : Type ℓ} {E : Type κ} {B : Type ν} → Action S E (Unit {0}) → Action S E B → Action S E B
m >> k = m >>= λ _. k

abbrev pub bail_when {ℓ κ} : {S : Type ℓ} {E : Type κ} → Bool → E → Action S E (Unit {0})
bail_when true e s = (err e, s)
bail_when false e s = (ok tt, s)

-- `for x in xs { f(x).await? }`: the first error ends it.
unfoldable pub for_each {ℓ κ μ} :
    {S : Type ℓ} {E : Type κ} {A : Type μ}
    → (A → Action S E (Unit {0}))
    → List A
    → Action S E (Unit {0})
for_each f [] = pure tt
for_each f (x ∷ xs) = let rest = for_each f xs in f x >> rest

-- The action that has returned this.
abbrev pub returned {ℓ κ μ} : {S : Type ℓ} {E : Type κ} {A : Type μ} → Result E A × S → Action S E A
returned r _ = r

-- `match m.await { ... }`: what `m` returned, as a value.
abbrev pub settled {ℓ κ μ} :
    {S : Type ℓ} {E : Type κ} {A : Type μ} → Action S E A → Action S E (Result E A)
settled m s = let (r, s') = m s in (ok r, s')
