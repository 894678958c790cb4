-- ===== src/Registry/Aliases.antt =====
-- Which alias maps `TcDbAliases::init` (src/registry.rs) accepts.
use mathlib.Core.Path.{subst}
use mathlib.Core.Option.{some-injective}
use toasty_mgr.Prelude.{
  ◌≡◌, refl, none, some, [], ◌∷◌, Text, text_has_eq, Result, ok, err, arith, All, Option-cases,
  Bool-cases, inl, inr, Result-cases, text_eq, if◌then◌else◌,
}
use toasty_mgr.Prelude.Map
use toasty_mgr.Prelude.Map.{Map, contains_key-none, contains_key-some}
use toasty_mgr.BaseDs.{SourceError}
use toasty_mgr.Registry.{check_sources, check_values}
use toasty_mgr.Registry.Connections.{Registry, init_map}

-- No source of the map is itself an alias.
abbrev pub IsFlat : Map Text Text → Type 0
IsFlat values =
    (alias : Text) (source : Text)
    → Map.get values alias ≡ some source
    → Map.get values source ≡ none

abbrev AreSources : Map Text Text → Map Text Text → Type 0
AreSources values rest = All (λ entry. Map.get values entry.1 ≡ none) rest

check_sources-AreSources :
    (values rest : Map Text Text) → check_sources values rest ≡ ok tt → AreSources values rest
unfolding check_sources
check_sources-AreSources values [] h = tt
check_sources-AreSources values ((alias, source) ∷ rest) h =
    elim (Option-cases (Map.get values source)) [
      | inl free ↦ (
        free,
        check_sources-AreSources values rest (ground (arith, contains_key-none values source free)),
      )
      | inr (x, taken) ↦ absurd (ground (arith, contains_key-some values source x taken))
    ]

All-get :
    (values rest : Map Text Text) (alias source : Text)
    → AreSources values rest
    → Map.get rest alias ≡ some source
    → Map.get values source ≡ none
unfolding Map.get
All-get values [] alias source h k = absurd (ground arith)
All-get values ((a, s) ∷ rest) alias source (free, h) k = elim (Bool-cases (text_eq a alias)) [
  | inl same ↦
      subst (λ x. Map.get values x ≡ none)
        (some-injective s source
          (subst (λ c. (if c then some s else Map.get rest alias) ≡ some source) same k))
        free
  | inr other ↦
      All-get values rest alias source h
        (subst (λ c. (if c then some s else Map.get rest alias) ≡ some source) other k)
]

module _ {Db Models World : Type 0} where
  abbrev pub Initialized :
      Map Text Text
      → Registry Db Models World
      → Result SourceError (Unit {0}) × Registry Db Models World
      → Type 0
  Initialized values s (ok _, s') = (s' ≡ record s { aliases = values }) × IsFlat s'.aliases
  Initialized values s (err _, s') = s' ≡ s

  -- `init` either refuses the map and changes nothing, or installs it, and then no source of an
  -- alias is itself an alias.
  pub init_map-Initialized :
      (values : Map Text Text) (s : Registry Db Models World)
      → Initialized values s (init_map values s)
  unfolding init_map check_values
  init_map-Initialized values s = elim (Result-cases (check_sources values values)) [
    | inl (_, good) ↦ rw good (
      refl,
      λ alias source h.
          All-get values values alias source (check_sources-AreSources values values good) h,
    )
    | inr (e, bad) ↦ rw bad refl
  ]
