-- ===== src/Registry/Evicted.antt =====
-- What is left of a data source after `evict_source` (src/registry.rs).
use mathlib.Core.Path.{subst}
use mathlib.Core.Option.{none-ne-some}
use toasty_mgr.Prelude.{
  ◌≡◌, ◌≢◌, ◌↔◌, refl, sym, ap, ◌∙◌, true, false, ◌||◌, Option, none, some, List, [], ◌∷◌, contains,
  IsUnique, text_has_eq, Text, text_eq, if◌then◌else◌, arith, Option-cases, inl, inr,
}
use toasty_mgr.Prelude.Strings.{text_eq_iff}
use toasty_mgr.Prelude.Map
use toasty_mgr.Prelude.Map.{Map, keys, get-keys, get-remove}
use toasty_mgr.Registry.{TcConn, base_code, aliases_of}
use toasty_mgr.Registry.Connections.{
  Toasty, Registry, get_item, source_code, aliases_for_source, remove_con, remove_all, evict_source,
  get_opt,
}
use toasty_mgr.Registry.Loading.{get_cached, cached_item, source_or_self}

aliases_of-keys :
    (source : Text) (m : Map Text Text) (alias : Text)
    → contains (keys m) alias ≡ false
    → contains (aliases_of source m) alias ≡ false
unfolding aliases_of
aliases_of-keys source [] alias h = refl
aliases_of-keys source ((a, s) ∷ m) alias h = ground (arith, aliases_of-keys source m alias)

-- In a map with unique keys, the aliases of a source are those that map to it.
pub aliases_of_iff :
    (source : Text) (m : Map Text Text) (alias : Text)
    → IsUnique (keys m)
    → (contains (aliases_of source m) alias ≡ true) ↔ (Map.get m alias ≡ some source)
unfolding aliases_of Map.get
aliases_of_iff source [] alias unique = ground arith
aliases_of_iff source ((a, s) ∷ m) alias (fresh, unique) = ground (
  arith,
  text_eq_iff s source,
  text_eq_iff a alias,
  text_eq_iff alias a,
  aliases_of_iff source m alias unique,
  aliases_of-keys source m a fresh,
  get-keys m a fresh,
)

module _ {Db Models World : Type 0} where
  remove_all-get_item :
      (l : List Text) (s : Registry Db Models World) (code : Text)
      → get_item (remove_all l s) code ≡ (if contains l code then none else get_item s code)
  remove_all-get_item [] s code = refl
  remove_all-get_item (c ∷ l) s code =
      ground (arith, remove_all-get_item l (remove_con c s) code, get-remove s.connections c code)

  remove_all-same :
      (l : List Text) (s : Registry Db Models World)
      → ((remove_all l s).models ≡ s.models) × ((remove_all l s).aliases ≡ s.aliases)
  remove_all-same [] s = (refl, refl)
  remove_all-same (c ∷ l) s = remove_all-same l (remove_con c s)

module _ {Url Db Models World : Type 0} (t : Toasty Url Db Models World) where
  -- The code names the source or is one of its aliases.
  abbrev pub Serves : Registry Db Models World → Text → Text → Type 0
  Serves s source code = source_or_self t s code ≡ source

  evict_source-get_item :
      (source : Text) (s : Registry Db Models World) (code : Text)
      → get_item (evict_source source s) code ≡ (
          if text_eq source code || contains (aliases_for_source s source) code
          then none
          else get_item s code)
  unfolding evict_source
  evict_source-get_item source s code = ground (
    arith,
    remove_all-get_item (aliases_for_source s source) (remove_con source s) code,
    get-remove s.connections source code,
  )

  get_opt-models :
      (s s' : Registry Db Models World) (code : Text)
      → s'.models ≡ s.models
      → get_opt t s' code ≡ get_opt t s code
  unfolding get_opt
  get_opt-models s s' code m =
      ap
        (λ models. elim (Map.get models code) [
          | some found ↦ some found
          | none ↦ if text_eq code base_code then some t.base_models else none
        ])
        m

  cached_item-same :
      (code : Text) (o : Option Text) (m : Option Models) (item : Option (TcConn Db))
      (f g : Text → Option (TcConn Db))
      → ((source : Text) → o ≡ some source → f source ≡ g source)
      → cached_item t code o m item f ≡ cached_item t code o m item g
  cached_item-same code none m item f g h = refl
  cached_item-same code (some source) (some models) item f g h = refl
  cached_item-same code (some source) none item f g h = rw (h source refl)

  cached_item-none :
      (code : Text) (o : Option Text) (m : Option Models) (item : Option (TcConn Db))
      (f : Text → Option (TcConn Db))
      → item ≡ none
      → f (elim o [ none ↦ code | some source ↦ source ]) ≡ none
      → cached_item t code o m item f ≡ none
  cached_item-none code none m item f h k = h
  cached_item-none code (some source) (some models) item f h k = h
  cached_item-none code (some source) none item f h k = rw k

  evict_source-same :
      (source : Text) (s : Registry Db Models World)
      → ((evict_source source s).models ≡ s.models) × ((evict_source source s).aliases ≡ s.aliases)
  unfolding evict_source
  evict_source-same source s = remove_all-same (aliases_for_source s source) (remove_con source s)

  is_served :
      (source : Text) (s : Registry Db Models World) (code : Text)
      → IsUnique (keys s.aliases)
      → source_or_self t s code ≡ source
      → (text_eq source code || contains (aliases_for_source s source) code) ≡ true
  is_served source s code unique names = elim (Option-cases (source_code s code)) [
    | inl none_of ↦ ground (
      arith,
      text_eq_iff source code,
      sym (subst (λ o. elim o as (λ _. Text) [ none ↦ code | some x ↦ x ] ≡ source) none_of names),
    )
    | inr (x, some_of) ↦ ground (
      arith,
      aliases_of_iff source s.aliases code unique,
      some_of
          ∙ ap some (
              subst (λ o. elim o as (λ _. Text) [ none ↦ code | some x ↦ x ] ≡ source) some_of
                names),
    )
  ]

  not_served :
      (source : Text) (s : Registry Db Models World) (code : Text)
      → IsUnique (keys s.aliases)
      → code ≢ source
      → source_code s code ≢ some source
      → (text_eq source code || contains (aliases_for_source s source) code) ≡ false
  not_served source s code unique other apart = ground (
    arith,
    text_eq_iff source code,
    text_eq_iff code source,
    aliases_of_iff source s.aliases code unique,
  )

  -- After the eviction of a source, with unique aliases, neither the source nor any alias of it
  -- has a cached connection.
  pub evict_source-evicts :
      (source : Text) (s : Registry Db Models World) (code : Text)
      → IsUnique (keys s.aliases)
      → source_or_self t s code ≡ source
      → get_cached t (evict_source source s) code ≡ none
  unfolding get_cached
  evict_source-evicts source s code unique names =
      cached_item-none code _ _ _ (get_item (evict_source source s))
        (evict_source-get_item source s code ∙ rw (is_served source s code unique names) refl)
        (subst (λ x. get_item (evict_source source s) x ≡ none)
          (sym (
            ap (λ m. elim (Map.get m code) [ none ↦ code | some x ↦ x ])
              (evict_source-same source s).1
            ∙ names))
          (evict_source-get_item source s source ∙ ground (arith, text_eq_iff source source)))

  -- The eviction of a source keeps the cached connection of every other code that is no alias of
  -- it, when aliases are unique and the code's own source is not an alias.
  pub evict_source-keeps :
      (source : Text) (s : Registry Db Models World) (code : Text)
      → IsUnique (keys s.aliases)
      → code ≢ source
      → source_code s code ≢ some source
      → ((target : Text) → source_code s code ≡ some target → source_code s target ≡ none)
      → get_cached t (evict_source source s) code ≡ get_cached t s code
  unfolding get_cached
  evict_source-keeps source s code unique other apart flat =
      rw
        (
          get_opt-models s (evict_source source s) code (evict_source-same source s).0,
          ap (λ m. Map.get m code) (evict_source-same source s).1,
          evict_source-get_item source s code,
          not_served source s code unique other apart,
        )
        (cached_item-same code (source_code s code) (get_opt t s code) (get_item s code)
          (get_item (evict_source source s)) (get_item s)
          (λ target h.
            evict_source-get_item source s target
            ∙ rw
                (not_served source s target unique (λ e. apart (h ∙ ap some e))
                  (λ e. none-ne-some source (sym (flat target h) ∙ e)))
                refl))
