-- ===== src/Registry/Published.antt =====
-- What `publish_source` (src/registry.rs) makes of the registry.
use mathlib.Core.Path.{subst}
use mathlib.Core.Option.{none-ne-some}
use toasty_mgr.Prelude.{
  ◌≡◌, ◌≢◌, ◌⊎◌, refl, sym, ap, ◌∙◌, true, false, Option, none, some, List, [], ◌∷◌, contains,
  text_has_eq, Text, text_eq, if◌then◌else◌, arith, Option-cases, Bool-cases, inl, inr, Result, ok,
  err,
}
use toasty_mgr.Prelude.Strings.{text_eq_iff}
use toasty_mgr.Prelude.Action.{returned, ◌>>=◌}
use toasty_mgr.Prelude.Map
use toasty_mgr.Prelude.Map.{Map, get-insert, get-remove}
use toasty_mgr.BaseDs.{SourceError}
use toasty_mgr.Registry.{TcConn}
use toasty_mgr.Registry.Derived.{IsDerived, IsWorld, Derivation, Derived, derive_aliases-Derived}
use toasty_mgr.Registry.Connections.{
  Toasty, Registry, get_item, aliases_for_source, add_con, set_models, get_opt, put_alias,
  derive_aliases, publish_aliases, publish_source,
}

module _ {Url Db Models World : Type 0} (t : Toasty Url Db Models World) where
  if_get :
      (derived : Map Text (TcConn Db)) (alias code : Text) (o other : Option (TcConn Db))
      → Map.get derived alias ≡ o
      → (if text_eq alias code then o else other)
        ≡ (if text_eq alias code then Map.get derived code else other)
  if_get derived alias code o other e = elim (Bool-cases (text_eq alias code)) [
    | inl same ↦ rw same (sym e ∙ ap (Map.get derived) ((text_eq_iff alias code).0 same))
    | inr apart ↦ rw apart refl
  ]

  put_alias-get_item :
      (origin : Registry Db Models World) (derived : Map Text (TcConn Db)) (con : TcConn Db)
      (alias : Text) (o : Option (TcConn Db)) (s : Registry Db Models World) (code : Text)
      → Map.get derived alias ≡ o
      → ((b : TcConn Db) → o ≡ some b → IsDerived t origin con alias b)
      → get_item (put_alias alias o s) code
        ≡ (if text_eq alias code then Map.get derived code else get_item s code)
  put_alias-get_item origin derived con alias none s code e sound =
      get-remove s.connections alias code ∙ if_get derived alias code none (get_item s code) e
  put_alias-get_item origin derived con alias (some b) s code e sound =
      let (models, url, w, db, own, at, connected, made) = sound b refl in
      get-insert s.connections b.meta.ds_code b code
      ∙ ap (λ key. if text_eq key code then some b else get_item s code)
          (ap (λ c. c.meta.ds_code) made)
      ∙ if_get derived alias code (some b) (get_item s code) e

  put_alias-same :
      (alias : Text) (o : Option (TcConn Db)) (s : Registry Db Models World)
      → ((put_alias alias o s).models ≡ s.models) × ((put_alias alias o s).aliases ≡ s.aliases)
  put_alias-same alias none s = (refl, refl)
  put_alias-same alias (some b) s = (refl, refl)

  publish_aliases-get_item :
      (origin : Registry Db Models World) (derived : Map Text (TcConn Db)) (con : TcConn Db)
      (aliases : List Text) (s : Registry Db Models World) (code : Text)
      → ((a : Text) (b : TcConn Db) → Map.get derived a ≡ some b → IsDerived t origin con a b)
      → get_item (publish_aliases derived aliases s) code
        ≡ (if contains aliases code then Map.get derived code else get_item s code)
  publish_aliases-get_item origin derived con [] s code sound = refl
  publish_aliases-get_item origin derived con (alias ∷ aliases) s code sound = ground (
    arith,
    publish_aliases-get_item origin derived con aliases (put_alias alias (Map.get derived alias) s)
        code sound,
    put_alias-get_item origin derived con alias (Map.get derived alias) s code refl (sound alias),
  )

  publish_aliases-same :
      (derived : Map Text (TcConn Db)) (aliases : List Text) (s : Registry Db Models World)
      → ((publish_aliases derived aliases s).models ≡ s.models)
        × ((publish_aliases derived aliases s).aliases ≡ s.aliases)
  publish_aliases-same derived [] s = (refl, refl)
  publish_aliases-same derived (alias ∷ aliases) s =
      let (m, a) = put_alias-same alias (Map.get derived alias) s in
      let (ms, as_) =
        publish_aliases-same derived aliases (put_alias alias (Map.get derived alias) s) in
      (ms ∙ m, as_ ∙ a)

  -- The connection that a code of the source has afterwards: an alias without models has none of its own
  -- (it reads the source's), one with models has one that was made for it from the source's.
  abbrev pub OfAlias : Registry Db Models World → TcConn Db → Text → Option (TcConn Db) → Type 0
  OfAlias s con alias found =
      (get_opt t s alias ≡ none) × (found ≡ none)
      ⊎ ((built : TcConn Db) × (get_opt t s alias ≢ none)
          × (found ≡ some built)
          × IsDerived t s con alias built)

  abbrev pub Published :
      Registry Db Models World
      → TcConn Db
      → Models
      → Result SourceError (TcConn Db) × Registry Db Models World
      → Type 0
  Published s con models (ok c, s') =
      (c ≡ con)
      × (s'.models ≡ Map.insert s.models con.meta.ds_code models)
      × (s'.aliases ≡ s.aliases)
      × ((code : Text)
          → contains (aliases_for_source s con.meta.ds_code) code ≡ true
          → OfAlias s con code (get_item s' code))
      × ((code : Text)
          → contains (aliases_for_source s con.meta.ds_code) code ≡ false
          → get_item s' code
            ≡ (if text_eq con.meta.ds_code code then some con else get_item s code))
  Published s con models (err _, s') = IsWorld t s s'

  of_alias :
      (s : Registry Db Models World) (con : TcConn Db) (aliases : List Text)
      (derived : Map Text (TcConn Db))
      → Derivation t s con aliases derived
      → (code : Text) → contains aliases code ≡ true
      → OfAlias s con code (Map.get derived code)
  of_alias s con aliases derived d code h = elim (Option-cases (Map.get derived code)) [
    | inl absent ↦ inl (d.with_models code h absent, absent)
    | inr (b, found) ↦ inr (
      b,
      (λ e. none-ne-some b (sym (d.without_models code e) ∙ found)),
      found,
      d.sound code b found,
    )
  ]

  put_source :
      (s : Registry Db Models World) (con : TcConn Db) (models : Models) (w : World)
      (derived : Map Text (TcConn Db))
      → Derivation t s con (aliases_for_source s con.meta.ds_code) derived
      → Published s con models (
        ok con,
        publish_aliases derived
            (aliases_for_source s con.meta.ds_code)
            (add_con con (set_models con.meta.ds_code models (record s { world = w }))),
      )
  put_source s con models w derived d =
      let aliases = aliases_for_source s con.meta.ds_code in
      let before : Registry Db Models World =
        add_con con (set_models con.meta.ds_code models (record s { world = w })) in
      let (m, a) = publish_aliases-same derived aliases before in
      (
        refl,
        m,
        a,
        (λ code h.
            subst (OfAlias s con code)
              (sym (publish_aliases-get_item s derived con aliases before code d.sound ∙ rw h refl))
              (of_alias s con aliases derived d code h)),
        (λ code h.
            publish_aliases-get_item s derived con aliases before code d.sound
            ∙ rw h (get-insert s.connections con.meta.ds_code con code)),
      )

  -- When a source is published, the call either fails and changes nothing of the registry, or its
  -- connection and its models are those given, each of its aliases that has models of its own has
  -- this connection with a database that was connected at its URL with the alias's models, each
  -- other alias of it has none, and no other code's connection changes.
  pub publish_source-Published :
      (s : Registry Db Models World) (con : TcConn Db) (models : Models)
      → Published s con models (publish_source t con models s)
  unfolding publish_source
  publish_source-Published s con models =
      go (derive_aliases t con (aliases_for_source s con.meta.ds_code) s)
        (derive_aliases-Derived t s con (aliases_for_source s con.meta.ds_code))
    where
      go :
          (r : Result SourceError (Map Text (TcConn Db)) × Registry Db Models World)
          → Derived t s con (aliases_for_source s con.meta.ds_code) r
          → Published s con models (
              (returned r >>= λ derived. λ s'. (
                ok con,
                publish_aliases derived
                    (aliases_for_source s con.meta.ds_code)
                    (add_con con (set_models con.meta.ds_code models s')),
              ))
                s)
      go (ok derived, s') ((w, e), d) =
          subst
            (λ x. Published s con models (
              ok con,
              publish_aliases derived (aliases_for_source s con.meta.ds_code)
                  (add_con con (set_models con.meta.ds_code models x)),
            ))
            (sym e) (put_source s con models w derived d)
      go (err x, s') (w, e) = (w, e)
