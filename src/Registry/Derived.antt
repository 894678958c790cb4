-- ===== src/Registry/Derived.antt =====
-- The connections that `publish_source` makes for aliases with models of their own (src/registry.rs).
use mathlib.Core.Path.{subst}
use mathlib.Core.Option.{none-ne-some, some-injective}
use toasty_mgr.Prelude.{
  ◌≡◌, refl, sym, ap, ◌∙◌, true, Option, none, some, List, [], ◌∷◌, contains, text_has_eq, Text,
  text_eq, arith, Bool-cases, inl, inr, Result, ok, err, ok_or,
}
use toasty_mgr.Prelude.Strings.{text_eq_iff}
use toasty_mgr.Prelude.Action.{pure, lift, returned, ◌>>=◌}
use toasty_mgr.Prelude.Map
use toasty_mgr.Prelude.Map.{Map, get-insert, get-remove}
use toasty_mgr.BaseDs.{SourceError, no_reconnectable_url}
use toasty_mgr.Registry.{TcConn}
use toasty_mgr.Registry.Connections.{
  Toasty, Registry, get_opt, outside, alias_view, build_alias, build_with, derive_one,
  derive_aliases,
}

module _ {Url Db Models World : Type 0} (t : Toasty Url Db Models World) where
  -- A connection made for an alias: that of the source, but for a database that was connected, at
  -- the source's URL, with the alias's own models.
  abbrev pub IsDerived : Registry Db Models World → TcConn Db → Text → TcConn Db → Type 0
  IsDerived s con alias derived =
      (models : Models) × (url : Text) × (w : World) × (db : Db) × (get_opt t s alias ≡ some models)
      × (con.connect_url ≡ some url)
      × ((t.connect url models con.pool_options w).0 ≡ ok db)
      × (derived ≡ record (alias_view alias con) { inner = db })

  abbrev pub IsWorld : Registry Db Models World → Registry Db Models World → Type 0
  IsWorld s s' = (w : World) × (s' ≡ record s { world = w })

  abbrev Built :
      Registry Db Models World
      → Text
      → TcConn Db
      → Result SourceError (TcConn Db) × Registry Db Models World
      → Type 0
  Built s alias con (ok built, s') = IsWorld s s' × IsDerived s con alias built
  Built s alias con (err _, s') = IsWorld s s'

  connected-Built :
      (s : Registry Db Models World) (alias : Text) (con : TcConn Db) (models : Models) (url : Text)
      (r : Result SourceError Db × World)
      → get_opt t s alias ≡ some models
      → con.connect_url ≡ some url
      → t.connect url models con.pool_options s.world ≡ r
      → Built s alias con (
          (returned (r.0, record s { world = r.1 }) >>= λ db.
          pure (record (alias_view alias con) { inner = db }))
            s)
  connected-Built s alias con models url (ok db, w) own at made =
      ((w, refl), (models, url, s.world, db, own, at, ap (λ x. x.0) made, refl))
  connected-Built s alias con models url (err e, w) own at made = (w, refl)

  build_with-Built :
      (s : Registry Db Models World) (alias : Text) (con : TcConn Db) (models : Models)
      → get_opt t s alias ≡ some models
      → Built s alias con (build_with t (some models) alias con s)
  build_with-Built s alias con models own = go con.connect_url refl
    where
      go :
          (u : Option Text)
          → con.connect_url ≡ u
          → Built s alias con (
              (lift (ok_or u (no_reconnectable_url con.meta.ds_code)) >>= λ url.
              outside (t.connect url models con.pool_options) >>= λ db.
              pure (record (alias_view alias con) { inner = db }))
                s)
      go none at = (s.world, refl)
      go (some url) at =
          connected-Built s alias con models url (t.connect url models con.pool_options s.world) own
            at refl

  build_alias-Built :
      (s : Registry Db Models World) (alias : Text) (con : TcConn Db) (models : Models)
      → get_opt t s alias ≡ some models
      → Built s alias con (build_alias t alias con s)
  unfolding build_alias
  build_alias-Built s alias con models own =
      subst (λ o. Built s alias con (build_with t o alias con s)) (sym own)
        (build_with-Built s alias con models own)

  -- The connections that were made for the aliases that have models of their own, and for no others.
  pub record Derivation (s : Registry Db Models World) (con : TcConn Db) (aliases : List Text)
      (derived : Map Text (TcConn Db)) : Type 0 where
    pub sound :
        (alias : Text) (built : TcConn Db)
        → Map.get derived alias ≡ some built
        → IsDerived s con alias built
    pub without_models : (alias : Text) → get_opt t s alias ≡ none → Map.get derived alias ≡ none
    pub with_models :
        (alias : Text)
        → contains aliases alias ≡ true
        → Map.get derived alias ≡ none
        → get_opt t s alias ≡ none

  abbrev pub Derived :
      Registry Db Models World
      → TcConn Db
      → List Text
      → Result SourceError (Map Text (TcConn Db)) × Registry Db Models World
      → Type 0
  Derived s con aliases (ok derived, s') = IsWorld s s' × Derivation s con aliases derived
  Derived s con aliases (err _, s') = IsWorld s s'

  Derivation-nil : (s : Registry Db Models World) (con : TcConn Db) → Derivation s con [] []
  unfolding Map.get
  Derivation-nil s con = record {
    sound = λ alias built h. ground arith;
    without_models = λ alias h. refl;
    with_models = λ alias h. ground arith;
  }

  Derivation-skip :
      (s : Registry Db Models World) (con : TcConn Db) (alias : Text) (aliases : List Text)
      (derived : Map Text (TcConn Db))
      → get_opt t s alias ≡ none
      → Derivation s con aliases derived
      → Derivation s con (alias ∷ aliases) derived
  Derivation-skip s con alias aliases derived absent d = record {
    sound = d.sound;
    without_models = d.without_models;
    with_models = λ a h k. elim (Bool-cases (text_eq alias a)) [
      | inl same ↦ subst (λ x. get_opt t s x ≡ none) ((text_eq_iff alias a).0 same) absent
      | inr other ↦ d.with_models a (ground arith) k
    ];
  }

  taken :
      (alias : Text) (built : TcConn Db) (derived : Map Text (TcConn Db)) (a : Text)
      → text_eq alias a ≡ true
      → some built ≡ Map.get ((alias, built) ∷ derived) a
  unfolding Map.get
  taken alias built derived a same = rw same refl

  Derivation-cons :
      (s : Registry Db Models World) (con : TcConn Db) (alias : Text) (aliases : List Text)
      (derived : Map Text (TcConn Db)) (built : TcConn Db) (models : Models)
      → get_opt t s alias ≡ some models
      → IsDerived s con alias built
      → Derivation s con aliases derived
      → Derivation s con (alias ∷ aliases) ((alias, built) ∷ derived)
  unfolding Map.get
  Derivation-cons s con alias aliases derived built models own made d = record {
    sound = λ a b h. elim (Bool-cases (text_eq alias a)) [
      | inl same ↦
          subst (λ x. IsDerived s con x b) ((text_eq_iff alias a).0 same)
            (subst (IsDerived s con alias)
              (some-injective built b (taken alias built derived a same ∙ h)) made)
      | inr other ↦ d.sound a b (ground arith)
    ];
    without_models = λ a h. elim (Bool-cases (text_eq alias a)) [
      | inl same ↦ absurd (
          none-ne-some models
            (sym (subst (λ x. get_opt t s x ≡ none) (sym ((text_eq_iff alias a).0 same)) h) ∙ own))
      | inr other ↦ rw other (d.without_models a h)
    ];
    with_models = λ a h k. elim (Bool-cases (text_eq alias a)) [
      | inl same ↦ absurd (none-ne-some built (sym k ∙ sym (taken alias built derived a same)))
      | inr other ↦ d.with_models a (ground arith) (ground arith)
    ];
  }

  -- The registry's models do not depend on the world.
  Derivation-world :
      (s : Registry Db Models World) (w : World) (con : TcConn Db) (aliases : List Text)
      (derived : Map Text (TcConn Db))
      → Derivation (record s { world = w }) con aliases derived
      → Derivation s con aliases derived
  unfolding get_opt
  Derivation-world s w con aliases derived d = record {
    sound = d.sound;
    without_models = d.without_models;
    with_models = d.with_models;
  }

  Derived-skip :
      (s : Registry Db Models World) (con : TcConn Db) (alias : Text) (aliases : List Text)
      (r : Result SourceError (Map Text (TcConn Db)) × Registry Db Models World)
      → get_opt t s alias ≡ none
      → Derived s con aliases r
      → Derived s con (alias ∷ aliases) r
  Derived-skip s con alias aliases (ok derived, s') absent (only_world, d) =
      (only_world, Derivation-skip s con alias aliases derived absent d)
  Derived-skip s con alias aliases (err x, s') absent only_world = only_world

  pub derive_aliases-Derived :
      (s : Registry Db Models World) (con : TcConn Db) (aliases : List Text)
      → Derived s con aliases (derive_aliases t con aliases s)
  unfolding derive_aliases build_alias
  derive_aliases-Derived s con [] = ((s.world, refl), Derivation-nil s con)
  derive_aliases-Derived s con (alias ∷ aliases) =
      go (get_opt t s alias) refl (λ s. derive_aliases-Derived s con aliases)
    where
      rest :
          (models : Models) (w : World) (built : TcConn Db)
          (r : Result SourceError (Map Text (TcConn Db)) × Registry Db Models World)
          → get_opt t s alias ≡ some models
          → IsDerived s con alias built
          → Derived (record s { world = w }) con aliases r
          → Derived s con
              (alias ∷ aliases)
              ((returned r >>= λ others. pure ((alias, built) ∷ others)) s)
      rest models w built (ok derived, s') own made ((w', e), d) = (
        (w', e),
        Derivation-cons s con alias aliases derived built models own made
            (Derivation-world s w con aliases derived d),
      )
      rest models w built (err x, s') own made (w', e) = (w', e)

      built_one :
          (models : Models) (r : Result SourceError (TcConn Db) × Registry Db Models World)
          → get_opt t s alias ≡ some models
          → Built s alias con r
          → ((s : Registry Db Models World)
              → Derived s con aliases (derive_aliases t con aliases s))
          → Derived s con (alias ∷ aliases) (
              (returned r >>= λ built.
              derive_aliases t con aliases >>= λ others. pure ((alias, built) ∷ others))
                s)
      built_one models (ok built, s') own ((w, e), made) others =
          rest models w built (derive_aliases t con aliases s') own made
            (subst (λ x. Derived x con aliases (derive_aliases t con aliases s')) e (others s'))
      built_one models (err x, s') own (w, e) others = (w, e)

      go :
          (o : Option Models)
          → get_opt t s alias ≡ o
          → ((s : Registry Db Models World)
              → Derived s con aliases (derive_aliases t con aliases s))
          → Derived s con
              (alias ∷ aliases)
              (derive_one t o alias con (derive_aliases t con aliases) s)
      go none absent others =
          Derived-skip s con alias aliases (derive_aliases t con aliases s) absent (others s)
      go (some models) own others =
          built_one models (build_alias t alias con s) own
            (build_alias-Built s alias con models own) others
