-- ===== src/Registry/Loading.antt =====
-- How connections are found, loaded from the catalog and loaded again (src/registry.rs), and how the
-- alias map is replaced (src/ext.rs).
use mathlib.Core.Option
use toasty_mgr.Prelude.{
  not, ◌&&◌, Option, none, some, [], ◌∷◌, text_has_eq, Text, text_eq, if◌then◌else◌, Result, ok,
  err, ok_or,
}
use toasty_mgr.Prelude.Action.{Action, pure, lift, ◌>>=◌, ◌>>◌, bail_when}
use toasty_mgr.Prelude.Map
use toasty_mgr.Prelude.Map.{Map}
use toasty_mgr.BaseDs.{
  BaseDs, SourceError, not_registered, base_not_registered, base_not_reloadable, disabled,
  alias_unavailable, alias_conflict,
}
use toasty_mgr.Registry.{TcConnMeta, TcConn, base_code, redacted}
use toasty_mgr.Registry.Connections.{
  Toasty, Registry, Op, outside, get_item, source_code, get_opt, remove_con, remove_all,
  remove_models, evict_source, alias_meta, alias_view, init_map, add_by_ds_model, add_alias_by_con,
}

module _ {Url Db Models World : Type 0} (t : Toasty Url Db Models World) where
  -- `TcConnections::get`
  unfoldable pub get_con : Registry Db Models World → Text → Result SourceError (TcConn Db)
  get_con s code = ok_or (get_item s code) (not_registered code)

  -- An alias without models of its own reads the connection of its source.
  abbrev pub cached_item :
      Text
      → Option Text
      → Option Models
      → Option (TcConn Db)
      → (Text → Option (TcConn Db))
      → Option (TcConn Db)
  cached_item code (some source) none item item_of = Option.map (alias_view code) (item_of source)
  cached_item code (some source) (some models) item item_of = item
  cached_item code none models item item_of = item

  unfoldable pub get_cached : Registry Db Models World → Text → Option (TcConn Db)
  get_cached s code =
      cached_item code (source_code s code) (get_opt t s code) (get_item s code) (get_item s)

  -- `BaseDs::get_active_ds`
  unfoldable pub get_active_ds : Db → Text → Action World SourceError BaseDs
  get_active_ds db code = do
    model ← t.get_ds db code
    bail_when (not model.state) (disabled code)
    pure model

  unfoldable pub load_source : Text → Op t (TcConn Db)
  load_source code s = elim (get_item s code) [
    | some con ↦ (ok con, s)
    | none ↦
        (do
          bail_when (text_eq code base_code) base_not_registered
          base ← λ s. (get_con s base_code, s)
          model ← outside (get_active_ds base.inner code)
          add_by_ds_model t model)
          s
  ]

  -- What `get_or_load` does for an alias, with the connection of its source.
  unfoldable pub load_alias : Text → TcConn Db → Op t (TcConn Db)
  load_alias code source s = elim (get_opt t s code) [
    | none ↦ (ok (alias_view code source), s)
    | some _ ↦ elim (get_item s code) [
      | some con ↦ (ok con, s)
      | none ↦ add_alias_by_con t code source s
    ]
  ]

  -- The part of `get_or_load` under the lock, which looks again at what is cached.
  unfoldable pub load : Text → Op t (TcConn Db)
  load code s = elim (get_cached s code) [
    | some con ↦ (ok con, s)
    | none ↦ elim (source_code s code) [
      | none ↦ load_source code s
      | some source ↦ (load_source source >>= load_alias code) s
    ]
  ]

  unfoldable pub get_or_load : Text → Op t (TcConn Db)
  get_or_load code s = elim (get_cached s code) [ some con ↦ (ok con, s) | none ↦ load code s ]

  abbrev pub source_or_self : Registry Db Models World → Text → Text
  source_or_self s code = elim (source_code s code) [ none ↦ code | some source ↦ source ]

  -- The part of `reload` that publishes what the catalog now says of the source.
  unfoldable pub reload_model : Text → Text → BaseDs → Op t (TcConn Db)
  reload_model code source model s =
      if not model.state
      then (err (disabled source), evict_source source s)
      else ((do
        con ← add_by_ds_model t model
        λ s.
            if text_eq code source
            then (ok con, s)
            else (ok_or (get_cached s code) (alias_unavailable code), s))
          s)

  unfoldable pub reload : Text → Op t (TcConn Db)
  reload code s =
      (do
        bail_when (text_eq (source_or_self s code) base_code) base_not_reloadable
        base ← λ s. (get_con s base_code, s)
        model ← outside (t.get_ds base.inner (source_or_self s code))
        reload_model code (source_or_self s code) model)
        s

  -- `TcConnections::init_aliases`
  unfoldable pub init_aliases : Map Text Text → Op t (Unit {0})
  init_aliases [] s = pure tt s
  init_aliases ((alias, source) ∷ values) s = elim (get_item s source) [
    | none ↦ init_aliases values s
    | some con ↦ elim (get_opt t s alias) [
      | some _ ↦ (do added ← add_alias_by_con t alias con; init_aliases values) s
      | none ↦ init_aliases values (remove_con alias s)
    ]
  ]

  unfoldable pub check_conflicts :
      Map Text Text → Registry Db Models World → Result SourceError (Unit {0})
  check_conflicts [] s = ok tt
  check_conflicts ((alias, _) ∷ values) s =
      let others = check_conflicts values s in
      if not (Map.contains_key s.aliases alias) && Map.contains_key s.connections alias
      then err (alias_conflict alias)
      else others

  -- `TcMgr::init_alias`
  unfoldable pub init_alias : Map Text Text → Op t (Unit {0})
  init_alias values s =
      (do
        lift (check_conflicts values s)
        init_map values
        λ s'. (ok tt, remove_all (Map.keys s.aliases) s')
        init_aliases values)
        s

  -- `TcMgr::unregister`
  abbrev pub unregister : Text → Registry Db Models World → Registry Db Models World
  unregister code s = remove_models code (remove_con code s)

  -- `all_metas`: every connection's data without its password, and those of the aliases.
  abbrev pub redacted_metas : Map Text (TcConn Db) → Map Text TcConnMeta
  redacted_metas [] = []
  redacted_metas ((code, con) ∷ cons) = (code, redacted t.urls con.meta) ∷ redacted_metas cons

  abbrev pub add_alias_metas :
      Registry Db Models World → Map Text Text → Map Text TcConnMeta → Map Text TcConnMeta
  add_alias_metas s [] metas = metas
  add_alias_metas s ((alias, source) ∷ values) metas =
      let rest = add_alias_metas s values in
      if Map.contains_key metas alias then rest metas else (elim (get_item s source) [
        | none ↦ rest metas
        | some con ↦ rest (Map.insert metas alias (redacted t.urls (alias_meta alias con)))
      ])

  unfoldable pub all_metas : Registry Db Models World → Map Text TcConnMeta
  all_metas s = add_alias_metas s s.aliases (redacted_metas s.connections)
