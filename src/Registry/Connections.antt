-- ===== src/Registry/Connections.antt =====
-- The operations on the registry: `TcModelSets`, `TcDbAliases` and `TcConnections` of
-- src/registry.rs, and those of `TcMgr` (src/ext.rs) that do more than call them.
use toasty_mgr.Prelude.{
  Option, none, some, List, [], ◌∷◌, text_has_eq, Text, text_eq, if◌then◌else◌, Result, ok, ok_or,
}
use toasty_mgr.Prelude.Action.{Action, pure, lift, ◌>>=◌, ◌>>◌}
use toasty_mgr.Prelude.Map
use toasty_mgr.Prelude.Map.{Map}
use toasty_mgr.BaseDs.{BaseDs, SourceError, models_not_set, no_reconnectable_url, Urls, toasty_url}
use toasty_mgr.Registry.{
  TcConnMeta, TcPoolOptions, TcConn, base_code, new_meta, default_pool_options, from_ds,
  check_values, aliases_of,
}

-- What is not in this crate: the url crate, the installed password resolver, the model set of
-- `BaseDs`, the toasty crate's `connect`, and the query of the catalog over a connection. `World`
-- is the state that the last two work on.
pub record Toasty (Url Db Models World : Type 0) : Type 0 where
  pub urls : Urls Url
  pub resolve : Option (Text → Result SourceError Text)
  pub base_models : Models
  pub connect : Text → Models → TcPoolOptions → Action World SourceError Db
  pub get_ds : Db → Text → Action World SourceError BaseDs

-- CONNECTIONS, MODEL_SETS and ALIASES.
pub record Registry (Db Models World : Type 0) : Type 0 where
  pub connections : Map Text (TcConn Db)
  pub models : Map Text Models
  pub aliases : Map Text Text
  pub world : World

abbrev pub alias_meta : {Db : Type 0} → Text → TcConn Db → TcConnMeta
alias_meta alias source = record source.meta { ds_code = alias }

abbrev pub alias_view : {Db : Type 0} → Text → TcConn Db → TcConn Db
alias_view alias source = record source { meta = alias_meta alias source }

module _ {Db Models World : Type 0} where
  -- A call of other code, which leaves the registry alone.
  abbrev pub outside :
      {A : Type 0} → Action World SourceError A → Action (Registry Db Models World) SourceError A
  outside m s = let (r, w) = m s.world in (r, record s { world = w })

  abbrev pub set_models : Text → Models → Registry Db Models World → Registry Db Models World
  set_models code models s = record s { models = Map.insert s.models code models }

  abbrev pub remove_models : Text → Registry Db Models World → Registry Db Models World
  remove_models code s = record s { models = Map.remove s.models code }

  -- `TcConnections::add_con`
  abbrev pub add_con : TcConn Db → Registry Db Models World → Registry Db Models World
  add_con con s = record s { connections = Map.insert s.connections con.meta.ds_code con }

  -- `TcConnections::remove`
  abbrev pub remove_con : Text → Registry Db Models World → Registry Db Models World
  remove_con code s = record s { connections = Map.remove s.connections code }

  abbrev pub clear_cons : Registry Db Models World → Registry Db Models World
  clear_cons s = record s { connections = [] }

  abbrev pub get_item : Registry Db Models World → Text → Option (TcConn Db)
  get_item s code = Map.get s.connections code

  abbrev pub source_code : Registry Db Models World → Text → Option Text
  source_code s alias = Map.get s.aliases alias

  abbrev pub aliases_for_source : Registry Db Models World → Text → List Text
  aliases_for_source s source = aliases_of source s.aliases

  -- `TcDbAliases::init`
  unfoldable pub init_map : Map Text Text → Action (Registry Db Models World) SourceError (Unit {0})
  init_map values = do lift (check_values values); λ s. (ok tt, record s { aliases = values })

  abbrev pub remove_all : List Text → Registry Db Models World → Registry Db Models World
  remove_all [] s = s
  remove_all (code ∷ codes) s = remove_all codes (remove_con code s)

  -- `evict_source`
  unfoldable pub evict_source : Text → Registry Db Models World → Registry Db Models World
  evict_source source s = remove_all (aliases_for_source s source) (remove_con source s)

  -- An alias with a connection made for it gets that, any other loses its own.
  abbrev pub put_alias :
      Text → Option (TcConn Db) → Registry Db Models World → Registry Db Models World
  put_alias alias none s = remove_con alias s
  put_alias alias (some con) s = add_con con s

  abbrev pub publish_aliases :
      List (Text × TcConn Db) → List Text → Registry Db Models World → Registry Db Models World
  publish_aliases derived [] s = s
  publish_aliases derived (alias ∷ aliases) s =
      publish_aliases derived aliases (put_alias alias (Map.get derived alias) s)

module _ {Url Db Models World : Type 0} (t : Toasty Url Db Models World) where
  unfoldable pub get_opt : Registry Db Models World → Text → Option Models
  get_opt s code = elim (Map.get s.models code) [
    | some models ↦ some models
    | none ↦ if text_eq code base_code then some t.base_models else none
  ]

  unfoldable pub get_models : Registry Db Models World → Text → Result SourceError Models
  get_models s code = ok_or (get_opt s code) (models_not_set code)

  abbrev pub Op : Type 0 → Type 0
  Op A = Action (Registry Db Models World) SourceError A

  -- The connection of an alias, by its models.
  abbrev pub build_with : Option Models → Text → TcConn Db → Op (TcConn Db)
  build_with none alias source = pure (alias_view alias source)
  build_with (some models) alias source = do
    url ← lift (ok_or source.connect_url (no_reconnectable_url source.meta.ds_code))
    db ← outside (t.connect url models source.pool_options)
    pure (record (alias_view alias source) { inner = db })

  unfoldable pub build_alias : Text → TcConn Db → Op (TcConn Db)
  build_alias alias source s = build_with (get_opt s alias) alias source s

  -- `others` after the connection of an alias that has models of its own.
  abbrev pub derive_one :
      Option Models → Text → TcConn Db → Op (List (Text × TcConn Db)) → Op (List (Text × TcConn Db))
  derive_one none alias con others = others
  derive_one (some _) alias con others = do
    built ← build_alias alias con
    rest ← others
    pure ((alias, built) ∷ rest)

  unfoldable pub derive_aliases : TcConn Db → List Text → Op (List (Text × TcConn Db))
  derive_aliases con [] s = pure [] s
  derive_aliases con (alias ∷ aliases) s =
      derive_one (get_opt s alias) alias con (derive_aliases con aliases) s

  -- `publish_source`
  unfoldable pub publish_source : TcConn Db → Models → Op (TcConn Db)
  publish_source con models s =
      (do
        derived ← derive_aliases con (aliases_for_source s con.meta.ds_code)
        λ s'. (
          ok con,
          publish_aliases derived (aliases_for_source s con.meta.ds_code)
              (add_con con (set_models con.meta.ds_code models s')),
        ))
        s

  unfoldable pub add_by_url_with_models : Text → Text → Models → Op (TcConn Db)
  add_by_url_with_models name url models = do
    db ← outside (t.connect url models default_pool_options)
    publish_source
        (record {
          inner = db;
          meta = new_meta t.urls name name url;
          connect_url = some url;
          pool_options = default_pool_options;
        })
        models

  unfoldable pub add_by_url : Text → Text → Op (TcConn Db)
  add_by_url name url = do
    models ← λ s. (get_models s name, s)
    add_by_url_with_models name url models

  unfoldable pub add_by_ds_model_with_models : BaseDs → Models → Op (TcConn Db)
  add_by_ds_model_with_models model models = do
    parsed ← lift (toasty_url t.urls t.resolve model)
    pool_options ← lift (from_ds model)
    db ← outside (t.connect (t.urls.to_string parsed) models pool_options)
    publish_source
        (record {
          inner = db;
          meta = new_meta t.urls model.ds_code model.name (t.urls.to_string parsed);
          connect_url = some (t.urls.to_string parsed);
          pool_options = pool_options;
        })
        models

  unfoldable pub add_by_ds_model : BaseDs → Op (TcConn Db)
  add_by_ds_model model = do
    models ← λ s. (get_models s model.ds_code, s)
    add_by_ds_model_with_models model models

  unfoldable pub add_alias_by_con : Text → TcConn Db → Op (TcConn Db)
  add_alias_by_con alias source = do con ← build_alias alias source; λ s. (ok con, add_con con s)

  unfoldable pub add_db :
      Text → Db → Registry Db Models World → TcConn Db × Registry Db Models World
  add_db name db s =
      let con : TcConn Db = record {
        inner = db;
        meta = new_meta t.urls name name [];
        connect_url = none;
        pool_options = default_pool_options;
      } in
      (con, add_con con s)
