-- ===== src/Registry.antt =====
-- The registry of data sources (src/registry.rs): connections, model sets and aliases by code. The
-- calls are modelled one after another, as the lock of the loading functions makes them.
pub mod Tests
pub mod Connections
pub mod Loading
pub mod Evicted
pub mod Aliases
pub mod Derived
pub mod Published
use toasty_mgr.Prelude.{
  ℕ, zero, suc, ◌≡◌, Bool, true, false, not, ◌&&◌, ◌||◌, Option, none, some, List, [], ◌∷◌, ◌++◌,
  any, find, length, contains, text_has_eq, Text, codes, text_eq, is_empty, if◌then◌else◌, Result,
  ok, err, ok_or, ltb,
}
use toasty_mgr.Prelude.Strings.{trim_start_matches}
use toasty_mgr.Prelude.{nat_eq}
use toasty_mgr.Prelude.Int.{ℤ, pos, negsuc}
use toasty_mgr.Prelude.Map
use toasty_mgr.Prelude.Map.{Map}
use toasty_mgr.Prelude.Action.{Action, pure, fail, lift, settled, ◌>>=◌, ◌>>◌, bail_when}
use toasty_mgr.BaseDs.{
  BaseDs, SourceError, alias_is_source, models_not_set, not_registered, base_not_registered,
  base_not_reloadable, disabled, alias_unavailable, no_reconnectable_url, max_con_not_positive,
  Urls, toasty_url, alias_conflict,
}

pub record TcConnMeta : Type 0 where
  pub url : Text
  pub ds_code : Text
  pub ds_name : Text
  pub db_type : Text
  pub user_name : Text
  pub password : Text
  pub host : Text
  pub port : ℕ
  pub db_name : Text

-- Durations in seconds.
pub record TcPoolOptions : Type 0 where
  pub max_size : Option ℕ
  pub create_timeout : Option ℕ
  pub wait_timeout : Option ℕ
  pub max_idle_time : Option ℕ

pub record TcConn (Db : Type 0) : Type 0 where
  pub inner : Db
  pub meta : TcConnMeta
  pub connect_url : Option Text
  pub pool_options : TcPoolOptions

abbrev pub base_code : Text
base_code = codes "base"

abbrev pub or_default : Option Text → Text
or_default none = []
or_default (some t) = t

abbrev pub or_zero : Option ℕ → ℕ
or_zero none = 0
or_zero (some n) = n

abbrev pub bare_meta : Text → Text → Text → TcConnMeta
bare_meta code name url = record {
  url = url;
  ds_code = code;
  ds_name = name;
  db_type = [];
  user_name = [];
  password = [];
  host = [];
  port = 0;
  db_name = [];
}

module _ {Url : Type 0} (urls : Urls Url) where
  -- `TcConnMeta::new`
  unfoldable pub new_meta : Text → Text → Text → TcConnMeta
  new_meta code name url = elim (urls.parse url) [
    | err _ ↦ bare_meta code name url
    | ok value ↦ record {
      url = url;
      ds_code = code;
      ds_name = name;
      db_type = urls.scheme value;
      user_name = urls.username value;
      password = or_default (urls.password value);
      host = or_default (urls.host_str value);
      port = or_zero (urls.port_of value);
      db_name = trim_start_matches (λ c. nat_eq c 47) (urls.path value);
    }
  ]

  unfoldable pub redact_url : Text → Text
  redact_url value = elim (urls.parse value) [
    | err _ ↦ []
    | ok url ↦ elim (urls.set_password none url) [
      | none ↦ urls.to_string url
      | some cleared ↦ urls.to_string cleared
    ]
  ]

  unfoldable pub redacted : TcConnMeta → TcConnMeta
  redacted meta = record meta { url = redact_url meta.url; password = [] }

abbrev pub positive_timeout_secs : Option ℤ → Option ℕ
positive_timeout_secs none = none
positive_timeout_secs (some (pos zero)) = none
positive_timeout_secs (some (pos (suc n))) = some (suc n)
positive_timeout_secs (some (negsuc n)) = none

abbrev pub default_pool_options : TcPoolOptions
default_pool_options = record {
  max_size = none;
  create_timeout = none;
  wait_timeout = none;
  max_idle_time = none;
}

abbrev pub max_size_of : Text → Option ℤ → Result SourceError (Option ℕ)
max_size_of code none = ok none
max_size_of code (some (pos zero)) = err (max_con_not_positive code)
max_size_of code (some (pos (suc n))) = ok (some (suc n))
max_size_of code (some (negsuc n)) = err (max_con_not_positive code)

-- `TcPoolOptions::from_ds`
unfoldable pub from_ds : BaseDs → Result SourceError TcPoolOptions
from_ds ds = elim (max_size_of ds.ds_code ds.max_con) [
  | err e ↦ err e
  | ok max_size ↦ ok (record {
    max_size = max_size;
    create_timeout = positive_timeout_secs ds.connect_timeout;
    wait_timeout = positive_timeout_secs ds.acquire_timeout;
    max_idle_time = positive_timeout_secs ds.idle_timeout;
  })
]

-- `check_values`: a source that is itself an alias is refused.
unfoldable pub check_sources : Map Text Text → List (Text × Text) → Result SourceError (Unit {0})
check_sources values [] = ok tt
check_sources values ((_, source) ∷ rest) =
    let others = check_sources values rest in
    if Map.contains_key values source then err (alias_is_source source) else others

unfoldable pub check_values : Map Text Text → Result SourceError (Unit {0})
check_values values = check_sources values values

-- `aliases_for_source`
unfoldable pub aliases_of : Text → Map Text Text → List Text
aliases_of source [] = []
aliases_of source ((alias, target) ∷ rest) =
    let others = aliases_of source rest in if text_eq target source then alias ∷ others else others
