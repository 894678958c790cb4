-- ===== src/BaseDs.antt =====
-- The catalog row of a data source (src/base_ds.rs): its defaults and its connection URL.
use toasty_mgr.Prelude.{
  ℕ, ◌≡◌, refl, Bool, true, false, not, ◌&&◌, ◌||◌, Option, none, some, ◌++◌, ltb, leb, Text, codes,
  text_eq, is_empty, if◌then◌else◌, Result, ok, ok_or, ◌>>=◌, ◌≤◌, ◌<◌, ◌⊎◌, last, nat_eq, arith,
}
use toasty_mgr.Prelude.Strings.{starts_with}
use toasty_mgr.Prelude.Int.{ℤ, pos, negsuc}

pub record BaseDs : Type 0 where
  pub ds_code : Text
  pub name : Text
  pub user_name : Text
  pub pwd : Text
  pub db_host : Text
  pub db_name : Text
  pub cur_schema : Text
  pub time_zone : Text
  pub port : ℤ
  pub max_con : Option ℤ
  pub min_con : Option ℤ
  pub connect_timeout : Option ℤ
  pub acquire_timeout : Option ℤ
  pub idle_timeout : Option ℤ
  pub db_type : Text
  pub state : Bool
  pub remark : Text
  pub create_at : ℤ

-- What goes wrong with data sources; `external` is an error of code that this crate calls.
pub data SourceError : Type 0 where
  alias_is_source : Text → SourceError
  models_not_set : Text → SourceError
  not_registered : Text → SourceError
  base_not_registered : SourceError
  base_not_reloadable : SourceError
  disabled : Text → SourceError
  alias_unavailable : Text → SourceError
  alias_conflict : Text → SourceError
  no_reconnectable_url : Text → SourceError
  max_con_not_positive : Text → SourceError
  invalid_port : Text → SourceError
  invalid_password : Text → SourceError
  invalid_username : Text → SourceError
  external : Text → SourceError

-- The URLs of the url crate. A setter that refuses has no result.
pub record Urls (Url : Type 0) : Type 0 where
  pub parse : Text → Result SourceError Url
  pub to_string : Url → Text
  pub set_path : Text → Url → Url
  pub append_pair : Text → Text → Url → Url
  pub set_port : ℕ → Url → Option Url
  pub set_password : Option Text → Url → Option Url
  pub set_username : Text → Url → Option Url
  pub scheme : Url → Text
  pub username : Url → Text
  pub password : Url → Option Text
  pub host_str : Url → Option Text
  pub port_of : Url → Option ℕ
  pub path : Url → Text

unfoldable pub effective_schema : BaseDs → Text
effective_schema ds = if is_empty ds.cur_schema then codes "public" else ds.cur_schema

unfoldable pub effective_timezone : BaseDs → Text
effective_timezone ds = if is_empty ds.time_zone then codes "+08:00" else ds.time_zone

unfoldable pub default_port : Text → ℕ
default_port db_type =
    if text_eq db_type (codes "mysql")
    then 3306
    else (if text_eq db_type (codes "postgres") || text_eq db_type (codes "postgresql")
        then 5432
        else 0)

abbrev pub u16_max : ℕ
u16_max = 65535

-- `u16::try_from(port)` with the check that it is positive, or the driver's port.
unfoldable pub port_or : ℤ → ℕ → ℕ
port_or (pos p) default = if ltb 0 p && leb p u16_max then p else default
port_or (negsuc p) default = default

unfoldable pub effective_port : BaseDs → ℕ
effective_port ds = port_or ds.port (default_port ds.db_type)

abbrev pub ends_with_slash : Text → Bool
ends_with_slash a = elim (last a) [ none ↦ false | some c ↦ nat_eq c 47 ]

-- `Path::new(a).join(b)`
unfoldable pub join : Text → Text → Text
join a b =
    if starts_with (codes "/") b
    then b
    else (if is_empty a || ends_with_slash a then a ++ b else a ++ codes "/" ++ b)

module _ {Url : Type 0} (urls : Urls Url) (resolve : Option (Text → Result SourceError Text)) where
  -- `get_pwd`, by the installed password resolver
  unfoldable pub get_pwd : BaseDs → Result SourceError Text
  get_pwd ds = elim resolve [ none ↦ ok ds.pwd | some f ↦ f ds.pwd ]

  unfoldable pub local_url : Text → BaseDs → Result SourceError Url
  local_url scheme ds =
      if text_eq (join ds.db_host ds.db_name) (codes ":memory:")
      then urls.parse (scheme ++ codes "::memory:")
      else urls.parse (scheme ++ codes ":" ++ join ds.db_host ds.db_name)

  unfoldable pub is_local : Text → Bool
  is_local db_type = text_eq db_type (codes "sqlite") || text_eq db_type (codes "turso")

  abbrev pub url_scheme : Text → Text
  url_scheme db_type = if text_eq db_type (codes "postgres") then codes "postgresql" else db_type

  -- A setter that is only called under a condition, and whose refusal is an error.
  abbrev pub set_if : Bool → (Url → Option Url) → SourceError → Url → Result SourceError Url
  set_if false setter error url = ok url
  set_if true setter error url = ok_or (setter url) error

  abbrev pub with_sslmode : Text → Url → Url
  with_sslmode scheme url =
      if text_eq scheme (codes "postgresql")
      then urls.append_pair (codes "sslmode") (codes "disable") url
      else url

  unfoldable pub remote_url : BaseDs → Result SourceError Url
  remote_url ds = do
    parsed ← urls.parse (url_scheme ds.db_type ++ codes "://" ++ ds.db_host)
    with_port ←
        set_if (ltb 0 (effective_port ds)) (urls.set_port (effective_port ds))
          (invalid_port ds.ds_code)
          (with_sslmode (url_scheme ds.db_type) (urls.set_path ds.db_name parsed))
    password ← get_pwd ds
    with_password ←
        set_if (not (is_empty password)) (urls.set_password (some password))
          (invalid_password ds.ds_code) with_port
    set_if (not (is_empty ds.user_name)) (urls.set_username ds.user_name)
        (invalid_username ds.ds_code) with_password

  unfoldable pub toasty_url : BaseDs → Result SourceError Url
  toasty_url ds = if is_local ds.db_type then local_url ds.db_type ds else remote_url ds

default_port_le : (db_type : Text) → default_port db_type ≤ u16_max
unfolding default_port
default_port_le db_type = ground arith

port_or_le : (port : ℤ) (default : ℕ) → default ≤ u16_max → port_or port default ≤ u16_max
unfolding port_or
port_or_le (pos p) default h = ground arith
port_or_le (negsuc p) default h = h

port_or_valid :
    (port : ℤ) (default p : ℕ) → port ≡ pos p → 0 < p → p ≤ u16_max → port_or port default ≡ p
unfolding port_or
port_or_valid port default p e positive small = rw e (ground arith)

port_or_invalid :
    (port : ℤ) (default p : ℕ)
    → port ≡ pos p
    → (p ≡ 0) ⊎ (u16_max < p)
    → port_or port default ≡ default
unfolding port_or
port_or_invalid port default p e invalid = rw e (ground arith)

port_or_negative : (port : ℤ) (default n : ℕ) → port ≡ negsuc n → port_or port default ≡ default
unfolding port_or
port_or_negative port default n e = rw e refl

-- A port of the row from 1 to 65535 is used, and any other, so 0, a larger one and a negative one,
-- is replaced by the driver's port. The port is always one that fits in 16 bits.
pub effective_port_lem :
    (ds : BaseDs)
    → (effective_port ds ≤ u16_max)
      × ((p : ℕ) → ds.port ≡ pos p → 0 < p → p ≤ u16_max → effective_port ds ≡ p)
      × ((p : ℕ)
          → ds.port ≡ pos p
          → (p ≡ 0) ⊎ (u16_max < p)
          → effective_port ds ≡ default_port ds.db_type)
      × ((n : ℕ) → ds.port ≡ negsuc n → effective_port ds ≡ default_port ds.db_type)
unfolding effective_port
effective_port_lem ds = (
  port_or_le ds.port (default_port ds.db_type) (default_port_le ds.db_type),
  port_or_valid ds.port (default_port ds.db_type),
  port_or_invalid ds.port (default_port ds.db_type),
  port_or_negative ds.port (default_port ds.db_type),
)
