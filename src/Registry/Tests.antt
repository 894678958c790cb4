-- ===== src/Registry/Tests.antt =====
-- A registry with a source and its alias, and calls on it.
use mathlib.Core.Bool.{false≢true}
use mathlib.Core.Option.{none-ne-some}
use toasty_mgr.Prelude.{
  sym, ◌∙◌, ℕ, ◌+◌, ◌≡◌, ◌≢◌, ◌≤◌, ◌<◌, ◌⊎◌, refl, true, none, some, List, [], ◌∷◌, Text, codes, ok,
  text_eq, text_has_eq,
}
use toasty_mgr.Prelude.Int.{pos, negsuc}
use toasty_mgr.Prelude.Strings.{text_eq_iff}
use toasty_mgr.Prelude.Map
use toasty_mgr.Prelude.Map.{keys}
use toasty_mgr.BaseDs.{Urls, BaseDs, effective_port, effective_port_lem, default_port, u16_max}
use toasty_mgr.Registry.{TcConn, bare_meta, default_pool_options}
use toasty_mgr.Registry.Connections.{
  Toasty, Registry, source_code, evict_source, init_map, publish_source,
}
use toasty_mgr.Registry.Loading.{get_cached, source_or_self}
use toasty_mgr.Registry.Evicted.{evict_source-evicts, evict_source-keeps}
use toasty_mgr.Registry.Published.{Published, publish_source-Published}
use toasty_mgr.Registry.Aliases.{Initialized, init_map-Initialized}

-- URLs as plain texts.
abbrev text_urls : Urls Text
text_urls = record {
  parse = λ t. ok t;
  to_string = λ u. u;
  set_path = λ _ u. u;
  append_pair = λ _ _ u. u;
  set_port = λ _ u. some u;
  set_password = λ _ u. some u;
  set_username = λ _ u. some u;
  scheme = λ u. u;
  username = λ u. [];
  password = λ u. none;
  host_str = λ u. none;
  port_of = λ u. none;
  path = λ u. [];
}

abbrev main_row : BaseDs
main_row = record {
  ds_code = codes "main";
  name = codes "main";
  user_name = [];
  pwd = [];
  db_host = [];
  db_name = [];
  cur_schema = [];
  time_zone = [];
  port = pos 3307;
  max_con = none;
  min_con = none;
  connect_timeout = none;
  acquire_timeout = none;
  idle_timeout = none;
  db_type = codes "mysql";
  state = true;
  remark = [];
  create_at = pos 0;
}

-- Connections are numbers, and the world is the next one.
abbrev numbered : Toasty Text ℕ ℕ ℕ
numbered = record {
  urls = text_urls;
  resolve = none;
  base_models = 0;
  connect = λ url models options w. (ok w, w + 1);
  get_ds = λ db code w. (ok main_row, w);
}

abbrev main_con : TcConn ℕ
main_con = record {
  inner = 5;
  meta = bare_meta (codes "main") (codes "main") (codes "sqlite:main");
  connect_url = some (codes "sqlite:main");
  pool_options = default_pool_options;
}

abbrev other_con : TcConn ℕ
other_con = record main_con {
  meta = bare_meta (codes "other") (codes "other") (codes "sqlite:main");
}

abbrev alias_map : List (Text × Text)
alias_map = (codes "orders", codes "main") ∷ []

abbrev one_alias : Registry ℕ ℕ ℕ
one_alias = record {
  connections = (codes "main", main_con) ∷ (codes "other", other_con) ∷ [];
  models = (codes "main", 1) ∷ (codes "orders", 2) ∷ [];
  aliases = alias_map;
  world = 6;
}

publish_source-Published_example :
    Published numbered one_alias main_con 3 (publish_source numbered main_con 3 one_alias)
publish_source-Published_example = publish_source-Published numbered one_alias main_con 3

init_map-Initialized_example : Initialized alias_map one_alias (init_map alias_map one_alias)
init_map-Initialized_example = init_map-Initialized alias_map one_alias

orders_of_main : source_or_self numbered one_alias (codes "orders") ≡ codes "main"
unfolding Map.get text_eq
orders_of_main = refl

evict_source-evicts_example :
    get_cached numbered (evict_source (codes "main") one_alias) (codes "orders") ≡ none
evict_source-evicts_example =
    evict_source-evicts numbered (codes "main") one_alias (codes "orders") (refl, tt) orders_of_main

other_not_main : codes "other" ≢ codes "main"
unfolding text_eq
other_not_main e = absurd (false≢true ((text_eq_iff (codes "other") (codes "main")).1 e))

other_no_alias : source_code one_alias (codes "other") ≡ none
unfolding Map.get text_eq
other_no_alias = refl

evict_source-keeps_example :
    get_cached numbered (evict_source (codes "main") one_alias) (codes "other")
    ≡ get_cached numbered one_alias (codes "other")
evict_source-keeps_example =
    evict_source-keeps numbered (codes "main") one_alias (codes "other") (refl, tt) other_not_main
      (λ e. none-ne-some (codes "main") (sym other_no_alias ∙ e))
      (λ target e. absurd (none-ne-some target (sym other_no_alias ∙ e)))

effective_port_lem_example :
    (effective_port main_row ≤ u16_max)
    × ((p : ℕ) → main_row.port ≡ pos p → 0 < p → p ≤ u16_max → effective_port main_row ≡ p)
    × ((p : ℕ)
        → main_row.port ≡ pos p
        → (p ≡ 0) ⊎ (u16_max < p)
        → effective_port main_row ≡ default_port main_row.db_type)
    × ((n : ℕ) → main_row.port ≡ negsuc n → effective_port main_row ≡ default_port main_row.db_type)
effective_port_lem_example = effective_port_lem main_row
