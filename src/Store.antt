-- ===== src/Store.antt =====
-- The configurations of the desktop client and the commands on them, in src-tauri/src/main.rs. A
-- configuration is paired with its id; the id of a new one, drawn at random, is an argument. A command
-- holds both locks to its end, so commands follow one another.
pub mod Active
use rxcore.Prelude.{
  ℕ, List, [], ◌∷◌, ◌++◌, Option, none, some, Bool, true, false, not, ◌==◌, length, if◌then◌else◌,
}
use rxcore.Prelude.Loops.{retain, eq_bytes}
use rxcore.Text.{Str}
use rxcore.Link.{ProxyConfig, parse_vless_link}

abbrev pub Stored : Type 0
Stored = Str × ProxyConfig

pub record SavedConfigs : Type 0 where
  pub configs : List Stored
  pub active_id : Str

-- The two values behind the locks, and what the file holds.
pub record AppState : Type 0 where
  pub configs : List Stored
  pub active_config_id : Str
  pub file : SavedConfigs

unfoldable pub save_configs_to_file : AppState → AppState
save_configs_to_file s = record s {
  file = record { configs = s.configs; active_id = s.active_config_id };
}

unfoldable pub select_config : Str → AppState → AppState
unfolding save_configs_to_file
select_config id s = save_configs_to_file (record s { active_config_id = id })

abbrev pub first_id : List Stored → Str
first_id [] = []
first_id ((id, config) ∷ configs) = id

unfoldable pub delete_config : Str → AppState → AppState
unfolding save_configs_to_file eq_bytes
delete_config id s =
    let configs = retain (λ c. not (eq_bytes c.0 id)) s.configs in
    save_configs_to_file (record s {
      configs = configs;
      active_config_id =
          if eq_bytes s.active_config_id id then first_id configs else s.active_config_id;
    })

unfoldable pub add_config : Str → ProxyConfig → AppState → AppState
unfolding save_configs_to_file
add_config id config s = save_configs_to_file (record s {
  configs = s.configs ++ (id, config) ∷ [];
  active_config_id = if length s.active_config_id == 0 then id else s.active_config_id;
})

-- The first configuration with the id gets other values.
unfoldable pub change : Str → ProxyConfig → List Stored → List Stored
unfolding eq_bytes
change id config [] = []
change id config ((j, old) ∷ configs) =
    let rest = change id config configs in
    if eq_bytes j id then (j, config) ∷ configs else (j, old) ∷ rest

unfoldable pub update_config : Str → ProxyConfig → AppState → AppState
unfolding save_configs_to_file change
update_config id config s = save_configs_to_file (record s { configs = change id config s.configs })

unfoldable pub import_parsed : Str → Option ProxyConfig → AppState → AppState
unfolding add_config
import_parsed id none s = s
import_parsed id (some config) s = add_config id config s

unfoldable pub import_config_link : Str → Str → AppState → AppState
unfolding parse_vless_link import_parsed
import_config_link id link s = import_parsed id (parse_vless_link link) s

-- The configuration that `get_latency` and `connect` look up.
unfoldable pub find_config : Str → List Stored → Option ProxyConfig
unfolding eq_bytes
find_config id [] = none
find_config id ((j, config) ∷ configs) =
    let rest = find_config id configs in if eq_bytes j id then some config else rest

pub data Command : Type 0 where
  select delete : Str → Command
  add update : Str → ProxyConfig → Command
  import : Str → Str → Command

unfoldable pub step : Command → AppState → AppState
unfolding select_config delete_config add_config update_config import_config_link
step (select id) s = select_config id s
step (delete id) s = delete_config id s
step (add id config) s = add_config id config s
step (update id config) s = update_config id config s
step (import id link) s = import_config_link id link s

unfoldable pub run : List Command → AppState → AppState
unfolding step
run [] s = s
run (c ∷ cs) s = run cs (step c s)
