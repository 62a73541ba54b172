-- ===== src/Tests/Store.antt =====
-- The commands of the desktop client at concrete inputs.
use rxcore.Prelude.{◌≡◌, refl, List, [], ◌∷◌, none, true}
use rxcore.Link.{ProxyConfig}
use rxcore.Store.{AppState, Command, select, delete, add, find_config, run}
use rxcore.Store.Active.{nothing, run-active}

abbrev config : ProxyConfig
config = record {
  name = 110 ∷ [];
  server = 115 ∷ [];
  port = 443;
  uuid = 117 ∷ [];
  sni = [];
  allow_insecure = true;
}

abbrev blank : AppState
blank = record {
  configs = [];
  active_config_id = [];
  file = record { configs = []; active_id = [] };
}

-- Three come and two go, the active one first.
abbrev commands : List Command
commands =
    add (1 ∷ []) config
    ∷ add (2 ∷ []) config
    ∷ add (3 ∷ []) config
    ∷ select (2 ∷ [])
    ∷ delete (2 ∷ [])
    ∷ delete (3 ∷ [])
    ∷ []

first_is_next : (run commands blank).file.active_id ≡ 1 ∷ []
unfolding run
first_is_next = refl

-- An unknown id stays active, and a new configuration does not take its place.
unknown_stays :
    find_config
      (run (select (9 ∷ []) ∷ add (1 ∷ []) config ∷ []) blank).active_config_id
      (run (select (9 ∷ []) ∷ add (1 ∷ []) config ∷ []) blank).configs
    ≡ none
unfolding run find_config
unknown_stays = refl

abbrev all_gone : List Command
all_gone = add (1 ∷ []) config ∷ select (1 ∷ []) ∷ delete (1 ∷ []) ∷ []

run-active_example :
    ((run all_gone blank).configs ≡ []) × ((run all_gone blank).active_config_id ≡ [])
unfolding run find_config
run-active_example =
    run-active all_gone blank (tt, ((config, refl), (tt, tt))) (nothing refl refl) refl
