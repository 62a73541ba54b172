-- ===== src/Store/Active.antt =====
-- The active configuration is one of those stored.
use rxcore.Prelude.{
  ◌≡◌, refl, sym, ap, ◌∙◌, ◌⊎◌, inl, inr, List, [], ◌∷◌, ◌++◌, Option, none, some, true, false, not,
  ◌==◌, length, Bool-cases,
}
use rxcore.Prelude.Loops.{retain, eq_bytes, eq_bytes→eq, eq_bytes_refl}
use rxcore.Text.{Str}
use rxcore.Link.{ProxyConfig, parse_vless_link}
use rxcore.Store.{
  Stored, AppState, first_id, change, find_config, Command, select, delete, add, update, import,
  select_config, delete_config, add_config, update_config, import_parsed, import_config_link, step,
  run,
}

abbrev pub IsStored : Str → List Stored → Type 0
IsStored id configs = (config : ProxyConfig) × (find_config id configs ≡ some config)

-- The active one is stored, or nothing is.
pub data IsActive (s : AppState) : Type 0 where
  nothing : s.configs ≡ [] → s.active_config_id ≡ [] → IsActive s
  stored : IsStored s.active_config_id s.configs → IsActive s

-- A user selects what is in the list.
abbrev pub Fits : Command → AppState → Type 0
Fits (select id) s = IsStored id s.configs
Fits (delete id) s = Unit
Fits (add id config) s = Unit
Fits (update id config) s = Unit
Fits (import id link) s = Unit

abbrev pub AllFit : List Command → AppState → Type 0
AllFit [] s = Unit
AllFit (c ∷ cs) s = Fits c s × AllFit cs (step c s)

find-first_id : (configs : List Stored) → (configs ≡ []) ⊎ IsStored (first_id configs) configs
unfolding find_config
find-first_id [] = inl refl
find-first_id ((id, config) ∷ configs) = inr (config, rw (eq_bytes_refl id) refl)

apart_lem : (id j k : Str) → eq_bytes k id ≡ true → eq_bytes j id ≡ false → eq_bytes k j ≡ false
apart_lem id j k same e = elim (Bool-cases (eq_bytes k j)) [
  | inl f ↦ cc (same, e, ap (λ x. eq_bytes x id) (eq_bytes→eq k j f))
  | inr f ↦ f
]

find-retain :
    (id j : Str) (configs : List Stored)
    → eq_bytes j id ≡ false
    → find_config j (retain (λ c. not (eq_bytes c.0 id)) configs) ≡ find_config j configs
unfolding find_config
find-retain id j [] e = refl
find-retain id j ((k, config) ∷ configs) e = elim (Bool-cases (eq_bytes k id)) [
  | inl same ↦ rw (same, apart_lem id j k same e) (find-retain id j configs e)
  | inr other ↦ elim (Bool-cases (eq_bytes k j)) [
    | inl f ↦ rw other (rw f refl)
    | inr f ↦ rw other (rw f (find-retain id j configs e))
  ]
]

find-append :
    (id j : Str) (config old : ProxyConfig) (configs : List Stored)
    → find_config j configs ≡ some old
    → find_config j (configs ++ (id, config) ∷ []) ≡ some old
unfolding find_config
find-append id j config old [] h = cc
find-append id j config old ((k, other) ∷ configs) h = elim (Bool-cases (eq_bytes k j)) [
  | inl e ↦ rw e (sym (rw e refl) ∙ h)
  | inr e ↦ rw e (find-append id j config old configs (sym (rw e refl) ∙ h))
]

change-IsStored :
    (id j : Str) (config : ProxyConfig) (configs : List Stored)
    → IsStored j configs
    → IsStored j (change id config configs)
unfolding find_config change
change-IsStored id j config [] h = h
change-IsStored id j config ((k, old) ∷ configs) h = elim (Bool-cases (eq_bytes k id)) [
  | inl same ↦ elim (Bool-cases (eq_bytes k j)) [
    | inl e ↦ rw same (rw e (config, refl))
    | inr e ↦ rw same (rw e (h.0, sym (rw e refl) ∙ h.1))
  ]
  | inr other ↦ elim (Bool-cases (eq_bytes k j)) [
    | inl e ↦ rw other (rw e (old, refl))
    | inr e ↦ rw other (rw e (change-IsStored id j config configs (h.0, sym (rw e refl) ∙ h.1)))
  ]
]

find-last :
    (id : Str) (config : ProxyConfig) (configs : List Stored)
    → IsStored id (configs ++ (id, config) ∷ [])
unfolding find_config
find-last id config [] = (config, rw (eq_bytes_refl id) refl)
find-last id config ((k, old) ∷ configs) = elim (Bool-cases (eq_bytes k id)) [
  | inl e ↦ rw e (old, refl)
  | inr e ↦ rw e (find-last id config configs)
]

add_config-IsActive :
    (id : Str) (config : ProxyConfig) (s : AppState)
    → IsActive s
    → IsActive (add_config id config s)
unfolding add_config
add_config-IsActive id config s (nothing e f) = rw f (stored (find-last id config s.configs))
add_config-IsActive id config s (stored (old, h)) =
    elim (Bool-cases (length s.active_config_id == 0)) [
      | inl e ↦ rw e (stored (find-last id config s.configs))
      | inr e ↦ rw e (stored (old, find-append id s.active_config_id config old s.configs h))
    ]

delete_config-IsActive : (id : Str) (s : AppState) → IsActive s → IsActive (delete_config id s)
unfolding delete_config
delete_config-IsActive id s (nothing e f) = elim (Bool-cases (eq_bytes s.active_config_id id)) [
  | inl same ↦ rw same (rw e (nothing refl refl))
  | inr other ↦ rw other (rw e (nothing refl f))
]
delete_config-IsActive id s (stored (old, h)) = elim (Bool-cases (eq_bytes s.active_config_id id)) [
  | inl same ↦ rw same (elim (find-first_id (retain (λ c. not (eq_bytes c.0 id)) s.configs)) [
    | inl empty ↦ nothing empty (ap first_id empty)
    | inr first ↦ stored first
  ])
  | inr other ↦ rw other (stored (old, find-retain id s.active_config_id s.configs other ∙ h))
]

update_config-IsActive :
    (id : Str) (config : ProxyConfig) (s : AppState)
    → IsActive s
    → IsActive (update_config id config s)
unfolding update_config change
update_config-IsActive id config s (nothing e f) = rw e (nothing refl f)
update_config-IsActive id config s (stored h) =
    stored (change-IsStored id s.active_config_id config s.configs h)

import-IsActive :
    (id : Str) (o : Option ProxyConfig) (s : AppState)
    → IsActive s
    → IsActive (import_parsed id o s)
unfolding import_parsed
import-IsActive id none s h = h
import-IsActive id (some config) s h = add_config-IsActive id config s h

step-IsActive : (c : Command) (s : AppState) → Fits c s → IsActive s → IsActive (step c s)
unfolding step select_config import_config_link
step-IsActive (select id) s fits h = stored fits
step-IsActive (delete id) s fits h = delete_config-IsActive id s h
step-IsActive (add id config) s fits h = add_config-IsActive id config s h
step-IsActive (update id config) s fits h = update_config-IsActive id config s h
step-IsActive (import id link) s fits h = import-IsActive id (parse_vless_link link) s h

run-IsActive : (cs : List Command) (s : AppState) → AllFit cs s → IsActive s → IsActive (run cs s)
unfolding run
run-IsActive [] s fits h = h
run-IsActive (c ∷ cs) s fits h = run-IsActive cs (step c s) fits.1 (step-IsActive c s fits.0 h)

IsActive-found :
    (s : AppState)
    → IsActive s
    → find_config s.active_config_id s.configs ≡ none
    → (s.configs ≡ []) × (s.active_config_id ≡ [])
IsActive-found s (nothing e f) h = (e, f)
IsActive-found s (stored (old, k)) h = cc

-- After any commands of which each select names a configuration that is then in the list, from a state
-- in which the active one is stored or nothing is, the active configuration is found, unless there is
-- no configuration at all and no active id.
pub run-active :
    (cs : List Command) (s : AppState)
    → AllFit cs s
    → IsActive s
    → find_config (run cs s).active_config_id (run cs s).configs ≡ none
    → ((run cs s).configs ≡ []) × ((run cs s).active_config_id ≡ [])
run-active cs s fits h missing = IsActive-found (run cs s) (run-IsActive cs s fits h) missing
