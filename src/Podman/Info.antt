-- ===== src/Podman/Info.antt =====
-- podman.py: `podman info`, its cool-down, and the driver lists behind it.
pub mod Cooldown
pub mod Drivers
use quadletman.Prelude.{
  ℕ, ◌+◌, Bool, true, false, not, ◌&&◌, ◌||◌, List, [], ◌∷◌, Option, none, some, if◌then◌else◌, ltb,
  ◌==◌, Text, codes, text_eq, text_ltb,
}
use mathlib.Core.Option
use quadletman.Prelude.Dict.{Dict, lookup}
use quadletman.Prelude.Options.{◌>>=◌}
use quadletman.Sanitized.Check.{Checked, ok, refused}
use quadletman.Sanitized.Names.{safe_str}
use quadletman.Podman.Features.{PodmanFeatures}

-- What `json.loads` returns.
mutual
  pub data Json : Type 0 where
    null : Json
    boolean : Bool → Json
    number : Text → Json
    string : Text → Json
    array : Jsons → Json
    object : Members → Json

  pub data Jsons : Type 0 where
    end : Jsons
    item : Json → Jsons → Jsons

  pub data Members : Type 0 where
    last : Members
    member : Text → Json → Members → Members

unfoldable pub get : Text → Members → Option Json
unfolding text_eq
get key last = none
get key (member k j rest) = if text_eq k key then some j else get key rest

-- The module's caches.
pub record Caches : Type 0 where
  pub features : Option PodmanFeatures
  pub info : Option Members
  pub last_attempt : ℕ
  pub network_drivers : Option (List Text)
  pub log_drivers : Option (List Text)
  pub volume_drivers : Option (List Text)

-- One `podman info`: an exception (a timeout, a missing binary), or the return code and what
-- `json.loads` makes of the output, where `none` is its exception.
pub data InfoRun : Type 0 where
  raised : InfoRun
  returned : (success : Bool) → Option Json → InfoRun

-- the dict that the run gives, if it gives one
unfoldable pub run_info : InfoRun → Option Members
run_info (returned true (some (object info))) = some info
run_info _ = none

or_empty : Option Members → Members
or_empty none = last
or_empty (some info) = info

-- The entries other than one name; `none` where an entry is no text, on which `SafeStr.of` raises.
unfoldable pub names_but : Text → Jsons → Option (List Text)
unfolding text_eq
names_but name end = some []
names_but name (item (string t) rest) =
    let others = names_but name rest in if text_eq t name then others else Option.map (◌∷◌ t) others
names_but name (item _ rest) = none

unfoldable pub all_names : Jsons → Option (List Text)
all_names end = some []
all_names (item (string t) rest) = Option.map (◌∷◌ t) (all_names rest)
all_names (item _ rest) = none

-- `sorted`
unfoldable pub insert_sorted : Text → List Text → List Text
unfolding text_ltb
insert_sorted t [] = t ∷ []
insert_sorted t (u ∷ us) = if text_ltb u t then u ∷ insert_sorted t us else t ∷ (u ∷ us)

unfoldable pub sorted : List Text → List Text
unfolding insert_sorted
sorted [] = []
sorted (t ∷ ts) = insert_sorted t (sorted ts)

accepted : Checked Text → Option Text
accepted (ok t) = some t
accepted (refused r) = none

-- `[SafeStr.of(d, …) for d in ds]`
unfoldable pub all_safe : List Text → Option (List Text)
unfolding safe_str accepted
all_safe [] = some []
all_safe (t ∷ ts) = do u ← accepted (safe_str t); us ← all_safe ts; some (u ∷ us)

-- The built-in driver first, then the others in order.
unfoldable pub with_builtin : Text → Jsons → Option (List Text)
unfolding names_but sorted all_safe
with_builtin name items = do
  others ← names_but name items
  safe ← all_safe (sorted others)
  some (name ∷ safe)

abbrev pub default_log_drivers : List Text
default_log_drivers =
    codes "journald"
    ∷ codes "json-file"
    ∷ codes "k8s-file"
    ∷ codes "none"
    ∷ codes "passthrough"
    ∷ []

unfoldable pub log_names : Jsons → Option (List Text)
unfolding all_names sorted all_safe
log_names end = some default_log_drivers
log_names (item j rest) = do names ← all_names (item j rest); all_safe (sorted names)

module _ (retry_interval : ℕ) where
  -- `get_podman_info`
  unfoldable pub get_podman_info : ℕ → InfoRun → Caches → Members × Caches
  unfolding run_info or_empty
  get_podman_info now run st = elim st.info [
    | some info ↦ (info, st)
    | none ↦
        if ltb now (st.last_attempt + retry_interval)
        then (last, st)
        else (or_empty (run_info run), record st { last_attempt = now; info = run_info run })
  ]

  -- `_plugins`; `none` is the `AttributeError` of an entry that is no dict
  plugins_in : Text → Option Json → Option Jsons
  unfolding get
  plugins_in key none = some end
  plugins_in key (some (object entries)) = elim (get key entries) [
    | some (array items) ↦ some items
    | _ ↦ some end
  ]
  plugins_in key (some _) = none

  unfoldable pub plugins : Text → ℕ → InfoRun → Caches → Option Jsons × Caches
  unfolding get_podman_info plugins_in get
  plugins key now run st =
      let (info, st') = get_podman_info now run st in
      (plugins_in key (get (codes "plugins") info), st')

  -- `lru_cache` keeps a list that was computed, until `clear_caches`.
  unfoldable pub get_network_drivers : ℕ → InfoRun → Caches → Option (List Text) × Caches
  unfolding plugins with_builtin
  get_network_drivers now run st = elim st.network_drivers [
    | some names ↦ (some names, st)
    | none ↦
        let (items, st') = plugins (codes "network") now run st in
        let names = items >>= with_builtin (codes "bridge") in
        (names, record st' { network_drivers = names })
  ]

  unfoldable pub get_volume_drivers : ℕ → InfoRun → Caches → Option (List Text) × Caches
  unfolding plugins with_builtin
  get_volume_drivers now run st = elim st.volume_drivers [
    | some names ↦ (some names, st)
    | none ↦
        let (items, st') = plugins (codes "volume") now run st in
        let names = items >>= with_builtin (codes "local") in
        (names, record st' { volume_drivers = names })
  ]

  unfoldable pub get_log_drivers : ℕ → InfoRun → Caches → Option (List Text) × Caches
  unfolding plugins log_names
  get_log_drivers now run st = elim st.log_drivers [
    | some names ↦ (some names, st)
    | none ↦
        let (items, st') = plugins (codes "log") now run st in
        let names = items >>= log_names in (names, record st' { log_drivers = names })
  ]

-- `clear_caches`
unfoldable pub clear_caches : Caches → Caches
clear_caches st = record {
  features = none;
  info = none;
  last_attempt = 0;
  network_drivers = none;
  log_drivers = none;
  volume_drivers = none;
}
