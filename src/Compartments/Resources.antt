-- ===== src/Compartments/Resources.antt =====
-- services/compartment_manager.py: adding, changing and deleting the images, networks and pods of a
-- compartment, each a row of the database and a unit file. The rows that `_validate_row` reads back
-- are valid, the lock of the compartment is held, and the compartment of a new row exists.
pub mod Image
pub mod Network
pub mod Pod
pub mod Tables
pub mod Undone
pub mod Filed
pub mod Steps
pub mod Kept
pub mod Synced
mod Tests
use quadletman.Prelude.{
  Bool, true, false, not, ◌&&◌, ◌||◌, List, [], ◌∷◌, ◌++◌, map, Option, none, some, if◌then◌else◌,
  any, Text, codes, text_eq,
}
use quadletman.Prelude.Dict.{remove}
use quadletman.Sanitized.Check.{ok, refused}
use quadletman.Sanitized.Names.{safe_unit_name}
use quadletman.Quadlet.Units.{Resource, Container, Templates, named, tidy}
use quadletman.Quadlet.Sync.{only_used}
use quadletman.Compartments.Patterns.{update_where, delete_where, first_where}
use quadletman.Compartments.Lifecycle.{
  World, Host, Action, daemon_reload, ◌>>◌, for_each, persist_unit, call,
}

-- A row of `images`, `networks` or `pods`.
pub record ResourceRow : Type 0 where
  pub compartment_id : Text
  pub resource : Resource

-- The three tables with the containers of the compartment, the event log as types with messages, and
-- the unit directory of the compartment.
pub record Store : Type 0 where
  pub images : List ResourceRow
  pub networks : List ResourceRow
  pub pods : List ResourceRow
  pub containers : List Container
  pub events : List (Text × Text)
  pub world : World

-- What an operation comes to. `missing` is a return without an effect, `not_found` and `blocked` are
-- its `ValueError`s, `conflict` is an `IntegrityError`, and `write_failed` a `FileWriteFailed` with
-- its `rolled_back`; `raised` is any other exception.
pub data Result : Type 0 where
  done missing not_found conflict raised : Result
  blocked : List Text → Result
  write_failed : Bool → Result

abbrev pub is_id : Text → ResourceRow → Bool
is_id id r = text_eq r.resource.id id

-- the key and the unique constraint of each table
unfoldable pub clashes : ResourceRow → ResourceRow → Bool
unfolding text_eq
clashes a b =
    text_eq a.resource.id b.resource.id
    || (text_eq a.compartment_id b.compartment_id && text_eq a.resource.qm_name b.resource.qm_name)

-- `INSERT`; `none` is the `IntegrityError` of the key or of the unique constraint
unfoldable pub insert_row : ResourceRow → List ResourceRow → Option (List ResourceRow)
unfolding any clashes
insert_row r rows = if any (clashes r) rows then none else some (rows ++ r ∷ [])

-- the resources of the compartment, as `list_images` gives them
unfoldable pub resources_of : Text → List ResourceRow → List Resource
unfolding text_eq
resources_of comp [] = []
resources_of comp (r ∷ rows) =
    let rest = resources_of comp rows in
    if text_eq r.compartment_id comp then r.resource ∷ rest else rest

-- the row of an id in the compartment
unfoldable pub row_of : Text → Text → List ResourceRow → Option ResourceRow
unfolding first_where text_eq
row_of comp id rows = first_where (λ r. is_id id r && text_eq r.compartment_id comp) rows

-- `[c.qm_name for c in containers if …]`
unfoldable pub names_where : (Container → Bool) → List Container → List Text
names_where test [] = []
names_where test (c ∷ cs) =
    let rest = names_where test cs in if test c then c.qm_name ∷ rest else rest

-- the row with the fields of `given`, its name kept
abbrev pub with_settings : Resource → Resource → Resource
with_settings given r = record r { settings = given.settings }

abbrev pub message : Text → Text → Text → Text
message kind name verb = kind ++ (name ++ verb)

-- Which files can be removed: `_remove_unit`, behind `SafeUnitName.of`.
unfoldable pub remove_unit : (Text → Bool) → Text → Action
unfolding remove
remove_unit unlinks file w = elim (safe_unit_name file) [
  | refused r ↦ (w, false)
  | ok name ↦ if unlinks name then (record w { disk = remove name w.disk }, true) else (w, false)
]

-- `cleanup_resource_config_dir`, which may raise; its files are not in the unit directory
abbrev pub cleanup : Bool → Action
cleanup cleans w = (w, cleans)

abbrev pub if_user : Bool → Action → Action
if_user user_exists act w = if user_exists then act w else (w, true)

-- `contextlib.suppress(Exception)`
abbrev pub suppress : Action → Action
suppress act w = ((act w).0, true)

-- `write_network_unit`
unfoldable pub write_network : Text → Templates → Host → Resource → Action
unfolding persist_unit tidy
write_network comp t host r =
    persist_unit host (r.qm_name ++ codes ".network", tidy (t.network comp r))
