-- ===== src/Notifications/States.antt =====
-- `_check_once`: the last known state of each container, the events of a transition with the hooks
-- that they fire, and the row of counters. The heartbeat of the compartment is left out.
pub mod Counting
pub mod History
use quadletman.Prelude.{
  ℕ, ◌+◌, Bool, true, false, not, ◌&&◌, ◌||◌, List, [], ◌∷◌, ◌++◌, map, Option, none, some,
  if◌then◌else◌, any, Text, codes, text_eq, one_of,
}
use quadletman.Prelude.Dict.{Dict, lookup, insert}
use quadletman.Compartments.Patterns.{update_where, delete_where}

pub record Hook : Type 0 where
  pub compartment_id : Text
  pub qm_container_name : Text
  pub event_type : Text
  pub enabled : Bool
  pub webhook_url : Text

-- A row of `container_restart_stats`.
pub record Stats : Type 0 where
  pub compartment_id : Text
  pub container_name : Text
  pub restart_count : ℕ
  pub last_failure_at : Option ℕ
  pub last_restart_at : Option ℕ

-- The dict `_last_states`, the table of counters, and the deliveries that were started.
pub record Monitor : Type 0 where
  pub last_states : Dict Text
  pub stats : List Stats
  pub fired : List (Hook × Text)

-- `on_failure` or `on_restart`
unfoldable pub event_type : Text → Text → Option Text
unfolding text_eq one_of
event_type old new =
    if text_eq new (codes "failed")
    then some (codes "on_failure")
    else if text_eq new (codes "activating") && one_of old (codes "active" ∷ codes "failed" ∷ [])
    then some (codes "on_restart")
    else none

-- `on_start` or `on_stop`
unfoldable pub start_stop_event : Text → Text → Option Text
unfolding text_eq one_of
start_stop_event old new =
    if text_eq new (codes "active")
      && one_of old (codes "activating" ∷ codes "inactive" ∷ codes "dead" ∷ [])
    then some (codes "on_start")
    else if one_of new (codes "inactive" ∷ codes "dead" ∷ [])
        && one_of old (codes "active" ∷ codes "deactivating" ∷ [])
    then some (codes "on_stop")
    else none

-- the enabled hooks of the event for one name: `hook_map.get((comp.id, name), [])`
hooks_of : Text → Text → Text → List Hook → List Hook
unfolding text_eq
hooks_of comp name event [] = []
hooks_of comp name event (h ∷ hooks) =
    let rest = hooks_of comp name event hooks in
    if text_eq h.compartment_id comp
      && (text_eq h.qm_container_name name && (text_eq h.event_type event && h.enabled))
    then h ∷ rest
    else rest

unfoldable pub deliveries : List Hook → Text → Text → Option Text → List (Hook × Text)
unfolding hooks_of
deliveries hooks comp name none = []
deliveries hooks comp name (some event) =
    map (λ h. (h, event)) (hooks_of comp name event hooks ++ hooks_of comp [] event hooks)

unfoldable pub is_stats_of : Text → Text → Stats → Bool
unfolding text_eq
is_stats_of comp name s = text_eq s.compartment_id comp && text_eq s.container_name name

-- `INSERT … ON CONFLICT DO UPDATE`
unfoldable pub upsert_stats : Text → Text → Stats → (Stats → Stats) → List Stats → List Stats
unfolding is_stats_of any
upsert_stats comp name new change rows =
    if any (is_stats_of comp name) rows
    then update_where (is_stats_of comp name) change rows
    else rows ++ new ∷ []

unfoldable pub count_failure : Text → Text → ℕ → List Stats → List Stats
unfolding upsert_stats
count_failure comp name now rows =
    upsert_stats comp name
      (record {
        compartment_id = comp;
        container_name = name;
        restart_count = 0;
        last_failure_at = some now;
        last_restart_at = none;
      })
      (λ s. record s { last_failure_at = some now }) rows

unfoldable pub count_restart : Text → Text → ℕ → List Stats → List Stats
unfolding upsert_stats
count_restart comp name now rows =
    upsert_stats comp name
      (record {
        compartment_id = comp;
        container_name = name;
        restart_count = 1;
        last_failure_at = none;
        last_restart_at = some now;
      })
      (λ s. record s { restart_count = s.restart_count + 1; last_restart_at = some now }) rows

unfoldable pub record_event : Text → Text → ℕ → Option Text → List Stats → List Stats
unfolding text_eq count_failure count_restart
record_event comp name now none rows = rows
record_event comp name now (some event) rows =
    if text_eq event (codes "on_failure")
    then count_failure comp name now rows
    else if text_eq event (codes "on_restart")
    then count_restart comp name now rows
    else rows

-- `f"{comp.id}/{container_name}"`
unfoldable pub state_key : Text → Text → Text
state_key comp name = comp ++ (codes "/" ++ name)

-- what a container does to hooks and counters that was seen in `old` before; `saved` says that the
-- update of the counters is committed
unfoldable pub transition :
    List Hook → Text → Text → Text → ℕ → Bool → Option Text → Monitor → Monitor
unfolding text_eq event_type start_stop_event deliveries record_event
transition hooks comp name new now saved none m = m
transition hooks comp name new now saved (some old) m = if text_eq old new then m else record m {
  stats = if saved then record_event comp name now (event_type old new) m.stats else m.stats;
  fired =
      m.fired
      ++ (deliveries hooks comp name (event_type old new)
          ++ deliveries hooks comp name (start_stop_event old new));
}

-- the body of the loop over the statuses of a compartment
unfoldable pub observe : List Hook → Text → Text → Text → ℕ → Bool → Monitor → Monitor
unfolding lookup insert state_key transition
observe hooks comp name new now saved m =
    let key = state_key comp name in
    let m' = transition hooks comp name new now saved (lookup key m.last_states) m in
    record m' { last_states = insert key new m'.last_states }

-- the keys of containers that are gone are removed
unfoldable pub prune : List Text → Dict Text → Dict Text
unfolding one_of
prune active [] = []
prune active ((key, state) ∷ states) =
    let rest = prune active states in if one_of key active then (key, state) ∷ rest else rest

unfoldable pub forget_gone : List Text → Monitor → Monitor
unfolding prune
forget_gone active m = record m { last_states = prune active m.last_states }
