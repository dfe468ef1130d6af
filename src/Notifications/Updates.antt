-- ===== src/Notifications/Updates.antt =====
-- `image_update_monitor_loop`: the pending updates of images, each notified once, and the deliveries to
-- the hooks that listen. A round is what it reads from the database and what the checks report.
pub mod Once
mod Keys
pub mod Edges
mod Matching
use quadletman.Prelude.{
  ℕ, Bool, true, false, not, ◌&&◌, ◌||◌, List, [], ◌∷◌, ◌++◌, map, Option, none, some,
  if◌then◌else◌, any, Text, codes, text_eq, one_of, ends_with, drop_end, length, is_empty,
}
use quadletman.Compartments.Patterns.{delete_where}
use quadletman.Notifications.States.{Hook}

-- What `podman auto-update --dry-run` reports of one unit; a field that it omits is empty.
pub record Report : Type 0 where
  pub updated : Text
  pub unit : Text
  pub image : Text
  pub policy : Text

-- A report of a compartment: what the payload of a delivery holds, without its time.
pub record Update : Type 0 where
  pub compartment_id : Text
  pub report : Report

-- A compartment: its id, the `auto_update` of its containers, whether its user exists, and the reports
-- of its check, where `none` is an exception.
pub record Check : Type 0 where
  pub compartment_id : Text
  pub auto_updates : List Text
  pub user_exists : Bool
  pub reports : Option (List Report)

pub record Round : Type 0 where
  pub hooks : List Hook
  pub checks : List Check

-- `unit.removesuffix(".service")`
unfoldable pub container_of : Report → Text
unfolding ends_with drop_end
container_of r =
    if ends_with (codes ".service") r.unit
    then drop_end (length (codes ".service")) r.unit
    else r.unit

-- `f"{comp.id}/{container_name}/{image}"`
unfoldable pub dedup_key : Update → Text
unfolding container_of
dedup_key u =
    u.compartment_id ++ (codes "/" ++ (container_of u.report ++ (codes "/" ++ u.report.image)))

unfoldable pub is_pending : Update → Bool
unfolding text_eq
is_pending u = text_eq u.report.updated (codes "pending")

unfoldable pub still_pending : List Update → List Text
unfolding is_pending dedup_key
still_pending [] = []
still_pending (u ∷ us) =
    let rest = still_pending us in if is_pending u then dedup_key u ∷ rest else rest

-- The loop over the updates: the keys that are notified behind it, and the updates that are new.
unfoldable pub notify : List Update → List Text → List Text × List Update
unfolding is_pending dedup_key one_of
notify [] notified = (notified, [])
notify (u ∷ us) notified =
    let skipped = notify us notified in
    let (later, fired) = notify us (notified ++ dedup_key u ∷ []) in
    if not (is_pending u)
    then skipped
    else if one_of (dedup_key u) notified
    then skipped
    else (later, u ∷ fired)

-- `alert_hooks`, of all compartments
unfoldable pub alert_hooks : List Hook → List Hook
unfolding text_eq
alert_hooks [] = []
alert_hooks (h ∷ hooks) =
    let rest = alert_hooks hooks in
    if text_eq h.event_type (codes "on_image_update") && h.enabled then h ∷ rest else rest

-- The hooks that an update is delivered to: of its compartment, for any container or for its own.
unfoldable pub deliver : List Hook → Update → List (Hook × Update)
unfolding text_eq is_empty container_of
deliver [] u = []
deliver (h ∷ alerts) u =
    let rest = deliver alerts u in
    if not (text_eq h.compartment_id u.compartment_id)
    then rest
    else if not (is_empty h.qm_container_name)
        && not (text_eq h.qm_container_name (container_of u.report))
    then rest
    else (h, u) ∷ rest

unfoldable pub deliver_all : List Hook → List Update → List (Hook × Update)
unfolding deliver
deliver_all alerts [] = []
deliver_all alerts (u ∷ us) = deliver alerts u ++ deliver_all alerts us

unfoldable pub tagged : Text → Option (List Report) → List Update
tagged comp none = []
tagged comp (some reports) = map (λ r. record { compartment_id = comp; report = r }) reports

-- what the check of a compartment reports, if it is not skipped
unfoldable pub check : List Hook → Check → List Update
unfolding text_eq tagged
check alerts c =
    if not (any (λ h. text_eq h.compartment_id c.compartment_id) alerts)
    then []
    else if not (any (λ a. text_eq a (codes "registry")) c.auto_updates)
    then []
    else if not c.user_exists
    then []
    else tagged c.compartment_id c.reports

unfoldable pub check_all : List Hook → List Check → List Update
unfolding check
check_all alerts [] = []
check_all alerts (c ∷ checks) = check alerts c ++ check_all alerts checks

-- One round: the keys that are notified behind it, and the deliveries that it starts.
unfoldable pub alerted : List Hook → List Check → List Text → List Text × List (Hook × Update)
unfolding check_all notify still_pending one_of delete_where deliver_all
alerted [] checks notified = (notified, [])
alerted (h ∷ alerts) checks notified =
    let us = check_all (h ∷ alerts) checks in
    let (later, fired) = notify us notified in
    (delete_where (λ k. not (one_of k (still_pending us))) later, deliver_all (h ∷ alerts) fired)

unfoldable pub update_round : Round → List Text → List Text × List (Hook × Update)
unfolding alerted alert_hooks
update_round r notified = alerted (alert_hooks r.hooks) r.checks notified
