-- ===== src/Notifications/Updates/Edges.antt =====
-- What the rounds of `image_update_monitor_loop` should deliver, described over what they read.
use quadletman.Prelude.{
  ℕ, suc, ◌+◌, Bool, true, false, not, ◌&&◌, ◌||◌, List, [], ◌∷◌, Option, none, some, if◌then◌else◌,
  any, all, Text, codes, text_eq, is_empty, has,
}
use quadletman.Notifications.States.{Hook}
use quadletman.Notifications.Updates.{Report, Update, Check, Round, container_of, update_round}

-- An enabled hook of image updates.
unfoldable pub is_alert : Hook → Bool
unfolding text_eq
is_alert h = text_eq h.event_type (codes "on_image_update") && h.enabled

-- A hook that wants to hear of the updates of a container.
unfoldable pub listens : Text → Text → Hook → Bool
unfolding text_eq is_alert is_empty
listens comp name h =
    is_alert h
    && (text_eq h.compartment_id comp
        && (is_empty h.qm_container_name || text_eq h.qm_container_name name))

-- how many of the hooks that `chosen` picks listen
unfoldable pub heard : (Hook → Bool) → Text → Text → List Hook → ℕ
unfolding listens
heard chosen comp name [] = 0
heard chosen comp name (h ∷ hooks) =
    let rest = heard chosen comp name hooks in
    if chosen h && listens comp name h then suc rest else rest

-- The image of a container has an update that is pending.
unfoldable pub reports_it : Text → Text → List Report → Bool
unfolding text_eq container_of any
reports_it name image reports =
    any
      (λ r.
        text_eq r.updated (codes "pending")
        && (text_eq name (container_of r) && text_eq image r.image))
      reports

unfoldable pub reported : Text → Text → Option (List Report) → Bool
unfolding reports_it
reported name image none = false
reported name image (some reports) = reports_it name image reports

-- A check is made of a compartment with a hook, a container that follows its registry, and a user.
unfoldable pub is_checked : List Hook → Check → Bool
unfolding text_eq is_alert any
is_checked hooks c =
    any (λ h. is_alert h && text_eq h.compartment_id c.compartment_id) hooks
    && (any (λ a. text_eq a (codes "registry")) c.auto_updates && c.user_exists)

-- A check that is made, and raises nothing, reports that the image has an update.
unfoldable pub pending_in : Text → Text → Text → List Hook → List Check → Bool
unfolding text_eq reported is_checked any
pending_in comp name image hooks checks =
    any
      (λ c. text_eq comp c.compartment_id && (is_checked hooks c && reported name image c.reports))
      checks

-- how many of the deliveries are of the image of a container, to hooks that `chosen` picks
unfoldable pub tally : (Hook → Bool) → Text → Text → Text → List (Hook × Update) → ℕ
unfolding text_eq container_of
tally chosen comp name image [] = 0
tally chosen comp name image ((h, u) ∷ sent) =
    let rest = tally chosen comp name image sent in
    if chosen h
      && (text_eq comp u.compartment_id
          && (text_eq name (container_of u.report) && text_eq image u.report.image))
    then suc rest
    else rest

-- The rounds of the loop, one behind the other, from the keys that are notified before: how many
-- deliveries they start.
unfoldable pub fires : (Hook → Bool) → Text → Text → Text → List Round → List Text → ℕ
unfolding update_round tally
fires chosen comp name image [] notified = 0
fires chosen comp name image (r ∷ rounds) notified =
    let (later, sent) = update_round r notified in
    tally chosen comp name image sent + fires chosen comp name image rounds later

-- What they should be: for each round with a hook in which the update is pending, and was not in the
-- last such round, the hooks that listen then. `before` says that it was pending.
unfoldable pub edges : (Hook → Bool) → Text → Text → Text → List Round → Bool → ℕ
unfolding is_alert any pending_in heard
edges chosen comp name image [] before = 0
edges chosen comp name image (r ∷ rounds) before =
    let now = pending_in comp name image r.hooks r.checks in
    let idle = edges chosen comp name image rounds before in
    let rest = edges chosen comp name image rounds now in
    if any is_alert r.hooks
    then (if now && not before then heard chosen comp name r.hooks else 0) + rest
    else idle

-- Names without a slash.
unfoldable pub is_plain : Text → Report → Bool
unfolding has container_of
is_plain comp r = not (has b'/' comp) && not (has b'/' (container_of r))

unfoldable pub plain_reports : Text → Option (List Report) → Bool
unfolding all is_plain
plain_reports comp none = true
plain_reports comp (some reports) = all (is_plain comp) reports

unfoldable pub plain_round : Round → Bool
unfolding all plain_reports
plain_round r = all (λ c. plain_reports c.compartment_id c.reports) r.checks
