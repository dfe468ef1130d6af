-- ===== src/Notifications/Updates/Once.antt =====
-- An update is delivered in the first round in which it is pending, to every hook that listens.
use quadletman.Prelude.{
  Bool, true, false, not, ◌&&◌, List, [], ◌∷◌, if◌then◌else◌, ◌≡◌, refl, ap, ◌∙◌, inl, inr, arith,
  Bool-cases, any, all, Text, one_of, is_empty, has,
}
use quadletman.Compartments.Patterns.{delete_where}
use quadletman.Notifications.States.{Hook}
use quadletman.Notifications.Updates.{
  Update, Check, Round, still_pending, notify, alert_hooks, deliver_all, check_all, alerted,
  update_round,
}
use quadletman.Notifications.Updates.Keys.{notify-fires, one_of-delete_where}
use quadletman.Notifications.Updates.Edges.{
  is_alert, heard, pending_in, tally, fires, edges, plain_round,
}
use quadletman.Notifications.Updates.Matching.{
  check_all-plain, notify-plain, key, still_pending-any, check_all-any, deliver_all-weigh,
}

alert_hooks-none : (hooks : List Hook) → is_empty (alert_hooks hooks) ≡ not (any is_alert hooks)
unfolding alert_hooks is_alert any is_empty
alert_hooks-none [] = refl
alert_hooks-none (h ∷ hooks) = ground (arith, alert_hooks-none hooks)

-- a round with a hook
alerted-some :
    (alerts : List Hook) (checks : List Check) (notified : List Text)
    → is_empty alerts ≡ false
    → let us = check_all alerts checks in
      alerted alerts checks notified ≡ (
        delete_where (λ k. not (one_of k (still_pending us))) (notify us notified).0,
        deliver_all alerts (notify us notified).1,
      )
unfolding alerted is_empty
alerted-some [] checks notified e = absurd (ground arith)
alerted-some (h ∷ alerts) checks notified e = refl

alerted-none :
    (alerts : List Hook) (checks : List Check) (notified : List Text)
    → is_empty alerts ≡ true
    → alerted alerts checks notified ≡ (notified, [])
unfolding alerted is_empty
alerted-none [] checks notified e = refl
alerted-none (h ∷ alerts) checks notified e = absurd (ground arith)

quiet_round :
    (r : Round) (notified : List Text)
    → any is_alert r.hooks ≡ false
    → update_round r notified ≡ (notified, [])
unfolding update_round
quiet_round r notified quiet =
    let none = alert_hooks-none r.hooks in
    alerted-none (alert_hooks r.hooks) r.checks notified (ground arith)

module _ (chosen : Hook → Bool) (comp name image : Text) (plain_comp : has b'/' comp ≡ false)
    (plain_name : has b'/' name ≡ false) where
  abbrev mine : Text
  mine = key chosen comp name image plain_comp plain_name

  -- one round with a hook: what it delivers, and whether the key is notified behind it
  update_round-edge :
      (r : Round) (notified : List Text)
      → plain_round r ≡ true
      → any is_alert r.hooks ≡ true
      → let now = pending_in comp name image r.hooks r.checks in
        (tally chosen comp name image (update_round r notified).1
          ≡ (if now && not (one_of mine notified) then heard chosen comp name r.hooks else 0))
        × (one_of mine (update_round r notified).0 ≡ now)
  unfolding update_round plain_round
  update_round-edge r notified plain busy =
      let us = check_all (alert_hooks r.hooks) r.checks in
      let all_plain = check_all-plain (alert_hooks r.hooks) r.checks plain in
      let found =
        still_pending-any chosen comp name image plain_comp plain_name us all_plain
        ∙ check_all-any chosen comp name image plain_comp plain_name r.hooks r.checks in
      let both = notify-fires mine (heard chosen comp name r.hooks) us notified in
      let sent =
        deliver_all-weigh chosen comp name image plain_comp plain_name r.hooks
          (notify us notified).1 (notify-plain us notified all_plain) in
      let kept =
        one_of-delete_where mine (λ t. not (one_of t (still_pending us))) (notify us notified).0 in
      let none = alert_hooks-none r.hooks in
      let round = alerted-some (alert_hooks r.hooks) r.checks notified (ground arith) in
      (
        ap (λ (x : List Text × List (Hook × Update)). tally chosen comp name image x.1) round
            ∙ (sent ∙ ground (arith, both.0, found)),
        ap (λ (x : List Text × List (Hook × Update)). one_of mine x.0) round
            ∙ (kept ∙ ground (arith, both.1, found)),
      )

  fires-edges :
      (rounds : List Round) (notified : List Text)
      → all plain_round rounds ≡ true
      → fires chosen comp name image rounds notified
        ≡ edges chosen comp name image rounds (one_of mine notified)
  unfolding fires edges all
  fires-edges [] notified h = refl
  fires-edges (r ∷ rounds) notified h = elim (Bool-cases (any is_alert r.hooks)) [
    | inl busy ↦
        let here = update_round-edge r notified (ground arith) busy in
        let ih = fires-edges rounds (update_round r notified).0 (ground arith) in
        let seen = ap (edges chosen comp name image rounds) here.1 in
        ground (arith, here.0, ih, seen, busy)
    | inr quiet ↦
        let round = quiet_round r notified quiet in
        rw (round, quiet, fires-edges rounds notified (ground arith)) (ground arith)
  ]

  -- Over any number of rounds, from a start at which nothing is notified: the deliveries of one
  -- image's update of one container, to any choice of hooks, are for each round with an enabled hook
  -- in which the update is pending, and was not in the last such round, one for each of the hooks that
  -- listen to the container in that round, and none else. Pending is what a check reports that is made
  -- and raises nothing, so an update is delivered again behind a check that was skipped or failed. The
  -- ids of compartments and the names of containers have no slash.
  pub fires_lem :
      (rounds : List Round)
      → all plain_round rounds ≡ true
      → fires chosen comp name image rounds [] ≡ edges chosen comp name image rounds false
  unfolding any one_of
  fires_lem rounds h = fires-edges rounds [] h
