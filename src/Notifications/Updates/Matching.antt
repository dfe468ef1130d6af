-- ===== src/Notifications/Updates/Matching.antt =====
-- The keys of updates whose names have no slash, and the deliveries by hook and key.
use quadletman.Prelude.{
  ◌+◌, Bool, true, false, ◌&&◌, ◌||◌, List, [], ◌∷◌, ◌++◌, Option, none, some, ◌≡◌, refl, sym, ap,
  ◌∙◌, inl, inr, arith, Bool-cases, any, all, Text, text_eq, text_eq_iff, one_of, has, all-append,
}
use quadletman.Notifications.States.{Hook, state_key}
use quadletman.Notifications.States.History.{state_key-same}
use quadletman.Notifications.Updates.{
  Report, Update, Check, container_of, is_pending, dedup_key, still_pending, notify, alert_hooks,
  deliver, deliver_all, tagged, check, check_all,
}
use quadletman.Notifications.Updates.Keys.{weigh}
use quadletman.Notifications.Updates.Edges.{
  is_alert, listens, heard, reports_it, reported, is_checked, pending_in, tally, is_plain,
  plain_reports,
}

abbrev pub plain_update : Update → Bool
plain_update u = is_plain u.compartment_id u.report

pub alert_hooks-any :
    (comp : Text) (hooks : List Hook)
    → any (λ h. text_eq h.compartment_id comp) (alert_hooks hooks)
      ≡ any (λ h. is_alert h && text_eq h.compartment_id comp) hooks
unfolding alert_hooks is_alert any
alert_hooks-any comp [] = refl
alert_hooks-any comp (h ∷ hooks) = ground (arith, alert_hooks-any comp hooks)

tagged-plain :
    (comp : Text) (o : Option (List Report))
    → plain_reports comp o ≡ true
    → all plain_update (tagged comp o) ≡ true
unfolding tagged plain_reports all
tagged-plain comp none h = refl
tagged-plain comp (some []) h = refl
tagged-plain comp (some (r ∷ reports)) h = ground (arith, tagged-plain comp (some reports))

check-plain :
    (alerts : List Hook) (c : Check)
    → plain_reports c.compartment_id c.reports ≡ true
    → all plain_update (check alerts c) ≡ true
unfolding check all
check-plain alerts c h = ground (arith, tagged-plain c.compartment_id c.reports h)

pub check_all-plain :
    (alerts : List Hook) (checks : List Check)
    → all (λ c. plain_reports c.compartment_id c.reports) checks ≡ true
    → all plain_update (check_all alerts checks) ≡ true
unfolding check_all all
check_all-plain alerts [] h = refl
check_all-plain alerts (c ∷ checks) h =
    all-append plain_update (check alerts c) (check_all alerts checks)
    ∙ rw (check-plain alerts c (ground arith), check_all-plain alerts checks (ground arith)) refl

pub notify-plain :
    (us : List Update) (notified : List Text)
    → all plain_update us ≡ true
    → all plain_update (notify us notified).1 ≡ true
unfolding notify all
notify-plain [] notified h = refl
notify-plain (u ∷ us) notified h =
    let skipped = notify-plain us notified in
    let taken = notify-plain us (notified ++ dedup_key u ∷ []) in ground (arith, skipped, taken)

any-append :
    {A : Type 0} (p : A → Bool) (xs ys : List A) → any p (xs ++ ys) ≡ (any p xs || any p ys)
unfolding any
any-append p [] ys = ground arith
any-append p (x ∷ xs) ys = ground (arith, any-append p xs ys)

dedup_key-state_key :
    (u : Update)
    → dedup_key u ≡ state_key u.compartment_id (state_key (container_of u.report) u.report.image)
unfolding dedup_key state_key
dedup_key-state_key u = refl

module _ (chosen : Hook → Bool) (comp name image : Text) (plain_comp : has b'/' comp ≡ false)
    (plain_name : has b'/' name ≡ false) where
  abbrev pub key : Text
  key = state_key comp (state_key name image)

  abbrev same : Update → Bool
  same u =
      text_eq comp u.compartment_id
      && (text_eq name (container_of u.report) && text_eq image u.report.image)

  dedup_key-same : (u : Update) → plain_update u ≡ true → text_eq key (dedup_key u) ≡ same u
  unfolding is_plain
  dedup_key-same u h =
      let inner =
        state_key-same (container_of u.report) u.report.image name image (ground arith)
          plain_name in
      let outer =
        state_key-same u.compartment_id (state_key (container_of u.report) u.report.image) comp
          (state_key name image) (ground arith) plain_comp in
      ap (text_eq key) (dedup_key-state_key u)
      ∙ (outer ∙ ap (λ (b : Bool). text_eq comp u.compartment_id && b) inner)

  pub still_pending-any :
      (us : List Update)
      → all plain_update us ≡ true
      → one_of key (still_pending us) ≡ any (λ u. is_pending u && same u) us
  unfolding still_pending one_of any all
  still_pending-any [] h = refl
  still_pending-any (u ∷ us) h =
      let one = dedup_key-same u (ground arith) in
      let ih = still_pending-any us (ground arith) in ground (arith, one, ih)

  tagged-any :
      (c : Text) (o : Option (List Report))
      → any (λ u. is_pending u && same u) (tagged c o) ≡ (text_eq comp c && reported name image o)
  unfolding tagged reported reports_it any is_pending
  tagged-any c none = ground arith
  tagged-any c (some []) = ground arith
  tagged-any c (some (r ∷ reports)) = ground (arith, tagged-any c (some reports))

  pub check_all-any :
      (hooks : List Hook) (checks : List Check)
      → any (λ u. is_pending u && same u) (check_all (alert_hooks hooks) checks)
        ≡ pending_in comp name image hooks checks
  unfolding check_all check pending_in is_checked any
  check_all-any hooks [] = refl
  check_all-any hooks (c ∷ checks) =
      let listened = alert_hooks-any c.compartment_id hooks in
      let one = tagged-any c.compartment_id c.reports in
      any-append (λ u. is_pending u && same u) (check (alert_hooks hooks) c)
        (check_all (alert_hooks hooks) checks)
      ∙ ground (arith, listened, one, check_all-any hooks checks)

  tally-append :
      (xs ys : List (Hook × Update))
      → tally chosen comp name image (xs ++ ys)
        ≡ tally chosen comp name image xs + tally chosen comp name image ys
  unfolding tally
  tally-append [] ys = ground arith
  tally-append (x ∷ xs) ys = ground (arith, tally-append xs ys)

  tally-other :
      (hooks : List Hook) (u : Update)
      → same u ≡ false
      → tally chosen comp name image (deliver hooks u) ≡ 0
  unfolding deliver tally
  tally-other [] u other = refl
  tally-other (h ∷ hooks) u other = ground (arith, tally-other hooks u other)

  tally-mine :
      (hooks : List Hook) (u : Update)
      → u.compartment_id ≡ comp
      → container_of u.report ≡ name
      → same u ≡ true
      → tally chosen comp name image (deliver (alert_hooks hooks) u) ≡ heard chosen comp name hooks
  unfolding deliver tally alert_hooks heard listens is_alert
  tally-mine [] u c n mine = refl
  tally-mine (h ∷ hooks) u c n mine =
      let ih = tally-mine hooks u c n mine in
      let c' = ap (text_eq h.compartment_id) c in
      let n' = ap (text_eq h.qm_container_name) n in ground (arith, ih, c', n')

  pub deliver_all-weigh :
      (hooks : List Hook) (us : List Update)
      → all plain_update us ≡ true
      → tally chosen comp name image (deliver_all (alert_hooks hooks) us)
        ≡ weigh key (heard chosen comp name hooks) us
  unfolding deliver_all weigh all tally
  deliver_all-weigh hooks [] h = refl
  deliver_all-weigh hooks (u ∷ us) h =
      let one = dedup_key-same u (ground arith) in
      let ih = deliver_all-weigh hooks us (ground arith) in
      tally-append (deliver (alert_hooks hooks) u) (deliver_all (alert_hooks hooks) us)
      ∙ elim (Bool-cases (same u)) [
        | inl mine ↦
            let c = sym ((text_eq_iff comp u.compartment_id).0 (ground arith)) in
            let n = sym ((text_eq_iff name (container_of u.report)).0 (ground arith)) in
            ground (arith, one, ih, mine, tally-mine hooks u c n mine)
        | inr other ↦ ground (arith, one, ih, other, tally-other (alert_hooks hooks) u other)
      ]
