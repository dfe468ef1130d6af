-- ===== src/Notifications/States/History.antt =====
-- The counter of restarts against the sequence of the states that were seen.
use quadletman.Prelude.{
  ℕ, ◌+◌, Bool, true, false, ◌&&◌, ◌||◌, List, [], ◌∷◌, ◌++◌, Option, none, some, if◌then◌else◌,
  ◌≡◌, refl, sym, ap, subst, ◌∙◌, inl, inr, arith, Bool-cases, Option-cases, All, any, Text, codes,
  text_eq, text_eq_iff, text_eq_refl, one_of, has, before, after,
}
use quadletman.Prelude.Dict.{Dict, lookup, lookup-insert}
use quadletman.Notifications.States.{
  Hook, Stats, Monitor, event_type, record_event, state_key, transition, observe, prune,
  forget_gone,
}
use quadletman.Notifications.States.Counting.{
  restart_count, count_failure-keeps, count_restart-counts,
}

-- A container that was active or failed is started again.
unfoldable pub is_restart : Text → Text → Bool
unfolding text_eq
is_restart old new =
    text_eq new (codes "activating")
    && (text_eq old (codes "active") || text_eq old (codes "failed"))

abbrev pub bump : Option Text → Text → ℕ
bump none new = 0
bump (some old) new = if is_restart old new then 1 else 0

-- How often the states restart, from the last known one on.
unfoldable pub restarts : Option Text → List Text → ℕ
restarts last [] = 0
restarts last (s ∷ states) = bump last s + restarts (some s) states

same_container : Text → Text → Text → Text → Bool
unfolding text_eq
same_container comp' name' comp name = text_eq comp' comp && text_eq name' name

failed-is_restart :
    (old new : Text) → text_eq new (codes "failed") ≡ true → is_restart old new ≡ false
unfolding is_restart
failed-is_restart old new h =
    subst (λ (s : Text). is_restart old s ≡ false) (sym ((text_eq_iff new (codes "failed")).0 h))
      refl

same-is_restart : (old new : Text) → text_eq old new ≡ true → is_restart old new ≡ false
unfolding is_restart
same-is_restart old new h =
    subst (λ (s : Text). is_restart old s ≡ false) ((text_eq_iff old new).0 h)
      (elim (Bool-cases (text_eq old (codes "activating"))) [
        | inl a ↦
            subst (λ (s : Text). is_restart s s ≡ false)
              (sym ((text_eq_iff old (codes "activating")).0 a)) refl
        | inr a ↦ rw a refl
      ])

event_type-failed :
    (old new : Text)
    → text_eq new (codes "failed") ≡ true
    → event_type old new ≡ some (codes "on_failure")
unfolding event_type
event_type-failed old new h = rw h refl

event_type-restart :
    (old new : Text)
    → text_eq new (codes "failed") ≡ false
    → is_restart old new ≡ true
    → event_type old new ≡ some (codes "on_restart")
unfolding event_type is_restart one_of any
event_type-restart old new f h = ground (arith, f, h)

event_type-none :
    (old new : Text)
    → text_eq new (codes "failed") ≡ false
    → is_restart old new ≡ false
    → event_type old new ≡ none
unfolding event_type is_restart one_of any
event_type-none old new f h = ground (arith, f, h)

record_event-counts :
    (comp name comp' name' old new : Text) (now : ℕ) (rows : List Stats)
    → restart_count comp name (record_event comp' name' now (event_type old new) rows)
      ≡ restart_count comp name rows
        + (if same_container comp' name' comp name then bump (some old) new else 0)
unfolding record_event same_container
record_event-counts comp name comp' name' old new now rows =
    elim (Bool-cases (text_eq new (codes "failed"))) [
      | inl f ↦
          rw (event_type-failed old new f, failed-is_restart old new f)
            (count_failure-keeps comp name comp' name' now rows ∙ ground arith)
      | inr f ↦ elim (Bool-cases (is_restart old new)) [
        | inl r ↦
            rw (event_type-restart old new f r, r)
              (count_restart-counts comp name comp' name' now rows)
        | inr r ↦ rw (event_type-none old new f r, r) (ground arith)
      ]
    ]

-- what an observation does to the counter of a container
observe-counts :
    (hooks : List Hook) (comp name comp' name' new : Text) (now : ℕ) (m : Monitor)
    → restart_count comp name (observe hooks comp' name' new now true m).stats
      ≡ restart_count comp name m.stats
        + (if same_container comp' name' comp name
            then bump (lookup (state_key comp' name') m.last_states) new
            else 0)
unfolding observe transition
observe-counts hooks comp name comp' name' new now m =
    elim (Option-cases (lookup (state_key comp' name') m.last_states)) [
      | inl e ↦ rw e (ground arith)
      | inr (old, e) ↦ elim (Bool-cases (text_eq old new)) [
        | inl same ↦ rw (e, same, same-is_restart old new same) (ground arith)
        | inr changed ↦
            rw (e, changed) (record_event-counts comp name comp' name' old new now m.stats)
      ]
    ]

transition-last_states :
    (hooks : List Hook) (comp name new : Text) (now : ℕ) (saved : Bool) (old : Option Text)
    (m : Monitor)
    → (transition hooks comp name new now saved old m).last_states ≡ m.last_states
unfolding transition
transition-last_states hooks comp name new now saved none m = refl
transition-last_states hooks comp name new now saved (some old) m = ground arith

before-append :
    (c n : Text)
    → has b'/' c ≡ false
    → (before b'/' (c ++ (b'/' ∷ n)) ≡ c) × (after b'/' (c ++ (b'/' ∷ n)) ≡ n)
unfolding has any before after
before-append [] n h = (refl, refl)
before-append (d ∷ c) n h =
    let ih = before-append c n (ground arith) in (ground (arith, ih), ground (arith, ih))

state_key-eq :
    (c n c' n' : Text)
    → has b'/' c ≡ false
    → has b'/' c' ≡ false
    → text_eq (state_key c' n') (state_key c n) ≡ same_container c' n' c n
unfolding state_key same_container
state_key-eq c n c' n' h h' = elim (Bool-cases (text_eq (c' ++ (b'/' ∷ n')) (c ++ (b'/' ∷ n)))) [
  | inl e ↦
      let keys = (text_eq_iff (c' ++ (b'/' ∷ n')) (c ++ (b'/' ∷ n))).0 e in
      let comps =
        sym (before-append c' n' h').0 ∙ (ap (before b'/') keys ∙ (before-append c n h).0) in
      let names =
        sym (before-append c' n' h').1 ∙ (ap (after b'/') keys ∙ (before-append c n h).1) in
      rw (e, comps, names, text_eq_refl c, text_eq_refl n) refl
  | inr e ↦ elim (Bool-cases (text_eq c' c && text_eq n' n)) [
    | inl same ↦
        let p = (text_eq_iff c' c).0 (ground arith) in
        let q = (text_eq_iff n' n).0 (ground arith) in
        rw (same, p, q) (text_eq_refl (c ++ (b'/' ∷ n)))
    | inr other ↦ rw (e, other) refl
  ]
]

-- A key names one compartment and one container.
pub state_key-same :
    (c n c' n' : Text)
    → has b'/' c ≡ false
    → has b'/' c' ≡ false
    → text_eq (state_key c' n') (state_key c n) ≡ (text_eq c' c && text_eq n' n)
unfolding same_container
state_key-same = state_key-eq

lookup-prune :
    (key : Text) (active : List Text) (d : Dict Text)
    → one_of key active ≡ true
    → lookup key (prune active d) ≡ lookup key d
unfolding prune lookup
lookup-prune key active [] h = refl
lookup-prune key active ((k, s) ∷ d) h =
    let kept = λ (e : text_eq k key ≡ true).
      subst (λ (x : Text). one_of x active ≡ true) (sym ((text_eq_iff k key).0 e)) h in
    elim (Bool-cases (text_eq k key)) [
      | inl e ↦ rw (kept e, e) refl
      | inr e ↦ elim (Bool-cases (one_of k active)) [
        | inl a ↦ rw (a, e) (lookup-prune key active d h)
        | inr a ↦ rw (a, e) (lookup-prune key active d h)
      ]
    ]

-- What the rounds of the monitor do: a state that is seen, or the end of a round with the keys of the
-- containers that are there.
pub data Event : Type 0 where
  seen : Text → Text → Text → ℕ → Event
  ended : List Text → Event

unfoldable pub step : List Hook → Event → Monitor → Monitor
unfolding observe forget_gone
step hooks (seen comp name state now) m = observe hooks comp name state now true m
step hooks (ended active) m = forget_gone active m

unfoldable pub run : List Hook → List Event → Monitor → Monitor
unfolding step
run hooks [] m = m
run hooks (e ∷ es) m = run hooks es (step hooks e m)

module _ (comp name : Text) where
  -- the states of one container, in order
  unfoldable pub states_of : List Event → List Text
  unfolding same_container
  states_of [] = []
  states_of (seen comp' name' state now ∷ es) =
      let rest = states_of es in if same_container comp' name' comp name then state ∷ rest else rest
  states_of (ended active ∷ es) = states_of es

  -- Ids have no slash, and the container stays.
  abbrev pub IsFit : Event → Type 0
  IsFit (seen comp' name' state now) = has b'/' comp' ≡ false
  IsFit (ended active) = one_of (state_key comp name) active ≡ true

  lookup-observe :
      (hooks : List Hook) (comp' name' new : Text) (now : ℕ) (m : Monitor)
      → has b'/' comp ≡ false
      → has b'/' comp' ≡ false
      → lookup (state_key comp name) (observe hooks comp' name' new now true m).last_states ≡ (
          if same_container comp' name' comp name
          then some new
          else lookup (state_key comp name) m.last_states)
  unfolding observe
  lookup-observe hooks comp' name' new now m h h' =
      let key = state_key comp' name' in
      let m' = transition hooks comp' name' new now true (lookup key m.last_states) m in
      lookup-insert (state_key comp name) key new m'.last_states
      ∙ rw
          (
            state_key-eq comp name comp' name' h h',
            transition-last_states hooks comp' name' new now true (lookup key m.last_states) m,
          )
          refl

  -- The rounds of the monitor over any containers, where the counters can be saved, ids hold no slash
  -- and the container is there all the time: its counter of restarts has grown by the number of
  -- times that the states that were seen of it go from `active` or `failed` to `activating`, from
  -- the last state known before on; the states of other containers do not count.
  pub run-counts :
      (hooks : List Hook) (es : List Event) (m : Monitor)
      → has b'/' comp ≡ false
      → All IsFit es
      → restart_count comp name (run hooks es m).stats
        ≡ restart_count comp name m.stats
          + restarts (lookup (state_key comp name) m.last_states) (states_of es)
  unfolding run states_of restarts forget_gone
  run-counts hooks [] m h fit = omega arith
  run-counts hooks (seen comp' name' state now ∷ es) m h fit =
      let counts = observe-counts hooks comp name comp' name' state now m in
      let known = lookup-observe hooks comp' name' state now m h fit.0 in
      let ih = run-counts hooks es (observe hooks comp' name' state now true m) h fit.1 in
      elim (Bool-cases (same_container comp' name' comp name)) [
        | inl same ↦
            let keys =
              (text_eq_iff (state_key comp' name') (state_key comp name)).0
                (state_key-eq comp name comp' name' h fit.0 ∙ same) in
            ih ∙ rw (counts, known, same, keys) (omega arith)
        | inr other ↦ ih ∙ rw (counts, known, other) (omega arith)
      ]
  run-counts hooks (ended active ∷ es) m h fit =
      let ih = run-counts hooks es (forget_gone active m) h fit.1 in
      ih ∙ rw (lookup-prune (state_key comp name) active m.last_states fit.0) refl
