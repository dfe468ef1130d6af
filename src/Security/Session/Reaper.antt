-- ===== src/Security/Session/Reaper.antt =====
-- What a round of `reaper_loop` removes, and what `get_session` and `delete_session` do to the store.
use quadletman.Prelude.{
  ℕ, ◌-◌, ◌*◌, ◌/◌, ◌≤◌, Bool, true, false, ◌&&◌, Option, none, some, List, [], ◌∷◌, ◌≡◌, ◌↔◌, ◌∙◌,
  refl, arith, if◌then◌else◌, Text, text_eq, text_eq_iff, any, Bool-cases, inl, inr,
}
use quadletman.Prelude.Dict.{Dict, lookup, lookup-remove, lookup-insert}
use quadletman.Security.Session.{
  Env, Session, Store, is_expired, clear_and_delete, get_session, visit, touch, delete_session,
  expired_ids, reap, reap_all, reaper_round,
}

module _ (env : Env) where
  open env use {fernet, session_ttl, ticks}
  open fernet use {Key, Cipher}

  -- Time does not make a session live again.
  is_expired_mono :
      (s : Session Cipher) (now later : ℕ)
      → now ≤ later
      → is_expired env s now ≡ true
      → is_expired env s later ≡ true
  unfolding is_expired
  is_expired_mono s now later le e = ground arith

  abbrev mentions : Text → List Text → Bool
  mentions j sids = any (text_eq j) sids

  expired_ids_complete :
      (j : Text) (now : ℕ) (d : Dict (Session Cipher)) (s : Session Cipher)
      → lookup j d ≡ some s
      → is_expired env s now ≡ true
      → mentions j (expired_ids env now d) ≡ true
  unfolding lookup expired_ids any
  expired_ids_complete j now [] s e x = ground arith
  expired_ids_complete j now ((sid, t) ∷ d) s e x =
      ground (arith, text_eq_iff sid j, text_eq_iff j sid, expired_ids_complete j now d s)

  -- The session that a look at `sid` leaves under `j`.
  after_look : Text → ℕ → Text → Option (Session Cipher) → Option (Session Cipher)
  after_look sid now j none = none
  after_look sid now j (some s) = if text_eq sid j && is_expired env s now then none else some s

  lookup-reap_found :
      (sid j : Text) (now : ℕ) (o : Option (Session Cipher)) (st : Store env)
      → lookup sid st.sessions ≡ o
      → lookup j (reap env sid now o st).sessions ≡ after_look sid now j (lookup j st.sessions)
  unfolding reap clear_and_delete after_look
  lookup-reap_found sid j now none st e = ground (arith, text_eq_iff sid j)
  lookup-reap_found sid j now (some s) st e =
      ground (arith, text_eq_iff sid j, lookup-remove j sid st.sessions)

  lookup-reap :
      (sid j : Text) (now : ℕ) (st : Store env)
      → lookup j (reap env sid now (lookup sid st.sessions) st).sessions
        ≡ after_look sid now j (lookup j st.sessions)
  lookup-reap sid j now st = lookup-reap_found sid j now (lookup sid st.sessions) st refl

  reap_all-none :
      (clock : Text → ℕ) (sids : List Text) (j : Text) (st : Store env)
      → lookup j st.sessions ≡ none
      → lookup j (reap_all env clock sids st).sessions ≡ none
  unfolding reap_all after_look
  reap_all-none clock [] j st e = e
  reap_all-none clock (sid ∷ sids) j st e =
      reap_all-none clock sids j _ (lookup-reap sid j (clock sid) st ∙ rw (e, after_look))

  reap_all_live :
      (clock : Text → ℕ) (sids : List Text) (j : Text) (s : Session Cipher) (st : Store env)
      → lookup j st.sessions ≡ some s
      → is_expired env s (clock j) ≡ false
      → lookup j (reap_all env clock sids st).sessions ≡ some s
  unfolding reap_all after_look
  reap_all_live clock [] j s st e x = e
  reap_all_live clock (sid ∷ sids) j s st e x =
      reap_all_live clock sids j s _
        (lookup-reap sid j (clock sid) st ∙ rw (e, after_look) (ground (arith, text_eq_iff sid j)))
        x

  reap_all_expired :
      (clock : Text → ℕ) (sids : List Text) (j : Text) (s : Session Cipher) (st : Store env)
      → lookup j st.sessions ≡ some s
      → is_expired env s (clock j) ≡ true
      → mentions j sids ≡ true
      → lookup j (reap_all env clock sids st).sessions ≡ none
  unfolding reap_all after_look any
  reap_all_expired clock [] j s st e x m = ground arith
  reap_all_expired clock (sid ∷ sids) j s st e x m = elim (Bool-cases (text_eq sid j)) [
    | inl same ↦
        reap_all-none clock sids j _ (
          lookup-reap sid j (clock sid) st ∙ rw (e, after_look) (ground (arith, text_eq_iff sid j)))
    | inr other ↦
        reap_all_expired clock sids j s _
          (lookup-reap sid j (clock sid) st ∙ rw (e, after_look) (rw other)) x
          (ground (arith, text_eq_iff sid j, text_eq_iff j sid))
  ]

  -- A session that had expired when a round started at `now` is gone after the round, whenever the
  -- round looks again at it.
  pub reaper_round-expired :
      (now : ℕ) (clock : Text → ℕ) (st : Store env) (j : Text) (s : Session Cipher)
      → now ≤ clock j
      → lookup j st.sessions ≡ some s
      → is_expired env s now ≡ true
      → lookup j (reaper_round env now clock st).sessions ≡ none
  unfolding reaper_round
  reaper_round-expired now clock st j s le e x =
      reap_all_expired clock _ j s st e (is_expired_mono s now (clock j) le x)
        (expired_ids_complete j now st.sessions s e x)

  -- A session that has not expired at its second look is kept as it was by the round.
  pub reaper_round-live :
      (now : ℕ) (clock : Text → ℕ) (st : Store env) (j : Text) (s : Session Cipher)
      → lookup j st.sessions ≡ some s
      → is_expired env s (clock j) ≡ false
      → lookup j (reaper_round env now clock st).sessions ≡ some s
  unfolding reaper_round
  reaper_round-live now clock st j s e x =
      reap_all_live clock (expired_ids env now st.sessions) j s st e x

  -- What a look that gives `r` leaves of the session itself and of its encryption key.
  abbrev pub session_after : ℕ → Option Text → Option (Session Cipher) → Option (Session Cipher)
  session_after now (some u) (some s) = some (record s { last_seen = now })
  session_after now _ _ = none

  abbrev pub key_after : Option Text → Option (Session Cipher) → Option Key → Option Key
  key_after none (some s) key = none
  key_after _ _ key = key

  visit-name :
      (sid : Text) (now : ℕ) (o : Option (Session Cipher)) (st : Store env) (u : Text)
      → ((visit env sid now o st).0 ≡ some u) ↔ (
          (s : Session Cipher) × (o ≡ some s)
          × (now - s.created_at ≤ session_ttl * ticks)
          × (now - s.last_seen ≤ session_ttl / 2 * ticks)
          × (s.username ≡ u))
  unfolding visit is_expired
  visit-name sid now none st u = (λ h. absurd (ground arith), λ h. ground arith)
  visit-name sid now (some s) st u = (
    λ h. (s, refl, ground arith, ground arith, ground arith),
    λ (t, e, age, idle, name). ground arith,
  )

  visit-session :
      (sid : Text) (now : ℕ) (o : Option (Session Cipher)) (st : Store env) (j : Text)
      → lookup sid st.sessions ≡ o
      → lookup j (visit env sid now o st).1.sessions ≡ (
          if text_eq sid j
          then session_after now (visit env sid now o st).0 o
          else lookup j st.sessions)
  unfolding visit touch clear_and_delete
  visit-session sid now none st j e = ground (arith, text_eq_iff sid j)
  visit-session sid now (some s) st j e = elim (Bool-cases (is_expired env s now)) [
    | inl old ↦ rw old (lookup-remove j sid st.sessions)
    | inr live ↦ rw live (lookup-insert j sid _ st.sessions)
  ]

  visit-key :
      (sid : Text) (now : ℕ) (o : Option (Session Cipher)) (st : Store env) (j : Text)
      → lookup j (visit env sid now o st).1.cred_keys ≡ (
          if text_eq sid j
          then key_after (visit env sid now o st).0 o (lookup j st.cred_keys)
          else lookup j st.cred_keys)
  unfolding visit touch clear_and_delete
  visit-key sid now none st j = ground arith
  visit-key sid now (some s) st j = elim (Bool-cases (is_expired env s now)) [
    | inl old ↦ rw old (lookup-remove j sid st.cred_keys)
    | inr live ↦ rw live (ground arith)
  ]

  -- `get_session` returns a name exactly when the id has a session of that name that is at most
  -- `session_ttl` seconds old and was seen at most half as long ago. A session whose name is returned
  -- has been seen now and keeps its encryption key; when no name is returned neither a session nor
  -- the key of one is left under the id; and the sessions and keys of other ids stay.
  pub get_session_lem :
      (sid : Text) (now : ℕ) (st : Store env) (u : Text)
      → let (name, after) = get_session env sid now st in
        ((name ≡ some u) ↔ (
          (s : Session Cipher) × (lookup sid st.sessions ≡ some s)
          × (now - s.created_at ≤ session_ttl * ticks)
          × (now - s.last_seen ≤ session_ttl / 2 * ticks)
          × (s.username ≡ u)))
        × (((j : Text)
              → lookup j after.sessions ≡ (
                  if text_eq sid j
                  then session_after now name (lookup sid st.sessions)
                  else lookup j st.sessions))
            × ((j : Text)
                → lookup j after.cred_keys ≡ (
                    if text_eq sid j
                    then key_after name (lookup sid st.sessions) (lookup j st.cred_keys)
                    else lookup j st.cred_keys)))
  unfolding get_session
  get_session_lem sid now st u =
      let o = lookup sid st.sessions in
      (
        visit-name sid now o st u,
        (λ j. visit-session sid now o st j refl, λ j. visit-key sid now o st j),
      )

  -- `delete_session` leaves neither a session nor an encryption key under the id of a session, and
  -- leaves every other id alone.
  pub delete_session_lem :
      (sid j : Text) (s : Session Cipher) (st : Store env)
      → lookup sid st.sessions ≡ some s
      → (lookup j (delete_session env sid st).sessions
          ≡ (if text_eq sid j then none else lookup j st.sessions))
        × (lookup j (delete_session env sid st).cred_keys
            ≡ (if text_eq sid j then none else lookup j st.cred_keys))
  unfolding delete_session clear_and_delete
  delete_session_lem sid j s st e =
      rw (e, delete_session) (lookup-remove j sid st.sessions, lookup-remove j sid st.cred_keys)
