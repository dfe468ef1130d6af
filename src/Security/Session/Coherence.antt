-- ===== src/Security/Session/Coherence.antt =====
-- Key material and sessions of security/session.py belong together, whatever is called.
use quadletman.Prelude.{
  ℕ, Option, none, some, ◌≡◌, ◌≢◌, refl, arith, Text, text_eq_iff, List, [], ◌∷◌, Bool-cases, inl,
  inr, is_empty, Option-cases,
}
use quadletman.Prelude.Dict.{lookup, dict_laws}
use quadletman.Security.Session.{
  Env, Session, Store, Draw, is_expired, clear_and_delete, create_session, offer, keep, get_session,
  visit, touch, present, recover, from_keyring, from_memory, open_cipher, get_session_credentials,
  delete_session, reap, reap_all, expired_ids, reaper_round,
}

module _ (env : Env) where
  open env use {fernet}
  open fernet use {Key, Cipher}

  -- The encryption key of an id, next to its session: a key needs a session with a ciphertext.
  abbrev Backed : Option Key → Option (Session Cipher) → Type 0
  Backed none s = Unit
  Backed (some key) none = ⊥
  Backed (some key) (some s) = s.cred_enc ≢ none

  abbrev pub IsCoherent : Store env → Type 0
  IsCoherent st = (j : Text) → Backed (lookup j st.cred_keys) (lookup j st.sessions)

  clear_and_delete-IsCoherent :
      (sid : Text) (s : Session Cipher) (st : Store env)
      → IsCoherent st
      → IsCoherent (clear_and_delete env sid s st)
  unfolding clear_and_delete
  clear_and_delete-IsCoherent sid s st h j = simp dict_laws (ground (arith, h j))

  touch-IsCoherent :
      (sid : Text) (s : Session Cipher) (now : ℕ) (st : Store env)
      → lookup sid st.sessions ≡ some s
      → IsCoherent st
      → IsCoherent (touch env sid s now st)
  unfolding touch
  touch-IsCoherent sid s now st e h j = simp dict_laws (ground (arith, h j, text_eq_iff sid j))

  create_session-IsCoherent :
      (d : Draw env) (username password : Text) (st : Store env)
      → lookup d.sid st.sessions ≡ none
      → IsCoherent st
      → IsCoherent (create_session env d username password st).1
  unfolding create_session
  create_session-IsCoherent d username password st e h j = elim (Bool-cases (is_empty password)) [
    | inl empty ↦ rw empty (simp dict_laws (ground (arith, h j, text_eq_iff d.sid j)))
    | inr full ↦ rw full (kept (offer env d password st.kernel))
  ]
    where
      kept :
          (o : Option ℕ × env.keyutils.Kernel)
          → Backed
              (lookup j (keep env d username password o st).cred_keys)
              (lookup j (keep env d username password o st).sessions)
      kept (none, k) = simp dict_laws (ground (arith, h j, text_eq_iff d.sid j))
      kept (some id, k) = simp dict_laws (ground (arith, h j, text_eq_iff d.sid j))

  visit-IsCoherent :
      (sid : Text) (now : ℕ) (o : Option (Session Cipher)) (st : Store env)
      → lookup sid st.sessions ≡ o
      → IsCoherent st
      → IsCoherent (visit env sid now o st).1
  unfolding visit
  visit-IsCoherent sid now none st e h = h
  visit-IsCoherent sid now (some s) st e h = elim (Bool-cases (is_expired env s now)) [
    | inl old ↦ rw old (clear_and_delete-IsCoherent sid s st h)
    | inr live ↦ rw live (touch-IsCoherent sid s now st e h)
  ]

  from_keyring-IsCoherent :
      (sid : Text) (s : Session Cipher) (o : Option (List ℕ)) (st : Store env)
      → IsCoherent st
      → IsCoherent (from_keyring env sid s o st).1
  unfolding from_keyring
  from_keyring-IsCoherent sid s (some payload) st h = h
  from_keyring-IsCoherent sid s none st h = clear_and_delete-IsCoherent sid s st h

  from_memory-IsCoherent :
      (sid : Text) (s : Session Cipher) (key : Option Key) (enc : Option Cipher) (st : Store env)
      → IsCoherent st
      → IsCoherent (from_memory env sid s key enc st).1
  unfolding from_memory
  from_memory-IsCoherent sid s (some key) (some enc) st h =
      elim (Option-cases (open_cipher env key enc)) [
        | inl e ↦ rw (e, from_memory) (clear_and_delete-IsCoherent sid s st h)
        | inr (password, e) ↦ rw (e, from_memory) h
      ]
  from_memory-IsCoherent sid s _ _ st h = h

  recover-IsCoherent :
      (sid : Text) (now : ℕ) (s : Session Cipher) (id : Option ℕ) (st : Store env)
      → IsCoherent st
      → IsCoherent (recover env sid now s id st).1
  unfolding recover
  recover-IsCoherent sid now s (some id) st h = from_keyring-IsCoherent sid s _ st h
  recover-IsCoherent sid now s none st h = from_memory-IsCoherent sid s _ s.cred_enc st h

  present-IsCoherent :
      (sid : Text) (now : ℕ) (o : Option (Session Cipher)) (st : Store env)
      → lookup sid st.sessions ≡ o
      → IsCoherent st
      → IsCoherent (present env sid now o st).1
  unfolding present
  present-IsCoherent sid now none st e h = h
  present-IsCoherent sid now (some s) st e h = elim (Bool-cases (is_expired env s now)) [
    | inl old ↦ rw old (clear_and_delete-IsCoherent sid s st h)
    | inr live ↦ rw live (
        recover-IsCoherent sid now s s.keyring_id (touch env sid s now st)
          (touch-IsCoherent sid s now st e h))
  ]

  reap-IsCoherent :
      (sid : Text) (now : ℕ) (o : Option (Session Cipher)) (st : Store env)
      → IsCoherent st
      → IsCoherent (reap env sid now o st)
  unfolding reap
  reap-IsCoherent sid now none st h = h
  reap-IsCoherent sid now (some s) st h = elim (Bool-cases (is_expired env s now)) [
    | inl old ↦ rw old (clear_and_delete-IsCoherent sid s st h)
    | inr live ↦ rw live h
  ]

  reap_all-IsCoherent :
      (clock : Text → ℕ) (sids : List Text) (st : Store env)
      → IsCoherent st
      → IsCoherent (reap_all env clock sids st)
  unfolding reap_all
  reap_all-IsCoherent clock [] st h = h
  reap_all-IsCoherent clock (sid ∷ sids) st h =
      reap_all-IsCoherent clock sids (reap env sid (clock sid) (lookup sid st.sessions) st)
        (reap-IsCoherent sid (clock sid) (lookup sid st.sessions) st h)

  delete-IsCoherent :
      (sid : Text) (st : Store env) → IsCoherent st → IsCoherent (delete_session env sid st)
  unfolding delete_session
  delete-IsCoherent sid st h = elim (Option-cases (lookup sid st.sessions)) [
    | inl e ↦ rw (e, delete_session) h
    | inr (s, e) ↦ rw (e, delete_session) (clear_and_delete-IsCoherent sid s st h)
  ]

  -- One call of an operation; ids are drawn fresh.
  pub data Step (st : Store env) : Store env → Type 0 where
    created :
        (d : Draw env) (username password : Text)
        → lookup d.sid st.sessions ≡ none
        → Step st (create_session env d username password st).1
    visited : (sid : Text) (now : ℕ) → Step st (get_session env sid now st).1
    presented : (sid : Text) (now : ℕ) → Step st (get_session_credentials env sid now st).1
    deleted : (sid : Text) → Step st (delete_session env sid st)
    reaped : (now : ℕ) (clock : Text → ℕ) → Step st (reaper_round env now clock st)

  Step-IsCoherent : {st st' : Store env} → Step st st' → IsCoherent st → IsCoherent st'
  unfolding get_session get_session_credentials reaper_round
  Step-IsCoherent {st} (created d u p fresh) h = create_session-IsCoherent d u p st fresh h
  Step-IsCoherent {st} (visited sid now) h = visit-IsCoherent sid now _ st refl h
  Step-IsCoherent {st} (presented sid now) h = present-IsCoherent sid now _ st refl h
  Step-IsCoherent {st} (deleted sid) h = delete-IsCoherent sid st h
  Step-IsCoherent {st} (reaped now clock) h =
      reap_all-IsCoherent clock (expired_ids env now st.sessions) st h

  -- Any sequence of calls.
  pub data Steps (st : Store env) : Store env → Type 0 where
    here : Steps st st
    next : {a b : Store env} → Steps st a → Step a b → Steps st b

  -- Whatever is called, in any order, after a store in which every encryption key belongs to a
  -- session with a ciphertext: each key still belongs to a session that holds a ciphertext, so no
  -- key outlives its session.
  pub Steps-IsCoherent : {st st' : Store env} → Steps st st' → IsCoherent st → IsCoherent st'
  Steps-IsCoherent here h = h
  Steps-IsCoherent (next r s) h = Step-IsCoherent s (Steps-IsCoherent r h)
