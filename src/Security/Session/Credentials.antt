-- ===== src/Security/Session/Credentials.antt =====
-- The password of a session can be read back until it ends: through the kernel keyring where that
-- works, and through Fernet where it does not.
use quadletman.Prelude.{
  ℕ, ◌+◌, ◌-◌, ◌*◌, ◌/◌, ◌≤◌, Bool, true, false, Option, none, some, List, [], ◌∷◌, ◌≡◌, ◌≢◌, refl,
  arith, if◌then◌else◌, Text, text_eq_refl, is_empty,
}
use quadletman.Prelude.Dict.{lookup, lookup-insert}
use quadletman.Security.Keyring.{store_credential, read_credential}
use quadletman.Security.Keyring.Laws.{IsKeyring, read-store_credential}
use quadletman.Security.Session.{
  Fernet, Env, Session, returned, Store, Draw, is_expired, create_session, offer, keep, fresh,
  get_session, touch, visit, get_session_credentials, present, from_memory, open_cipher,
}

-- Fernet decrypts what it encrypted with the same key, and UTF-8 decodes what it encoded.
pub record IsFernet (f : Fernet) : Type 0 where
  pub decrypted :
      (key : f.Key) (nonce : ℕ) (m : List ℕ) → f.decrypt key (f.encrypt key nonce m) ≡ some m
  pub decoded_back : (t : Text) → f.decode (f.encode t) ≡ some t

not_empty : (t : Text) → t ≢ [] → is_empty t ≡ false
unfolding is_empty
not_empty [] ne = absurd (ne refl)
not_empty (c ∷ t) ne = refl

module _ (env : Env) where
  open env use {session_ttl, ticks}

  -- A session that was seen last at `seen` and is visited at the given times, no two of them further
  -- apart than the idle limit, is within it at `now` too.
  abbrev pub IsActive : ℕ → List ℕ → ℕ → Type 0
  IsActive seen [] now = now - seen ≤ session_ttl / 2 * ticks
  IsActive seen (t ∷ times) now =
      (t ≤ now) × (t - seen ≤ session_ttl / 2 * ticks) × IsActive t times now

  -- `get_session`, at each of the times
  unfoldable pub visit_all : Text → List ℕ → Store env → Store env
  unfolding get_session
  visit_all sid [] st = st
  visit_all sid (now ∷ times) st = visit_all sid times (get_session env sid now st).1

module _ (env : Env) (sound : IsFernet env.fernet)
    (keyring : IsKeyring env.keyutils env.ticks) where
  open env use {fernet, keyutils, available, session_ttl, ticks}
  open fernet use {Key, Cipher}

  -- The ciphertext next to an offer's result.
  abbrev cipher_of : Draw env → Text → Option ℕ → Option Cipher
  cipher_of d password none = some (fernet.encrypt d.key d.nonce (fernet.encode password))
  cipher_of d password (some id) = none

  abbrev seen_at : Draw env → Text → Text → Option ℕ → ℕ → Session Cipher
  seen_at d username password o seen = record (fresh env d username o (cipher_of d password o)) {
    last_seen = seen;
  }

  abbrev HasKey : Draw env → Option ℕ → Option Key → Type 0
  HasKey d none key = key ≡ some d.key
  HasKey d (some id) key = Unit

  -- What a store holds of a session that was created: its entry, with the time of the last visit, the
  -- key of its ciphertext, and the kernel.
  record Kept (d : Draw env) (username password : Text) (o : Option ℕ × keyutils.Kernel) (seen : ℕ)
      (st : Store env) : Type 0 where
    entry : lookup d.sid st.sessions ≡ some (seen_at d username password o.0 seen)
    key : HasKey d o.0 (lookup d.sid st.cred_keys)
    same : st.kernel ≡ o.1

  keep-Kept :
      (d : Draw env) (username password : Text) (o : Option ℕ × keyutils.Kernel) (st : Store env)
      → Kept d username password o d.now (keep env d username password o st)
  unfolding keep fresh
  keep-Kept d username password (none, k) st = record {
    entry = rw (lookup-insert, text_eq_refl) refl;
    key = rw (lookup-insert, text_eq_refl) refl;
    same = refl;
  }
  keep-Kept d username password (some id, k) st = record {
    entry = rw (lookup-insert, text_eq_refl) refl;
    key = tt;
    same = refl;
  }

  live :
      (d : Draw env) (username password : Text) (o : Option ℕ) (seen now : ℕ)
      → now - d.now ≤ session_ttl * ticks
      → now - seen ≤ session_ttl / 2 * ticks
      → is_expired env (seen_at d username password o seen) now ≡ false
  unfolding is_expired fresh
  live d username password o seen now age idle = ground arith

  touch-Kept :
      (d : Draw env) (username password : Text) (o : Option ℕ × keyutils.Kernel) (seen now : ℕ)
      (st : Store env)
      → Kept d username password o seen st
      → Kept d username password o now
          (touch env d.sid (seen_at d username password o.0 seen) now st)
  unfolding touch
  touch-Kept d username password o seen now st h = record {
    entry = rw (lookup-insert, text_eq_refl) refl;
    key = h.key;
    same = h.same;
  }

  get_session-Kept :
      (d : Draw env) (username password : Text) (o : Option ℕ × keyutils.Kernel) (seen now : ℕ)
      (st : Store env)
      → now - d.now ≤ session_ttl * ticks
      → now - seen ≤ session_ttl / 2 * ticks
      → Kept d username password o seen st
      → Kept d username password o now (get_session env d.sid now st).1
  unfolding get_session visit
  get_session-Kept d username password o seen now st age idle h = rw (h.entry) (
      rw (live d username password o.0 seen now age idle)
        (touch-Kept d username password o seen now st h))

  -- What was kept comes back, if the keyring can be read where it took the password.
  credentials-Kept :
      (d : Draw env) (username password : Text) (o : Option ℕ × keyutils.Kernel) (seen now : ℕ)
      (st : Store env)
      → now - d.now ≤ session_ttl * ticks
      → now - seen ≤ session_ttl / 2 * ticks
      → ((id : ℕ)
          → o.0 ≡ some id
          → read_credential keyutils available id now o.1 ≡ some (fernet.encode password))
      → Kept d username password o seen st
      → (get_session_credentials env d.sid now st).0 ≡ returned (some (username, password))
  unfolding get_session_credentials present touch fresh
  credentials-Kept d username password (none, k) seen now st age idle readable h = rw (h.entry) (
      rw (live d username password none seen now age idle) (
        rw (h.key) (
          rw (
            sound.decrypted d.key d.nonce (fernet.encode password),
            from_memory,
            open_cipher,
            sound.decoded_back password,
          ))))
  credentials-Kept d username password (some id, k) seen now st age idle readable h = rw (h.entry) (
      rw (live d username password (some id) seen now age idle)
        (rw (h.same) (rw (readable id refl) (rw (sound.decoded_back password)))))

  credentials-visits :
      (d : Draw env) (username password : Text) (o : Option ℕ × keyutils.Kernel) (seen : ℕ)
      (times : List ℕ) (now : ℕ) (st : Store env)
      → now - d.now ≤ session_ttl * ticks
      → IsActive env seen times now
      → ((id : ℕ)
          → o.0 ≡ some id
          → read_credential keyutils available id now o.1 ≡ some (fernet.encode password))
      → Kept d username password o seen st
      → (get_session_credentials env d.sid now (visit_all env d.sid times st)).0
        ≡ returned (some (username, password))
  unfolding visit_all
  credentials-visits d username password o seen [] now st age active readable h =
      credentials-Kept d username password o seen now st age active readable h
  credentials-visits d username password o seen (t ∷ times) now st age (le, idle, active) readable
        h =
      credentials-visits d username password o t times now (get_session env d.sid t st).1 age active
        readable (get_session-Kept d username password o seen t st (omega arith) idle h)

  offered :
      (a : Bool) (sid payload : List ℕ) (start : ℕ) (k : keyutils.Kernel) (now id : ℕ)
      → now + ticks ≤ start + session_ttl * ticks
      → (if a then store_credential keyutils a sid payload session_ttl start k else (none, k)).0
        ≡ some id
      → read_credential keyutils a id now
          (if a then store_credential keyutils a sid payload session_ttl start k else (none, k)).1
        ≡ some payload
  offered true sid payload start k now id le e =
      read-store_credential keyutils ticks keyring sid payload session_ttl start k id now e le
  offered false sid payload start k now id le e = absurd (ground arith)

  offer-readable :
      (d : Draw env) (password : Text) (k : keyutils.Kernel) (now id : ℕ)
      → now + ticks ≤ d.now + session_ttl * ticks
      → (offer env d password k).0 ≡ some id
      → read_credential keyutils available id now (offer env d password k).1
        ≡ some (fernet.encode password)
  unfolding offer
  offer-readable d password k now id le e =
      offered available d.sid (fernet.encode password) d.now k now id le e

  -- A password given to `create_session` comes back from `get_session_credentials`, with the name, at
  -- any time up to one second before the session's lifetime ends, if the session is visited by
  -- `get_session` often enough that it is never idle for longer than half of its lifetime: whether
  -- the kernel keyring is available, refuses the credential, or takes it and expires it in time.
  pub get_session_credentials-create_session :
      (d : Draw env) (username password : Text) (st : Store env) (times : List ℕ) (now : ℕ)
      → password ≢ []
      → now + ticks ≤ d.now + session_ttl * ticks
      → IsActive env d.now times now
      → (get_session_credentials env d.sid now
          (visit_all env d.sid times (create_session env d username password st).1)).0
        ≡ returned (some (username, password))
  unfolding create_session
  get_session_credentials-create_session d username password st times now full age active =
      let o = offer env d password st.kernel in
      rw (not_empty password full) (
        credentials-visits d username password o d.now times now (keep env d username password o st)
          (omega arith) active (λ id. offer-readable d password st.kernel now id age)
          (keep-Kept d username password o st))
