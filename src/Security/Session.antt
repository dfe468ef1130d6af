-- ===== src/Security/Session.antt =====
-- security/session.py: the session store. `secrets`, the clock and the random choices of Fernet are
-- arguments of each operation, whose clock reads one time; Fernet and the kernel keyring are parameters.
pub mod Coherence
pub mod Reaper
pub mod Credentials
mod Tests
use quadletman.Prelude.{
  ℕ, zero, suc, ◌-◌, ◌*◌, ◌/◌, Bool, true, false, ◌||◌, Option, none, some, List, [], ◌∷◌, ◌++◌,
  ltb, if◌then◌else◌, Text, is_empty,
}
use quadletman.Prelude.Dict.{Dict, lookup, insert, remove}
use quadletman.Security.Keyring.{KeyUtils, store_credential, read_credential, revoke_credential}

-- The package `cryptography`, with the text codec; `none` is an exception. A password is the text
-- of a decoded form, which holds no lone surrogates, so that `encode` does not fail.
pub record Fernet : Type 1 where
  pub Key : Type 0
  pub Cipher : Type 0
  pub encrypt : Key → ℕ → List ℕ → Cipher
  pub decrypt : Key → Cipher → Option (List ℕ)
  pub encode : Text → List ℕ
  pub decode : List ℕ → Option Text

-- What the module finds at import; `ticks` is the number of clock units in a second.
pub record Env : Type 1 where
  pub keyutils : KeyUtils
  pub fernet : Fernet
  pub available : Bool
  pub session_ttl : ℕ
  pub ticks : ℕ

pub record Session (Cipher : Type 0) : Type 0 where
  pub username : Text
  pub csrf_token : Text
  pub created_at : ℕ
  pub last_seen : ℕ
  pub keyring_id : Option ℕ
  pub cred_enc : Option Cipher

-- A function that lets a `UnicodeDecodeError` through.
pub data Outcome {ℓ} (A : Type ℓ) : Type ℓ where
  returned : A → Outcome A
  raised : Outcome A

module _ (env : Env) where
  open env use {keyutils, fernet, available, session_ttl, ticks}
  open fernet use {Key, Cipher, encrypt, decrypt, encode, decode}
  open keyutils use {Kernel}

  -- `_sessions` and `_cred_keys`, and the kernel's keyrings behind them
  pub record Store : Type 0 where
    pub sessions : Dict (Session Cipher)
    pub cred_keys : Dict Key
    pub kernel : Kernel

  unfoldable pub is_expired : Session Cipher → ℕ → Bool
  is_expired s now =
      ltb (session_ttl * ticks) (now - s.created_at)
      || ltb (session_ttl / 2 * ticks) (now - s.last_seen)

  -- `_clear_credentials`; the session's own fields are dropped with it by every caller
  unfoldable pub clear_credentials : Text → Session Cipher → Store → Store
  clear_credentials sid s st = record {
    sessions = st.sessions;
    cred_keys = remove sid st.cred_keys;
    kernel = elim s.keyring_id [
      | none ↦ st.kernel
      | some id ↦ (revoke_credential keyutils available id st.kernel).1
    ];
  }

  -- `_clear_and_delete`
  unfoldable pub clear_and_delete : Text → Session Cipher → Store → Store
  unfolding clear_credentials
  clear_and_delete sid s st =
      let st' = clear_credentials sid s st in record st' { sessions = remove sid st'.sessions }

  -- What `create_session` draws: the session id, the CSRF token, the clock, a Fernet key and the
  -- randomness of one encryption.
  pub record Draw : Type 0 where
    pub sid : Text
    pub csrf : Text
    pub now : ℕ
    pub key : Key
    pub nonce : ℕ

  -- The kernel keyring's part: the serial number if the credential went there.
  offer : Draw → Text → Kernel → Option ℕ × Kernel
  offer d password k =
      if available
      then store_credential keyutils available d.sid (encode password) session_ttl d.now k
      else (none, k)

  fresh : Draw → Text → Option ℕ → Option Cipher → Session Cipher
  fresh d username id enc = record {
    username = username;
    csrf_token = d.csrf;
    created_at = d.now;
    last_seen = d.now;
    keyring_id = id;
    cred_enc = enc;
  }

  -- behind the offer: in memory, encrypted, if the keyring did not take the credential
  keep : Draw → Text → Text → Option ℕ × Kernel → Store → Store
  unfolding fresh
  keep d username password (some id, k) st = record {
    sessions = insert d.sid (fresh d username (some id) none) st.sessions;
    cred_keys = st.cred_keys;
    kernel = k;
  }
  keep d username password (none, k) st = record {
    sessions =
        insert d.sid (fresh d username none (some (encrypt d.key d.nonce (encode password))))
          st.sessions;
    cred_keys = insert d.sid d.key st.cred_keys;
    kernel = k;
  }

  unfoldable pub create_session : Draw → Text → Text → Store → (Text × Text) × Store
  unfolding offer keep fresh
  create_session d username password st =
      let bare = record st { sessions = insert d.sid (fresh d username none none) st.sessions } in
      let kept = keep d username password (offer d password st.kernel) st in
      ((d.sid, d.csrf), if is_empty password then bare else kept)

  touch : Text → Session Cipher → ℕ → Store → Store
  touch sid s now st = record st {
    sessions = insert sid (record s { last_seen = now }) st.sessions;
  }

  visit : Text → ℕ → Option (Session Cipher) → Store → Option Text × Store
  unfolding touch is_expired clear_and_delete
  visit sid now none st = (none, st)
  visit sid now (some s) st =
      if is_expired s now
      then (none, clear_and_delete sid s st)
      else (some s.username, touch sid s now st)

  unfoldable pub get_session : Text → ℕ → Store → Option Text × Store
  unfolding visit
  get_session sid now st = visit sid now (lookup sid st.sessions) st

  -- `payload.decode("utf-8")` outside the `try`
  decoded : Text → Option Text → Outcome (Option (Text × Text))
  decoded username none = raised
  decoded username (some password) = returned (some (username, password))

  from_keyring :
      Text → Session Cipher → Option (List ℕ) → Store → Outcome (Option (Text × Text)) × Store
  unfolding decoded clear_and_delete
  from_keyring sid s (some payload) st = (decoded s.username (decode payload), st)
  from_keyring sid s none st = (returned none, clear_and_delete sid s st)

  -- `f.decrypt(enc).decode("utf-8")` inside the `try`
  open_cipher : Key → Cipher → Option Text
  open_cipher key enc = elim (decrypt key enc) [ none ↦ none | some bytes ↦ decode bytes ]

  from_memory :
      Text
      → Session Cipher
      → Option Key
      → Option Cipher
      → Store
      → Outcome (Option (Text × Text)) × Store
  unfolding open_cipher clear_and_delete
  from_memory sid s (some key) (some enc) st = elim (open_cipher key enc) [
    | some password ↦ (returned (some (s.username, password)), st)
    | none ↦ (returned none, clear_and_delete sid s st)
  ]
  from_memory sid s _ _ st = (returned none, st)

  -- the credentials of a live session, whose `last_seen` is already set
  recover : Text → ℕ → Session Cipher → Option ℕ → Store → Outcome (Option (Text × Text)) × Store
  unfolding from_keyring from_memory
  recover sid now s (some id) st =
      from_keyring sid s (read_credential keyutils available id now st.kernel) st
  recover sid now s none st = from_memory sid s (lookup sid st.cred_keys) s.cred_enc st

  present : Text → ℕ → Option (Session Cipher) → Store → Outcome (Option (Text × Text)) × Store
  unfolding recover touch is_expired clear_and_delete
  present sid now none st = (returned none, st)
  present sid now (some s) st =
      if is_expired s now
      then (returned none, clear_and_delete sid s st)
      else recover sid now s s.keyring_id (touch sid s now st)

  unfoldable pub get_session_credentials : Text → ℕ → Store → Outcome (Option (Text × Text)) × Store
  unfolding present
  get_session_credentials sid now st = present sid now (lookup sid st.sessions) st

  unfoldable pub delete_session : Text → Store → Store
  unfolding clear_and_delete
  delete_session sid st = elim (lookup sid st.sessions) [
    | none ↦ st
    | some s ↦ clear_and_delete sid s st
  ]

  -- One round of `reaper_loop`: the ids that are expired in the snapshot, in order, and the second
  -- look at each of them, at the time of that look.
  unfoldable pub expired_ids : ℕ → Dict (Session Cipher) → List Text
  unfolding is_expired
  expired_ids now [] = []
  expired_ids now ((sid, s) ∷ d) =
      let rest = expired_ids now d in if is_expired s now then sid ∷ rest else rest

  reap : Text → ℕ → Option (Session Cipher) → Store → Store
  unfolding is_expired clear_and_delete
  reap sid now none st = st
  reap sid now (some s) st = if is_expired s now then clear_and_delete sid s st else st

  unfoldable pub reap_all : (Text → ℕ) → List Text → Store → Store
  unfolding reap
  reap_all clock [] st = st
  reap_all clock (sid ∷ sids) st =
      reap_all clock sids (reap sid (clock sid) (lookup sid st.sessions) st)

  unfoldable pub reaper_round : ℕ → (Text → ℕ) → Store → Store
  unfolding expired_ids reap_all
  reaper_round now clock st = reap_all clock (expired_ids now st.sessions) st
