-- ===== src/Security/Session/Tests.antt =====
-- Runs of security/session.py over a kernel that keeps payloads in a table, and the theorems at them.
use mathlib.Core.Option
use quadletman.Prelude.{
  ℕ, ◌+◌, ◌*◌, ◌-◌, ◌≤◌, ltb, suc, true, false, Option, none, some, List, [], ◌∷◌, ◌≡◌, ◌↔◌, refl,
  arith, if◌then◌else◌, ◌==◌, Text, codes, text_eq, is_empty, length, pos,
}
use quadletman.Prelude.Dict.{lookup, insert, remove}
use quadletman.Security.Keyring.{KeyUtils, store_credential, revoke_credential}
use quadletman.Security.Keyring.Laws.{IsKeyring}
use quadletman.Security.Session.{
  Fernet, Env, Session, Store, Draw, returned, is_expired, create_session, get_session,
  get_session_credentials, delete_session, reaper_round,
}
use quadletman.Security.Session.Coherence.{
  IsCoherent, here, next, created, deleted, Steps-IsCoherent,
}
use quadletman.Security.Session.Reaper.{
  reaper_round-expired, reaper_round-live, get_session_lem, session_after, key_after,
}
use quadletman.Security.Session.Credentials.{
  IsFernet, visit_all, get_session_credentials-create_session,
}

-- the deadline and the payload of a key
abbrev Entry : Type 0
Entry = Option ℕ × List ℕ

abbrev Table : Type 0
Table = ℕ × (ℕ → Option Entry)

abbrev readable : ℕ → Option Entry → Option (List ℕ)
readable now none = none
readable now (some (none, p)) = some p
readable now (some (some deadline, p)) = if ltb now deadline then some p else none

abbrev until : ℕ → Option Entry → Option Entry
until deadline none = none
until deadline (some (_, p)) = some (some deadline, p)

-- keys that end ten clock units to a second
abbrev table : KeyUtils
table = record {
  Kernel = Table;
  add_key = λ d p k. (pos k.0, (suc k.0, λ i. if i == k.0 then some (none, p) else k.1 i));
  set_timeout = λ id seconds now k.
      (pos 0, (k.0, λ i. if i == id then until (now + seconds * 10) (k.1 i) else k.1 i));
  read_size = λ id now k. Option.map length (readable now (k.1 id));
  read_payload = λ id n now k. readable now (k.1 id);
  revoke = λ id k. (pos 0, (k.0, λ i. if i == id then none else k.1 i));
}

readable-until :
    (e : Option Entry) (p : List ℕ) (deadline now : ℕ)
    → readable 0 e ≡ some p
    → now + 10 ≤ deadline
    → readable now (until deadline e) ≡ some p
readable-until none p deadline now h le = absurd (ground arith)
readable-until (some (none, q)) p deadline now h le = ground arith
readable-until (some (some d, q)) p deadline now h le = ground arith

until-expired :
    (e : Option Entry) (deadline now : ℕ) → deadline ≤ now → readable now (until deadline e) ≡ none
until-expired none deadline now le = refl
until-expired (some (d, q)) deadline now le = ground arith

table-IsKeyring : IsKeyring table 10
table-IsKeyring = record {
  added = λ d p k id now e. record { size = ground arith; bytes = ground arith };
  timed = λ id seconds start p k now h done le.
      let kept = readable-until (k.1 id) p (start + seconds * 10) now (h 0).bytes le in
      record { size = ground (arith, kept); bytes = ground (arith, kept) };
  expired = λ id seconds start k now done one le.
      let gone = until-expired (k.1 id) (start + seconds * 10) now le in ground (arith, gone);
  revoked = λ id k now h. ground arith;
}

-- a cipher that shows its key
abbrev plain : Fernet
plain = record {
  Key = ℕ;
  Cipher = ℕ × List ℕ;
  encrypt = λ key nonce m. (key, m);
  decrypt = λ key c. if c.0 == key then some c.1 else none;
  encode = λ t. t;
  decode = λ t. some t;
}

plain-IsFernet : IsFernet plain
plain-IsFernet = record { decrypted = λ key nonce m. ground arith; decoded_back = λ t. refl }

abbrev host : Env
host = record { keyutils = table; fernet = plain; available = true; session_ttl = 60; ticks = 10 }

abbrev empty : Store host
empty = record { sessions = []; cred_keys = []; kernel = (7, λ i. none) }

abbrev draw : Draw host
draw = record { sid = codes "s1"; csrf = codes "c1"; now = 100; key = 5; nonce = 0 }

abbrev alice : Session plain.Cipher
alice = record {
  username = codes "alice";
  csrf_token = codes "c1";
  created_at = 100;
  last_seen = 100;
  keyring_id = some 7;
  cred_enc = none;
}

abbrev one : Store host
one = (create_session host draw (codes "alice") (codes "pw") empty).1

one-alice : lookup (codes "s1") one.sessions ≡ some alice
unfolding create_session lookup insert store_credential is_empty text_eq
one-alice = refl

-- without the keyring the credential is kept in memory
abbrev bare : Env
bare = record host { available = false }

memory_run :
    (get_session_credentials bare
      (codes "s1")
      150
      (create_session bare
        (record { sid = codes "s1"; csrf = []; now = 100; key = 5; nonce = 0 })
        (codes "bob")
        (codes "pw")
        (record { sessions = []; cred_keys = []; kernel = (7, λ i. none) })).1).0
    ≡ returned (some (codes "bob", codes "pw"))
unfolding create_session get_session_credentials lookup insert is_empty text_eq
memory_run = refl

-- thirty seconds is the idle limit of a sixty-second session
idle_run : (get_session host (codes "s1") 401 one).0 ≡ none
unfolding create_session get_session lookup insert store_credential remove revoke_credential
    is_empty text_eq
idle_run = refl

-- seen once in between, at a time at which it would have been idle without that by 550
get_session_credentials-create_session_example :
    (get_session_credentials host (codes "s1") 550 (visit_all host (codes "s1") (300 ∷ []) one)).0
    ≡ returned (some (codes "alice", codes "pw"))
get_session_credentials-create_session_example =
    get_session_credentials-create_session host plain-IsFernet table-IsKeyring draw (codes "alice")
      (codes "pw") empty (300 ∷ []) 550 (λ e. cc) (omega arith)
      (omega arith, omega arith, omega arith)

empty-IsCoherent : IsCoherent host empty
unfolding lookup
empty-IsCoherent j = tt

Steps-IsCoherent_example : IsCoherent host (delete_session host (codes "s1") one)
unfolding lookup
Steps-IsCoherent_example =
    Steps-IsCoherent host
      (next (next here (created draw (codes "alice") (codes "pw") refl)) (deleted (codes "s1")))
      empty-IsCoherent

reaper_round-expired_example :
    lookup (codes "s1") (reaper_round host 5000000 (λ j. 5000000) one).sessions ≡ none
unfolding is_expired
reaper_round-expired_example =
    reaper_round-expired host 5000000 (λ j. 5000000) one (codes "s1") alice (omega arith) one-alice
      refl

reaper_round-live_example :
    lookup (codes "s1") (reaper_round host 350 (λ j. 350) one).sessions ≡ some alice
unfolding is_expired
reaper_round-live_example =
    reaper_round-live host 350 (λ j. 350) one (codes "s1") alice one-alice refl

get_session_lem_example :
    let (name, after) = get_session host (codes "s1") 350 one in
    ((name ≡ some (codes "alice")) ↔ (
      (s : Session plain.Cipher) × (lookup (codes "s1") one.sessions ≡ some s)
      × (350 - s.created_at ≤ 600)
      × (350 - s.last_seen ≤ 300)
      × (s.username ≡ codes "alice")))
    × (((j : Text)
          → lookup j after.sessions ≡ (
              if text_eq (codes "s1") j
              then session_after host 350 name (lookup (codes "s1") one.sessions)
              else lookup j one.sessions))
        × ((j : Text)
            → lookup j after.cred_keys ≡ (
                if text_eq (codes "s1") j
                then key_after host name (lookup (codes "s1") one.sessions) (lookup j one.cred_keys)
                else lookup j one.cred_keys)))
get_session_lem_example = get_session_lem host (codes "s1") 350 one (codes "alice")
