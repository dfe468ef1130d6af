-- ===== src/Security/Keyring/Laws.antt =====
-- What security/keyring.py relies on in the kernel, and what its functions make of it.
use quadletman.Prelude.{
  ℕ, ◌+◌, ◌*◌, ◌≤◌, ◌++◌, true, false, none, some, List, ◌≡◌, refl, arith, codes, Text, length, ℤ,
  pos, negsuc, lt_int, Bool-cases, inl, inr,
}
use quadletman.Security.Keyring.{KeyUtils, stored, store_credential, read_credential}

-- A key of the kernel holds a payload at a time: both reads of `read_credential` work.
pub record Holds (u : KeyUtils) (id : ℕ) (payload : List ℕ) (now : ℕ) (k : u.Kernel) : Type 0 where
  pub size : u.read_size id now k ≡ some (length payload)
  pub bytes : u.read_payload id (length payload) now k ≡ some payload

-- What keyrings(7) and keyctl_set_timeout(3) say, for `ticks` clock units in a second: a key that was
-- added holds its payload; with a timeout it holds it until the timeout, which counts whole seconds,
-- and cannot be read from then on; and a key that was revoked cannot be read.
pub record IsKeyring (u : KeyUtils) (ticks : ℕ) : Type 0 where
  pub added :
      (description payload : List ℕ) (k : u.Kernel) (id now : ℕ)
      → (u.add_key description payload k).0 ≡ pos id
      → Holds u id payload now (u.add_key description payload k).1
  pub timed :
      (id seconds start : ℕ) (payload : List ℕ) (k : u.Kernel) (now : ℕ)
      → ((t : ℕ) → Holds u id payload t k)
      → lt_int (u.set_timeout id seconds start k).0 (pos 0) ≡ false
      → now + ticks ≤ start + seconds * ticks
      → Holds u id payload now (u.set_timeout id seconds start k).1
  pub expired :
      (id seconds start : ℕ) (k : u.Kernel) (now : ℕ)
      → lt_int (u.set_timeout id seconds start k).0 (pos 0) ≡ false
      → 1 ≤ seconds
      → start + seconds * ticks ≤ now
      → u.read_size id now (u.set_timeout id seconds start k).1 ≡ none
  pub revoked :
      (id : ℕ) (k : u.Kernel) (now : ℕ)
      → lt_int (u.revoke id k).0 (pos 0) ≡ false
      → u.read_size id now (u.revoke id k).1 ≡ none

module _ (u : KeyUtils) (ticks : ℕ) (laws : IsKeyring u ticks) where
  stored-Holds :
      (key : ℤ) (timeout start : ℕ) (payload : List ℕ) (k : u.Kernel) (id now : ℕ)
      → ((n t : ℕ) → key ≡ pos n → Holds u n payload t k)
      → (stored u key timeout start k).0 ≡ some id
      → now + ticks ≤ start + timeout * ticks
      → Holds u id payload now (stored u key timeout start k).1
  unfolding stored
  stored-Holds (negsuc n) timeout start payload k id now h e le = absurd (ground arith)
  stored-Holds (pos n) timeout start payload k id now h e le =
      elim (Bool-cases (lt_int (u.set_timeout n timeout start k).0 (pos 0))) [
        | inl failed ↦ absurd (ground arith)
        | inr done ↦
            let same : n ≡ id = ground arith in
            rw done
              (rw (← same) (laws.timed n timeout start payload k now (λ t. h n t refl) done le))
      ]

  -- A credential that was stored can be read back under the serial number returned, until a second
  -- before its timeout.
  pub read-store_credential :
      (session_id : Text) (payload : List ℕ) (timeout start : ℕ) (k : u.Kernel) (id now : ℕ)
      → (store_credential u true session_id payload timeout start k).0 ≡ some id
      → now + ticks ≤ start + timeout * ticks
      → read_credential u true id now (store_credential u true session_id payload timeout start k).1
        ≡ some payload
  unfolding store_credential read_credential
  read-store_credential session_id payload timeout start k id now e le =
      let new = u.add_key (codes "qm:cred:" ++ session_id) payload k in
      let held =
        stored-Holds new.0 timeout start payload new.1 id now
          (λ n t. laws.added (codes "qm:cred:" ++ session_id) payload k n t) e le in
      rw held.size held.bytes
