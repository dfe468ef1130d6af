-- ===== src/Security/Keyring.antt =====
-- security/keyring.py: credentials in the kernel's key retention service. The library that it binds
-- is a parameter; a call returns the number that the C function returns and the kernel behind it, and
-- one to which the expiry of keys matters takes the time at which it is made.
pub mod Laws
use quadletman.Prelude.{
  ℕ, Bool, true, false, Option, none, some, List, [], ◌∷◌, ◌++◌, ◌≡◌, not, if◌then◌else◌, Text,
  codes, ℤ, pos, negsuc, lt_int,
}

-- `libkeyutils` over the state of the kernel's keyrings.
pub record KeyUtils : Type 1 where
  pub Kernel : Type 0
  -- `add_key("user", description, payload, …, KEY_SPEC_PROCESS_KEYRING)`
  pub add_key : Text → Text → Kernel → ℤ × Kernel
  -- `keyctl(KEYCTL_SET_TIMEOUT, id, seconds)`, at a time
  pub set_timeout : ℕ → ℕ → ℕ → Kernel → ℤ × Kernel
  -- `keyctl(KEYCTL_READ, id, …)`, twice, at a time: the size, then the payload; `none` is a negative return
  pub read_size : ℕ → ℕ → Kernel → Option ℕ
  pub read_payload : ℕ → ℕ → ℕ → Kernel → Option Text
  -- `keyctl(KEYCTL_REVOKE, id)`
  pub revoke : ℕ → Kernel → ℤ × Kernel

module _ (u : KeyUtils) where
  open u use {Kernel, add_key, set_timeout, read_size, read_payload, revoke}

  -- `_init` behind the loading of the library: a key is added and revoked to probe the subsystem.
  -- The result is the flag `_available`, which stands for `_lib is not None` too.
  unfoldable pub init : Bool → Kernel → Bool × Kernel
  init loads k =
      let (id, k') = add_key (codes "qm:probe") (codes "probe") k in
      if loads
      then elim id [ negsuc _ ↦ (false, k') | pos n ↦ (true, (revoke n k').1) ]
      else (false, k)

  -- The key's serial number, or `none`; a key whose timeout cannot be set is revoked.
  stored : ℤ → ℕ → ℕ → Kernel → Option ℕ × Kernel
  stored (negsuc _) timeout now k = (none, k)
  stored (pos id) timeout now k =
      let (rc, k') = set_timeout id timeout now k in
      if lt_int rc (pos 0) then (none, (revoke id k').1) else (some id, k')

  unfoldable pub store_credential : Bool → Text → Text → ℕ → ℕ → Kernel → Option ℕ × Kernel
  unfolding stored
  store_credential available session_id payload timeout now k =
      let (id, k') = add_key (codes "qm:cred:" ++ session_id) payload k in
      if not available then (none, k) else stored id timeout now k'

  unfoldable pub read_credential : Bool → ℕ → ℕ → Kernel → Option Text
  read_credential available id now k =
      if not available
      then none
      else elim (read_size id now k) [ none ↦ none | some size ↦ read_payload id size now k ]

  unfoldable pub revoke_credential : Bool → ℕ → Kernel → Bool × Kernel
  revoke_credential available id k =
      let (rc, k') = revoke id k in
      if not available then (false, k) else (not (lt_int rc (pos 0)), k')
