-- ===== src/Users/Helpers/Sync.antt =====
-- What a synchronisation of the helper accounts leaves, and what a deletion of all takes with it.
use quadletman.Prelude.{
  ℕ, ◌<◌, ◌^◌, Bool, true, false, not, ◌&&◌, ◌||◌, ◌++◌, map, Option, none, some, ◌≡◌, refl, ap,
  subst, ◌∙◌, arith, All, append_assoc, Text, codes, text_eq, ℤ, pos, eq_int, any, show, List, [],
  ◌∷◌, inl, inr, sym, Bool-cases, Option-cases, text_eq_iff,
}
use quadletman.Users.Helpers.{
  Account, username, base_prefix, helper_username, helper_id, has_account, is_dropped,
  delete_helpers, delete_all_helper_users, wanted, is_in, create_helpers, sync_helper_users,
}
use quadletman.Users.Helpers.Accounts.{
  helper_id-show, dropped, has_account-delete_helpers, after_success-true, is_helper_of,
  create_helpers-has_account, is_helper_of-is_in, is_helper_of-none, is_helper_of-wanted,
  is_helper_of-same, eq_int-same,
}

sync_helper_users-has_account :
    (useradd userdel : Text → Bool)
    → ((name : Text) → userdel name ≡ true)
    → (user_prefix sid : Text) (start : Option ℤ) (uids : List ℤ) (passwd : List Account)
    → (sync_helper_users useradd userdel user_prefix sid start uids passwd).1 ≡ true
    → (name : Text)
    → has_account name (sync_helper_users useradd userdel user_prefix sid start uids passwd).0 ≡ (
        not (is_dropped (is_in (wanted uids)) (helper_id (base_prefix user_prefix sid) name))
        && (is_helper_of useradd user_prefix sid (wanted uids) name || has_account name passwd))
unfolding sync_helper_users dropped
sync_helper_users-has_account useradd userdel works user_prefix sid start uids passwd h name =
    let base = base_prefix user_prefix sid in
    let keep = is_in (wanted uids) in
    let created = create_helpers useradd user_prefix sid start (wanted uids) passwd in
    let s = after_success-true created (λ c. (delete_helpers userdel base keep c, true)) h in
    ap (λ (r : List Account × Bool). has_account name r.0) s.1
    ∙ (has_account-delete_helpers userdel works base keep name created.0
        ∙ ap (λ (b : Bool). not (is_dropped keep (helper_id base name)) && b)
            (create_helpers-has_account useradd user_prefix sid start (wanted uids) name passwd
              s.0))

-- The accounts behind a synchronisation. An account whose name is the prefix of the compartment and a
-- number, read as `int` reads it, is there if the number is wanted, and the name is the one that
-- `helper_username` gives the number or had an account before. Any other account is there if it was.
unfoldable pub has_after : Text → Text → List ℤ → List Account → Text → Option ℤ → Bool
unfolding is_in wanted text_eq helper_username has_account
has_after user_prefix sid uids passwd name none = has_account name passwd
has_after user_prefix sid uids passwd name (some uid) =
    (not (eq_int uid (pos 0)) && is_in uids uid)
    && (text_eq (helper_username user_prefix sid uid) name || has_account name passwd)

is_in-wanted :
    (uids : List ℤ) (uid : ℤ)
    → is_in (wanted uids) uid ≡ (not (eq_int uid (pos 0)) && is_in uids uid)
unfolding is_in wanted any
is_in-wanted [] uid = ground arith
is_in-wanted (v ∷ uids) uid =
    let ih = is_in-wanted uids uid in
    elim (Bool-cases (eq_int v (pos 0))) [
      | inr e ↦ elim (Bool-cases (eq_int v uid)) [
        | inl q ↦
            let other = subst (λ (w : ℤ). eq_int w (pos 0) ≡ false) (eq_int-same v uid q) e in
            ground (arith, ih, e, q, other)
        | inr q ↦ ground (arith, ih, e, q)
      ]
      | inl e ↦ elim (Bool-cases (eq_int v uid)) [
        | inl q ↦
            let same = subst (λ (w : ℤ). eq_int w (pos 0) ≡ true) (eq_int-same v uid q) e in
            ground (arith, ih, e, q, same)
        | inr q ↦ ground (arith, ih, e, q)
      ]
    ]

-- of the wanted ids, a name that is read as one of them is its account or no helper's
is_helper_of-text_eq :
    (useradd : Text → Bool) (user_prefix sid : Text) (ns : List ℕ) (name : Text) (uid : ℤ)
    → All (λ n. n < 10 ^ 4300) ns
    → helper_id (base_prefix user_prefix sid) name ≡ some uid
    → is_in (wanted (map pos ns)) uid ≡ true
    → is_helper_of useradd user_prefix sid (wanted (map pos ns)) name
      ≡ text_eq (helper_username user_prefix sid uid) name
is_helper_of-text_eq useradd user_prefix sid ns name uid small e listed =
    let uids = map pos ns in
    elim (Bool-cases (text_eq (helper_username user_prefix sid uid) name)) [
      | inl q ↦
          subst (λ (m : Text). is_helper_of useradd user_prefix sid (wanted uids) m ≡ true)
            ((text_eq_iff (helper_username user_prefix sid uid) name).0 q)
            (is_helper_of-is_in useradd user_prefix sid uid (wanted uids) listed)
          ∙ sym q
      | inr q ↦ elim (Bool-cases (is_helper_of useradd user_prefix sid uids name)) [
        | inl k ↦
            let same = is_helper_of-same useradd user_prefix sid ns name uid small e k in
            absurd
              (ground (arith, q, (text_eq_iff (helper_username user_prefix sid uid) name).1 same))
        | inr k ↦ is_helper_of-wanted useradd user_prefix sid uids name k ∙ sym q
      ]
    ]

-- `sync_helper_users` that raises nothing, for ids of up to 4300 digits, where every `userdel` works: an
-- account whose name is the prefix of the compartment and a number, read as `int` reads it, is there
-- behind it if the number is wanted and not 0, and the name is the one that `helper_username` gives
-- the number or had an account before; every other account is there if it was. So each wanted id
-- has its helper, a second spelling of its number such as `007` stays, and a name with a number that
-- is not wanted goes, also where it is the service user of another compartment.
pub sync_helper_users-exact :
    (useradd userdel : Text → Bool)
    → ((name : Text) → userdel name ≡ true)
    → (user_prefix sid : Text) (start : Option ℤ) (ns : List ℕ) (passwd : List Account)
    → All (λ n. n < 10 ^ 4300) ns
    → (sync_helper_users useradd userdel user_prefix sid start (map pos ns) passwd).1 ≡ true
    → (name : Text)
    → has_account name
        (sync_helper_users useradd userdel user_prefix sid start (map pos ns) passwd).0
      ≡ has_after user_prefix sid
          (map pos ns)
          passwd
          name
          (helper_id (base_prefix user_prefix sid) name)
unfolding is_dropped has_after
sync_helper_users-exact useradd userdel works user_prefix sid start ns passwd small h name =
    let uids = map pos ns in
    let law =
      sync_helper_users-has_account useradd userdel works user_prefix sid start uids passwd h
        name in
    elim (Option-cases (helper_id (base_prefix user_prefix sid) name)) [
      | inl e ↦
          let no_helper =
            is_helper_of-wanted useradd user_prefix sid uids name
              (is_helper_of-none useradd user_prefix sid ns name small e) in
          law ∙ rw (e, has_after, no_helper) refl
      | inr (uid, e) ↦ elim (Bool-cases (is_in (wanted uids) uid)) [
        | inr gone ↦
            let unlisted = sym (is_in-wanted uids uid) ∙ gone in
            law ∙ rw (e, has_after, gone, unlisted) refl
        | inl there ↦
            let listed = sym (is_in-wanted uids uid) ∙ there in
            let own = is_helper_of-text_eq useradd user_prefix sid ns name uid small e there in
            law ∙ rw (e, has_after, there, listed, own) refl
      ]
    ]

-- Deleting the helpers of a compartment also deletes the service user of every compartment whose id is
-- that of the first with a hyphen and a number behind it: `web-5` beside `web`.
pub delete_all_helper_users-other :
    (userdel : Text → Bool)
    → ((name : Text) → userdel name ≡ true)
    → (user_prefix sid : Text) (n : ℕ) (passwd : List Account) → n < 10 ^ 4300
    → has_account
        (username user_prefix (sid ++ (codes "-" ++ show n)))
        (delete_all_helper_users userdel user_prefix sid passwd)
      ≡ false
unfolding username delete_all_helper_users base_prefix dropped is_dropped
delete_all_helper_users-other userdel works user_prefix sid n passwd h =
    let base = user_prefix ++ (sid ++ codes "-") in
    let name = user_prefix ++ (sid ++ (codes "-" ++ show n)) in
    let regroup : base ++ show n ≡ name = simp append_assoc in
    let q : helper_id base name ≡ some (pos n) =
      subst (λ (m : Text). helper_id base m ≡ some (pos n)) regroup (helper_id-show base n h) in
    has_account-delete_helpers userdel works base (λ uid. false) name passwd ∙ ground (arith, q)
