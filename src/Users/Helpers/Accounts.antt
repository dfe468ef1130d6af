-- ===== src/Users/Helpers/Accounts.antt =====
-- Which names have an account behind the loops that create and delete helpers.
use quadletman.Prelude.{
  ℕ, ◌<◌, ◌^◌, Bool, true, false, not, ◌&&◌, ◌||◌, List, [], ◌∷◌, ◌++◌, map, Option, none, some,
  if◌then◌else◌, ◌≡◌, refl, sym, ap, subst, ◌∙◌, inl, inr, arith, Bool-cases, All, any, Text,
  text_eq, text_eq_iff, text_eq_refl, starts_with-append, ℤ, pos, negsuc, ◌+ℤ◌, eq_int, show,
  show_int,
}
use quadletman.Prelude.Decimal.RoundTrip.{parse_int-show}
use quadletman.Compartments.Patterns.{delete_where}
use quadletman.Users.Helpers.{
  Account, base_prefix, helper_username, behind, helper_id, has_account, is_dropped, delete_helpers,
  wanted, is_in, create_helper_user, after_success, create_helpers,
}

behind-append : (p s : Text) → behind p (p ++ s) ≡ s
unfolding behind
behind-append [] s = refl
behind-append (c ∷ p) s = behind-append p s

pub helper_id-show :
    (base : Text) (n : ℕ) → n < 10 ^ 4300 → helper_id base (base ++ show n) ≡ some (pos n)
unfolding helper_id
helper_id-show base n h =
    rw (starts_with-append base (show n), behind-append base (show n)) (parse_int-show n h)

module _ (userdel : Text → Bool) (works : (name : Text) → userdel name ≡ true) (base : Text)
    (keep : ℤ → Bool) where
  unfoldable pub dropped : Text → Bool
  dropped name = is_dropped keep (helper_id base name)

  -- a name has an account if it had one, and the account is not one to drop
  pub has_account-delete_helpers :
      (name : Text) (passwd : List Account)
      → has_account name (delete_helpers userdel base keep passwd)
        ≡ (not (dropped name) && has_account name passwd)
  unfolding delete_helpers has_account delete_where any dropped
  has_account-delete_helpers name [] = ground arith
  has_account-delete_helpers name (a ∷ passwd) = elim (Bool-cases (text_eq a.pw_name name)) [
    | inl same ↦
        let e = ap dropped ((text_eq_iff a.pw_name name).0 same) in
        ground (arith, has_account-delete_helpers name passwd, works a.pw_name, same, e)
    | inr other ↦ ground (arith, has_account-delete_helpers name passwd, works a.pw_name, other)
  ]

pub after_success-true :
    (r : List Account × Bool) (k : List Account → List Account × Bool)
    → (after_success r k).1 ≡ true
    → (r.1 ≡ true) × (after_success r k ≡ k r.0)
after_success-true (l, true) k h = (refl, refl)
after_success-true (l, false) k h = cc

has_account-add :
    (name : Text) (passwd : List Account) (a : Account)
    → has_account name (passwd ++ a ∷ [])
      ≡ (if text_eq a.pw_name name then true else has_account name passwd)
unfolding has_account any
has_account-add name [] a = ground arith
has_account-add name (b ∷ passwd) a = ground (arith, has_account-add name passwd a)

pub eq_int-same : (v w : ℤ) → eq_int v w ≡ true → v ≡ w
eq_int-same (pos m) (pos n) h = ground arith
eq_int-same (pos m) (negsuc n) h = ground arith
eq_int-same (negsuc m) (pos n) h = ground arith
eq_int-same (negsuc m) (negsuc n) h = ground arith

module _ (useradd : Text → Bool) (user_prefix sid : Text) where
  -- what a creation that raised nothing does to the accounts
  create_helper_user-has_account :
      (start : Option ℤ) (uid : ℤ) (name : Text) (passwd : List Account)
      → (create_helper_user useradd user_prefix sid start uid passwd).1 ≡ true
      → has_account name (create_helper_user useradd user_prefix sid start uid passwd).0 ≡ (
          if text_eq (helper_username user_prefix sid uid) name
          then true
          else has_account name passwd)
  unfolding create_helper_user
  create_helper_user-has_account none uid name passwd h =
      let helper = helper_username user_prefix sid uid in
      elim (Bool-cases (text_eq helper name)) [
        | inl same ↦
            let e = ap (λ (m : Text). has_account m passwd) ((text_eq_iff helper name).0 same) in
            ground (arith, e, same)
        | inr other ↦ ground (arith, other)
      ]
  create_helper_user-has_account (some start) uid name passwd h =
      let helper = helper_username user_prefix sid uid in
      let added =
        has_account-add name passwd (record { pw_name = helper; pw_uid = start +ℤ uid }) in
      elim (Bool-cases (text_eq helper name)) [
        | inl same ↦
            let e = ap (λ (m : Text). has_account m passwd) ((text_eq_iff helper name).0 same) in
            ground (arith, e, same, added)
        | inr other ↦ ground (arith, other, added)
      ]

  unfoldable pub is_helper_of : List ℤ → Text → Bool
  unfolding any
  is_helper_of uids name = any (λ uid. text_eq (helper_username user_prefix sid uid) name) uids

  pub create_helpers-has_account :
      (start : Option ℤ) (uids : List ℤ) (name : Text) (passwd : List Account)
      → (create_helpers useradd user_prefix sid start uids passwd).1 ≡ true
      → has_account name (create_helpers useradd user_prefix sid start uids passwd).0
        ≡ (is_helper_of uids name || has_account name passwd)
  unfolding create_helpers is_helper_of any
  create_helpers-has_account start [] name passwd h = refl
  create_helpers-has_account start (uid ∷ uids) name passwd h =
      let first = create_helper_user useradd user_prefix sid start uid passwd in
      let s = after_success-true first (create_helpers useradd user_prefix sid start uids) h in
      let one = create_helper_user-has_account start uid name passwd s.0 in
      let rest =
        create_helpers-has_account start uids name first.0
          (sym (ap (λ (r : List Account × Bool). r.1) s.1) ∙ h) in
      ap (λ (r : List Account × Bool). has_account name r.0) s.1 ∙ (rest ∙ ground (arith, one))

  -- an id that is wanted, and its account
  pub is_helper_of-is_in :
      (uid : ℤ) (uids : List ℤ)
      → is_in uids uid ≡ true
      → is_helper_of uids (helper_username user_prefix sid uid) ≡ true
  unfolding is_in is_helper_of any
  is_helper_of-is_in uid [] h = ground arith
  is_helper_of-is_in uid (v ∷ uids) h = elim (Bool-cases (eq_int v uid)) [
    | inl e ↦ rw (eq_int-same v uid e, text_eq_refl (helper_username user_prefix sid uid)) refl
    | inr e ↦ ground (arith, is_helper_of-is_in uid uids, e)
  ]

  -- an account with another form of name is no helper
  pub is_helper_of-none :
      (ns : List ℕ) (name : Text)
      → All (λ n. n < 10 ^ 4300) ns
      → helper_id (base_prefix user_prefix sid) name ≡ none
      → is_helper_of (map pos ns) name ≡ false
  unfolding is_helper_of any helper_username show_int
  is_helper_of-none [] name small h = refl
  is_helper_of-none (n ∷ ns) name small h =
      let base = base_prefix user_prefix sid in
      let rest = is_helper_of-none ns name small.1 h in
      elim (Bool-cases (text_eq (base ++ show n) name)) [
        | inl e ↦
            let q : helper_id base name ≡ some (pos n) =
              subst (λ (m : Text). helper_id base m ≡ some (pos n))
                ((text_eq_iff (base ++ show n) name).0 e) (helper_id-show base n small.0) in
            ground (arith, h, q)
        | inr e ↦ rw e rest
      ]

  pub is_helper_of-wanted :
      (uids : List ℤ) (name : Text)
      → is_helper_of uids name ≡ false
      → is_helper_of (wanted uids) name ≡ false
  unfolding is_helper_of any wanted
  is_helper_of-wanted [] name h = refl
  is_helper_of-wanted (v ∷ uids) name h = elim (Bool-cases (eq_int v (pos 0))) [
    | inl e ↦ rw e (is_helper_of-wanted uids name (ground arith))
    | inr e ↦ rw e (ground (arith, is_helper_of-wanted uids name))
  ]

  -- a helper name of the list that the loops read as the number of an account is that account's
  pub is_helper_of-same :
      (ns : List ℕ) (name : Text) (uid : ℤ)
      → All (λ n. n < 10 ^ 4300) ns
      → helper_id (base_prefix user_prefix sid) name ≡ some uid
      → is_helper_of (map pos ns) name ≡ true
      → helper_username user_prefix sid uid ≡ name
  unfolding is_helper_of any helper_username show_int
  is_helper_of-same [] name uid small h k = absurd (ground (arith, k))
  is_helper_of-same (n ∷ ns) name uid small h k =
      let base = base_prefix user_prefix sid in
      elim (Bool-cases (text_eq (base ++ show n) name)) [
        | inl e ↦
            let same = (text_eq_iff (base ++ show n) name).0 e in
            let q : helper_id base name ≡ some (pos n) =
              subst (λ (m : Text). helper_id base m ≡ some (pos n)) same
                (helper_id-show base n small.0) in
            let number : uid ≡ pos n = ground (arith, h, q) in
            subst (λ (v : ℤ). helper_username user_prefix sid v ≡ name) (sym number) same
        | inr e ↦ is_helper_of-same ns name uid small.1 h (ground (arith, k, e))
      ]
