-- ===== src/Users/Helpers.antt =====
-- services/user_manager.py: the helper accounts `qm-<compartment>-<uid>`. `passwd` is the list that
-- `pwd.getpwall` gives; whether `useradd` and `userdel` of a name work are parameters.
pub mod Accounts
pub mod Sync
use quadletman.Prelude.{
  ℕ, Bool, true, false, not, ◌&&◌, List, [], ◌∷◌, ◌++◌, Option, none, some, if◌then◌else◌, any,
  Text, codes, text_eq, starts_with, ℤ, pos, ◌+ℤ◌, lt_int, eq_int, parse_int, show_int,
}
use quadletman.Compartments.Patterns.{delete_where}

pub record Account : Type 0 where
  pub pw_name : Text
  pub pw_uid : ℤ

-- `_username` and `_groupname`, for `settings.service_user_prefix`
unfoldable pub username : Text → Text → Text
username user_prefix sid = user_prefix ++ sid

-- `f"{settings.service_user_prefix}{service_id}-"`
unfoldable pub base_prefix : Text → Text → Text
base_prefix user_prefix sid = user_prefix ++ (sid ++ codes "-")

unfoldable pub helper_username : Text → Text → ℤ → Text
unfolding base_prefix show_int
helper_username user_prefix sid uid = base_prefix user_prefix sid ++ show_int uid

-- `s[len(prefix):]` of a text that starts with the prefix
unfoldable pub behind : Text → Text → Text
behind [] s = s
behind (p ∷ ps) [] = []
behind (p ∷ ps) (c ∷ s) = behind ps s

-- the number of an account that the loops take for a helper of the compartment
unfoldable pub helper_id : Text → Text → Option ℤ
unfolding starts_with behind
helper_id base name = if starts_with base name then parse_int (behind base name) else none

-- `pwd.getpwnam(name)` finds an account
unfoldable pub has_account : Text → List Account → Bool
unfolding any text_eq
has_account name passwd = any (λ a. text_eq a.pw_name name) passwd

pub record Helper : Type 0 where
  pub username : Text
  pub container_uid : ℤ
  pub host_uid : ℤ

place : Helper → List Helper → List Helper
place h [] = h ∷ []
place h (g ∷ gs) =
    let rest = place h gs in if lt_int g.container_uid h.container_uid then g ∷ rest else h ∷ g ∷ gs

unfoldable pub helpers_from : Text → List Account → List Helper
unfolding helper_id place
helpers_from base [] = []
helpers_from base (a ∷ passwd) =
    let rest = helpers_from base passwd in
    elim (helper_id base a.pw_name) [
      | none ↦ rest
      | some uid ↦
          place (record { username = a.pw_name; container_uid = uid; host_uid = a.pw_uid }) rest
    ]

-- `list_helper_users`: ascending by the id, and in the order of `getpwall` for equal ids
unfoldable pub list_helper_users : Text → Text → List Account → List Helper
unfolding base_prefix helpers_from
list_helper_users user_prefix sid passwd = helpers_from (base_prefix user_prefix sid) passwd

-- an account that one of the deleting loops takes: a helper whose id is not to be kept
unfoldable pub is_dropped : (ℤ → Bool) → Option ℤ → Bool
is_dropped keep none = false
is_dropped keep (some uid) = not (keep uid)

unfoldable pub delete_helpers : (Text → Bool) → Text → (ℤ → Bool) → List Account → List Account
unfolding is_dropped helper_id delete_where
delete_helpers userdel base keep passwd =
    delete_where (λ a. is_dropped keep (helper_id base a.pw_name) && userdel a.pw_name) passwd

unfoldable pub delete_all_helper_users : (Text → Bool) → Text → Text → List Account → List Account
unfolding delete_helpers base_prefix
delete_all_helper_users userdel user_prefix sid passwd =
    delete_helpers userdel (base_prefix user_prefix sid) (λ uid. false) passwd

-- `{uid for uid in container_uids if uid != 0}`; a number that comes twice is created once
unfoldable pub wanted : List ℤ → List ℤ
wanted [] = []
wanted (uid ∷ uids) = let rest = wanted uids in if eq_int uid (pos 0) then rest else uid ∷ rest

unfoldable pub is_in : List ℤ → ℤ → Bool
unfolding any
is_in uids uid = any (λ v. eq_int v uid) uids

-- `create_helper_user`, for the first id of the compartment's range; `false` is an exception
unfoldable pub create_helper_user :
    (Text → Bool) → Text → Text → Option ℤ → ℤ → List Account → List Account × Bool
unfolding has_account helper_username
create_helper_user useradd user_prefix sid subuid_start uid passwd =
    let helper = helper_username user_prefix sid uid in
    if has_account helper passwd then (passwd, true) else elim subuid_start [
      | none ↦ (passwd, false)
      | some start ↦
          if useradd helper
          then (passwd ++ record { pw_name = helper; pw_uid = start +ℤ uid } ∷ [], true)
          else (passwd, false)
    ]

-- the second step if the first raised nothing
abbrev pub after_success :
    List Account × Bool → (List Account → List Account × Bool) → List Account × Bool
after_success (passwd, true) next = next passwd
after_success (passwd, false) next = (passwd, false)

unfoldable pub create_helpers :
    (Text → Bool) → Text → Text → Option ℤ → List ℤ → List Account → List Account × Bool
unfolding create_helper_user
create_helpers useradd user_prefix sid subuid_start [] passwd = (passwd, true)
create_helpers useradd user_prefix sid subuid_start (uid ∷ uids) passwd =
    after_success (create_helper_user useradd user_prefix sid subuid_start uid passwd)
      (create_helpers useradd user_prefix sid subuid_start uids)

unfoldable pub sync_helper_users :
    (Text → Bool)
    → (Text → Bool)
    → Text
    → Text
    → Option ℤ
    → List ℤ
    → List Account
    → List Account × Bool
unfolding create_helpers delete_helpers wanted is_in base_prefix
sync_helper_users useradd userdel user_prefix sid subuid_start container_uids passwd =
    after_success
      (create_helpers useradd user_prefix sid subuid_start (wanted container_uids) passwd)
      (λ created. (
        delete_helpers userdel (base_prefix user_prefix sid) (is_in (wanted container_uids))
            created,
        true,
      ))
