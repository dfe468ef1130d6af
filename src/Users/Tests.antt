-- ===== src/Users/Tests.antt =====
-- Two compartments, `web` and `web-5`, with their accounts and ranges.
use quadletman.Prelude.{
  Bool, true, false, List, [], ◌∷◌, ◌++◌, map, Option, none, some, ◌≡◌, refl, arith, All, any, Text,
  codes, has_text, parse_int, show, show_int, ℤ, pos, ◌+ℤ◌, ◌-ℤ◌,
}
use quadletman.Users.Subids.{
  next_subid_start, entry, setup_subids, get_subid_start, remove_subids, parse_range,
}
use quadletman.Users.Subids.Ranges.{
  Adds, EndsBelow, ◌≤ℤ◌, setup_subids-behind, setup_subids-skips_suffix,
}
use quadletman.Users.Helpers.{
  Account, username, base_prefix, helper_id, has_account, delete_all_helper_users,
  sync_helper_users,
}
use quadletman.Users.Helpers.Sync.{
  has_after, sync_helper_users-exact, delete_all_helper_users-other,
}

abbrev prefix : Text
prefix = codes "qm-"

-- an `usermod` without the flags, and one that does its work
abbrev no_usermod : Text → ℤ → ℤ → List Text → Option (List Text)
no_usermod name first last lines = none

abbrev some_usermod : Text → ℤ → ℤ → List Text → Option (List Text)
some_usermod name first last lines = some (
    lines
    ++ (name ++ (codes ":" ++ (show_int first ++ (codes ":" ++ show_int (last -ℤ first +ℤ pos 1)))))
      ∷ [])

some_usermod-Adds : Adds some_usermod
some_usermod-Adds name first last lines lines' e = ground arith

abbrev subuid : List Text
subuid = codes "root:100000:65536" ∷ codes "# x" ∷ codes "qm-a-qm-b:200000:1000" ∷ []

next_start : next_subid_start subuid ≡ pos 201000
unfolding next_subid_start parse_int
next_start = refl

setup_line :
    setup_subids no_usermod (codes "qm-web") subuid ≡ subuid ++ codes "qm-web:201000:65536" ∷ []
unfolding setup_subids parse_int
setup_line = refl

start_found : get_subid_start (codes "qm-a-qm-b") subuid ≡ some (pos 200000)
unfolding get_subid_start parse_int
start_found = refl

nothing_for_b :
    get_subid_start (codes "qm-b") (setup_subids no_usermod (codes "qm-b") subuid) ≡ none
unfolding get_subid_start setup_subids
nothing_for_b = refl

removed_line :
    remove_subids (codes "root") subuid ≡ codes "# x" ∷ codes "qm-a-qm-b:200000:1000" ∷ []
unfolding remove_subids
removed_line = refl

setup_subids-behind_example :
    (start : ℤ) × (setup_subids some_usermod (codes "qm-web") subuid
      ≡ subuid ++ entry (codes "qm-web") start ∷ [])
    × (pos 100000 ≤ℤ start)
    × All (λ l. EndsBelow start (parse_range l)) subuid
unfolding any has_text
setup_subids-behind_example =
    setup_subids-behind some_usermod some_usermod-Adds (codes "qm-web") subuid refl

setup_subids-skips_suffix_example :
    setup_subids no_usermod
      (codes "qm-b")
      (codes "x:1:1" ∷ entry (codes "qm-a-" ++ codes "qm-b") (pos 100000) ∷ [])
    ≡ codes "x:1:1" ∷ entry (codes "qm-a-" ++ codes "qm-b") (pos 100000) ∷ []
setup_subids-skips_suffix_example =
    setup_subids-skips_suffix no_usermod (codes "qm-a-") (codes "qm-b") (pos 100000)
      (codes "x:1:1" ∷ []) []

abbrev always : Text → Bool
always name = true

abbrev passwd : List Account
passwd =
    record { pw_name = codes "qm-web"; pw_uid = pos 900 }
    ∷ record { pw_name = codes "qm-web-7"; pw_uid = pos 100007 }
    ∷ record { pw_name = codes "qm-web-x"; pw_uid = pos 901 }
    ∷ []

abbrev synced : List Account × Bool
synced =
    sync_helper_users always always prefix (codes "web") (some (pos 100000)) (map pos (0 ∷ 33 ∷ []))
      passwd

synced_accounts : synced ≡ (
  record { pw_name = codes "qm-web"; pw_uid = pos 900 }
      ∷ record { pw_name = codes "qm-web-x"; pw_uid = pos 901 }
      ∷ record { pw_name = codes "qm-web-33"; pw_uid = pos 100033 }
      ∷ [],
  true,
)
unfolding sync_helper_users parse_int
synced_accounts = refl

sync_helper_users-exact_example :
    has_account (codes "qm-web-033") synced.0
    ≡ has_after prefix
        (codes "web")
        (map pos (0 ∷ 33 ∷ []))
        passwd
        (codes "qm-web-033")
        (helper_id (base_prefix prefix (codes "web")) (codes "qm-web-033"))
unfolding sync_helper_users
sync_helper_users-exact_example =
    sync_helper_users-exact always always (λ name. refl) prefix (codes "web") (some (pos 100000))
      (0 ∷ 33 ∷ []) passwd (omega arith, (omega arith, tt)) refl (codes "qm-web-033")

delete_all_helper_users-other_example :
    has_account (username prefix (codes "web" ++ (codes "-" ++ show 5))) (
      delete_all_helper_users always prefix
        (codes "web")
        (record { pw_name = codes "qm-web-5"; pw_uid = pos 902 } ∷ passwd))
    ≡ false
delete_all_helper_users-other_example =
    delete_all_helper_users-other always (λ name. refl) prefix (codes "web") 5
      (record { pw_name = codes "qm-web-5"; pw_uid = pos 902 } ∷ passwd) (omega arith)
