-- ===== src/Users/Subids.antt =====
-- services/user_manager.py: the ranges of /etc/subuid and /etc/subgid. A file is the list of its
-- lines, each of which ends in a line break, as the tools that own the files write them; `usermod` is a parameter that returns the lines behind it, or fails.
pub mod Ranges
use quadletman.Prelude.{
  ℕ, Bool, true, false, List, [], ◌∷◌, ◌++◌, Option, none, some, if◌then◌else◌, any, Text, codes,
  text_eq, has_text, starts_with, strip, ◌==◌, ℤ, pos, ◌+ℤ◌, ◌-ℤ◌, lt_int, parse_int, show_int,
}
use quadletman.Prelude.Options.{◌>>=◌}

-- `s.split(sep)` for a separator of one character: `field` is what stands since the last one.
split_from : ℕ → Text → Text → List Text
split_from sep field [] = field ∷ []
split_from sep field (c ∷ s) =
    let next = split_from sep [] s in
    let longer = split_from sep (field ++ c ∷ []) s in if c == sep then field ∷ next else longer

unfoldable pub split : ℕ → Text → List Text
unfolding split_from
split sep s = split_from sep [] s

pub record Range : Type 0 where
  pub owner : Text
  pub start : ℤ
  pub count : ℤ

-- three parts with two numbers behind the name; another line counts for nothing
range_of : List Text → Option Range
range_of [] = none
range_of (a ∷ []) = none
range_of (a ∷ b ∷ []) = none
range_of (a ∷ b ∷ c ∷ []) = do
  start ← parse_int b
  count ← parse_int c
  some (record { owner = a; start = start; count = count })
range_of (a ∷ b ∷ c ∷ d ∷ r) = none

unfoldable pub parse_range : Text → Option Range
unfolding split range_of strip
parse_range line = range_of (split b':' (strip line))

unfoldable pub max_int : ℤ → ℤ → ℤ
max_int a b = if lt_int a b then b else a

-- `max(highest_end, start + count)`
abbrev pub raised : ℤ → Option Range → ℤ
raised highest none = highest
raised highest (some r) = max_int highest (r.start +ℤ r.count)

-- the loop of `_next_subid_start`
unfoldable pub next_from : ℤ → List Text → ℤ
unfolding parse_range max_int
next_from highest [] = highest
next_from highest (line ∷ lines) = next_from (raised highest (parse_range line)) lines

unfoldable pub next_subid_start : List Text → ℤ
unfolding next_from
next_subid_start lines = next_from (pos 100000) lines

abbrev pub subid_range_size : ℕ
subid_range_size = 65536

-- `f"{username}:{start}:{_SUBID_RANGE_SIZE}\n"`
unfoldable pub entry : Text → ℤ → Text
unfolding show_int
entry username start =
    username ++ (codes ":" ++ (show_int start ++ (codes ":" ++ show_int (pos subid_range_size))))

-- One file of `_setup_subuid_subgid`, under the lock; `usermod` gets the first and the last id.
unfoldable pub setup_subids :
    (Text → ℤ → ℤ → List Text → Option (List Text)) → Text → List Text → List Text
unfolding has_text any next_subid_start entry
setup_subids usermod username lines =
    if any (has_text (username ++ codes ":")) lines
    then lines
    else (let start = next_subid_start lines in
        elim (usermod username start (start +ℤ pos subid_range_size -ℤ pos 1) lines) [
          | some lines' ↦ lines'
          | none ↦ lines ++ entry username start ∷ []
        ])

-- the number of a line that has three parts and this name, or what the other lines give
unfoldable pub start_in : Text → Option ℤ → List Text → Option ℤ
unfolding text_eq
start_in username rest [] = rest
start_in username rest (a ∷ []) = rest
start_in username rest (a ∷ b ∷ []) = rest
start_in username rest (a ∷ b ∷ c ∷ []) = if text_eq a username then parse_int b else rest
start_in username rest (a ∷ b ∷ c ∷ d ∷ r) = rest

-- the first line of `get_subid_start`; an exception there gives none as well
unfoldable pub get_subid_start : Text → List Text → Option ℤ
unfolding split start_in strip
get_subid_start username [] = none
get_subid_start username (line ∷ lines) =
    start_in username (get_subid_start username lines) (split b':' (strip line))

-- one file of `_remove_subuid_subgid`
unfoldable pub remove_subids : Text → List Text → List Text
unfolding starts_with
remove_subids username [] = []
remove_subids username (line ∷ lines) =
    let rest = remove_subids username lines in
    if starts_with (username ++ codes ":") line then rest else line ∷ rest
