-- ===== src/HostSettings.antt =====
-- services/host_settings.py: the kernel settings that may be written, the check of a value, and the
-- file in which the values are kept. The run of `sysctl -w` and the reads and writes of the file answer
-- through parameters; the categories and descriptions of the settings are left out.
pub mod Ranges
pub mod Stripped
pub mod Sorted
pub mod Entries
pub mod RoundTrip
mod Tests
use quadletman.Prelude.{
  ℕ, Bool, true, false, not, ◌&&◌, ◌||◌, List, [], ◌∷◌, ◌++◌, Option, none, some, if◌then◌else◌,
  all, Text, codes, text_eq, one_of, is_empty, is_space, strip, starts_with, has, before, after,
  split_lines, join, text_ltb, show, read_digits, is_digit, ltb, leb, length,
}
use quadletman.Prelude.Dict.{Dict, lookup, insert}
use quadletman.Sanitized.Check.{
  Checked, ok, refused, Refusal, bad_format, out_of_range, too_long, control_chars,
  has_control_chars, demand, ◌>>=◌, ◌>>◌,
}
use quadletman.Sanitized.Names.{safe_str}

pub data ValueType : Type 0 where
  integer boolean ping_range : ValueType

pub record SysctlSetting : Type 0 where
  pub key : Text
  pub value_type : ValueType
  pub min_val : Option ℕ
  pub max_val : Option ℕ

abbrev pub integer_setting : Text → ℕ → ℕ → SysctlSetting
integer_setting key lo hi = record {
  key = key;
  value_type = integer;
  min_val = some lo;
  max_val = some hi;
}

abbrev pub boolean_setting : Text → SysctlSetting
boolean_setting key = record { key = key; value_type = boolean; min_val = none; max_val = none }

-- `SETTINGS`
abbrev pub settings : List SysctlSetting
settings =
    integer_setting (codes "net.ipv4.ip_unprivileged_port_start") 0 65535
    ∷ boolean_setting (codes "net.ipv4.ip_forward")
    ∷ record {
      key = codes "net.ipv4.ping_group_range";
      value_type = ping_range;
      min_val = some 0;
      max_val = some 2147483647;
    }
    ∷ integer_setting (codes "user.max_user_namespaces") 0 65536
    ∷ boolean_setting (codes "kernel.unprivileged_userns_clone")
    ∷ integer_setting (codes "vm.max_map_count") 65530 2097152
    ∷ integer_setting (codes "fs.inotify.max_user_watches") 8192 4194304
    ∷ integer_setting (codes "fs.inotify.max_user_instances") 128 65536
    ∷ []

-- `_SETTINGS_BY_KEY.get(key)`
unfoldable pub setting_in : Text → List SysctlSetting → Option SysctlSetting
unfolding text_eq
setting_in key [] = none
setting_in key (s ∷ rest) =
    let later = setting_in key rest in if text_eq s.key key then some s else later

-- `value.split()`, behind the characters of a word that are read already
unfoldable pub words_from : Text → Text → List Text
unfolding is_empty is_space
words_from word [] = if is_empty word then [] else word ∷ []
words_from word (c ∷ s) =
    let next = words_from [] s in
    let more = words_from (word ++ c ∷ []) s in
    if is_space c then (if is_empty word then next else word ∷ next) else more

unfoldable pub words : Text → List Text
unfolding words_from
words v = words_from [] v

-- `_INTEGER_RE.match`: no newline is left at the end
unfoldable pub is_integer : Text → Bool
unfolding is_empty all is_digit
is_integer v = not (is_empty v) && all is_digit v

abbrev pub at_least : Option ℕ → ℕ → Bool
at_least none n = true
at_least (some lo) n = leb lo n

abbrev pub at_most : Option ℕ → ℕ → Bool
at_most none n = true
at_most (some hi) n = leb n hi

-- the bounds of `n = int(cleaned)`
unfoldable pub check_bounds : SysctlSetting → Text → Option ℕ → Checked Text
unfolding safe_str
check_bounds s v none = refused bad_format
check_bounds s v (some n) = do
  demand (at_least s.min_val n) out_of_range
  demand (at_most s.max_val n) out_of_range
  safe_str v

unfoldable pub check_integer : SysctlSetting → Text → Checked Text
unfolding is_integer read_digits check_bounds
check_integer s v = do demand (is_integer v) bad_format; check_bounds s v (read_digits v)

abbrev pub bound_of : Option ℕ → ℕ
bound_of none = 2147483647
bound_of (some n) = n

-- `low, high = int(parts[0]), int(parts[1])` with the bound
unfoldable pub check_pair : SysctlSetting → Option ℕ → Option ℕ → Checked Text
unfolding show safe_str
check_pair s none high = refused bad_format
check_pair s (some low) none = refused bad_format
check_pair s (some low) (some high) = do
  demand (not (ltb (bound_of s.max_val) low || ltb (bound_of s.max_val) high)) out_of_range
  safe_str (show low ++ (codes " " ++ show high))

unfoldable pub check_parts : SysctlSetting → List Text → Checked Text
unfolding is_integer read_digits check_pair
check_parts s [] = refused bad_format
check_parts s (low ∷ []) = refused bad_format
check_parts s (low ∷ high ∷ []) = do
  demand (is_integer low && is_integer high) bad_format
  check_pair s (read_digits low) (read_digits high)
check_parts s (low ∷ high ∷ p ∷ parts) = refused bad_format

unfoldable pub check_type : SysctlSetting → ValueType → Text → Checked Text
unfolding one_of check_integer check_parts words safe_str
check_type s integer v = check_integer s v
check_type s boolean v = do demand (one_of v (codes "0" ∷ codes "1" ∷ [])) bad_format; safe_str v
check_type s ping_range v = check_parts s (words v)

-- `_validate_value`
unfoldable pub validate_value : SysctlSetting → Text → Checked Text
unfolding has_control_chars words is_empty check_type
validate_value s v = do
  demand (not (has_control_chars v)) control_chars
  let cleaned = join (codes " ") (words v)
  demand (not (is_empty cleaned)) bad_format
  demand (not (ltb 64 (length cleaned))) too_long
  check_type s s.value_type cleaned

-- a line of the file: `managed[k.strip()] = v.strip()`
unfoldable pub read_entry : Text → Dict Text → Dict Text
unfolding strip starts_with is_empty has before after insert
read_entry line d =
    let l = strip line in
    if starts_with (codes "#") l || is_empty l
    then d
    else if has b'=' l
    then insert (strip (before b'=' l)) (strip (after b'=' l)) d
    else d

unfoldable pub read_entries : List Text → Dict Text → Dict Text
unfolding read_entry
read_entries [] d = d
read_entries (l ∷ ls) d = read_entries ls (read_entry l d)

-- `sorted(managed.items())`, whose keys differ
unfoldable pub place_entry : Text × Text → Dict Text → Dict Text
unfolding text_ltb
place_entry e [] = e ∷ []
place_entry e (f ∷ d) =
    let rest = place_entry e d in if text_ltb f.0 e.0 then f ∷ rest else e ∷ f ∷ d

unfoldable pub sorted : Dict Text → Dict Text
unfolding place_entry
sorted [] = []
sorted (e ∷ d) = place_entry e (sorted d)

unfoldable pub entry_lines : Dict Text → Text
entry_lines [] = []
entry_lines ((k, v) ∷ d) = (k ++ (codes " = " ++ v)) ++ b'\n' ∷ entry_lines d

unfoldable pub header : Text
header = codes "# Managed by quadletman — do not edit manually"

-- the text of the file for the settings that it manages, and what is read of a text
unfoldable pub written : Dict Text → Text
unfolding sorted entry_lines header
written managed = header ++ b'\n' ∷ entry_lines (sorted managed)

unfoldable pub read_managed : Text → Dict Text
unfolding read_entries split_lines
read_managed text = read_entries (split_lines text) []

-- `_persist`
unfoldable pub persisted : Text → Text → Text → Text
unfolding read_managed insert written
persisted key value text = written (insert key value (read_managed text))

-- The values in the kernel, and the text of the file; no text is a file that is not there.
pub record Settings : Type 0 where
  pub kernel : Dict Text
  pub file : Option Text

pub data Applied : Type 0 where
  applied unknown_key sysctl_failed write_failed : Applied
  invalid : Refusal → Applied

-- what is read of the file, where it can be read
abbrev pub text_of : Bool → Option Text → Text
text_of readable none = []
text_of readable (some text) = if readable then text else []

-- `sysctl -w` succeeds, the file can be read, the file can be written
module _ (sysctl readable writable : Bool) where
  -- `_apply_sync`; a file that can be written can be given its mode too
  unfoldable pub apply_sync : Text → Text → Settings → Settings × Applied
  unfolding insert persisted
  apply_sync key value st =
      let kernel = insert key value st.kernel in
      if not sysctl
      then (st, sysctl_failed)
      else if not writable
      then (record st { kernel = kernel }, write_failed)
      else (
        record { kernel = kernel; file = some (persisted key value (text_of readable st.file)) },
        applied,
      )

  unfoldable pub apply : Text → Text → Settings → Settings × Applied
  unfolding setting_in validate_value apply_sync
  apply key value st = elim (setting_in key settings) [
    | none ↦ (st, unknown_key)
    | some s ↦ elim (validate_value s value) [
      | refused r ↦ (st, invalid r)
      | ok v ↦ apply_sync key v st
    ]
  ]
