-- ===== src/Sanitized/Values.antt =====
-- The classes of models/sanitized.py for values of unit-file keys and forms, each by its `.of()`.
use quadletman.Prelude.{
  ℕ, ◌+◌, Bool, false, ◌||◌, List, [], ◌∷◌, ◌++◌, Option, none, some, if◌then◌else◌, Text, codes,
  is_empty, one_of, read_digits, within,
}
use quadletman.Regex.{match_end}
use quadletman.Sanitized.Patterns.{
  port_mapping_pattern, octal_mode_pattern, time_duration_pattern, calendar_spec_pattern,
  port_str_pattern, int_or_empty_pattern, byte_size_pattern, linux_cap_pattern, signal_name_pattern,
  expose_port_pattern,
}
use quadletman.Sanitized.Check.{
  bad_format, out_of_range, not_a_choice, Checked, ok, ◌>>◌, demand, has_control_chars,
  check_control_chars, of_pattern, of_pattern_or_empty, of_choice,
}

abbrev pub safe_port_mapping : Text → Checked Text
safe_port_mapping = of_pattern port_mapping_pattern

-- `str.lower`, on the letters that the values below are made of; no other character lowers to one.
lower_char : ℕ → ℕ
lower_char c = if within b'A' b'Z' c then c + 32 else c

lower : Text → Text
unfolding lower_char
lower [] = []
lower (c ∷ s) = lower_char c ∷ lower s

unfoldable pub safe_form_bool : Text → Checked Text
unfolding has_control_chars one_of lower
safe_form_bool v = do
  check_control_chars v
  demand
      (one_of (lower v) (
        codes ""
        ∷ codes "true"
        ∷ codes "false"
        ∷ codes "on"
        ∷ codes "off"
        ∷ codes "1"
        ∷ codes "0"
        ∷ []))
      not_a_choice
  ok v

abbrev pub safe_octal_mode : Text → Checked Text
safe_octal_mode = of_pattern octal_mode_pattern

abbrev pub safe_time_duration : Text → Checked Text
safe_time_duration = of_pattern_or_empty time_duration_pattern

abbrev pub safe_calendar_spec : Text → Checked Text
safe_calendar_spec = of_pattern_or_empty calendar_spec_pattern

-- `int(value)` behind the pattern, and its range
unfoldable pub port_in_range : Text → Bool
unfolding read_digits
port_in_range v = elim (read_digits v) [ none ↦ false | some port ↦ within 1 65535 port ]

unfoldable pub safe_port_str : Text → Checked Text
unfolding has_control_chars match_end port_str_pattern port_in_range is_empty
safe_port_str v = do
  check_control_chars v
  demand (is_empty v || match_end port_str_pattern v) bad_format
  demand (is_empty v || port_in_range v) out_of_range
  ok v

abbrev pub safe_int_or_empty : Text → Checked Text
safe_int_or_empty = of_pattern_or_empty int_or_empty_pattern

abbrev pub safe_byte_size : Text → Checked Text
safe_byte_size = of_pattern_or_empty byte_size_pattern

abbrev pub safe_linux_capability : Text → Checked Text
safe_linux_capability = of_pattern linux_cap_pattern

abbrev pub safe_signal_name : Text → Checked Text
safe_signal_name = of_pattern_or_empty signal_name_pattern

-- `choices_to_frozenset`: the values, and the empty text where there is a label for it
unfoldable pub choices_to_frozenset : List Text → Option Text → List Text
choices_to_frozenset values none = values
choices_to_frozenset values (some label) = values ++ [] ∷ []

abbrev pub restart_policies : List Text
restart_policies = codes "always" ∷ codes "on-failure" ∷ codes "unless-stopped" ∷ codes "no" ∷ []

abbrev pub pull_policies : List Text
pull_policies = codes "always" ∷ codes "missing" ∷ codes "never" ∷ codes "newer" ∷ []

abbrev pub auto_update_policies : List Text
auto_update_policies = codes "registry" ∷ codes "local" ∷ []

abbrev pub health_on_failure_actions : List Text
health_on_failure_actions = codes "kill" ∷ codes "restart" ∷ codes "stop" ∷ []

abbrev pub safe_restart_policy : Text → Checked Text
safe_restart_policy = of_choice (choices_to_frozenset restart_policies none)

abbrev pub safe_pull_policy : Text → Checked Text
safe_pull_policy = of_choice (choices_to_frozenset pull_policies (some (codes "default")))

abbrev pub safe_auto_update_policy : Text → Checked Text
safe_auto_update_policy =
    of_choice (choices_to_frozenset auto_update_policies (some (codes "Disabled")))

abbrev pub safe_health_on_failure : Text → Checked Text
safe_health_on_failure =
    of_choice (choices_to_frozenset health_on_failure_actions (some (codes "none (log only)")))

unfoldable pub safe_net_driver : Text → Checked Text
unfolding has_control_chars one_of is_empty
safe_net_driver v = do
  check_control_chars v
  demand (is_empty v || one_of v (codes "bridge" ∷ codes "macvlan" ∷ codes "ipvlan" ∷ []))
      not_a_choice
  ok v

abbrev pub safe_expose_port : Text → Checked Text
safe_expose_port = of_pattern_or_empty expose_port_pattern
