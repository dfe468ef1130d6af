-- ===== src/Sanitized/SingleLine.antt =====
-- Control characters, over all the `.of()` of models/sanitized.py that are modelled.
use quadletman.Prelude.{ℕ, false, List, [], ◌∷◌, ◌≡◌, ◌≢◌, refl, arith, Text}
use quadletman.Regex.{Regex}
use quadletman.Sanitized.Check.{
  Checked, ok, has_control_chars, of_pattern, of_pattern_or_empty, of_limited, or_empty, of_choice,
}
use quadletman.Sanitized.Patterns.{
  byte_size_pattern, calendar_spec_pattern, digest_pattern, env_var_name_pattern,
  expose_port_pattern, host_ip_mapping_pattern, hostname_pattern, identifier_pattern, image_pattern,
  int_or_empty_pattern, linux_cap_pattern, octal_mode_pattern, port_mapping_pattern,
  resource_name_pattern, secret_name_pattern, selinux_context_pattern, signal_name_pattern,
  slug_pattern, time_duration_pattern, timezone_pattern, unit_name_pattern, username_pattern,
  uuid_pattern,
}
use quadletman.Sanitized.Names.{safe_str, safe_abs_path, safe_user_group_ref}
use quadletman.Sanitized.Values.{safe_form_bool, safe_port_str, safe_net_driver}
use quadletman.Sanitized.Brand.{
  Brand, of, plain, slug, username, image_ref, image_ref_or_empty, unit_name, secret_name,
  resource_name, resource_name_or_empty, port_mapping, uuid, uuid_or_empty, selinux_context,
  multiline_str, abs_path, abs_path_or_empty, form_bool, octal_mode, time_duration, calendar_spec,
  port_str, int_or_empty, byte_size, linux_capability, signal_name, restart_policy, pull_policy,
  auto_update_policy, health_on_failure, net_driver, expose_port, user_group_ref, timezone,
  host_ip_mapping, env_var_name, hostname, identifier, digest,
}

-- An `.of()` returns its value as it is, and with no control character.
abbrev pub IsSingleLine : (Text → Checked Text) → Type 0
IsSingleLine f = (v w : Text) → f v ≡ ok w → (w ≡ v) × (has_control_chars w ≡ false)

of_pattern-IsSingleLine : (r : Regex) → IsSingleLine (of_pattern r)
unfolding of_pattern
of_pattern-IsSingleLine r v w e = ground arith

of_pattern_or_empty-IsSingleLine : (r : Regex) → IsSingleLine (of_pattern_or_empty r)
unfolding of_pattern_or_empty
of_pattern_or_empty-IsSingleLine r v w e = ground arith

of_limited-IsSingleLine : (n : ℕ) (r : Regex) → IsSingleLine (of_limited n r)
unfolding of_limited
of_limited-IsSingleLine n r v w e = ground arith

or_empty-IsSingleLine : (f : Text → Checked Text) → IsSingleLine f → IsSingleLine (or_empty f)
unfolding or_empty has_control_chars
or_empty-IsSingleLine f h [] w e = ground arith
or_empty-IsSingleLine f h (c ∷ v) w e = h (c ∷ v) w e

of_choice-IsSingleLine : (choices : List Text) → IsSingleLine (of_choice choices)
unfolding of_choice
of_choice-IsSingleLine choices v w e = ground arith

safe_str-IsSingleLine : IsSingleLine safe_str
unfolding safe_str
safe_str-IsSingleLine v w e = ground arith

safe_abs_path-IsSingleLine : IsSingleLine safe_abs_path
unfolding safe_abs_path
safe_abs_path-IsSingleLine v w e = ground arith

safe_form_bool-IsSingleLine : IsSingleLine safe_form_bool
unfolding safe_form_bool
safe_form_bool-IsSingleLine v w e = ground arith

safe_port_str-IsSingleLine : IsSingleLine safe_port_str
unfolding safe_port_str
safe_port_str-IsSingleLine v w e = ground arith

safe_net_driver-IsSingleLine : IsSingleLine safe_net_driver
unfolding safe_net_driver
safe_net_driver-IsSingleLine v w e = ground arith

safe_user_group_ref-IsSingleLine : IsSingleLine safe_user_group_ref
unfolding safe_user_group_ref
safe_user_group_ref-IsSingleLine v w e = ground arith

of-IsSingleLine : (b : Brand) → b ≢ multiline_str → IsSingleLine (of b)
unfolding of
of-IsSingleLine plain ne = safe_str-IsSingleLine
of-IsSingleLine slug ne = of_pattern-IsSingleLine slug_pattern
of-IsSingleLine username ne = of_pattern-IsSingleLine username_pattern
of-IsSingleLine image_ref ne = of_limited-IsSingleLine 255 image_pattern
of-IsSingleLine image_ref_or_empty ne =
    or_empty-IsSingleLine _ (of_limited-IsSingleLine 255 image_pattern)
of-IsSingleLine unit_name ne = or_empty-IsSingleLine _ (of_pattern-IsSingleLine unit_name_pattern)
of-IsSingleLine secret_name ne = of_limited-IsSingleLine 253 secret_name_pattern
of-IsSingleLine resource_name ne = of_limited-IsSingleLine 63 resource_name_pattern
of-IsSingleLine resource_name_or_empty ne =
    or_empty-IsSingleLine _ (of_limited-IsSingleLine 63 resource_name_pattern)
of-IsSingleLine port_mapping ne = of_pattern-IsSingleLine port_mapping_pattern
of-IsSingleLine uuid ne = of_pattern-IsSingleLine uuid_pattern
of-IsSingleLine uuid_or_empty ne = or_empty-IsSingleLine _ (of_pattern-IsSingleLine uuid_pattern)
of-IsSingleLine selinux_context ne = of_pattern-IsSingleLine selinux_context_pattern
of-IsSingleLine multiline_str ne = absurd (ne refl)
of-IsSingleLine abs_path ne = safe_abs_path-IsSingleLine
of-IsSingleLine abs_path_or_empty ne = or_empty-IsSingleLine _ (safe_abs_path-IsSingleLine)
of-IsSingleLine form_bool ne = safe_form_bool-IsSingleLine
of-IsSingleLine octal_mode ne = of_pattern-IsSingleLine octal_mode_pattern
of-IsSingleLine time_duration ne = of_pattern_or_empty-IsSingleLine time_duration_pattern
of-IsSingleLine calendar_spec ne = of_pattern_or_empty-IsSingleLine calendar_spec_pattern
of-IsSingleLine port_str ne = safe_port_str-IsSingleLine
of-IsSingleLine int_or_empty ne = of_pattern_or_empty-IsSingleLine int_or_empty_pattern
of-IsSingleLine byte_size ne = of_pattern_or_empty-IsSingleLine byte_size_pattern
of-IsSingleLine linux_capability ne = of_pattern-IsSingleLine linux_cap_pattern
of-IsSingleLine signal_name ne = of_pattern_or_empty-IsSingleLine signal_name_pattern
of-IsSingleLine restart_policy ne = of_choice-IsSingleLine _
of-IsSingleLine pull_policy ne = of_choice-IsSingleLine _
of-IsSingleLine auto_update_policy ne = of_choice-IsSingleLine _
of-IsSingleLine health_on_failure ne = of_choice-IsSingleLine _
of-IsSingleLine net_driver ne = safe_net_driver-IsSingleLine
of-IsSingleLine expose_port ne = of_pattern_or_empty-IsSingleLine expose_port_pattern
of-IsSingleLine user_group_ref ne = safe_user_group_ref-IsSingleLine
of-IsSingleLine timezone ne = of_pattern_or_empty-IsSingleLine timezone_pattern
of-IsSingleLine host_ip_mapping ne = of_pattern_or_empty-IsSingleLine host_ip_mapping_pattern
of-IsSingleLine env_var_name ne = of_pattern_or_empty-IsSingleLine env_var_name_pattern
of-IsSingleLine hostname ne = of_pattern_or_empty-IsSingleLine hostname_pattern
of-IsSingleLine identifier ne = of_pattern_or_empty-IsSingleLine identifier_pattern
of-IsSingleLine digest ne = of_pattern_or_empty-IsSingleLine digest_pattern

-- For each class of `Brand` but SafeMultilineStr: what `.of()` returns is the value that it was given,
-- and holds no newline, no carriage return and no null.
pub of_single_line :
    (b : Brand) (v w : Text)
    → b ≢ multiline_str
    → of b v ≡ ok w
    → (w ≡ v) × (has_control_chars w ≡ false)
of_single_line b v w ne e = of-IsSingleLine b ne v w e
