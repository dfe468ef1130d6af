-- ===== src/Sanitized/Names.antt =====
-- The classes of models/sanitized.py for names, references and paths, each by its `.of()`.
use quadletman.Prelude.{
  Bool, true, false, not, ◌&&◌, ◌||◌, [], ◌∷◌, ◌==◌, Text, codes, has, is_empty, text_eq,
  starts_with,
}
use quadletman.Regex.{match_end, match_prefix}
use quadletman.Sanitized.Patterns.{
  slug_pattern, image_pattern, secret_name_pattern, unit_name_pattern, resource_name_pattern,
  uuid_pattern, selinux_context_pattern, username_pattern, abs_path_pattern,
  user_group_name_pattern, user_group_id_pattern, timezone_pattern, host_ip_mapping_pattern,
  env_var_name_pattern, hostname_pattern, identifier_pattern, digest_pattern,
}
use quadletman.Sanitized.Check.{
  null_byte, carriage_return, bad_format, traversal, Checked, ok, ◌>>◌, demand, has_control_chars,
  check_control_chars, check_match, of_pattern, of_pattern_or_empty, of_limited, or_empty,
}

unfoldable pub safe_str : Text → Checked Text
unfolding has_control_chars
safe_str v = do check_control_chars v; ok v

abbrev pub safe_slug : Text → Checked Text
safe_slug = of_pattern slug_pattern

abbrev pub safe_username : Text → Checked Text
safe_username = of_pattern username_pattern

abbrev pub safe_image_ref : Text → Checked Text
safe_image_ref = of_limited 255 image_pattern

abbrev pub safe_image_ref_or_empty : Text → Checked Text
safe_image_ref_or_empty = or_empty (of_limited 255 image_pattern)

abbrev pub safe_unit_name : Text → Checked Text
safe_unit_name = or_empty (of_pattern unit_name_pattern)

abbrev pub safe_secret_name : Text → Checked Text
safe_secret_name = of_limited 253 secret_name_pattern

abbrev pub safe_resource_name : Text → Checked Text
safe_resource_name = of_limited 63 resource_name_pattern

abbrev pub safe_resource_name_or_empty : Text → Checked Text
safe_resource_name_or_empty = or_empty (of_limited 63 resource_name_pattern)

abbrev pub safe_uuid : Text → Checked Text
safe_uuid = of_pattern uuid_pattern

abbrev pub safe_uuid_or_empty : Text → Checked Text
safe_uuid_or_empty = or_empty (of_pattern uuid_pattern)

abbrev pub safe_selinux_context : Text → Checked Text
safe_selinux_context = of_pattern selinux_context_pattern

unfoldable pub safe_multiline_str : Text → Checked Text
unfolding has
safe_multiline_str v = do
  demand (not (has 0 v)) null_byte
  demand (not (has b'\r' v)) carriage_return
  ok v

-- `_DOTDOT_COMPONENT_RE.search`: two dots behind the start or a slash, and before a slash, the end, or
-- a newline at the end. The flag says that the place may begin a component.
unfoldable pub dots_here : Text → Bool
unfolding starts_with text_eq
dots_here s = starts_with (codes "../") s || text_eq s (codes "..") || text_eq s (codes "..\n")

unfoldable pub dotdot_from : Bool → Text → Bool
unfolding dots_here
dotdot_from start [] = false
dotdot_from start (c ∷ s) = start && dots_here (c ∷ s) || dotdot_from (c == b'/') s

unfoldable pub has_dotdot : Text → Bool
unfolding dotdot_from
has_dotdot v = dotdot_from true v

unfoldable pub safe_abs_path : Text → Checked Text
unfolding has_control_chars match_end abs_path_pattern has_dotdot
safe_abs_path v = do
  check_control_chars v
  check_match abs_path_pattern v
  demand (not (has_dotdot v)) traversal
  ok v

abbrev pub safe_abs_path_or_empty : Text → Checked Text
safe_abs_path_or_empty = or_empty safe_abs_path

-- `^A|B$` with no group: the first alternative has no end, and `re.match` starts at the beginning.
unfoldable pub user_group_ref_match : Text → Bool
unfolding match_prefix match_end user_group_name_pattern user_group_id_pattern
user_group_ref_match v = match_prefix user_group_name_pattern v || match_end user_group_id_pattern v

unfoldable pub safe_user_group_ref : Text → Checked Text
unfolding has_control_chars user_group_ref_match is_empty
safe_user_group_ref v = do
  check_control_chars v
  demand (is_empty v || user_group_ref_match v) bad_format
  ok v

abbrev pub safe_timezone : Text → Checked Text
safe_timezone = of_pattern_or_empty timezone_pattern

abbrev pub safe_host_ip_mapping : Text → Checked Text
safe_host_ip_mapping = of_pattern_or_empty host_ip_mapping_pattern

abbrev pub safe_env_var_name : Text → Checked Text
safe_env_var_name = of_pattern_or_empty env_var_name_pattern

abbrev pub safe_hostname : Text → Checked Text
safe_hostname = of_pattern_or_empty hostname_pattern

abbrev pub safe_identifier : Text → Checked Text
safe_identifier = of_pattern_or_empty identifier_pattern

abbrev pub safe_digest : Text → Checked Text
safe_digest = of_pattern_or_empty digest_pattern
