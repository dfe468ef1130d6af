-- ===== src/Sanitized/Tests.antt =====
-- Runs of the branded strings, and the theorems at concrete texts.
use quadletman.Prelude.{
  true, false, ◌++◌, ◌≡◌, ◌↔◌, refl, arith, Text, codes, starts_with, has, any,
}
use quadletman.Regex.{full_match}
use quadletman.Sanitized.Patterns.{slug_pattern, time_duration_pattern}
use quadletman.Sanitized.Check.{
  of_pattern, of_pattern_or_empty, ok, refused, bad_format, open_redirect, traversal,
  has_control_chars,
}
use quadletman.Sanitized.Brand.{slug, of}
use quadletman.Sanitized.Names.{safe_slug, safe_abs_path, safe_user_group_ref}
use quadletman.Sanitized.Values.{safe_port_str, safe_time_duration}
use quadletman.Sanitized.SingleLine.{of_single_line}
use quadletman.Sanitized.Bounds.{IsSlug, safe_slug_iff}
use quadletman.Sanitized.Components.{components, is_dotdot, safe_abs_path-components}
use quadletman.Sanitized.Refs.{safe_user_group_ref-unanchored, IsPort, safe_port_str_iff}
use quadletman.Sanitized.Paths.{
  safe_redirect_path, url_cleaned, target_of, resolve_safe_path, log_safe,
}
use quadletman.Sanitized.Paths.Containment.{Inside, resolve_safe_path_iff, log_safe-single_line}
use quadletman.Sanitized.Paths.Redirect.{safe_redirect_path-local, safe_redirect_path-tab}

slug_ends : safe_slug (codes "web-") ≡ refused bad_format
unfolding of_pattern full_match slug_pattern
slug_ends = refl

-- The duration that a comment gives as an example has no unit of the pattern.
milliseconds : safe_time_duration (codes "200ms") ≡ refused bad_format
unfolding of_pattern_or_empty full_match time_duration_pattern
milliseconds = refl

redirect_out : safe_redirect_path (codes "//evil.example") ≡ refused open_redirect
unfolding safe_redirect_path
redirect_out = refl

of_single_line_example : (codes "web" ≡ codes "web") × (has_control_chars (codes "web") ≡ false)
unfolding of of_pattern full_match slug_pattern
of_single_line_example = of_single_line slug (codes "web") (codes "web") (λ e. ground arith) refl

safe_slug_iff_example : (safe_slug (codes "web-1") ≡ ok (codes "web-1")) ↔ IsSlug (codes "web-1")
safe_slug_iff_example = safe_slug_iff (codes "web-1")

safe_abs_path-components_example :
    (codes "/a..b/c" ≡ codes "/a..b/c")
    × (starts_with (codes "/") (codes "/a..b/c") ≡ true)
    × (any is_dotdot (components (codes "/a..b/c")) ≡ false)
unfolding safe_abs_path full_match
safe_abs_path-components_example = safe_abs_path-components (codes "/a..b/c") (codes "/a..b/c") refl

safe_port_str_iff_example :
    (safe_port_str (codes "8080") ≡ ok (codes "8080")) ↔ IsPort (codes "8080")
safe_port_str_iff_example = safe_port_str_iff (codes "8080")

safe_user_group_ref-unanchored_example :
    safe_user_group_ref (codes "root; rm -rf /") ≡ ok (codes "root; rm -rf /")
unfolding has_control_chars
safe_user_group_ref-unanchored_example =
    safe_user_group_ref-unanchored b'r' (codes "oot; rm -rf /") refl refl

safe_redirect_path-local_example :
    (starts_with (codes "/") (codes "/a/b") ≡ true)
    × (starts_with (codes "//") (codes "/a/b") ≡ false)
    × (has b'\\' (codes "/a/b") ≡ false)
    × (has_control_chars (codes "/a/b") ≡ false)
unfolding safe_redirect_path
safe_redirect_path-local_example = safe_redirect_path-local (codes "/a\\/b") (codes "/a/b") refl

safe_redirect_path-tab_example :
    (safe_redirect_path (codes "/\t//evil.example") ≡ ok (codes "/\t//evil.example"))
    × ((rest : Text) × (url_cleaned (codes "/\t//evil.example") ≡ codes "///" ++ rest))
unfolding has_control_chars has
safe_redirect_path-tab_example = safe_redirect_path-tab (codes "evil.example") refl refl

-- a file system without links
abbrev same_path : Text → Text
same_path p = p

resolve_safe_path_iff_example :
    (resolve_safe_path same_path (codes "/srv/a") (codes "b/c") false ≡ ok (codes "/srv/a/b/c")) ↔ (
      (codes "/srv/a/b/c" ≡ target_of same_path (codes "/srv/a") (codes "b/c") false)
      × Inside (codes "/srv/a") (codes "/srv/a/b/c"))
resolve_safe_path_iff_example =
    resolve_safe_path_iff same_path (codes "/srv/a") (codes "b/c") false (codes "/srv/a/b/c")

-- A sibling whose name begins like the base is refused.
resolve_sibling :
    resolve_safe_path same_path (codes "/srv/a") (codes "/srv/ab") true ≡ refused traversal
unfolding resolve_safe_path
resolve_sibling = refl

log_safe-single_line_example :
    (has b'\r' (log_safe (codes "a\nb")) ≡ false)
    × (has b'\n' (log_safe (codes "a\nb")) ≡ false)
    × (log_safe (log_safe (codes "a\nb")) ≡ log_safe (codes "a\nb"))
log_safe-single_line_example = log_safe-single_line (codes "a\nb")
