-- ===== src/Sanitized/Paths.antt =====
-- The path and log helpers of models/sanitized.py: `SafeRedirectPath`, `resolve_safe_path`, `log_safe`.
-- `os.path.realpath` is total: a path holds no null byte.
pub mod Containment
pub mod Redirect
use quadletman.Prelude.{
  ℕ, Bool, true, false, not, ◌&&◌, ◌||◌, List, [], ◌∷◌, ◌++◌, if◌then◌else◌, ◌==◌, leb, within,
  Text, codes, text_eq, is_empty, starts_with, ends_with, has, before, all, one_of,
}
use quadletman.Sanitized.Check.{
  open_redirect, not_absolute, traversal, Checked, ok, refused, ◌>>=◌, ◌>>◌, demand,
  has_control_chars, check_control_chars,
}

-- `s.replace(c, "")`
unfoldable pub remove_char : ℕ → Text → Text
remove_char c [] = []
remove_char c (d ∷ s) = let rest = remove_char c s in if d == c then rest else d ∷ rest

-- What `urlparse` does first: it drops leading spaces and C0 controls, then every tab and line break.
lstrip_controls : Text → Text
lstrip_controls [] = []
lstrip_controls (c ∷ s) = if leb c 32 then lstrip_controls s else c ∷ s

unfoldable pub url_cleaned : Text → Text
unfolding lstrip_controls remove_char
url_cleaned s = remove_char b'\n' (remove_char b'\r' (remove_char b'\t' (lstrip_controls s)))

is_alpha : ℕ → Bool
is_alpha c = within b'a' b'z' c || within b'A' b'Z' c

is_scheme_char : ℕ → Bool
unfolding is_alpha
is_scheme_char c = is_alpha c || within b'0' b'9' c || c == b'+' || c == b'-' || c == b'.'

starts_alpha : Text → Bool
unfolding is_alpha
starts_alpha [] = false
starts_alpha (c ∷ s) = is_alpha c

-- `parsed.scheme` is not empty.
unfoldable pub has_scheme : Text → Bool
unfolding starts_alpha is_scheme_char has before all
has_scheme u = has b':' u && starts_alpha u && all is_scheme_char (before b':' u)

-- `parsed.netloc` is not empty, for a text without a scheme.
unfoldable pub has_netloc : Text → Bool
has_netloc (a ∷ b ∷ c ∷ s) = a == b'/' && b == b'/' && not (c == b'/' || c == b'?' || c == b'#')
has_netloc _ = false

unfoldable pub safe_redirect_path : Text → Checked Text
unfolding has_control_chars remove_char url_cleaned has_scheme has_netloc starts_with
safe_redirect_path v = do
  check_control_chars v
  let url_str = remove_char b'\\' v
  let parsed = url_cleaned url_str
  demand (not (has_scheme parsed || has_netloc parsed)) open_redirect
  demand (starts_with (codes "/") url_str && not (starts_with (codes "//") url_str)) not_absolute
  ok url_str

-- `os.path.join` of two components
unfoldable pub path_join : Text → Text → Text
unfolding starts_with ends_with is_empty
path_join a b =
    if starts_with (codes "/") b
    then b
    else if is_empty a || ends_with (codes "/") a
    then a ++ b
    else a ++ (codes "/" ++ b)

-- `path.lstrip("/")`
unfoldable pub lstrip_slash : Text → Text
lstrip_slash [] = []
lstrip_slash (c ∷ s) = if c == b'/' then lstrip_slash s else c ∷ s

-- `os.path.realpath` depends on the file system: it is a parameter.
module _ (realpath : Text → Text) where
  -- the path whose place is checked
  unfoldable pub target_of : Text → Text → Bool → Text
  unfolding path_join lstrip_slash one_of
  target_of base path absolute =
      if one_of path (codes "" ∷ codes "/" ∷ codes "." ∷ [])
      then realpath base
      else if absolute
      then realpath path
      else realpath (path_join (realpath base) (lstrip_slash path))

  unfoldable pub resolve_safe_path : Text → Text → Bool → Checked Text
  unfolding target_of text_eq starts_with one_of
  resolve_safe_path base path absolute =
      let real_base = realpath base in
      let target = target_of base path absolute in
      if one_of path (codes "" ∷ codes "/" ∷ codes "." ∷ [])
      then ok real_base
      else if not (text_eq target real_base) && not (starts_with (real_base ++ codes "/") target)
      then refused traversal
      else ok target

-- `str(v).replace("\r", "\\r").replace("\n", "\\n")`
unfoldable pub replace_char : ℕ → Text → Text → Text
replace_char c t [] = []
replace_char c t (d ∷ s) = let rest = replace_char c t s in if d == c then t ++ rest else d ∷ rest

unfoldable pub log_safe : Text → Text
unfolding replace_char
log_safe v = replace_char b'\n' (codes "\\n") (replace_char b'\r' (codes "\\r") v)
