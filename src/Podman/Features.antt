-- ===== src/Podman/Features.antt =====
-- podman.py: the version that `podman --version` reports, and the feature flags behind it.
pub mod Flags
pub mod RoundTrip
use quadletman.Prelude.{
  ℕ, zero, suc, ◌+◌, Bool, true, false, not, ◌&&◌, ◌||◌, List, [], ◌∷◌, ◌++◌, Option, none, some,
  if◌then◌else◌, ◌==◌, within, Text, codes, is_empty, is_space, is_digit, strip, lstrip,
  starts_with, read_digits,
}
use mathlib.Core.Option
use quadletman.Prelude.Options.{◌>>=◌}
use quadletman.Podman.Span.{
  PodmanVersion, VersionSpan, version, is_field_available, slirp4netns_span, pasta_span,
  quadlet_span, image_units_span, pod_units_span, build_units_span, quadlet_cli_span,
  artifact_units_span, bundle_span, auto_update_dry_run_span,
}
use quadletman.Podman.Tooltips.{fmt_version}

-- What `re.IGNORECASE` takes as the lowercase letter: besides A to Z, the long s and two letters i.
unfoldable pub fold : ℕ → ℕ
fold c =
    if within b'A' b'Z' c
    then c + 32
    else if c == 383
    then b's'
    else if within 304 305 c
    then b'i'
    else c

unfoldable pub fold_all : Text → Text
unfolding fold
fold_all [] = []
fold_all (c ∷ s) = fold c ∷ fold_all s

-- `\d+`, greedy: the digits, and what stands behind them
unfoldable pub digits : Text → Text
unfolding is_digit
digits [] = []
digits (c ∷ s) = if is_digit c then c ∷ digits s else []

unfoldable pub behind_digits : Text → Text
unfolding is_digit
behind_digits [] = []
behind_digits (c ∷ s) = if is_digit c then behind_digits s else c ∷ s

-- `\d+`: the group and the rest
unfoldable pub number : Text → Option (Text × Text)
unfolding digits behind_digits is_empty
number s = if is_empty (digits s) then none else some (digits s, behind_digits s)

-- `\.(\d+)`
unfoldable pub dot_number : Text → Option (Text × Text)
unfolding number
dot_number [] = none
dot_number (c ∷ s) = if c == b'.' then number s else none

-- The three groups of `(\d+)\.(\d+)\.(\d+)`.
unfoldable pub numbers_at : Text → Option (Text × Text × Text)
unfolding number dot_number
numbers_at s = do
  (major, t) ← number s
  (minor, u) ← dot_number t
  (patch, _) ← dot_number u
  some (major, minor, patch)

unfoldable pub behind : ℕ → Text → Text
behind zero s = s
behind (suc n) [] = []
behind (suc n) (c ∷ s) = behind n s

-- The pattern at one place: the words, some white space, the numbers.
unfoldable pub match_at : Text → Option (Text × Text × Text)
unfolding fold_all behind starts_with is_space lstrip numbers_at
match_at s =
    if starts_with (codes "podman version") (fold_all s) then spaced (behind 14 s) else none
  where
    spaced : Text → Option (Text × Text × Text)
    spaced [] = none
    spaced (c ∷ t) = if is_space c then numbers_at (lstrip t) else none

-- `_VERSION_RE.search`
unfoldable pub search_version : Text → Option (Text × Text × Text)
unfolding match_at
search_version [] = none
search_version (c ∷ s) =
    let rest = search_version s in
    elim (match_at (c ∷ s)) [ none ↦ rest | some groups ↦ some groups ]

-- `int` of the three groups: `none` is the `ValueError` of a group of more than 4300 digits
unfoldable pub read_version : Text × Text × Text → Option PodmanVersion
unfolding read_digits
read_version (a, b, c) = do
  major ← read_digits a
  minor ← read_digits b
  patch ← read_digits c
  some (version major minor patch)

-- `_parse_version`: the outer `none` is an exception, the inner one the returned `None`
unfoldable pub parse_version : Text → Option (Option PodmanVersion)
unfolding search_version read_version
parse_version output = elim (search_version output) [
  | none ↦ some none
  | some groups ↦ Option.map some (read_version groups)
]

pub record PodmanFeatures : Type 0 where
  pub version : Option PodmanVersion
  pub version_str : Text
  pub slirp4netns : Bool
  pub pasta : Bool
  pub quadlet : Bool
  pub image_units : Bool
  pub pod_units : Bool
  pub build_units : Bool
  pub quadlet_cli : Bool
  pub artifact_units : Bool
  pub bundle : Bool
  pub auto_update_dry_run : Bool

unfoldable pub version_text : Option PodmanVersion → Text
unfolding fmt_version
version_text none = codes "unknown"
version_text (some v) = fmt_version v

unfoldable pub features_of : Option PodmanVersion → PodmanFeatures
unfolding is_field_available version_text
features_of v = record {
  version = v;
  version_str = version_text v;
  slirp4netns = is_field_available slirp4netns_span v;
  pasta = is_field_available pasta_span v;
  quadlet = is_field_available quadlet_span v;
  image_units = is_field_available image_units_span v;
  pod_units = is_field_available pod_units_span v;
  build_units = is_field_available build_units_span v;
  quadlet_cli = is_field_available quadlet_cli_span v;
  artifact_units = is_field_available artifact_units_span v;
  bundle = is_field_available bundle_span v;
  auto_update_dry_run = is_field_available auto_update_dry_run_span v;
}

-- `podman --version` and what it printed; `none` when the call raised. Here an exception of the parser
-- is caught.
detected_version : Option Text → Option PodmanVersion
unfolding parse_version
detected_version none = none
detected_version (some output) = elim (parse_version output) [ none ↦ none | some v ↦ v ]

-- The override of the settings; the outer `none` is an exception that nothing catches.
overriding_version : Text → Option (Option PodmanVersion)
unfolding strip is_empty parse_version
overriding_version setting =
    if is_empty (strip setting)
    then some none
    else parse_version (codes "podman version " ++ strip setting)

unfoldable pub detect_features : Text → Option Text → Option PodmanFeatures
unfolding overriding_version detected_version features_of
detect_features setting output = elim (overriding_version setting) [
  | none ↦ none
  | some none ↦ some (features_of (detected_version output))
  | some (some v) ↦ some (features_of (some v))
]

-- `get_features`: the flags, and the cache behind the call
unfoldable pub get_features :
    Text → Option Text → Option PodmanFeatures → Option PodmanFeatures × Option PodmanFeatures
unfolding detect_features
get_features setting output (some cached) = (some cached, some cached)
get_features setting output none = let found = detect_features setting output in (found, found)

-- `check_version`
unfoldable pub check_version : Option Text → Option Text
unfolding detected_version fmt_version
check_version output = Option.map fmt_version (detected_version output)

unfoldable pub get_cached_version_str : Option PodmanFeatures → Text
get_cached_version_str none = []
get_cached_version_str (some cached) = cached.version_str
