-- ===== src/Podman/Tooltips.antt =====
-- The tooltips of models/version_span.py.
pub mod Silence
use quadletman.Prelude.{
  Bool, true, false, not, List, [], ◌∷◌, ◌++◌, Option, none, some, if◌then◌else◌, Text, codes, show,
  is_empty,
}
use quadletman.Prelude.Dict.{Dict}
use quadletman.Podman.Span.{
  PodmanVersion, VersionSpan, version_lt, is_field_available, is_field_deprecated, constraint_of,
}

unfoldable pub fmt_version : PodmanVersion → Text
unfolding show
fmt_version v = show v.major ++ (codes "." ++ (show v.minor ++ (codes "." ++ show v.patch)))

-- `f" (detected: {…})" if version else ""`
unfoldable pub detected : Option PodmanVersion → Text
unfolding fmt_version
detected none = []
detected (some v) = codes " (detected: " ++ (fmt_version v ++ codes ")")

-- `if span.deprecation_message: msg += …`
unfoldable pub with_message : Option Text → Text → Text
unfolding is_empty
with_message none msg = msg
with_message (some note) msg = if is_empty note then msg else msg ++ (codes " — " ++ note)

-- The version that removed the feature, if it is at or below the detected one.
unfoldable pub removed_by : Option PodmanVersion → Option PodmanVersion → Option PodmanVersion
unfolding version_lt
removed_by (some r) (some v) = if version_lt v r then none else some r
removed_by _ _ = none

removed_tooltip : VersionSpan → Option PodmanVersion → PodmanVersion → Text
unfolding with_message fmt_version detected
removed_tooltip span v r =
    with_message span.deprecation_message
      (codes "Removed in Podman " ++ (fmt_version r ++ detected v))

deprecated_tooltip : VersionSpan → Option PodmanVersion → Option PodmanVersion → Text
unfolding with_message fmt_version detected
deprecated_tooltip span v none = []
deprecated_tooltip span v (some d) =
    with_message span.deprecation_message
      (codes "Deprecated in Podman " ++ (fmt_version d ++ detected v))

introduced_tooltip : VersionSpan → Option PodmanVersion → Text
unfolding fmt_version detected
introduced_tooltip span v =
    codes "Requires Podman " ++ (fmt_version span.introduced ++ (codes "+" ++ detected v))

unfoldable pub field_tooltip : VersionSpan → Option PodmanVersion → Text
unfolding removed_by removed_tooltip deprecated_tooltip introduced_tooltip is_field_available
    is_field_deprecated
field_tooltip span v = elim (removed_by span.removed v) [
  | some r ↦ removed_tooltip span v r
  | none ↦
      if is_field_deprecated span v
      then deprecated_tooltip span v span.deprecated
      else if not (is_field_available span v)
      then introduced_tooltip span v
      else []
]

unfoldable pub required_tooltip : Option PodmanVersion → PodmanVersion → Text
unfolding version_lt fmt_version detected
required_tooltip none least = codes "Requires Podman " ++ (fmt_version least ++ codes "+")
required_tooltip (some v) least =
    if version_lt v least
    then codes "Requires Podman " ++ (fmt_version least ++ (codes "+" ++ detected (some v)))
    else []

unfoldable pub value_tooltip : VersionSpan → Text → Option PodmanVersion → Text
unfolding constraint_of required_tooltip
value_tooltip span value v = elim (constraint_of span value) [
  | none ↦ []
  | some least ↦ required_tooltip v least
]

unfoldable pub field_tooltips : Dict VersionSpan → Option PodmanVersion → Dict Text
unfolding field_tooltip
field_tooltips [] v = []
field_tooltips ((name, span) ∷ spans) v = (name, field_tooltip span v) ∷ field_tooltips spans v
