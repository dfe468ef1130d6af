-- ===== src/Podman/Span.antt =====
-- models/version_span.py: `VersionSpan`, the constants and the availability checks.
use quadletman.Prelude.{
  ℕ, Bool, true, false, not, ◌&&◌, ◌||◌, [], ◌∷◌, Option, none, some, ltb, ◌==◌, Text, codes,
}
use quadletman.Prelude.Dict.{Dict, lookup}

-- `PodmanVersion`: (major, minor, patch)
pub record PodmanVersion : Type 0 where
  pub major : ℕ
  pub minor : ℕ
  pub patch : ℕ

abbrev pub version : ℕ → ℕ → ℕ → PodmanVersion
version a b c = record { major = a; minor = b; patch = c }

-- `<` of Python's tuples
unfoldable pub version_lt : PodmanVersion → PodmanVersion → Bool
version_lt v w =
    ltb v.major w.major
    || (v.major == w.major && (ltb v.minor w.minor || (v.minor == w.minor && ltb v.patch w.patch)))

pub record VersionSpan : Type 0 where
  pub introduced : PodmanVersion
  pub quadlet_key : Text
  pub deprecated : Option PodmanVersion
  pub removed : Option PodmanVersion
  pub deprecation_message : Option Text
  pub replacement : Option Text
  pub value_constraints : Option (Dict PodmanVersion)

-- `VersionSpan(introduced=(a, b, c))`
abbrev pub since : ℕ → ℕ → ℕ → VersionSpan
since a b c = record {
  introduced = version a b c;
  quadlet_key = [];
  deprecated = none;
  removed = none;
  deprecation_message = none;
  replacement = none;
  value_constraints = none;
}

abbrev pub slirp4netns_span : VersionSpan
slirp4netns_span = record {
  introduced = version 1 0 0;
  quadlet_key = [];
  deprecated = some (version 5 7 0);
  removed = some (version 6 0 0);
  deprecation_message = some (codes "Use pasta networking instead (available since Podman 4.1).");
  replacement = none;
  value_constraints = none;
}

abbrev pub pasta_span : VersionSpan
pasta_span = since 4 1 0

abbrev pub quadlet_span : VersionSpan
quadlet_span = since 4 4 0

abbrev pub kube_units_span : VersionSpan
kube_units_span = since 4 4 0

abbrev pub image_units_span : VersionSpan
image_units_span = since 4 8 0

abbrev pub pod_units_span : VersionSpan
pod_units_span = since 5 0 0

abbrev pub build_units_span : VersionSpan
build_units_span = since 5 2 0

abbrev pub quadlet_cli_span : VersionSpan
quadlet_cli_span = since 5 6 0

abbrev pub artifact_units_span : VersionSpan
artifact_units_span = since 5 7 0

abbrev pub bundle_span : VersionSpan
bundle_span = since 5 8 0

abbrev pub auto_update_dry_run_span : VersionSpan
auto_update_dry_run_span = since 4 7 0

-- `removed is None or version < removed`
unfoldable pub not_removed : Option PodmanVersion → PodmanVersion → Bool
unfolding version_lt
not_removed none v = true
not_removed (some r) v = version_lt v r

unfoldable pub is_field_available : VersionSpan → Option PodmanVersion → Bool
unfolding version_lt not_removed
is_field_available span none = false
is_field_available span (some v) = not (version_lt v span.introduced) && not_removed span.removed v

unfoldable pub deprecated_on : Option PodmanVersion → PodmanVersion → Bool
unfolding version_lt
deprecated_on none v = false
deprecated_on (some d) v = not (version_lt v d)

unfoldable pub is_field_deprecated : VersionSpan → Option PodmanVersion → Bool
unfolding deprecated_on not_removed
is_field_deprecated span none = false
is_field_deprecated span (some v) = deprecated_on span.deprecated v && not_removed span.removed v

-- `span.value_constraints[value]`, if there is one
unfoldable pub constraint_of : VersionSpan → Text → Option PodmanVersion
unfolding lookup
constraint_of span value = elim span.value_constraints [
  | none ↦ none
  | some constraints ↦ lookup value constraints
]

unfoldable pub constraint_met : Option PodmanVersion → Option PodmanVersion → Bool
unfolding version_lt
constraint_met none v = true
constraint_met (some least) none = false
constraint_met (some least) (some v) = not (version_lt v least)

unfoldable pub is_value_available : VersionSpan → Text → Option PodmanVersion → Bool
unfolding is_field_available constraint_of constraint_met
is_value_available span value v =
    is_field_available span v && constraint_met (constraint_of span value) v

-- `field_availability` of the spans that `get_version_spans` finds on a model
unfoldable pub field_availability : Dict VersionSpan → Option PodmanVersion → Dict Bool
unfolding is_field_available
field_availability [] v = []
field_availability ((name, span) ∷ spans) v =
    (name, is_field_available span v) ∷ field_availability spans v

values_on : VersionSpan → Option PodmanVersion → Dict PodmanVersion → Dict Bool
unfolding is_value_available
values_on span v [] = []
values_on span v ((value, least) ∷ rest) =
    (value, is_value_available span value v) ∷ values_on span v rest

unfoldable pub value_availability : Dict VersionSpan → Option PodmanVersion → Dict (Dict Bool)
unfolding values_on
value_availability [] v = []
value_availability ((name, span) ∷ spans) v =
    let rest = value_availability spans v in
    elim span.value_constraints [
      | none ↦ rest
      | some [] ↦ rest
      | some (c ∷ cs) ↦ (name, values_on span v (c ∷ cs)) ∷ rest
    ]
