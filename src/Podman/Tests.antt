-- ===== src/Podman/Tests.antt =====
-- Runs of the version checks, and the theorems at concrete versions.
use quadletman.Prelude.{
  true, false, none, some, List, [], ◌∷◌, ◌++◌, ◌≡◌, ◌↔◌, refl, arith, is_digit, if◌then◌else◌,
  Text, codes, text_eq,
}
use quadletman.Podman.Span.{
  PodmanVersion, version, VersionSpan, slirp4netns_span, quadlet_span, is_field_available,
  is_field_deprecated, is_value_available,
}
use quadletman.Podman.Tooltips.{fmt_version, field_tooltip, value_tooltip}
use quadletman.Podman.Tooltips.Silence.{field_tooltip-empty_iff, value_tooltip-empty_iff}
use quadletman.Podman.Features.{parse_version}
use quadletman.Podman.Features.RoundTrip.{parse_version-fmt_version}
use quadletman.Podman.Info.{
  string, Jsons, end, item, last, Caches, raised, returned, object, run_info, get_podman_info,
  with_builtin,
}
use quadletman.Podman.Info.Cooldown.{get_podman_info-cooldown}
use quadletman.Podman.Info.Drivers.{ascending, count, entries, with_builtin_lem}

abbrev v5 : PodmanVersion
v5 = version 5 4 2

parse_upper : parse_version (codes "Podman Version  5.4.2-dev") ≡ some (some v5)
unfolding parse_version
parse_upper = refl

old_network :
    field_tooltip slirp4netns_span (some (version 6 0 1))
    ≡ codes
        "Removed in Podman 6.0.0 (detected: 6.0.1) — Use pasta networking instead (available since Podman 4.1)."
unfolding field_tooltip
old_network = refl

-- a span with a value that needs a newer version than the field
abbrev driver_span : VersionSpan
driver_span = record quadlet_span { value_constraints = some ((codes "image", version 5 0 0) ∷ []) }

value_tooltip-empty_iff_example :
    (value_tooltip driver_span (codes "image") (some (version 4 9 0)) ≡ [])
    ↔ (is_value_available driver_span (codes "image") (some (version 4 9 0)) ≡ true)
unfolding is_field_available
value_tooltip-empty_iff_example =
    value_tooltip-empty_iff driver_span (codes "image") (version 4 9 0) refl

field_tooltip-empty_iff_example : (field_tooltip slirp4netns_span (some v5) ≡ []) ↔ (
    (is_field_available slirp4netns_span (some v5) ≡ true)
    × (is_field_deprecated slirp4netns_span (some v5) ≡ false))
field_tooltip-empty_iff_example = field_tooltip-empty_iff slirp4netns_span (some v5)

parse_version-fmt_version_example :
    parse_version (codes "podman version " ++ (fmt_version v5 ++ codes "\n")) ≡ some (some v5)
unfolding is_digit
parse_version-fmt_version_example =
    parse_version-fmt_version v5 (codes "\n") (omega arith) (omega arith) (omega arith) refl

-- the caches as `clear_caches` leaves them
abbrev cold : Caches
cold = record {
  features = none;
  info = none;
  last_attempt = 0;
  network_drivers = none;
  log_drivers = none;
  volume_drivers = none;
}

get_podman_info-cooldown_example :
    let (info, st') = get_podman_info 30 100 raised cold in
    (info ≡ last) × (get_podman_info 30 120 (returned true (some (object last))) st' ≡ (last, st'))
unfolding run_info
get_podman_info-cooldown_example =
    get_podman_info-cooldown 30 100 120 raised (returned true (some (object last))) cold refl
      (omega arith) refl (omega arith)

abbrev reported : Jsons
reported =
    item (string (codes "macvlan"))
      (item (string (codes "bridge")) (item (string (codes "ipvlan")) end))

with_builtin_lem_example :
    (rest : List Text) × (codes "bridge" ∷ codes "ipvlan" ∷ codes "macvlan" ∷ []
      ≡ codes "bridge" ∷ rest)
    × (ascending rest ≡ true)
    × ((s : Text) → count s rest ≡ (if text_eq (codes "bridge") s then 0 else entries s reported))
unfolding with_builtin
with_builtin_lem_example =
    with_builtin_lem (codes "bridge") reported
      (codes "bridge" ∷ codes "ipvlan" ∷ codes "macvlan" ∷ []) refl
