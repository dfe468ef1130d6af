-- ===== src/Bundle/Parse.antt =====
-- services/bundle_parser.py: the builders and `parse_quadlets_bundle`.
pub mod Clean
pub mod CleanFields
pub mod CleanUnits
pub mod Builders
pub mod Total
use quadletman.Prelude.{
  ℕ, ◌+◌, Bool, true, false, not, ◌&&◌, ◌||◌, List, [], ◌∷◌, ◌++◌, Option, none, some,
  if◌then◌else◌, within, Text, codes, text_eq, is_empty, strip,
}
use quadletman.Sanitized.Check.{Checked, ok, refused, ◌>>=◌}
use quadletman.Sanitized.Names.{safe_str}
use quadletman.Bundle.Sections.{
  Fields, split_sections, extract_filename, detect_type, parse_ini_multi,
}
use quadletman.Bundle.Units.{
  ParsedContainer, ParsedPod, ParsedVolumeUnit, ParsedImageUnit, values, first_or, name_or,
  each_safe, network_of, no_image_warning, container_of,
}

pub record BundleParseResult : Type 0 where
  pub containers : List ParsedContainer
  pub pods : List ParsedPod
  pub volume_units : List ParsedVolumeUnit
  pub image_units : List ParsedImageUnit
  pub skipped_section_types : List Text
  pub warnings : List Text

abbrev pub empty_result : BundleParseResult
empty_result = record {
  containers = [];
  pods = [];
  volume_units = [];
  image_units = [];
  skipped_section_types = [];
  warnings = [];
}

abbrev pub no_name_warning : Text
no_name_warning = codes "Section with no FileName and no ContainerName, skipping"

-- `None` and one more warning
unfoldable pub warned : {A : Type 0} → Text → List Text → Checked (Option A × List Text)
unfolding safe_str
warned w warnings = do w' ← safe_str w; ok (none, warnings ++ w' ∷ [])

unfoldable pub named_container :
    Text → Text → Fields → List Text → Checked (Option ParsedContainer × List Text)
unfolding is_empty container_of
named_container name image fields warnings =
    if is_empty name
    then ok (none, warnings ++ no_name_warning ∷ [])
    else (do c ← container_of name image fields; ok (some c.0, warnings ++ c.1))

-- `_build_container`: the container, and the warnings
unfoldable pub build_container :
    Text → Fields → List Text → Checked (Option ParsedContainer × List Text)
unfolding values name_or named_container warned no_image_warning
build_container filename fields warnings = elim (values (codes "Container.Image") fields) [
  | [] ↦ warned (no_image_warning (codes "Section") filename) warnings
  | image ∷ images ↦
      named_container (name_or filename (values (codes "Container.ContainerName") fields)) image
        fields warnings
]

unfoldable pub named_pod : Text → Fields → Checked (Option ParsedPod)
unfolding is_empty each_safe safe_str network_of values
named_pod name fields = if is_empty name then ok none else (do
  publish_ports ← each_safe (values (codes "Pod.PublishPort") fields)
  qm_name ← safe_str name
  network ← safe_str (network_of [] (values (codes "Pod.Network") fields))
  ok (some (record { qm_name = qm_name; network = network; publish_ports = publish_ports })))

unfoldable pub build_pod : Text → Fields → Checked (Option ParsedPod)
unfolding named_pod name_or values
build_pod filename fields =
    named_pod (name_or filename (values (codes "Pod.PodName") fields)) fields

-- `str.lower`, as far as a comparison with an ASCII word needs it
ascii_lower : Text → Text
ascii_lower [] = []
ascii_lower (c ∷ s) = (if within b'A' b'Z' c then c + 32 else c) ∷ ascii_lower s

-- `(copy_vals[0].lower() != "false") if copy_vals else True`
unfoldable pub copy_of : List Text → Bool
unfolding ascii_lower text_eq
copy_of [] = true
copy_of (v ∷ vs) = not (text_eq (ascii_lower v) (codes "false"))

unfoldable pub named_volume : Text → Fields → Checked (Option ParsedVolumeUnit)
unfolding is_empty safe_str first_or values copy_of
named_volume name fields = if is_empty name then ok none else (do
  qm_name ← safe_str name
  driver ← safe_str (first_or [] (values (codes "Volume.Driver") fields))
  device ← safe_str (first_or [] (values (codes "Volume.Device") fields))
  options ← safe_str (first_or [] (values (codes "Volume.Options") fields))
  ok (
      some (record {
        qm_name = qm_name;
        driver = driver;
        device = device;
        options = options;
        copy = copy_of (values (codes "Volume.Copy") fields);
      })))

unfoldable pub build_volume_unit : Text → Fields → Checked (Option ParsedVolumeUnit)
unfolding named_volume name_or values
build_volume_unit filename fields =
    named_volume (name_or filename (values (codes "Volume.VolumeName") fields)) fields

unfoldable pub image_of :
    Text → Text → Fields → List Text → Checked (Option ParsedImageUnit × List Text)
unfolding safe_str first_or values
image_of name image fields warnings = do
  qm_name ← safe_str name
  image' ← safe_str image
  auth_file ← safe_str (first_or [] (values (codes "Image.AuthFile") fields))
  ok (some (record { qm_name = qm_name; image = image'; auth_file = auth_file }), warnings)

unfoldable pub build_image_unit :
    Text → Fields → List Text → Checked (Option ParsedImageUnit × List Text)
unfolding is_empty values image_of warned no_image_warning
build_image_unit filename fields warnings =
    if is_empty filename
    then ok (none, warnings ++ codes "Image section with no FileName, skipping" ∷ [])
    else elim (values (codes "Image.Image") fields) [
      | [] ↦ warned (no_image_warning (codes "Image section") filename) warnings
      | image ∷ images ↦ image_of filename image fields warnings
    ]

-- `if parsed: parts.append(parsed)`
unfoldable pub append_some {ℓ} : {A : Type ℓ} → List A → Option A → List A
append_some xs none = xs
append_some xs (some x) = xs ++ x ∷ []

-- One section: by its type.
unfoldable pub parse_section : Text → Text → Fields → BundleParseResult → Checked BundleParseResult
unfolding text_eq is_empty build_container build_pod build_volume_unit build_image_unit append_some
    safe_str
parse_section section_type filename fields result =
    if text_eq section_type (codes "container")
    then (do
      built ← build_container filename fields result.warnings
      ok (record result { containers = append_some result.containers built.0; warnings = built.1 }))
    else if text_eq section_type (codes "pod")
    then (do
      built ← build_pod filename fields
      ok (record result { pods = append_some result.pods built }))
    else if text_eq section_type (codes "volume")
    then (do
      built ← build_volume_unit filename fields
      ok (record result { volume_units = append_some result.volume_units built }))
    else if text_eq section_type (codes "image")
    then (do
      built ← build_image_unit filename fields result.warnings
      ok (record result {
        image_units = append_some result.image_units built.0;
        warnings = built.1;
      }))
    else if is_empty section_type
    then ok result
    else (do
      skipped ← safe_str section_type
      ok (record result { skipped_section_types = result.skipped_section_types ++ skipped ∷ [] }))

unfoldable pub parse_sections : BundleParseResult → List Text → Checked BundleParseResult
unfolding is_empty strip extract_filename detect_type parse_ini_multi parse_section
parse_sections result [] = ok result
parse_sections result (section ∷ sections) =
    let skipped = parse_sections result sections in
    if is_empty (strip section) then skipped else (do
      filename ← extract_filename section
      result' ← parse_section (detect_type section) filename (parse_ini_multi section) result
      parse_sections result' sections)

unfoldable pub parse_quadlets_bundle : Text → Checked BundleParseResult
unfolding parse_sections split_sections
parse_quadlets_bundle content = parse_sections empty_result (split_sections content)
