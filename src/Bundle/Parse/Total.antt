-- ===== src/Bundle/Parse/Total.antt =====
-- `parse_quadlets_bundle` raises nothing on what `SafeMultilineStr` lets through.
use quadletman.Prelude.{
  true, false, not, List, [], ◌∷◌, Option, none, some, all, has, ◌≡◌, refl, arith, inl, inr,
  Bool-cases, Option-cases, Text, codes, is_empty, strip, text_eq, split_lines,
}
use quadletman.Prelude.Dict.{Dict, lookup}
use quadletman.Sanitized.Check.{ok, has_control_chars}
use quadletman.Bundle.Sections.{
  Fields, type_map, type_of, detect_type, split_sections, parse_ini_multi,
}
use quadletman.Bundle.Parse.{
  BundleParseResult, empty_result, parse_section, parse_sections, parse_quadlets_bundle,
}
use quadletman.Bundle.Parse.Clean.{clean, clean-safe_str}
use quadletman.Bundle.Parse.CleanFields.{
  clean_fields, split_sections-clean, parse_ini_multi-clean, extract_filename-clean,
}
use quadletman.Bundle.Parse.CleanUnits.{Returns}
use quadletman.Bundle.Parse.Builders.{
  build_container-Returns, build_pod-Returns, build_volume_unit-Returns, build_image_unit-Returns,
}

-- The type of a section is a word of the table, or empty.
lookup_type-clean :
    (key : Text) (types : Dict Text)
    → all (λ e. clean e.1) types ≡ true
    → (o : Option Text) → lookup key types ≡ o
    → elim o [ none ↦ true | some t ↦ clean t ] ≡ true
unfolding lookup all
lookup_type-clean key [] h none e = refl
lookup_type-clean key [] h (some t) e = absurd (ground arith)
lookup_type-clean key ((j, u) ∷ types) h none e = refl
lookup_type-clean key ((j, u) ∷ types) h (some t) e = elim (Bool-cases (text_eq j key)) [
  | inl same ↦ let q : u ≡ t = ground arith in rw (← q) (ground arith)
  | inr other ↦ lookup_type-clean key types (ground arith) (some t) (ground arith)
]

type_of-clean : (lines : List Text) → clean (type_of lines) ≡ true
unfolding type_of all has_control_chars
type_of-clean [] = refl
type_of-clean (line ∷ lines) = elim (Option-cases (lookup (strip line) type_map)) [
  | inl e ↦ rw (type_of, e) (type_of-clean lines)
  | inr (t, e) ↦ rw (type_of, e) (lookup_type-clean (strip line) type_map refl (some t) e)
]

detect_type-clean : (section : Text) → clean (detect_type section) ≡ true
unfolding detect_type
detect_type-clean section = type_of-clean (split_lines section)

parse_section-Returns :
    (section_type filename : Text) (fields : Fields) (result : BundleParseResult)
    → clean section_type ≡ true
    → clean filename ≡ true
    → clean_fields fields ≡ true
    → Returns (parse_section section_type filename fields result)
unfolding parse_section
parse_section-Returns section_type filename fields result t h k =
    let c = build_container-Returns filename fields result.warnings h k in
    let p = build_pod-Returns filename fields h k in
    let v = build_volume_unit-Returns filename fields h k in
    let i = build_image_unit-Returns filename fields result.warnings h k in
    elim (Bool-cases (text_eq section_type (codes "container"))) [
      | inl a ↦ rw (parse_section, a, c.1) (_, refl)
      | inr a ↦ elim (Bool-cases (text_eq section_type (codes "pod"))) [
        | inl b ↦ rw (parse_section, a, b, p.1) (_, refl)
        | inr b ↦ elim (Bool-cases (text_eq section_type (codes "volume"))) [
          | inl d ↦ rw (parse_section, a, b, d, v.1) (_, refl)
          | inr d ↦ elim (Bool-cases (text_eq section_type (codes "image"))) [
            | inl e ↦ rw (parse_section, a, b, d, e, i.1) (_, refl)
            | inr e ↦ elim (Bool-cases (is_empty section_type)) [
              | inl f ↦ rw (parse_section, a, b, d, e, f) (_, refl)
              | inr f ↦ rw (parse_section, a, b, d, e, f, clean-safe_str section_type t) (_, refl)
            ]
          ]
        ]
      ]
    ]

parse_sections-Returns :
    (result : BundleParseResult) (sections : List Text)
    → all (λ s. not (has 0 s)) sections ≡ true
    → Returns (parse_sections result sections)
unfolding parse_sections all
parse_sections-Returns result [] h = (_, refl)
parse_sections-Returns result (section ∷ sections) h =
    let later : all (λ s. not (has 0 s)) sections ≡ true = ground arith in
    let free : has 0 section ≡ false = ground arith in
    elim (Bool-cases (is_empty (strip section))) [
      | inl blank ↦ rw (parse_sections, blank) (parse_sections-Returns result sections later)
      | inr full ↦
          let (filename, e, c) = extract_filename-clean section free in
          let (result', q) =
            parse_section-Returns (detect_type section) filename (parse_ini_multi section) result
              (detect_type-clean section) c (parse_ini_multi-clean section free) in
          rw (parse_sections, full, e, q) (parse_sections-Returns result' sections later)
    ]

-- `parse_quadlets_bundle` returns a result, and raises nothing, for every content without a null,
-- which is what `SafeMultilineStr` guarantees: each value that it hands to `SafeStr.of` is accepted.
pub parse_quadlets_bundle-Returns :
    (content : Text)
    → has 0 content ≡ false
    → (result : BundleParseResult) × (parse_quadlets_bundle content ≡ ok result)
unfolding parse_quadlets_bundle
parse_quadlets_bundle-Returns content h =
    parse_sections-Returns empty_result (split_sections content) (split_sections-clean content h)
