-- ===== src/Bundle/Tests.antt =====
-- Runs of the bundle parser.
use quadletman.Bundle.Sections.RoundTrip.{split_sections-bundle_text}
use quadletman.Prelude.{
  has, any, is_line_break, strip, is_empty, text_eq, any, all, [], ◌∷◌, ◌≡◌, refl, Text, codes,
}
use quadletman.Sanitized.Check.{ok}
use quadletman.Bundle.Sections.{split_sections, bundle_text}
use quadletman.Bundle.Parse.Total.{parse_quadlets_bundle-Returns}
use quadletman.Bundle.Parse.{BundleParseResult, empty_result, parse_quadlets_bundle}

abbrev pod_bundle : Text
pod_bundle =
    codes
      "# FileName=web\n[Pod]\nPublishPort=80:80\nPublishPort=443:443\nNetwork=front.network:alias=x\n---\n# FileName=n\n[Network]\n"

parse_pod_bundle :
    parse_quadlets_bundle pod_bundle
    ≡ ok (record empty_result {
      pods =
          (record {
            qm_name = codes "web";
            network = codes "front";
            publish_ports = codes "80:80" ∷ codes "443:443" ∷ [];
          })
          ∷ [];
      skipped_section_types = codes "network" ∷ [];
    })
unfolding parse_quadlets_bundle
parse_pod_bundle = refl

split_sections-bundle_text_example :
    split_sections
      (bundle_text (codes "# FileName=a\n[Pod]" ∷ codes "# FileName=b\n\n[Image]" ∷ []))
    ≡ codes "# FileName=a\n[Pod]" ∷ codes "# FileName=b\n\n[Image]" ∷ []
unfolding is_line_break strip is_empty text_eq any all
split_sections-bundle_text_example =
    split_sections-bundle_text (codes "# FileName=a" ∷ codes "[Pod]" ∷ [])
      ((codes "# FileName=b" ∷ codes "" ∷ codes "[Image]" ∷ []) ∷ []) refl refl

parse_quadlets_bundle-Returns_example :
    (result : BundleParseResult) × (parse_quadlets_bundle pod_bundle ≡ ok result)
unfolding has any
parse_quadlets_bundle-Returns_example = parse_quadlets_bundle-Returns pod_bundle refl
