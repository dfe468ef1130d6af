-- ===== src/Bundle/Parse/Builders.antt =====
-- Each builder of services/bundle_parser.py returns on clean fields.
use quadletman.Prelude.{
  true, List, [], ◌∷◌, all, ◌≡◌, refl, arith, inl, inr, Bool-cases, Text, codes, is_empty,
}
use quadletman.Sanitized.Check.{ok, has_control_chars}
use quadletman.Sanitized.Names.{safe_str}
use quadletman.Bundle.Sections.{Fields}
use quadletman.Bundle.Units.{
  ParsedContainer, ParsedImageUnit, values, first_or, name_or, network_of, pod_of, no_image_warning,
  container_of,
}
use quadletman.Bundle.Parse.{
  warned, named_container, build_container, named_pod, build_pod, named_volume, build_volume_unit,
  image_of, build_image_unit,
}
use quadletman.Bundle.Parse.Clean.{clean, clean-safe_str}
use quadletman.Bundle.Parse.CleanFields.{clean_fields, values-clean}
use quadletman.Bundle.Parse.CleanUnits.{
  Returns, first_or-clean, name_or-clean, network_of-clean, pod_of-clean, after_names-clean,
  each_safe-clean, pairs-clean, volumes-clean, no_image_warning-clean,
}

-- The first value of a key.
first-safe :
    (key default : Text) (fields : Fields)
    → clean default ≡ true
    → clean_fields fields ≡ true
    → safe_str (first_or default (values key fields)) ≡ ok (first_or default (values key fields))
first-safe key default fields h k =
    clean-safe_str (first_or default (values key fields))
      (first_or-clean default (values key fields) h (values-clean key fields k))

empty_clean : clean [] ≡ true
unfolding has_control_chars
empty_clean = refl

container_of-Returns :
    (name image : Text) (fields : Fields)
    → clean name ≡ true
    → clean image ≡ true
    → clean_fields fields ≡ true
    → Returns (container_of name image fields)
unfolding container_of has_control_chars
container_of-Returns name image fields h i k =
    let of = λ (key : Text). values-clean key fields k in
    let (environment, e1) = pairs-clean [] (values (codes "Container.Environment") fields) (of _) in
    let (labels, e2) = pairs-clean [] (values (codes "Container.Label") fields) (of _) in
    let (skipped, e3) = volumes-clean name (values (codes "Container.Volume") fields) h (of _) in
    let network = network_of (codes "host") (values (codes "Container.Network") fields) in
    let pod = pod_of (values (codes "Container.Pod") fields) in
    rw
      (
        container_of,
        e1,
        each_safe-clean (values (codes "Container.PublishPort") fields) (of _),
        e2,
        e3,
        each_safe-clean _ (after_names-clean (values (codes "Unit.After") fields) (of _)),
        clean-safe_str name h,
        clean-safe_str image i,
        clean-safe_str network (network_of-clean (codes "host") _ refl (of _)),
        first-safe (codes "Service.Restart") (codes "always") fields refl k,
        first-safe (codes "Service.ExecStartPre") [] fields refl k,
        first-safe (codes "Service.ExecStartPost") [] fields refl k,
        first-safe (codes "Service.ExecStop") [] fields refl k,
        first-safe (codes "Service.MemoryLimit") [] fields refl k,
        first-safe (codes "Service.CPUQuota") [] fields refl k,
        first-safe (codes "Container.AppArmor") [] fields refl k,
        clean-safe_str pod (pod_of-clean _ (of _)),
        first-safe (codes "Container.LogDriver") [] fields refl k,
        first-safe (codes "Container.WorkingDir") [] fields refl k,
        first-safe (codes "Container.HostName") [] fields refl k,
      )
      (_, refl)

warned-Returns :
    {A : Type 0} (w : Text) (warnings : List Text)
    → clean w ≡ true
    → Returns (warned {A = A} w warnings)
unfolding warned
warned-Returns w warnings h = rw (warned, clean-safe_str w h) (_, refl)

named_container-Returns :
    (name image : Text) (fields : Fields) (warnings : List Text)
    → clean name ≡ true
    → clean image ≡ true
    → clean_fields fields ≡ true
    → Returns (named_container name image fields warnings)
unfolding named_container
named_container-Returns name image fields warnings h i k = elim (Bool-cases (is_empty name)) [
  | inl e ↦ rw (named_container, e) (_, refl)
  | inr f ↦
      let (c, q) = container_of-Returns name image fields h i k in
      rw (named_container, f, q) (_, refl)
]

pub build_container-Returns :
    (filename : Text) (fields : Fields) (warnings : List Text)
    → clean filename ≡ true
    → clean_fields fields ≡ true
    → Returns (build_container filename fields warnings)
unfolding build_container all has_control_chars
build_container-Returns filename fields warnings h k =
    go (values (codes "Container.Image") fields) (values-clean (codes "Container.Image") fields k)
  where
    name : Text
    name = name_or filename (values (codes "Container.ContainerName") fields)

    go :
        (vs : List Text)
        → all clean vs ≡ true
        → Returns (elim vs [
          | [] ↦ warned {A = ParsedContainer} (no_image_warning (codes "Section") filename) warnings
          | image ∷ images ↦ named_container name image fields warnings
        ])
    go [] i =
        warned-Returns (no_image_warning (codes "Section") filename) warnings
          (no_image_warning-clean (codes "Section") filename refl h)
    go (image ∷ images) i =
        named_container-Returns name image fields warnings
          (name_or-clean filename (values (codes "Container.ContainerName") fields) h
            (values-clean (codes "Container.ContainerName") fields k))
          (ground arith) k

pub build_pod-Returns :
    (filename : Text) (fields : Fields)
    → clean filename ≡ true
    → clean_fields fields ≡ true
    → Returns (build_pod filename fields)
unfolding build_pod named_pod
build_pod-Returns filename fields h k =
    let name = name_or filename (values (codes "Pod.PodName") fields) in
    let c = name_or-clean filename _ h (values-clean (codes "Pod.PodName") fields k) in
    elim (Bool-cases (is_empty name)) [
      | inl e ↦ rw (build_pod, named_pod, e) (_, refl)
      | inr f ↦
          rw
            (
              build_pod,
              named_pod,
              f,
              each_safe-clean _ (values-clean (codes "Pod.PublishPort") fields k),
              clean-safe_str name c,
              clean-safe_str _
                  (network_of-clean [] _ empty_clean (values-clean (codes "Pod.Network") fields k)),
            )
            (_, refl)
    ]

pub build_volume_unit-Returns :
    (filename : Text) (fields : Fields)
    → clean filename ≡ true
    → clean_fields fields ≡ true
    → Returns (build_volume_unit filename fields)
unfolding build_volume_unit named_volume
build_volume_unit-Returns filename fields h k =
    let name = name_or filename (values (codes "Volume.VolumeName") fields) in
    let c = name_or-clean filename _ h (values-clean (codes "Volume.VolumeName") fields k) in
    elim (Bool-cases (is_empty name)) [
      | inl e ↦ rw (build_volume_unit, named_volume, e) (_, refl)
      | inr f ↦
          rw
            (
              build_volume_unit,
              named_volume,
              f,
              clean-safe_str name c,
              first-safe (codes "Volume.Driver") [] fields empty_clean k,
              first-safe (codes "Volume.Device") [] fields empty_clean k,
              first-safe (codes "Volume.Options") [] fields empty_clean k,
            )
            (_, refl)
    ]

image_of-Returns :
    (name image : Text) (fields : Fields) (warnings : List Text)
    → clean name ≡ true
    → clean image ≡ true
    → clean_fields fields ≡ true
    → Returns (image_of name image fields warnings)
unfolding image_of
image_of-Returns name image fields warnings h i k =
    rw
      (
        image_of,
        clean-safe_str name h,
        clean-safe_str image i,
        first-safe (codes "Image.AuthFile") [] fields empty_clean k,
      )
      (_, refl)

pub build_image_unit-Returns :
    (filename : Text) (fields : Fields) (warnings : List Text)
    → clean filename ≡ true
    → clean_fields fields ≡ true
    → Returns (build_image_unit filename fields warnings)
unfolding build_image_unit all has_control_chars
build_image_unit-Returns filename fields warnings h k = elim (Bool-cases (is_empty filename)) [
  | inl e ↦ rw (build_image_unit, e) (_, refl)
  | inr f ↦
      rw (build_image_unit, f)
        (go (values (codes "Image.Image") fields) (values-clean (codes "Image.Image") fields k))
]
  where
    go :
        (vs : List Text)
        → all clean vs ≡ true
        → Returns (elim vs [
          | [] ↦
              warned {A = ParsedImageUnit}
                (no_image_warning (codes "Image section") filename)
                warnings
          | image ∷ images ↦ image_of filename image fields warnings
        ])
    go [] i =
        warned-Returns (no_image_warning (codes "Image section") filename) warnings
          (no_image_warning-clean (codes "Image section") filename refl h)
    go (image ∷ images) i = image_of-Returns filename image fields warnings h (ground arith) k
