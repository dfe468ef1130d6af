-- ===== src/Podman/Features/Flags.antt =====
-- How the flags of `PodmanFeatures` relate, and what `get_features` caches.
use quadletman.Prelude.{ℕ, Bool, true, not, ◌&&◌, ◌||◌, ◌≡◌, refl, arith, Option, none, some}
use quadletman.Podman.Span.{PodmanVersion, version, version_lt, is_field_available, not_removed}
use quadletman.Podman.Features.{features_of}

-- `a` implies `b`
abbrev pub implies : Bool → Bool → Bool
implies a b = not a || b

later :
    (a b c d : ℕ) (v : PodmanVersion)
    → version_lt (version a b 0) (version c d 0) ≡ true
    → implies
        (not (version_lt v (version c d 0)) && true)
        (not (version_lt v (version a b 0)) && true)
      ≡ true
unfolding version_lt
later a b c d v h = ground arith

-- Whatever version was detected, each newer feature comes with the older ones: `.quadlets` bundles
-- with artifact units, these with the quadlet command, and so on down to the pasta network driver.
pub features_of-nested :
    (v : Option PodmanVersion)
    → let f = features_of v in
      (implies f.bundle f.artifact_units ≡ true)
      × (implies f.artifact_units f.quadlet_cli ≡ true)
      × (implies f.quadlet_cli f.build_units ≡ true)
      × (implies f.build_units f.pod_units ≡ true)
      × (implies f.pod_units f.image_units ≡ true)
      × (implies f.image_units f.auto_update_dry_run ≡ true)
      × (implies f.auto_update_dry_run f.quadlet ≡ true)
      × (implies f.quadlet f.pasta ≡ true)
unfolding features_of is_field_available not_removed version_lt
features_of-nested none = (refl, refl, refl, refl, refl, refl, refl, refl)
features_of-nested (some v) = (
  later 5 7 5 8 v refl,
  later 5 6 5 7 v refl,
  later 5 2 5 6 v refl,
  later 5 0 5 2 v refl,
  later 4 8 5 0 v refl,
  later 4 7 4 8 v refl,
  later 4 4 4 7 v refl,
  later 4 1 4 4 v refl,
)
