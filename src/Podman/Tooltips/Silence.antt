-- ===== src/Podman/Tooltips/Silence.antt =====
-- When a tooltip of models/version_span.py is empty.
use quadletman.Prelude.{
  true, false, ◌&&◌, [], ◌∷◌, ◌≡◌, ◌≢◌, ◌↔◌, ◌⊎◌, refl, arith, inl, inr, Bool-cases, Option, none,
  some, Text, is_empty,
}
use quadletman.Podman.Span.{
  PodmanVersion, VersionSpan, version_lt, not_removed, is_field_available, is_field_deprecated,
  deprecated_on, is_value_available, constraint_of, constraint_met,
}
use quadletman.Podman.Tooltips.{
  with_message, removed_by, removed_tooltip, deprecated_tooltip, introduced_tooltip, field_tooltip,
  required_tooltip, value_tooltip,
}

cons-not_empty : (c : _) (s : Text) → (c ∷ s) ≢ []
cons-not_empty c s h = ground arith

with_message-not_empty : (n : Option Text) (t : Text) → t ≢ [] → with_message n t ≢ []
unfolding with_message is_empty
with_message-not_empty none t h = h
with_message-not_empty (some []) t h = h
with_message-not_empty (some (c ∷ s)) [] h = absurd (h refl)
with_message-not_empty (some (c ∷ s)) (d ∷ t) h = λ e. ground arith

removed_by-cases :
    (r : Option PodmanVersion) (v : PodmanVersion)
    → ((q : PodmanVersion) × (removed_by r (some v) ≡ some q) × (not_removed r v ≡ false))
      ⊎ ((removed_by r (some v) ≡ none) × (not_removed r v ≡ true))
unfolding removed_by not_removed
removed_by-cases none v = inr (refl, refl)
removed_by-cases (some r) v = elim (Bool-cases (version_lt v r)) [
  | inl before ↦ inr (ground arith, before)
  | inr behind ↦ inl (r, ground arith, behind)
]

removed_by-none : (r : Option PodmanVersion) → removed_by r none ≡ none
unfolding removed_by
removed_by-none none = refl
removed_by-none (some r) = refl

removed_tooltip-not_empty :
    (span : VersionSpan) (v : Option PodmanVersion) (r : PodmanVersion)
    → removed_tooltip span v r ≢ []
unfolding removed_tooltip
removed_tooltip-not_empty span v r =
    with_message-not_empty span.deprecation_message _ (λ e. ground arith)

deprecated_tooltip-not_empty :
    (span : VersionSpan) (v : PodmanVersion) (d : Option PodmanVersion)
    → deprecated_on d v ≡ true
    → deprecated_tooltip span (some v) d ≢ []
unfolding deprecated_tooltip deprecated_on
deprecated_tooltip-not_empty span v none h = absurd (ground arith)
deprecated_tooltip-not_empty span v (some d) h =
    with_message-not_empty span.deprecation_message _ (λ e. ground arith)

introduced_tooltip-not_empty :
    (span : VersionSpan) (v : Option PodmanVersion) → introduced_tooltip span v ≢ []
unfolding introduced_tooltip
introduced_tooltip-not_empty span v e = ground arith

-- The tooltip of a field is empty exactly when the field is available on the detected version and not
-- deprecated there.
pub field_tooltip-empty_iff :
    (span : VersionSpan) (v : Option PodmanVersion)
    → (field_tooltip span v ≡ [])
      ↔ ((is_field_available span v ≡ true) × (is_field_deprecated span v ≡ false))
unfolding field_tooltip is_field_available is_field_deprecated
field_tooltip-empty_iff span none =
    rw (field_tooltip, removed_by-none span.removed)
      ((λ h. absurd (introduced_tooltip-not_empty span none h)), λ h. absurd (ground arith))
field_tooltip-empty_iff span (some v) = elim (removed_by-cases span.removed v) [
  | inl (r, e, gone) ↦
      rw (field_tooltip, e)
        ((λ h. absurd (removed_tooltip-not_empty span (some v) r h)), λ h. absurd (ground arith))
  | inr (e, there) ↦ elim (Bool-cases (deprecated_on span.deprecated v)) [
    | inl old ↦
        rw (field_tooltip, e, old, there)
          (
            (λ h. absurd (deprecated_tooltip-not_empty span v span.deprecated old h)),
            λ h. absurd (ground arith),
          )
    | inr current ↦ elim (Bool-cases (version_lt v span.introduced)) [
      | inl early ↦
          rw (field_tooltip, e, current, early)
            (
              (λ h. absurd (introduced_tooltip-not_empty span (some v) h)),
              λ h. absurd (ground arith),
            )
      | inr late ↦ rw (field_tooltip, e, current, late, there) ((λ h. (refl, refl)), λ h. refl)
    ]
  ]
]

required_tooltip-empty_iff :
    (v : PodmanVersion) (least : PodmanVersion)
    → (required_tooltip (some v) least ≡ []) ↔ (version_lt v least ≡ false)
unfolding required_tooltip
required_tooltip-empty_iff v least = elim (Bool-cases (version_lt v least)) [
  | inl early ↦ rw early ((λ h. absurd (ground arith)), λ h. absurd (ground arith))
  | inr late ↦ rw late ((λ h. refl), λ h. refl)
]

-- Where the field itself is available, the tooltip of a value is empty exactly when the value is.
pub value_tooltip-empty_iff :
    (span : VersionSpan) (value : Text) (v : PodmanVersion)
    → is_field_available span (some v) ≡ true
    → (value_tooltip span value (some v) ≡ []) ↔ (is_value_available span value (some v) ≡ true)
unfolding value_tooltip is_value_available
value_tooltip-empty_iff span value v h = go (constraint_of span value)
  where
    go :
        (c : Option PodmanVersion)
        → (elim c [ none ↦ [] | some least ↦ required_tooltip (some v) least ] ≡ [])
          ↔ ((is_field_available span (some v) && constraint_met c (some v)) ≡ true)
    go none = ((λ k. ground arith), λ k. refl)
    go (some least) =
        let m = required_tooltip-empty_iff v least in
        ((λ k. let l = m.0 k in ground arith), λ k. m.1 (ground arith))
