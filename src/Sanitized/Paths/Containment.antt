-- ===== src/Sanitized/Paths/Containment.antt =====
-- `resolve_safe_path` stays in its base, and `log_safe` on its line.
use quadletman.Prelude.{
  ℕ, Bool, true, false, not, ◌&&◌, ◌||◌, [], ◌∷◌, ◌++◌, ◌≡◌, ◌≢◌, ◌↔◌, ◌⊎◌, inl, inr, refl, subst,
  arith, if◌then◌else◌, Text, codes, text_eq, text_eq_iff, starts_with, has, any, Bool-cases,
  one_of, ◌==◌,
}
use quadletman.Sanitized.Check.{Checked, ok, refused, traversal}
use quadletman.Sanitized.Paths.{target_of, resolve_safe_path, replace_char, log_safe}

has-append : (c : ℕ) (s t : Text) → has c (s ++ t) ≡ (has c s || has c t)
unfolding has any
has-append c [] t = refl
has-append c (d ∷ s) t = ground (arith, has-append c s t)

starts_with_iff : (p s : Text) → (starts_with p s ≡ true) ↔ ((rest : Text) × (s ≡ p ++ rest))
unfolding starts_with
starts_with_iff [] s = (λ h. (s, refl), λ h. refl)
starts_with_iff (c ∷ p) [] = (λ h. absurd (ground arith), λ h. absurd (ground arith))
starts_with_iff (c ∷ p) (d ∷ s) =
    let ih = starts_with_iff p s in
    (
      (λ h. let (rest, e) = ih.0 (ground arith) in (rest, ground arith)),
      λ h. let (rest, e) = h in ground (arith, ih.1 (rest, ground arith)),
    )

-- The path is the base itself, or stands below it.
abbrev pub Inside : Text → Text → Type 0
Inside base t = (t ≡ base) ⊎ ((rest : Text) × (t ≡ (base ++ codes "/") ++ rest))

abbrev trivial_path : Text → Bool
trivial_path path = one_of path (codes "" ∷ codes "/" ∷ codes "." ∷ [])

abbrev checked : Text → Text → Checked Text
checked base target =
    if not (text_eq target base) && not (starts_with (base ++ codes "/") target)
    then refused traversal
    else ok target

same-absurd : (base target : Text) → text_eq target base ≡ false → target ≡ base → ⊥
same-absurd base target h e = let k = (text_eq_iff target base).1 e in ground arith

below-absurd : (p target r : Text) → starts_with p target ≡ false → target ≡ p ++ r → ⊥
below-absurd p target r h e = let k = (starts_with_iff p target).1 (r, e) in ground arith

outside-absurd :
    (base target : Text)
    → text_eq target base ≡ false
    → starts_with (base ++ codes "/") target ≡ false
    → Inside base target
    → ⊥
outside-absurd base target h k (inl e) = same-absurd base target h e
outside-absurd base target h k (inr (r, e)) = below-absurd (base ++ codes "/") target r k e

checked_iff : (base target t : Text) → (checked base target ≡ ok t) ↔ ((t ≡ target) × Inside base t)
checked_iff base target t = elim (Bool-cases (text_eq target base)) [
  | inl same ↦
      let e = (text_eq_iff target base).0 same in
      rw same ((λ h. (ground arith, inl (ground arith))), λ h. ground arith)
  | inr other ↦ elim (Bool-cases (starts_with (base ++ codes "/") target)) [
    | inl below ↦
        let (rest, e) = (starts_with_iff (base ++ codes "/") target).0 below in
        rw (other, below) ((λ h. (ground arith, inr (rest, ground arith))), λ h. ground arith)
    | inr outside ↦
        rw (other, outside)
          (
            (λ h. absurd (ground arith)),
            λ h. absurd (outside-absurd base target other outside (subst (Inside base) h.0 h.1)),
          )
  ]
]

module _ (realpath : Text → Text) where
  -- `resolve_safe_path` returns a path exactly when the resolved target is the real base or stands
  -- below it, and returns that target; a sibling whose name begins like the base is not below it.
  pub resolve_safe_path_iff :
      (base path : Text) (absolute : Bool) (t : Text)
      → (resolve_safe_path realpath base path absolute ≡ ok t)
        ↔ ((t ≡ target_of realpath base path absolute) × Inside (realpath base) t)
  unfolding resolve_safe_path
  resolve_safe_path_iff base path absolute t = elim (Bool-cases (trivial_path path)) [
    | inl triv ↦ rw triv ((λ h. (ground arith, inl (ground arith))), λ h. ground arith)
    | inr real ↦ rw real (checked_iff (realpath base) _ t)
  ]

has-replace_char :
    (c d : ℕ) (t s : Text)
    → has c t ≡ false
    → has c (replace_char d t s) ≡ true
    → (has c s ≡ true) × (c ≢ d)
unfolding has any replace_char
has-replace_char c d t [] h k = absurd (ground arith)
has-replace_char c d t (e ∷ s) h k = elim (Bool-cases (e == d)) [
  | inl same ↦
      let k' = rw same at k in
      let ih = has-replace_char c d t s h (ground (arith, has-append c t (replace_char d t s))) in
      (ground (arith, ih.0), ih.1)
  | inr other ↦ elim (Bool-cases (e == c)) [
    | inl hit ↦ (ground arith, λ q. ground arith)
    | inr miss ↦
        let k' = rw other at k in
        let ih = has-replace_char c d t s h (ground arith) in (ground (arith, ih.0), ih.1)
  ]
]

replace_char-absent : (c : ℕ) (t s : Text) → has c s ≡ false → replace_char c t s ≡ s
unfolding has any replace_char
replace_char-absent c t [] h = refl
replace_char-absent c t (d ∷ s) h = ground (arith, replace_char-absent c t s)

has-log_safe : (v : Text) → (has b'\r' (log_safe v) ≡ false) × (has b'\n' (log_safe v) ≡ false)
unfolding log_safe has any
has-log_safe v =
    let inner = replace_char b'\r' (codes "\\r") v in
    (
      elim (Bool-cases (has b'\r' (log_safe v))) [
        | inl hit ↦
            let (k, _) = has-replace_char b'\r' b'\n' (codes "\\n") inner refl hit in
            absurd ((has-replace_char b'\r' b'\r' (codes "\\r") v refl k).1 refl)
        | inr miss ↦ miss
      ],
      elim (Bool-cases (has b'\n' (log_safe v))) [
        | inl hit ↦ absurd ((has-replace_char b'\n' b'\n' (codes "\\n") inner refl hit).1 refl)
        | inr miss ↦ miss
      ],
    )

log_safe-absent : (s : Text) → has b'\r' s ≡ false → has b'\n' s ≡ false → log_safe s ≡ s
unfolding log_safe
log_safe-absent s cr nl =
    rw (replace_char-absent b'\r' (codes "\\r") s cr) (replace_char-absent b'\n' (codes "\\n") s nl)

-- What `log_safe` returns holds no carriage return and no line feed, so that it stays on its log line,
-- and a second `log_safe` changes nothing.
pub log_safe-single_line :
    (v : Text)
    → (has b'\r' (log_safe v) ≡ false)
      × (has b'\n' (log_safe v) ≡ false)
      × (log_safe (log_safe v) ≡ log_safe v)
log_safe-single_line v =
    let (cr, nl) = has-log_safe v in (cr, nl, log_safe-absent (log_safe v) cr nl)
