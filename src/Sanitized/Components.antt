-- ===== src/Sanitized/Components.antt =====
-- `SafeAbsPath.of` against the components of a path.
use quadletman.Prelude.{
  Bool, true, false, not, ◌&&◌, ◌||◌, List, [], ◌∷◌, ◌≡◌, if◌then◌else◌, refl, sym, ◌∙◌, arith,
  Text, codes, text_eq, starts_with, before, any, ◌==◌,
}
use quadletman.Regex.{match_end, class_has, items_have, item_has}
use quadletman.Regex.Language.{In, in_seq, in_chars, match_end_iff}
use quadletman.Sanitized.Patterns.{abs_path_pattern}
use quadletman.Sanitized.Check.{
  ok, control_chars, bad_format, traversal, demand-ok, has_control_chars,
}
use quadletman.Sanitized.Names.{safe_abs_path, has_dotdot, dotdot_from, dots_here}
use quadletman.Sanitized.Bounds.{no_newline}

-- The components behind the first slash, and all components, of a path.
abbrev more_components : Text → List Text
more_components [] = []
more_components (c ∷ s) = if c == b'/' then before b'/' s ∷ more_components s else more_components s

abbrev pub components : Text → List Text
components s = before b'/' s ∷ more_components s

abbrev pub is_dotdot : Text → Bool
is_dotdot t = text_eq t (codes "..")

before-dotdot :
    (s : Text) → is_dotdot (before b'/' s) ≡ (starts_with (codes "../") s || text_eq s (codes ".."))
unfolding before starts_with text_eq
before-dotdot [] = refl
before-dotdot (a ∷ []) = ground arith
before-dotdot (a ∷ b ∷ []) = ground arith
before-dotdot (a ∷ b ∷ c ∷ s) = ground arith

no_newline-dots : (s : Text) → has_control_chars s ≡ false → text_eq s (codes "..\n") ≡ false
unfolding text_eq has_control_chars
no_newline-dots [] h = refl
no_newline-dots (a ∷ []) h = ground arith
no_newline-dots (a ∷ b ∷ []) h = ground arith
no_newline-dots (a ∷ b ∷ c ∷ s) h = ground arith

dotdot_from_lem :
    (start : Bool) (s : Text)
    → has_control_chars s ≡ false
    → dotdot_from start s
      ≡ (start && is_dotdot (before b'/' s) || any is_dotdot (more_components s))
unfolding dotdot_from dots_here any has_control_chars before text_eq
dotdot_from_lem start [] h = ground arith
dotdot_from_lem start (c ∷ s) h =
    ground (arith, dotdot_from_lem (c == b'/') s, before-dotdot (c ∷ s), no_newline-dots (c ∷ s))

slash_first : (v : Text) → In abs_path_pattern v → starts_with (codes "/") v ≡ true
unfolding abs_path_pattern starts_with class_has items_have item_has
slash_first v (in_seq a b (in_chars c h z) q e) = rw (e, z) ground arith

-- A value that `SafeAbsPath.of` returns begins with a slash, and none of its components is `..`.
pub safe_abs_path-components :
    (v w : Text)
    → safe_abs_path v ≡ ok w
    → (w ≡ v) × (starts_with (codes "/") w ≡ true) × (any is_dotdot (components w) ≡ false)
unfolding safe_abs_path has_dotdot any
safe_abs_path-components v w e =
    let (clean, e1) = demand-ok (not (has_control_chars v)) control_chars _ w e in
    let (form, e2) = demand-ok (match_end abs_path_pattern v) bad_format _ w e1 in
    let (dots, e3) = demand-ok (not (has_dotdot v)) traversal (ok v) w e2 in
    let same : v ≡ w = ground arith in
    let clean' : has_control_chars v ≡ false = ground arith in
    let free : dotdot_from true v ≡ false = ground arith in
    rw (← same) (
      refl,
      slash_first v ((match_end_iff abs_path_pattern v (no_newline v clean')).0 form),
      sym (dotdot_from_lem true v clean') ∙ free,
    )
