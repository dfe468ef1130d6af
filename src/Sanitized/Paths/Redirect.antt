-- ===== src/Sanitized/Paths/Redirect.antt =====
-- What `SafeRedirectPath.of` lets through.
use quadletman.Prelude.{
  ℕ, Bool, true, false, not, ◌&&◌, [], ◌∷◌, ◌++◌, ◌≡◌, refl, subst, arith, inl, inr, Bool-cases,
  any, ◌==◌, Text, codes, has, starts_with,
}
use quadletman.Sanitized.Check.{ok, demand-ok, has_control_chars}
use quadletman.Sanitized.Paths.{
  remove_char, url_cleaned, has_scheme, has_netloc, safe_redirect_path,
}

has-remove_char : (c : ℕ) (s : Text) → has c (remove_char c s) ≡ false
unfolding has any remove_char
has-remove_char c [] = refl
has-remove_char c (d ∷ s) = elim (Bool-cases (d == c)) [
  | inl same ↦ rw same (has-remove_char c s)
  | inr other ↦ rw (other, other) (has-remove_char c s)
]

remove_char-clean :
    (c : ℕ) (s : Text) → has_control_chars s ≡ false → has_control_chars (remove_char c s) ≡ false
unfolding has_control_chars remove_char
remove_char-clean c [] h = refl
remove_char-clean c (d ∷ s) h = ground (arith, remove_char-clean c s)

and_left : (a b : Bool) → (a && not b) ≡ true → a ≡ true
and_left a b h = ground arith

not_right : (a b : Bool) → (a && not b) ≡ true → b ≡ false
not_right a b h = ground arith

not-true : (a : Bool) → not a ≡ true → a ≡ false
not-true a h = ground arith

-- Every path that `SafeRedirectPath.of` returns begins with one slash and not with two, and holds no
-- backslash, no line break and no null byte.
pub safe_redirect_path-local :
    (v u : Text)
    → safe_redirect_path v ≡ ok u
    → (starts_with (codes "/") u ≡ true)
      × (starts_with (codes "//") u ≡ false)
      × (has b'\\' u ≡ false)
      × (has_control_chars u ≡ false)
unfolding safe_redirect_path
safe_redirect_path-local v u h =
    let (clean, h1) = demand-ok _ _ _ u h in
    let (_, h2) = demand-ok _ _ _ u h1 in
    let (slash, h3) = demand-ok _ _ _ u h2 in
    let same : remove_char b'\\' v ≡ u = ground (arith, h3) in
    subst
      (λ t.
        (starts_with (codes "/") t ≡ true)
        × (starts_with (codes "//") t ≡ false)
        × (has b'\\' t ≡ false)
        × (has_control_chars t ≡ false))
      same
      (
        and_left _ _ slash,
        not_right _ _ slash,
        has-remove_char b'\\' v,
        remove_char-clean b'\\' v (not-true _ clean),
      )

remove_char-absent : (c : ℕ) (s : Text) → has c s ≡ false → remove_char c s ≡ s
unfolding has any remove_char
remove_char-absent c [] h = refl
remove_char-absent c (d ∷ s) h = ground (arith, remove_char-absent c s)

remove_char-append :
    (c : ℕ) (s t : Text) → remove_char c (s ++ t) ≡ remove_char c s ++ remove_char c t
unfolding remove_char
remove_char-append c [] t = refl
remove_char-append c (d ∷ s) t = ground (arith, remove_char-append c s t)

-- A slash, a tab and two slashes before any text without a backslash, a line break or a null byte are
-- accepted unchanged, although the cleaned address that is tested for a host begins with three slashes.
pub safe_redirect_path-tab :
    (h : Text)
    → has_control_chars h ≡ false
    → has b'\\' h ≡ false
    → (safe_redirect_path (codes "/\t//" ++ h) ≡ ok (codes "/\t//" ++ h))
      × ((rest : Text) × (url_cleaned (codes "/\t//" ++ h) ≡ codes "///" ++ rest))
unfolding safe_redirect_path url_cleaned has_scheme has_netloc remove_char has_control_chars
    starts_with
safe_redirect_path-tab h c b = (
  rw (c, remove_char-absent b'\\' h b) ground arith,
  (remove_char b'\n' (remove_char b'\r' (remove_char b'\t' h)), refl),
)
