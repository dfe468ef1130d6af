-- ===== src/Podman/Features/RoundTrip.antt =====
-- The version that Podman prints, as `_parse_version` reads it.
use quadletman.Prelude.{
  append_assoc, ℕ, ◌<◌, ◌^◌, Bool, true, false, not, [], ◌∷◌, ◌++◌, ◌≡◌, refl, ap, ◌∙◌, in_ranges,
  arith, some, Text, codes, is_empty, is_space, is_digit, lstrip, starts_with, show, all,
}
use quadletman.Prelude.Decimal.RoundTrip.{
  is_decimal, decimal-is_digit, show-decimal, show-not_empty, read_digits-show,
}
use quadletman.Podman.Span.{PodmanVersion}
use quadletman.Podman.Tooltips.{fmt_version}
use quadletman.Podman.Features.{
  fold, digits, behind_digits, number, dot_number, numbers_at, match_at, search_version,
  read_version, parse_version, fold_all, behind,
}

-- The digits end where a text that begins with no digit follows.
abbrev ends_digits : Text → Bool
ends_digits [] = true
ends_digits (c ∷ s) = not (is_digit c)

not-true : (b : Bool) → not b ≡ true → b ≡ false
not-true b h = ground arith

digits-append :
    (s t : Text)
    → all is_decimal s ≡ true
    → ends_digits t ≡ true
    → (digits (s ++ t) ≡ s) × (behind_digits (s ++ t) ≡ t)
unfolding digits behind_digits all
digits-append [] [] h k = (refl, refl)
digits-append [] (c ∷ t) h k = rw (digits, behind_digits, not-true (is_digit c) k) (refl, refl)
digits-append (c ∷ s) t h k =
    let (a, b) = digits-append s t (ground arith) k in
    rw (digits, behind_digits, decimal-is_digit c (ground arith)) (ap (◌∷◌ c) a, b)

number-show : (n : ℕ) (t : Text) → ends_digits t ≡ true → number (show n ++ t) ≡ some (show n, t)
unfolding number
number-show n t h =
    let (a, b) = digits-append (show n) t (show-decimal n) h in
    rw (number, a, b, show-not_empty n) refl

numbers_at-show :
    (a b c : ℕ) (t : Text)
    → ends_digits t ≡ true
    → numbers_at (show a ++ (codes "." ++ (show b ++ (codes "." ++ (show c ++ t)))))
      ≡ some (show a, show b, show c)
unfolding numbers_at dot_number
numbers_at-show a b c t h =
    rw
      (
        numbers_at,
        number-show a (codes "." ++ (show b ++ (codes "." ++ (show c ++ t)))) refl,
        number-show b (codes "." ++ (show c ++ t)) refl,
        number-show c t h,
      )
      refl

decimal-not_space : (c : ℕ) → is_decimal c ≡ true → is_space c ≡ false
unfolding is_space in_ranges
decimal-not_space c h = ground arith

-- A text that begins with a digit has no leading space.
lstrip-show : (n : ℕ) (t : Text) → lstrip (show n ++ t) ≡ show n ++ t
unfolding all is_empty lstrip
lstrip-show n t = go (show n) (show-decimal n) (show-not_empty n)
  where
    go : (s : Text) → all is_decimal s ≡ true → is_empty s ≡ false → lstrip (s ++ t) ≡ s ++ t
    go [] h k = absurd (ground arith)
    go (c ∷ s) h k = rw (lstrip, decimal-not_space c (ground arith)) refl

match_at-words : (u : Text) → match_at (codes "podman version " ++ u) ≡ numbers_at (lstrip u)
unfolding match_at fold_all fold behind starts_with is_space in_ranges
match_at-words u = refl

search_version-first :
    (c : ℕ) (s : Text) (g : Text × Text × Text)
    → match_at (c ∷ s) ≡ some g
    → search_version (c ∷ s) ≡ some g
unfolding search_version
search_version-first c s g h = rw (search_version, h) refl

fmt_version-append :
    (v : PodmanVersion) (t : Text)
    → fmt_version v ++ t
      ≡ show v.major ++ (codes "." ++ (show v.minor ++ (codes "." ++ (show v.patch ++ t))))
unfolding fmt_version
fmt_version-append v t =
    append_assoc (show v.major) (codes "." ++ (show v.minor ++ (codes "." ++ show v.patch))) t
    ∙ ap (λ u. show v.major ++ (codes "." ++ u))
        (append_assoc (show v.minor) (codes "." ++ show v.patch) t)

read_version-show :
    (v : PodmanVersion)
    → v.major < 10 ^ 4300
    → v.minor < 10 ^ 4300
    → v.patch < 10 ^ 4300
    → read_version (show v.major, show v.minor, show v.patch) ≡ some v
unfolding read_version
read_version-show v h k l =
    rw
      (
        read_version,
        read_digits-show v.major h,
        read_digits-show v.minor k,
        read_digits-show v.patch l,
      )
      refl

parse_version-read :
    (u : Text) (g : Text × Text × Text) (v : PodmanVersion)
    → search_version u ≡ some g
    → read_version g ≡ some v
    → parse_version u ≡ some (some v)
unfolding parse_version
parse_version-read u g v h k = rw (parse_version, h, k) refl

-- `_parse_version` reads back a version that stands behind `podman version ` in the form of
-- `_fmt_version`, whatever text follows that does not begin with a digit, for numbers of up to 4300
-- digits.
pub parse_version-fmt_version :
    (v : PodmanVersion) (t : Text)
    → v.major < 10 ^ 4300
    → v.minor < 10 ^ 4300
    → v.patch < 10 ^ 4300
    → ends_digits t ≡ true
    → parse_version (codes "podman version " ++ (fmt_version v ++ t)) ≡ some (some v)
parse_version-fmt_version v t h k l e =
    parse_version-read _ _ v
      (search_version-first b'p' (codes "odman version " ++ (fmt_version v ++ t)) _ found)
      (read_version-show v h k l)
  where
    numbers : Text
    numbers = codes "." ++ (show v.minor ++ (codes "." ++ (show v.patch ++ t)))

    found :
        match_at (codes "podman version " ++ (fmt_version v ++ t))
        ≡ some (show v.major, show v.minor, show v.patch)
    found =
        match_at-words (fmt_version v ++ t)
        ∙ rw (fmt_version-append v t, lstrip-show v.major numbers)
            (numbers_at-show v.major v.minor v.patch t e)
