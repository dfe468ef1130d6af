-- ===== src/Prelude/Strings.antt =====
-- Python's `str` as its list of code points, and the methods of `str` that the program uses.
use Prim.Native.Nat.{ℕ}
use Prim.Native.Char.{code}
use Prim.Native.String.{String}
use mathlib.Core.Path.{◌≡◌, refl}
use mathlib.Core.Logic.{◌↔◌}
use mathlib.Core.Bool.{Bool, true, false, ◌&&◌, ◌||◌}
use mathlib.Core.List.{List, [], ◌∷◌, ◌++◌}
use native.Mathlib.Omega.{arith}
use quadletman.Prelude.Tests.{ltb, leb, ◌==◌, if◌then◌else◌}
use quadletman.Prelude.Lists.{length, any, is_empty}

abbrev pub Text : Type 0
Text = List ℕ

-- A literal of the source.
abbrev pub codes : String → Text
codes String.[] = []
codes (String.◌∷◌ c s) = code c ∷ codes s

unfoldable pub text_eq : Text → Text → Bool
text_eq [] [] = true
text_eq (c ∷ s) (d ∷ t) = c == d && text_eq s t
text_eq _ _ = false

pub text_eq_iff : (s t : Text) → (text_eq s t ≡ true) ↔ (s ≡ t)
unfolding text_eq
text_eq_iff (c ∷ s) (d ∷ t) = ground (arith, text_eq_iff s t)
text_eq_iff _ _ = ground arith

pub text_eq_refl : (s : Text) → text_eq s s ≡ true
text_eq_refl s = (text_eq_iff s s).1 refl

-- `value in (…)`
unfoldable pub one_of : Text → List Text → Bool
unfolding any text_eq
one_of s ts = any (text_eq s) ts

abbrev pub within : ℕ → ℕ → ℕ → Bool
within lo hi c = leb lo c && leb c hi

unfoldable pub in_ranges : List (ℕ × ℕ) → ℕ → Bool
in_ranges [] c = false
in_ranges ((lo, hi) ∷ r) c = within lo hi c || in_ranges r c

-- `str.isspace` of one character, which is also `\s` of a regular expression over `str`
unfoldable pub is_space : ℕ → Bool
unfolding in_ranges
is_space c =
    in_ranges
      ((9, 13)
        ∷ (28, 32)
        ∷ (133, 133)
        ∷ (160, 160)
        ∷ (5760, 5760)
        ∷ (8192, 8202)
        ∷ (8232, 8233)
        ∷ (8239, 8239)
        ∷ (8287, 8287)
        ∷ (12288, 12288)
        ∷ [])
      c

unfoldable pub lstrip : Text → Text
unfolding is_space
lstrip [] = []
lstrip (c ∷ s) = if is_space c then lstrip s else c ∷ s

unfoldable pub rstrip : Text → Text
unfolding is_space is_empty
rstrip [] = []
rstrip (c ∷ s) = let r = rstrip s in if is_empty r && is_space c then [] else c ∷ r

unfoldable pub strip : Text → Text
unfolding lstrip rstrip
strip s = lstrip (rstrip s)

unfoldable pub starts_with : Text → Text → Bool
starts_with [] s = true
starts_with (p ∷ ps) [] = false
starts_with (p ∷ ps) (c ∷ s) = p == c && starts_with ps s

pub starts_with-append : (needle post : Text) → starts_with needle (needle ++ post) ≡ true
unfolding starts_with
starts_with-append [] post = refl
starts_with-append (c ∷ needle) post = ground (arith, starts_with-append needle post)

-- `s.endswith(suffix)`: the suffix stands at the end of `s`
unfoldable pub ends_with : Text → Text → Bool
unfolding text_eq
ends_with suffix [] = text_eq suffix []
ends_with suffix (c ∷ s) = text_eq suffix (c ∷ s) || ends_with suffix s

-- `s[:-k]` for `0 < k ≤ len(s)`
unfoldable pub drop_end : ℕ → Text → Text
drop_end k [] = []
drop_end k (c ∷ s) = if leb (length (c ∷ s)) k then [] else c ∷ drop_end k s

-- `c in s`
unfoldable pub has : ℕ → Text → Bool
unfolding any
has c s = any (λ d. d == c) s

-- `needle in s`
unfoldable pub has_text : Text → Text → Bool
unfolding starts_with
has_text needle [] = starts_with needle []
has_text needle (c ∷ s) = starts_with needle (c ∷ s) || has_text needle s

-- `s.partition(sep)` without the separator: what stands before it, and what stands behind it
unfoldable pub before : ℕ → Text → Text
before sep [] = []
before sep (c ∷ s) = if c == sep then [] else c ∷ before sep s

unfoldable pub after : ℕ → Text → Text
after sep [] = []
after sep (c ∷ s) = if c == sep then s else after sep s

pub partition_lem :
    (sep : ℕ) (s : Text) → has sep s ≡ true → s ≡ before sep s ++ (sep ∷ after sep s)
unfolding has before after any
partition_lem sep [] h = ground arith
partition_lem sep (c ∷ s) h = ground (arith, partition_lem sep s)

-- `<` of Python's texts
unfoldable pub text_ltb : Text → Text → Bool
text_ltb s [] = false
text_ltb [] (c ∷ t) = true
text_ltb (d ∷ s) (c ∷ t) = ltb d c || (d == c && text_ltb s t)
