-- ===== src/HostSettings/Entries.antt =====
-- A line of the file of the settings is read back as the entry that it was written for.
use quadletman.Prelude.{
  ℕ, Bool, true, false, not, ◌&&◌, [], ◌∷◌, ◌++◌, ◌≡◌, refl, sym, ap, subst, ◌∙◌, arith, any, Text,
  codes, text_eq, text_eq_iff, is_empty, is_space, strip, lstrip, rstrip, starts_with, has,
  is_line_break, append_assoc, ◌==◌, in_ranges,
}
use quadletman.Prelude.Dict.{Dict, insert}
use quadletman.Bundle.Sections.RoundTrip.{plain}
use quadletman.HostSettings.Stripped.{
  stripped-head, rstrip-append, rstrip-space, lstrip-kept, before-append, after-append, has-append,
  strip-spaced,
}
use quadletman.HostSettings.{read_entry}

-- The name of a setting and its value: single stripped lines, the name not empty and without `=`, and
-- no comment.
unfoldable pub is_clean : Text × Text → Bool
unfolding any is_line_break strip has starts_with is_empty text_eq
is_clean (k, v) =
    plain k
    && (plain v
        && (text_eq (strip k) k
            && (text_eq (strip v) v
                && (not (has b'=' k) && (not (starts_with (codes "#") k) && not (is_empty k))))))

pub rstrip-equals : (s : Text) → rstrip (codes " =" ++ s) ≡ codes " =" ++ rstrip s
unfolding rstrip is_space in_ranges is_empty
rstrip-equals s = ground arith

pub strip-line :
    (c : ℕ) (k v : Text)
    → is_space c ≡ false
    → strip ((c ∷ k) ++ (codes " = " ++ v)) ≡ ((c ∷ k) ++ codes " ") ++ b'=' ∷ rstrip (b' ' ∷ v)
unfolding strip
strip-line c k v h =
    let tail = rstrip-equals (b' ' ∷ v) in
    let filled = subst (λ (s : Text). is_empty s ≡ false) (sym tail) (unfold is_empty in refl) in
    ap lstrip (rstrip-append (c ∷ k) (codes " = " ++ v) filled)
    ∙ lstrip-kept c (k ++ rstrip (codes " = " ++ v)) h
    ∙ ap (λ (s : Text). (c ∷ k) ++ s) tail
    ∙ sym (append_assoc (c ∷ k) (codes " ") (b'=' ∷ rstrip (b' ' ∷ v)))

pub strip-key : (k : Text) → strip k ≡ k → strip (k ++ codes " ") ≡ k
unfolding strip
strip-key k h = ap lstrip (rstrip-space k) ∙ h

pub has-equals : (s t : Text) → has b'=' (s ++ b'=' ∷ t) ≡ true
unfolding has any
has-equals s t = has-append b'=' s (b'=' ∷ t) ∙ ground arith

pub key-no_equals : (k : Text) → has b'=' k ≡ false → has b'=' (k ++ codes " ") ≡ false
unfolding has any
key-no_equals k h = has-append b'=' k (codes " ") ∙ ground (arith, h)

pub read_entry-key :
    (c : ℕ) (k v : Text) (d : Dict Text)
    → strip (c ∷ k) ≡ c ∷ k
    → strip v ≡ v
    → has b'=' (c ∷ k) ≡ false
    → starts_with (codes "#") (c ∷ k) ≡ false
    → read_entry ((c ∷ k) ++ (codes " = " ++ v)) d ≡ insert (c ∷ k) v d
unfolding read_entry starts_with is_empty
read_entry-key c k v d hk hv he hs =
    let line = strip-line c k v (stripped-head c k hk) in
    let found = has-equals ((c ∷ k) ++ codes " ") (rstrip (b' ' ∷ v)) in
    let none_before = key-no_equals (c ∷ k) he in
    let key =
      ap strip (before-append b'=' ((c ∷ k) ++ codes " ") (rstrip (b' ' ∷ v)) none_before)
      ∙ strip-key (c ∷ k) hk in
    let value =
      ap strip (after-append b'=' ((c ∷ k) ++ codes " ") (rstrip (b' ' ∷ v)) none_before)
      ∙ strip-spaced v hv in
    let no_comment : (b'#' == c && true) ≡ false = ground (arith, hs) in
    rw (line, no_comment, found, key, value) refl

pub both : (a b : Bool) → (a && b) ≡ true → (a ≡ true) × (b ≡ true)
both a b h = (ground (arith, h), ground (arith, h))

pub negated : (a : Bool) → not a ≡ true → a ≡ false
negated a h = ground (arith, h)

-- what is asked of an entry, one by one
unfoldable pub IsEntry : Text → Text → Type 0
IsEntry k v =
    ((plain k ≡ true) × (plain v ≡ true))
    × ((strip k ≡ k) × (strip v ≡ v))
    × ((has b'=' k ≡ false) × (starts_with (codes "#") k ≡ false) × (is_empty k ≡ false))

pub is_clean-IsEntry : (k v : Text) → is_clean (k, v) ≡ true → IsEntry k v
unfolding is_clean IsEntry
is_clean-IsEntry k v h =
    let a = both (plain k) _ h in
    let b = both (plain v) _ a.1 in
    let c = both (text_eq (strip k) k) _ b.1 in
    let d = both (text_eq (strip v) v) _ c.1 in
    let e = both (not (has b'=' k)) _ d.1 in
    let f = both (not (starts_with (codes "#") k)) _ e.1 in
    (
      (a.0, b.0),
      ((text_eq_iff (strip k) k).0 c.0, (text_eq_iff (strip v) v).0 d.0),
      (negated (has b'=' k) e.0, negated (starts_with (codes "#") k) f.0, negated (is_empty k) f.1),
    )

pub read_entry-clean :
    (k v : Text) (d : Dict Text)
    → IsEntry k v
    → read_entry (k ++ (codes " = " ++ v)) d ≡ insert k v d
unfolding IsEntry
read_entry-clean [] v d (a, b, c) = absurd (unfold is_empty in ground (arith, c.2))
read_entry-clean (c ∷ k) v d (a, b, e) = read_entry-key c k v d b.0 b.1 e.0 e.1

pub plain-append : (s t : Text) → plain s ≡ true → plain t ≡ true → plain (s ++ t) ≡ true
unfolding any
plain-append [] t h k = k
plain-append (c ∷ s) t h k = ground (arith, plain-append s t, h, k)

pub line-plain : (k v : Text) → IsEntry k v → plain (k ++ (codes " = " ++ v)) ≡ true
unfolding IsEntry
line-plain k v (a, b, c) =
    plain-append k (codes " = " ++ v) a.0
      (plain-append (codes " = ") v (unfold any is_line_break in_ranges in refl) a.1)
