-- ===== src/Sanitized/Bounds.antt =====
-- What the accepted values of single classes look like, against a description of their own.
use quadletman.Prelude.{
  ℕ, ◌≤◌, Bool, true, false, ◌||◌, List, [], ◌∷◌, ◌++◌, ◌≡◌, ◌↔◌, ◌∙◌, sym, ap, subst, refl, arith,
  Text, all, all-append, length, length-append, within, has, any, ◌==◌, Bool-cases, inl, inr,
}
use quadletman.Regex.{Item, Regex, items_have, item_has, class_has, chars}
use quadletman.Regex.Language.{In, in_chars, in_seq, in_left, in_right, match_end_iff}
use quadletman.Regex.Classes.{In-class, In-star, In-up_to, star-In, up_to-In}
use quadletman.Sanitized.Patterns.{slug_pattern, resource_name_pattern, low, num, ch}
use quadletman.Sanitized.Check.{ok, has_control_chars, of_pattern, of_limited}
use quadletman.Sanitized.Names.{safe_slug, safe_resource_name}

pub no_newline : (v : Text) → has_control_chars v ≡ false → has b'\n' v ≡ false
unfolding has_control_chars has any
no_newline [] h = refl
no_newline (c ∷ v) h = ground (arith, no_newline v)

-- A class with a pattern accepts the texts of the pattern's language that hold no control character.
of_pattern_iff :
    (r : Regex) (v : Text) → (of_pattern r v ≡ ok v) ↔ ((has_control_chars v ≡ false) × In r v)
unfolding of_pattern
of_pattern_iff r v = elim (Bool-cases (has_control_chars v)) [
  | inl dirty ↦ (λ h. absurd (ground arith), λ h. absurd (ground arith))
  | inr clean ↦
      let m = match_end_iff r v (no_newline v clean) in
      (λ h. (clean, m.0 (ground arith)), λ h. ground (arith, m.1 h.1))
]

of_limited_iff :
    (n : ℕ) (r : Regex) (v : Text)
    → (of_limited n r v ≡ ok v) ↔ ((has_control_chars v ≡ false) × (length v ≤ n) × In r v)
unfolding of_limited
of_limited_iff n r v = elim (Bool-cases (has_control_chars v)) [
  | inl dirty ↦ (λ h. absurd (ground arith), λ h. absurd (ground arith))
  | inr clean ↦
      let m = match_end_iff r v (no_newline v clean) in
      (λ h. (clean, ground arith, m.0 (ground arith)), λ h. ground (arith, m.1 h.2))
]

abbrev pub lower_alnum : ℕ → Bool
lower_alnum c = within b'a' b'z' c || within b'0' b'9' c

abbrev pub last_of : ℕ → Text → ℕ
last_of c [] = c
last_of c (d ∷ s) = last_of d s

-- Lowercase letters, digits and hyphens, with a letter or digit at both ends.
abbrev pub IsSlug : Text → Type 0
IsSlug [] = ⊥
IsSlug (c ∷ s) =
    (length (c ∷ s) ≤ 32)
    × (all (λ d. lower_alnum d || d == b'-') (c ∷ s) ≡ true)
    × (lower_alnum c ≡ true)
    × (lower_alnum (last_of c s) ≡ true)

last_of-concat : (c d : ℕ) (s : Text) → last_of c (s ++ d ∷ []) ≡ d
last_of-concat c d [] = refl
last_of-concat c d (e ∷ s) = last_of-concat e d s

-- The end of a text that is not empty.
split_last : (c : ℕ) (s : Text) → (init : Text) × (c ∷ s ≡ init ++ last_of c s ∷ [])
split_last c [] = ([], refl)
split_last c (d ∷ s) = let (init, e) = split_last d s in (c ∷ init, ap (◌∷◌ c) e)

abbrev edge_items : List Item
edge_items = low ∷ num ∷ []

abbrev inner_items : List Item
inner_items = low ∷ num ∷ ch b'-' ∷ []

edge_lem : (c : ℕ) → items_have edge_items c ≡ lower_alnum c
unfolding items_have item_has
edge_lem c = ground arith

inner_lem : (c : ℕ) → items_have inner_items c ≡ (lower_alnum c || c == b'-')
unfolding items_have item_has
inner_lem c = ground arith

pub all_congr : (p q : ℕ → Bool) (s : Text) → ((c : ℕ) → p c ≡ q c) → all p s ≡ all q s
unfolding all
all_congr p q [] h = refl
all_congr p q (c ∷ s) h = ground (arith, h c, all_congr p q s h)

In-slug_pattern : (v : Text) → In slug_pattern v → IsSlug v
unfolding slug_pattern all
In-slug_pattern v (in_left (in_seq a b p (in_seq a' b' q r e') e)) =
    let (c, z, h) = In-class edge_items p in
    let (d, w, k) = In-class edge_items r in
    let (x, y) = In-up_to inner_items 30 q in
    let whole : v ≡ c ∷ (a' ++ d ∷ []) = cc (e, e', z, w) in
    subst IsSlug (sym whole) (
      slug_of c a' d (ground (arith, edge_lem c)) (ground (arith, edge_lem d)) y
        (sym (all_congr _ _ a' inner_lem) ∙ x))
  where
    slug_of :
        (c : ℕ) (a : Text) (d : ℕ)
        → lower_alnum c ≡ true
        → lower_alnum d ≡ true
        → length a ≤ 30
        → all (λ x. lower_alnum x || x == b'-') a ≡ true
        → IsSlug (c ∷ (a ++ d ∷ []))
    slug_of c a d h k l x = (
      omega (arith, length-append a (d ∷ [])),
      ground (arith, all-append (λ x. lower_alnum x || x == b'-') a (d ∷ [])),
      h,
      rw last_of-concat k,
    )
In-slug_pattern v (in_right p) =
    let (c, z, h) = In-class edge_items p in
    subst IsSlug (sym z) (
      omega arith,
      ground (arith, edge_lem c),
      ground (arith, edge_lem c),
      ground (arith, edge_lem c),
    )

slug_char-clean :
    (v : Text) → all (λ d. lower_alnum d || d == b'-') v ≡ true → has_control_chars v ≡ false
unfolding all has_control_chars
slug_char-clean [] h = refl
slug_char-clean (c ∷ v) h = ground (arith, slug_char-clean v)

edge-In : (c : ℕ) → lower_alnum c ≡ true → In (chars false edge_items) (c ∷ [])
unfolding class_has
edge-In c h = in_chars c (edge_lem c ∙ h) refl

slug_pattern-In : (v : Text) → IsSlug v → In slug_pattern v
unfolding slug_pattern
slug_pattern-In [] h = absurd h
slug_pattern-In (c ∷ []) (l, a, h, k) = in_right (edge-In c h)
slug_pattern-In (c ∷ d ∷ s) (l, a, h, k) =
    let (init, e) = split_last d s in
    let tail : all (λ x. lower_alnum x || x == b'-') (init ++ last_of d s ∷ []) ≡ true =
      rw (← e) (unfold all in ground arith) in
    let inner =
      up_to-In inner_items 30 init
        (all_congr _ _ init inner_lem
          ∙ ground (arith, all-append (λ x. lower_alnum x || x == b'-') init (last_of d s ∷ [])))
        (omega (arith, length-append init (last_of d s ∷ []), ap length e)) in
    in_left (
      in_seq (c ∷ []) (d ∷ s) (edge-In c h)
        (in_seq init (last_of d s ∷ []) inner (edge-In (last_of d s) k) e) refl)

-- `SafeSlug.of` accepts exactly the texts of 1 to 32 lowercase letters, digits and hyphens that begin
-- and end with a letter or a digit, and returns them as they are.
pub safe_slug_iff : (v : Text) → (safe_slug v ≡ ok v) ↔ IsSlug v
unfolding all
safe_slug_iff v =
    let m = of_pattern_iff slug_pattern v in
    ((λ h. In-slug_pattern v (m.0 h).1), λ h. m.1 (clean v h, slug_pattern-In v h))
  where
    clean : (u : Text) → IsSlug u → has_control_chars u ≡ false
    clean [] h = absurd h
    clean (c ∷ s) h = slug_char-clean (c ∷ s) h.1

abbrev pub name_char : ℕ → Bool
name_char c = lower_alnum c || c == b'_' || c == b'-'

-- Lowercase letters, digits, underscores and hyphens, with a letter or digit first.
abbrev pub IsResourceName : Text → Type 0
IsResourceName [] = ⊥
IsResourceName (c ∷ s) = (length (c ∷ s) ≤ 63) × (lower_alnum c ≡ true) × (all name_char s ≡ true)

abbrev name_items : List Item
name_items = low ∷ num ∷ ch b'_' ∷ ch b'-' ∷ []

name_lem : (c : ℕ) → items_have name_items c ≡ name_char c
unfolding items_have item_has
name_lem c = ground arith

name_char-clean : (v : Text) → all name_char v ≡ true → has_control_chars v ≡ false
unfolding all has_control_chars
name_char-clean [] h = refl
name_char-clean (c ∷ v) h = ground (arith, name_char-clean v)

In-resource_name_pattern :
    (v : Text) → length v ≤ 63 → In resource_name_pattern v → IsResourceName v
unfolding resource_name_pattern
In-resource_name_pattern v l (in_seq a b p q e) =
    let (c, z, h) = In-class edge_items p in
    let whole : v ≡ c ∷ b = cc (e, z) in
    let named : all name_char b ≡ true = sym (all_congr _ _ b name_lem) ∙ In-star name_items q in
    subst IsResourceName (sym whole) (rw whole at l, ground (arith, edge_lem c), named)

resource_name_pattern-In : (v : Text) → IsResourceName v → In resource_name_pattern v
unfolding resource_name_pattern
resource_name_pattern-In [] h = absurd h
resource_name_pattern-In (c ∷ s) (l, h, k) =
    in_seq (c ∷ []) s (edge-In c h) (star-In name_items s (all_congr _ _ s name_lem ∙ k)) refl

-- `SafeResourceName.of` accepts exactly the texts of 1 to 63 lowercase letters, digits, underscores
-- and hyphens that begin with a letter or a digit, and returns them as they are.
pub safe_resource_name_iff : (v : Text) → (safe_resource_name v ≡ ok v) ↔ IsResourceName v
safe_resource_name_iff v =
    let m = of_limited_iff 63 resource_name_pattern v in
    (
      (λ h. In-resource_name_pattern v (m.0 h).1 (m.0 h).2),
      λ h. m.1 (clean v h, short v h, resource_name_pattern-In v h),
    )
  where
    clean : (u : Text) → IsResourceName u → has_control_chars u ≡ false
    clean [] h = absurd h
    clean (c ∷ s) h = unfold has_control_chars in ground (arith, name_char-clean s)

    short : (u : Text) → IsResourceName u → length u ≤ 63
    short [] h = absurd h
    short (c ∷ s) h = h.0
