-- ===== src/Sanitized/Refs.antt =====
-- What single classes of models/sanitized.py accept beyond their pattern: user references, ports, paths.
use quadletman.Prelude.{
  ℕ, ◌≤◌, Bool, true, false, ◌&&◌, ◌||◌, List, [], ◌∷◌, ◌⊎◌, ◌≡◌, refl, subst, arith, Option, none,
  some, Text, within, read_digits, is_digit, digit_value, is_empty, all, length, ◌==◌, ◌↔◌, sym,
  ◌∙◌, Bool-cases, inl, inr,
}
use quadletman.Regex.{
  Item, digit, items_have, match_prefix, match_end, class_has, items_have, item_has,
}
use quadletman.Regex.Language.{In, in_seq, in_chars, match_prefix_complete, match_end_iff}
use quadletman.Regex.Classes.{star-In, In-class, In-up_to, up_to-In}
use quadletman.Sanitized.Bounds.{all_congr, no_newline}
use quadletman.Sanitized.Patterns.{port_str_pattern, user_group_name_pattern}
use quadletman.Sanitized.Check.{ok, has_control_chars}
use quadletman.Sanitized.Names.{safe_user_group_ref, user_group_ref_match}
use quadletman.Sanitized.Values.{safe_port_str, port_in_range}

abbrev pub name_start : ℕ → Bool
name_start c = within b'a' b'z' c || within b'A' b'Z' c || c == b'_'

start_match :
    (c : ℕ) (s : Text) → name_start c ≡ true → match_prefix user_group_name_pattern (c ∷ s) ≡ true
unfolding user_group_name_pattern class_has items_have item_has all
start_match c s h =
    match_prefix_complete user_group_name_pattern (c ∷ []) s
      (in_seq (c ∷ []) [] (in_chars c (ground arith) refl) (star-In _ [] refl) refl)

-- The first alternative of the pattern has no end: `SafeUserGroupRef.of` accepts every text without
-- control characters whose first character is a letter or an underscore.
pub safe_user_group_ref-unanchored :
    (c : ℕ) (s : Text)
    → name_start c ≡ true
    → has_control_chars (c ∷ s) ≡ false
    → safe_user_group_ref (c ∷ s) ≡ ok (c ∷ s)
unfolding safe_user_group_ref user_group_ref_match is_empty
safe_user_group_ref-unanchored c s h k = rw (k, start_match c s h) refl

-- One to five characters of `\d`, which `int` reads as a number from 1 to 65535.
abbrev pub IsPort : Text → Type 0
IsPort [] = Unit
IsPort (c ∷ s) =
    (all is_digit (c ∷ s) ≡ true)
    × (length (c ∷ s) ≤ 5)
    × ((port : ℕ) × (read_digits (c ∷ s) ≡ some port) × (1 ≤ port) × (port ≤ 65535))

abbrev digit_items : List Item
digit_items = digit ∷ []

or_false : (b : Bool) → (b || false) ≡ b
or_false b = ground arith

both : (a b : Bool) → (a && b) ≡ true → (a ≡ true) × (b ≡ true)
both a b h = (ground (arith, h), ground (arith, h))

digit_lem : (c : ℕ) → items_have digit_items c ≡ is_digit c
unfolding items_have item_has
digit_lem c = or_false (is_digit c)

In-port_str_pattern :
    (v : Text)
    → In port_str_pattern v
    → (all is_digit v ≡ true) × (length v ≤ 5) × (is_empty v ≡ false)
unfolding port_str_pattern all is_empty
In-port_str_pattern v (in_seq a b p q e) =
    let (c, z, h) = In-class digit_items p in
    let (x, l) = In-up_to digit_items 4 q in
    let whole : v ≡ c ∷ b = cc (e, z) in
    let digits = sym (all_congr _ _ b digit_lem) ∙ x in
    let first = sym (digit_lem c) ∙ h in
    subst (λ (w : Text). (all is_digit w ≡ true) × (length w ≤ 5) × (is_empty w ≡ false))
      (sym whole) (rw first digits, omega (arith, l), refl)

port_str_pattern-In :
    (c : ℕ) (s : Text)
    → all is_digit (c ∷ s) ≡ true
    → length (c ∷ s) ≤ 5
    → In port_str_pattern (c ∷ s)
unfolding port_str_pattern all class_has
port_str_pattern-In c s h l =
    let parts = both (is_digit c) (all is_digit s) h in
    in_seq (c ∷ []) s (in_chars c (digit_lem c ∙ parts.0) refl)
      (up_to-In digit_items 4 s (all_congr _ _ s digit_lem ∙ parts.1) (omega (arith, l))) refl

control-cases :
    (c : ℕ) → ((c == b'\r' || c == b'\n') || c == 0) ≡ true → (c ≡ b'\r') ⊎ ((c ≡ b'\n') ⊎ (c ≡ 0))
control-cases c h = ground (arith, h)

control-not_digit : (c : ℕ) → ((c == b'\r' || c == b'\n') || c == 0) ≡ true → is_digit c ≡ false
unfolding is_digit digit_value
control-not_digit c h = elim (control-cases c h) [
  | inl e ↦ subst (λ (d : ℕ). is_digit d ≡ false) (sym e) refl
  | inr (inl e) ↦ subst (λ (d : ℕ). is_digit d ≡ false) (sym e) refl
  | inr (inr e) ↦ subst (λ (d : ℕ). is_digit d ≡ false) (sym e) refl
]

digits-clean : (v : Text) → all is_digit v ≡ true → has_control_chars v ≡ false
unfolding all has_control_chars
digits-clean [] h = refl
digits-clean (c ∷ v) h =
    let rest = digits-clean v (ground (arith, h)) in
    elim (Bool-cases ((c == b'\r' || c == b'\n') || c == 0)) [
      | inl e ↦ absurd (ground (arith, h, control-not_digit c e))
      | inr e ↦ ground (arith, rest, e)
    ]

port-cases :
    (o : Option ℕ)
    → elim o [ none ↦ false | some port ↦ within 1 65535 port ] ≡ true
    → (port : ℕ) × (o ≡ some port) × (1 ≤ port) × (port ≤ 65535)
port-cases none h = absurd (ground arith)
port-cases (some port) h = (port, refl, ground arith, ground arith)

port_in_range_iff :
    (v : Text)
    → (port_in_range v ≡ true)
      ↔ ((port : ℕ) × (read_digits v ≡ some port) × (1 ≤ port) × (port ≤ 65535))
unfolding port_in_range
port_in_range_iff v = (
  λ h. port-cases (read_digits v) h,
  λ (port, e, lo, hi). rw (port_in_range, e) (ground (arith, lo, hi)),
)

-- `SafePortStr.of` accepts exactly the empty text and the texts of one to five digits, of any script,
-- that `int` reads as a number from 1 to 65535, and returns them as they are.
pub safe_port_str_iff : (v : Text) → (safe_port_str v ≡ ok v) ↔ IsPort v
unfolding safe_port_str is_empty has_control_chars
safe_port_str_iff [] = (λ h. tt, λ h. ground arith)
safe_port_str_iff (c ∷ s) = elim (Bool-cases (has_control_chars (c ∷ s))) [
  | inl dirty ↦ (
    λ h. absurd (ground (arith, h, dirty)),
    λ h. absurd (ground (arith, digits-clean (c ∷ s) h.0, dirty)),
  )
  | inr clean ↦
      let m = match_end_iff port_str_pattern (c ∷ s) (no_newline (c ∷ s) clean) in
      let r = port_in_range_iff (c ∷ s) in
      (
        λ h.
            let matched : match_end port_str_pattern (c ∷ s) ≡ true = ground (arith, h, clean) in
            let ranged : port_in_range (c ∷ s) ≡ true = ground (arith, h, clean, matched) in
            let parts = In-port_str_pattern (c ∷ s) (m.0 matched) in (parts.0, parts.1, r.0 ranged),
        λ h.
            let matched = m.1 (port_str_pattern-In c s h.0 h.1) in
            rw (clean, matched, r.1 h.2) refl,
      )
]
