-- ===== src/Regex/Language.antt =====
-- The matchers decide membership in the language of a pattern.
use quadletman.Prelude.{
  ℕ, Bool, true, false, List, [], ◌∷◌, ◌++◌, ◌≡◌, ◌↔◌, refl, subst, ap, arith, has, any, Text,
  Bool-cases, inl, inr, if◌then◌else◌,
}
use quadletman.Regex.{
  Item, Regex, fail, epsilon, chars, seq, alt, star, class_has, nullable, seq_of, alt_of,
  derivative, full_match, match_end, match_prefix,
}

-- `s` is in the language of the pattern.
pub data In : Regex → Text → Type 0 where
  in_epsilon : {s : Text} → s ≡ [] → In epsilon s
  in_chars :
      {n : Bool} {is : List Item} {s : Text} (c : ℕ)
      → class_has n is c ≡ true
      → s ≡ c ∷ []
      → In (chars n is) s
  in_seq : {r t : Regex} {s : Text} (a b : Text) → In r a → In t b → s ≡ a ++ b → In (seq r t) s
  in_left : {r t : Regex} {s : Text} → In r s → In (alt r t) s
  in_right : {r t : Regex} {s : Text} → In t s → In (alt r t) s
  in_none : {r : Regex} {s : Text} → s ≡ [] → In (star r) s
  in_more :
      {r : Regex} {s : Text} (c : ℕ) (a b : Text)
      → In r (c ∷ a)
      → In (star r) b
      → s ≡ c ∷ (a ++ b)
      → In (star r) s

nullable_sound : (r : Regex) → nullable r ≡ true → In r []
unfolding nullable
nullable_sound fail h = absurd (ground arith)
nullable_sound epsilon h = in_epsilon refl
nullable_sound (chars n is) h = absurd (ground arith)
nullable_sound (seq r t) h =
    in_seq [] [] (nullable_sound r (ground arith)) (nullable_sound t (ground arith)) refl
nullable_sound (alt r t) h = elim (Bool-cases (nullable r)) [
  | inl yes_r ↦ in_left (nullable_sound r yes_r)
  | inr no_r ↦ in_right (nullable_sound t (ground arith))
]
nullable_sound (star r) h = in_none refl

nullable_complete : {r : Regex} {s : Text} → In r s → s ≡ [] → nullable r ≡ true
unfolding nullable
nullable_complete (in_epsilon e) z = refl
nullable_complete (in_chars c h e) z = ground arith
nullable_complete (in_seq [] b p q e) z =
    ground (arith, nullable_complete p refl, nullable_complete q)
nullable_complete (in_seq (c ∷ a) b p q e) z = ground arith
nullable_complete (in_left p) z = ground (arith, nullable_complete p)
nullable_complete (in_right p) z = ground (arith, nullable_complete p)
nullable_complete (in_none e) z = refl
nullable_complete (in_more c a b p q e) z = refl

not_fail : {s : Text} → ¬ (In fail s)
not_fail h = elim h [ ]

seq_of_sound : (r t : Regex) (s : Text) → In (seq_of r t) s → In (seq r t) s
unfolding seq_of
seq_of_sound fail t s p = absurd (not_fail p)
seq_of_sound epsilon t s p = in_seq [] s (in_epsilon refl) p refl
seq_of_sound _ t s p = p

seq_of_complete : (r t : Regex) (s : Text) → In (seq r t) s → In (seq_of r t) s
unfolding seq_of
seq_of_complete fail t s (in_seq a b p q e) = absurd (not_fail p)
seq_of_complete epsilon t s (in_seq a b (in_epsilon z) q e) = subst (In t) (cc) q
seq_of_complete _ t s p = p

alt_of_sound : (r t : Regex) (s : Text) → In (alt_of r t) s → In (alt r t) s
unfolding alt_of
alt_of_sound fail t s p = in_right p
alt_of_sound epsilon fail s p = in_left p
alt_of_sound (chars n is) fail s p = in_left p
alt_of_sound (seq q r) fail s p = in_left p
alt_of_sound (alt q r) fail s p = in_left p
alt_of_sound (star q) fail s p = in_left p
alt_of_sound _ _ s p = p

alt_of_complete : (r t : Regex) (s : Text) → In (alt r t) s → In (alt_of r t) s
unfolding alt_of
alt_of_complete fail t s (in_left p) = absurd (not_fail p)
alt_of_complete fail t s (in_right p) = p
alt_of_complete epsilon fail s (in_left p) = p
alt_of_complete (chars n is) fail s (in_left p) = p
alt_of_complete (seq q r) fail s (in_left p) = p
alt_of_complete (alt q r) fail s (in_left p) = p
alt_of_complete (star q) fail s (in_left p) = p
alt_of_complete _ fail s (in_right p) = absurd (not_fail p)
alt_of_complete _ _ s p = p

In-epsilon : {s : Text} → In epsilon s → s ≡ []
In-epsilon (in_epsilon e) = e

chars_head :
    (c : ℕ) (n : Bool) (is : List Item) (s : Text)
    → In (if class_has n is c then epsilon else fail) s
    → In (chars n is) (c ∷ s)
chars_head c n is s p = elim (Bool-cases (class_has n is c)) [
  | inl has ↦ in_chars c has (ap (◌∷◌ c) (In-epsilon (rw has at p)))
  | inr lacks ↦ absurd (not_fail (rw lacks at p))
]

seq_head :
    (c : ℕ) (r t : Regex) (s : Text)
    → ((u : Text) → In (derivative c r) u → In r (c ∷ u))
    → In (seq_of (derivative c r) t) s
    → In (seq r t) (c ∷ s)
seq_head c r t s ih p = elim (seq_of_sound (derivative c r) t s p) [
  | in_seq a b q w e ↦ in_seq (c ∷ a) b (ih a q) w (ap (◌∷◌ c) e)
]

star_head :
    (c : ℕ) (r : Regex) (s : Text)
    → ((u : Text) → In (derivative c r) u → In r (c ∷ u))
    → In (seq_of (derivative c r) (star r)) s
    → In (star r) (c ∷ s)
star_head c r s ih p = elim (seq_of_sound (derivative c r) (star r) s p) [
  | in_seq a b q w e ↦ in_more c a b (ih a q) w (ap (◌∷◌ c) e)
]

derivative_sound : (c : ℕ) (r : Regex) (s : Text) → In (derivative c r) s → In r (c ∷ s)
unfolding derivative
derivative_sound c fail s p = absurd (not_fail p)
derivative_sound c epsilon s p = absurd (not_fail p)
derivative_sound c (chars n is) s p = chars_head c n is s p
derivative_sound c (seq r t) s p = elim (Bool-cases (nullable r)) [
  | inl can ↦ elim (alt_of_sound (seq_of (derivative c r) t) (derivative c t) s (rw can at p)) [
    | in_left q ↦ seq_head c r t s (derivative_sound c r) q
    | in_right q ↦ in_seq [] (c ∷ s) (nullable_sound r can) (derivative_sound c t s q) refl
  ]
  | inr must ↦ seq_head c r t s (derivative_sound c r) (rw must at p)
]
derivative_sound c (alt r t) s p = elim (alt_of_sound (derivative c r) (derivative c t) s p) [
  | in_left q ↦ in_left (derivative_sound c r s q)
  | in_right q ↦ in_right (derivative_sound c t s q)
]
derivative_sound c (star r) s p = star_head c r s (derivative_sound c r) p

-- The other way round, by recursion on the derivation; the text is given by an equation.
derivative_complete :
    {r : Regex} {u : Text} (c : ℕ) (s : Text) → In r u → u ≡ c ∷ s → In (derivative c r) s
unfolding derivative
derivative_complete c s (in_epsilon e) z = absurd (ground arith)
derivative_complete c s (in_chars {n} {is} d h e) z =
    let has : class_has n is c ≡ true = subst (λ x. class_has n is x ≡ true) (cc) h in
    rw has (in_epsilon (cc))
derivative_complete c s (in_seq {r} {t} [] b p q e) z =
    rw (nullable_complete p refl)
      (alt_of_complete _ _ s (in_right (derivative_complete c s q (cc))))
derivative_complete c s (in_seq {r} {t} (d ∷ a) b p q e) z =
    let head =
      seq_of_complete (derivative c r) t s (in_seq a b (derivative_complete c a p (cc)) q (cc)) in
    elim (Bool-cases (nullable r)) [
      | inl can ↦ rw can (alt_of_complete _ _ s (in_left head))
      | inr must ↦ rw must head
    ]
derivative_complete c s (in_left p) z =
    alt_of_complete _ _ s (in_left (derivative_complete c s p z))
derivative_complete c s (in_right p) z =
    alt_of_complete _ _ s (in_right (derivative_complete c s p z))
derivative_complete c s (in_none e) z = absurd (ground arith)
derivative_complete c s (in_more {r} d a b p q e) z =
    seq_of_complete (derivative c r) (star r) s (in_seq a b (derivative_complete c a p (cc)) q (cc))

-- `full_match` accepts exactly the texts of the pattern's language.
pub full_match_iff : (r : Regex) (s : Text) → (full_match r s ≡ true) ↔ In r s
unfolding full_match
full_match_iff r [] = (nullable_sound r, λ p. nullable_complete p refl)
full_match_iff r (c ∷ s) =
    let ih = full_match_iff (derivative c r) s in
    ((λ h. derivative_sound c r s (ih.0 h)), λ p. ih.1 (derivative_complete c s p refl))

match_end-full : (r : Regex) (s : Text) → has b'\n' s ≡ false → match_end r s ≡ full_match r s
unfolding match_end full_match has any
match_end-full r [] h = refl
match_end-full r (c ∷ []) h = ground arith
match_end-full r (c ∷ d ∷ s) h = match_end-full (derivative c r) (d ∷ s) (ground arith)

-- On a text with no newline `re.match` of `^r$` decides the language of `r`: the leave that `$` gives
-- for a newline at the end does not matter.
pub match_end_iff : (r : Regex) (s : Text) → has b'\n' s ≡ false → (match_end r s ≡ true) ↔ In r s
match_end_iff r s h = rw (match_end-full r s h) (full_match_iff r s)

match_prefix_sound :
    (r : Regex) (s : Text)
    → match_prefix r s ≡ true
    → (a : Text) × (b : Text) × (s ≡ a ++ b) × In r a
unfolding match_prefix
match_prefix_sound r [] h = ([], [], refl, nullable_sound r h)
match_prefix_sound r (c ∷ s) h = elim (Bool-cases (nullable r)) [
  | inl can ↦ ([], c ∷ s, refl, nullable_sound r can)
  | inr must ↦
      let (a, b, e, p) = match_prefix_sound (derivative c r) s (ground arith) in
      (c ∷ a, b, ap (◌∷◌ c) e, derivative_sound c r a p)
]

pub match_prefix_complete : (r : Regex) (a b : Text) → In r a → match_prefix r (a ++ b) ≡ true
unfolding match_prefix
match_prefix_complete r [] [] p = nullable_complete p refl
match_prefix_complete r [] (c ∷ b) p = ground (arith, nullable_complete p refl)
match_prefix_complete r (c ∷ a) b p =
    ground (arith, match_prefix_complete (derivative c r) a b (derivative_complete c a p refl))
