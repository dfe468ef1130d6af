-- ===== src/Regex/Classes.antt =====
-- Inversion of membership for the shapes that the patterns are made of: repeated classes.
use quadletman.Prelude.{
  ℕ, zero, suc, ◌≤◌, true, false, List, [], ◌∷◌, ◌≡◌, ◌≢◌, refl, arith, Text, all, length,
}
use quadletman.Regex.{Item, chars, star, items_have, class_has, plus, up_to}
use quadletman.Regex.Language.{
  In, in_epsilon, in_chars, in_seq, in_left, in_right, in_none, in_more,
}

module _ (is : List Item) where
  -- one character of the class
  pub In-class :
      {s : Text} → In (chars false is) s → (c : ℕ) × (s ≡ c ∷ []) × (items_have is c ≡ true)
  unfolding class_has
  In-class (in_chars c h e) = (c, e, h)

  pub In-star : {s : Text} → In (star (chars false is)) s → all (items_have is) s ≡ true
  unfolding all
  In-star (in_none e) = ground arith
  In-star (in_more c a b p q e) = let (d, z, h) = In-class p in ground (arith, In-star q)

  pub In-plus :
      {s : Text} → In (plus (chars false is)) s → (all (items_have is) s ≡ true) × (s ≢ [])
  unfolding plus all
  In-plus (in_seq a b p q e) =
      let (d, z, h) = In-class p in (ground (arith, In-star q), λ w. ground arith)

  pub In-up_to :
      (n : ℕ) {s : Text}
      → In (up_to n (chars false is)) s
      → (all (items_have is) s ≡ true) × (length s ≤ n)
  unfolding up_to all
  In-up_to zero (in_epsilon e) = ground arith
  In-up_to (suc n) (in_left (in_epsilon e)) = ground arith
  In-up_to (suc n) (in_right (in_seq a b p q e)) =
      let (d, z, h) = In-class p in ground (arith, In-up_to n q)

  pub star-In : (s : Text) → all (items_have is) s ≡ true → In (star (chars false is)) s
  unfolding all class_has
  star-In [] h = in_none refl
  star-In (c ∷ s) h =
      in_more c [] s (in_chars c (ground arith) refl) (star-In s (ground arith)) refl

  pub up_to-In :
      (n : ℕ) (s : Text)
      → all (items_have is) s ≡ true
      → length s ≤ n
      → In (up_to n (chars false is)) s
  unfolding all class_has up_to
  up_to-In zero [] h l = in_epsilon refl
  up_to-In zero (c ∷ s) h l = absurd (omega arith)
  up_to-In (suc n) [] h l = in_left (in_epsilon refl)
  up_to-In (suc n) (c ∷ s) h l = in_right (
      in_seq (c ∷ []) s (in_chars c (ground arith) refl) (up_to-In n s (ground arith) (omega arith))
        refl)
