-- ===== src/Notifications/Updates/Keys.antt =====
-- Which updates `notify` takes as new, by their keys.
use quadletman.Prelude.{
  ℕ, ◌+◌, Bool, true, false, not, ◌&&◌, ◌||◌, List, [], ◌∷◌, ◌++◌, if◌then◌else◌, ◌≡◌, refl, sym,
  ap, subst, inl, inr, arith, Bool-cases, any, Text, text_eq, text_eq_iff, one_of,
}
use quadletman.Compartments.Patterns.{delete_where}
use quadletman.Notifications.Updates.{Update, is_pending, dedup_key, still_pending, notify}

-- `w` for each update that has the key
unfoldable pub weigh : Text → ℕ → List Update → ℕ
unfolding text_eq
weigh k w [] = 0
weigh k w (u ∷ us) = let rest = weigh k w us in if text_eq k (dedup_key u) then w + rest else rest

one_of-append :
    (k t : Text) (ts : List Text) → one_of k (ts ++ t ∷ []) ≡ (text_eq k t || one_of k ts)
unfolding one_of any
one_of-append k t [] = ground arith
one_of-append k t (s ∷ ts) = ground (arith, one_of-append k t ts)

module _ (k : Text) (w : ℕ) where
  pub notify-fires :
      (us : List Update) (notified : List Text)
      → (weigh k w (notify us notified).1
          ≡ (if one_of k (still_pending us) && not (one_of k notified) then w else 0))
        × (one_of k (notify us notified).0 ≡ (one_of k (still_pending us) || one_of k notified))
  unfolding notify still_pending weigh one_of any
  notify-fires [] notified = (refl, refl)
  notify-fires (u ∷ us) notified =
      let skipped = notify-fires us notified in
      let taken = notify-fires us (notified ++ dedup_key u ∷ []) in
      let added = one_of-append k (dedup_key u) notified in
      elim (Bool-cases (is_pending u)) [
        | inr over ↦ (ground (arith, skipped.0, over), ground (arith, skipped.1, over))
        | inl pending ↦ elim (Bool-cases (one_of (dedup_key u) notified)) [
          | inl known ↦ elim (Bool-cases (text_eq k (dedup_key u))) [
            | inl same ↦
                let found =
                  subst (λ (t : Text). one_of t notified ≡ true)
                    (sym ((text_eq_iff k (dedup_key u)).0 same)) known in
                (
                  ground (arith, skipped.0, pending, known, same, found),
                  ground (arith, skipped.1, pending, known, same, found),
                )
            | inr other ↦ (
              ground (arith, skipped.0, pending, known, other),
              ground (arith, skipped.1, pending, known, other),
            )
          ]
          | inr new ↦ elim (Bool-cases (text_eq k (dedup_key u))) [
            | inl same ↦
                let missing =
                  subst (λ (t : Text). one_of t notified ≡ false)
                    (sym ((text_eq_iff k (dedup_key u)).0 same)) new in
                (
                  ground (arith, taken.0, pending, new, same, missing, added),
                  ground (arith, taken.1, pending, new, same, missing, added),
                )
            | inr other ↦ (
              ground (arith, taken.0, pending, new, other, added),
              ground (arith, taken.1, pending, new, other, added),
            )
          ]
        ]
      ]

pub one_of-delete_where :
    (k : Text) (test : Text → Bool) (ts : List Text)
    → one_of k (delete_where test ts) ≡ (one_of k ts && not (test k))
unfolding one_of any delete_where
one_of-delete_where k test [] = refl
one_of-delete_where k test (t ∷ ts) =
    let ih = one_of-delete_where k test ts in
    elim (Bool-cases (text_eq k t)) [
      | inl same ↦ let here = ap test ((text_eq_iff k t).0 same) in ground (arith, ih, same, here)
      | inr other ↦ ground (arith, ih, other)
    ]
