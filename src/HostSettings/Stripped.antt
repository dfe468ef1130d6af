-- ===== src/HostSettings/Stripped.antt =====
-- `strip` and `partition` on a line of the file of the settings.
use quadletman.Prelude.{
  ℕ, false, ◌||◌, [], ◌∷◌, ◌++◌, ◌≡◌, refl, sym, ap, subst, ◌∙◌, inl, inr, arith, Bool-cases, any,
  Text, is_empty, is_space, strip, lstrip, rstrip, has, before, after, in_ranges,
}

lstrip-head : (s : Text) (c : ℕ) (t : Text) → lstrip s ≡ c ∷ t → is_space c ≡ false
unfolding lstrip
lstrip-head [] c t h = absurd (ground arith)
lstrip-head (d ∷ s) c t h = elim (Bool-cases (is_space d)) [
  | inl e ↦ lstrip-head s c t (ground (arith, h, e))
  | inr e ↦ ground (arith, h, e)
]

-- A stripped text begins with no space, and `rstrip` leaves it as it is.
pub stripped-head : (c : ℕ) (s : Text) → strip (c ∷ s) ≡ c ∷ s → is_space c ≡ false
unfolding strip
stripped-head c s h = lstrip-head (rstrip (c ∷ s)) c s h

pub stripped-rstrip : (s : Text) → strip s ≡ s → rstrip s ≡ s
unfolding strip rstrip lstrip is_empty
stripped-rstrip [] h = refl
stripped-rstrip (c ∷ s) h = ground (arith, h, stripped-head c s h)

append-not_empty : (s t : Text) → is_empty t ≡ false → is_empty (s ++ t) ≡ false
unfolding is_empty
append-not_empty [] t h = h
append-not_empty (c ∷ s) t h = refl

pub rstrip-append : (s t : Text) → is_empty (rstrip t) ≡ false → rstrip (s ++ t) ≡ s ++ rstrip t
unfolding rstrip is_empty
rstrip-append [] t h = refl
rstrip-append (c ∷ s) t h = ground (arith, rstrip-append s t h, append-not_empty s (rstrip t) h)

pub rstrip-space : (s : Text) → rstrip (s ++ b' ' ∷ []) ≡ rstrip s
unfolding rstrip is_empty is_space in_ranges
rstrip-space [] = refl
rstrip-space (c ∷ s) = ground (arith, rstrip-space s)

pub lstrip-kept : (c : ℕ) (s : Text) → is_space c ≡ false → lstrip (c ∷ s) ≡ c ∷ s
unfolding lstrip
lstrip-kept c s h = ground (arith, h)

pub before-append : (c : ℕ) (s t : Text) → has c s ≡ false → before c (s ++ c ∷ t) ≡ s
unfolding has before any
before-append c [] t h = ground arith
before-append c (d ∷ s) t h = ground (arith, before-append c s t, h)

pub after-append : (c : ℕ) (s t : Text) → has c s ≡ false → after c (s ++ c ∷ t) ≡ t
unfolding has after any
after-append c [] t h = ground arith
after-append c (d ∷ s) t h = ground (arith, after-append c s t, h)

pub has-append : (c : ℕ) (s t : Text) → has c (s ++ t) ≡ (has c s || has c t)
unfolding has any
has-append c [] t = ground arith
has-append c (d ∷ s) t = ground (arith, has-append c s t)

lstrip-space : (s : Text) → lstrip (b' ' ∷ s) ≡ lstrip s
unfolding lstrip is_space in_ranges
lstrip-space s = refl

-- a stripped text behind a space
pub strip-spaced : (v : Text) → strip v ≡ v → strip (rstrip (b' ' ∷ v)) ≡ v
unfolding strip is_empty
strip-spaced [] h = unfold rstrip lstrip is_space in_ranges in refl
strip-spaced (c ∷ v) h =
    let whole = stripped-rstrip (c ∷ v) h in
    let filled = subst (λ (s : Text). is_empty s ≡ false) (sym whole) refl in
    let spaced : rstrip (b' ' ∷ c ∷ v) ≡ b' ' ∷ c ∷ v =
      rstrip-append (b' ' ∷ []) (c ∷ v) filled ∙ ap (◌∷◌ b' ') whole in
    let kept = lstrip-kept c v (stripped-head c v h) in
    ap (λ (s : Text). lstrip (rstrip s)) spaced ∙ ap lstrip spaced ∙ lstrip-space (c ∷ v) ∙ kept
