-- ===== src/HostSettings/Sorted.antt =====
-- Sorting the settings by name.
use quadletman.Prelude.{
  true, false, [], ◌∷◌, none, some, if◌then◌else◌, ◌≡◌, refl, subst, ◌∙◌, inl, inr, arith,
  Bool-cases, Text, text_eq, text_eq_iff, text_ltb,
}
use quadletman.Prelude.Dict.{Dict, lookup}
use quadletman.HostSettings.{place_entry, sorted}

pub text_ltb-irreflexive : (s : Text) → text_ltb s s ≡ false
unfolding text_ltb
text_ltb-irreflexive [] = refl
text_ltb-irreflexive (c ∷ s) = ground (arith, text_ltb-irreflexive s)

pub text_ltb-apart : (s t : Text) → text_ltb s t ≡ true → text_eq s t ≡ false
text_ltb-apart s t h = elim (Bool-cases (text_eq s t)) [
  | inr e ↦ e
  | inl e ↦
      let less = subst (λ (x : Text). text_ltb x t ≡ true) ((text_eq_iff s t).0 e) h in
      absurd (ground (arith, less, text_ltb-irreflexive t))
]

-- Each entry stands where it is found, whatever its place.
pub lookup-place_entry :
    (k : Text) (e : Text × Text) (d : Dict Text)
    → lookup k (place_entry e d) ≡ (if text_eq e.0 k then some e.1 else lookup k d)
unfolding place_entry lookup
lookup-place_entry k (j, v) [] = refl
lookup-place_entry k (j, v) ((i, w) ∷ d) = elim (Bool-cases (text_ltb i j)) [
  | inr e ↦ rw e refl
  | inl e ↦
      let apart = text_ltb-apart i j e in
      rw e (
        ground (
          arith,
          lookup-place_entry k (j, v) d,
          apart,
          text_eq_iff i j,
          text_eq_iff i k,
          text_eq_iff j k,
        ))
]

pub lookup-sorted : (k : Text) (d : Dict Text) → lookup k (sorted d) ≡ lookup k d
unfolding sorted lookup
lookup-sorted k [] = refl
lookup-sorted k ((j, v) ∷ d) = lookup-place_entry k (j, v) (sorted d) ∙ rw (lookup-sorted k d) refl

-- No key stands twice.
abbrev pub AreDistinct : Dict Text → Type 0
AreDistinct [] = Unit
AreDistinct ((k, v) ∷ d) = (lookup k d ≡ none) × AreDistinct d

pub place_entry-AreDistinct :
    (e : Text × Text) (d : Dict Text)
    → lookup e.0 d ≡ none
    → AreDistinct d
    → AreDistinct (place_entry e d)
unfolding place_entry lookup
place_entry-AreDistinct (j, v) [] h a = (refl, tt)
place_entry-AreDistinct (j, v) ((i, w) ∷ d) h a = elim (Bool-cases (text_ltb i j)) [
  | inr e ↦ rw e (h, a)
  | inl e ↦
      let apart = text_ltb-apart i j e in
      rw e (
        lookup-place_entry i (j, v) d
            ∙ ground (arith, apart, a.0, text_eq_iff i j, text_eq_iff j i),
        place_entry-AreDistinct (j, v) d (ground (arith, h, apart)) a.1,
      )
]

pub sorted-AreDistinct : (d : Dict Text) → AreDistinct d → AreDistinct (sorted d)
unfolding sorted
sorted-AreDistinct [] a = tt
sorted-AreDistinct ((k, v) ∷ d) a =
    place_entry-AreDistinct (k, v) (sorted d) (lookup-sorted k d ∙ a.0) (sorted-AreDistinct d a.1)
