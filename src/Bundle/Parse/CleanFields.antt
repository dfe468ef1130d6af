-- ===== src/Bundle/Parse/CleanFields.antt =====
-- The fields, sections and names that the parser reads out of clean lines are clean.
use quadletman.Prelude.{
  Bool, true, false, not, ◌&&◌, ◌||◌, List, [], ◌∷◌, ◌++◌, Option, none, some, all, all-append, has,
  ◌≡◌, refl, ◌∙◌, arith, inl, inr, Bool-cases, Option-cases, Text, codes, is_empty, strip, before,
  after, split_lines, text_eq, starts_with, ends_with, lstrip,
}
use quadletman.Prelude.Dict.{lookup, insert}
use quadletman.Sanitized.Check.{ok, has_control_chars}
use quadletman.Bundle.Sections.{
  Fields, sections_from, split_sections, behind_literal, name_group, filename_in, filename_of,
  extract_filename, add_value, inner, ini_from, parse_ini_multi,
}
use quadletman.Bundle.Units.{values}
use quadletman.Bundle.Parse.Clean.{
  clean, clean-safe_str, strip-clean, lstrip-clean, after-clean, split_lines-clean, join-no_null,
}

abbrev pub clean_fields : Fields → Bool
clean_fields fields = all (λ e. all clean e.1) fields

pub values-clean :
    (key : Text) (fields : Fields)
    → clean_fields fields ≡ true
    → all clean (values key fields) ≡ true
unfolding values lookup all
values-clean key [] h = refl
values-clean key ((j, vs) ∷ fields) h = elim (Bool-cases (text_eq j key)) [
  | inl same ↦ rw (values, lookup, same) (ground arith)
  | inr other ↦ rw (values, lookup, other) (values-clean key fields (ground arith))
]

insert-clean :
    (key : Text) (vs : List Text) (fields : Fields)
    → all clean vs ≡ true
    → clean_fields fields ≡ true
    → clean_fields (insert key vs fields) ≡ true
unfolding insert all
insert-clean key vs [] h k = ground arith
insert-clean key vs ((j, ws) ∷ fields) h k = elim (Bool-cases (text_eq j key)) [
  | inl same ↦ rw (insert, same) (ground arith)
  | inr other ↦ rw (insert, other) (ground (arith, insert-clean key vs fields h))
]

lookup-clean :
    (key : Text) (fields : Fields) (vs : List Text)
    → clean_fields fields ≡ true
    → lookup key fields ≡ some vs
    → all clean vs ≡ true
unfolding lookup all
lookup-clean key [] vs h e = absurd (ground arith)
lookup-clean key ((j, ws) ∷ fields) vs h e = elim (Bool-cases (text_eq j key)) [
  | inl same ↦ let q : ws ≡ vs = ground arith in rw (← q) (ground arith)
  | inr other ↦ lookup-clean key fields vs (ground arith) (ground arith)
]

add_value-clean :
    (key value : Text) (fields : Fields)
    → clean value ≡ true
    → clean_fields fields ≡ true
    → clean_fields (add_value key value fields) ≡ true
unfolding add_value all
add_value-clean key value fields h k = go (lookup key fields) refl
  where
    go :
        (o : Option (List Text))
        → lookup key fields ≡ o
        → clean_fields (elim o [
          | none ↦ insert key (value ∷ []) fields
          | some vs ↦ insert key (vs ++ value ∷ []) fields
        ])
          ≡ true
    go none e = insert-clean key (value ∷ []) fields (ground arith) k
    go (some vs) e =
        insert-clean key (vs ++ value ∷ []) fields
          (all-append clean vs (value ∷ []) ∙ ground (arith, lookup-clean key fields vs k e)) k

ini_from-clean :
    (section : Text) (fields : Fields) (lines : List Text)
    → all clean lines ≡ true
    → clean_fields fields ≡ true
    → clean_fields (ini_from section fields lines) ≡ true
unfolding ini_from inner all
ini_from-clean section fields [] h k = k
ini_from-clean section fields (line ∷ lines) h k =
    let value = strip (after b'=' (strip line)) in
    let own : clean value ≡ true =
      strip-clean _ (after-clean b'=' _ (strip-clean line (ground arith))) in
    let later : all clean lines ≡ true = ground arith in
    let next = λ (name : Text). ini_from-clean name fields lines later k in
    elim (Bool-cases (is_empty (strip line) || starts_with (codes "#") (strip line))) [
      | inl skip ↦ rw (ini_from, skip) (next section)
      | inr kept ↦
          elim (Bool-cases
            (starts_with (codes "[") (strip line) && ends_with (codes "]") (strip line))) [
              | inl header ↦ rw (ini_from, kept, header) (next (inner (strip line)))
              | inr entry ↦ elim (Bool-cases (has b'=' (strip line))) [
                | inl sets ↦
                    rw (ini_from, kept, entry, sets)
                      (ini_from-clean section
                        (add_value (section ++ (codes "." ++ strip (before b'=' (strip line))))
                          value fields)
                        lines later
                        (add_value-clean
                          (section ++ (codes "." ++ strip (before b'=' (strip line)))) value fields
                          own k))
                | inr junk ↦ rw (ini_from, kept, entry, junk) (next section)
              ]
            ]
    ]

sections_from-clean :
    (current lines : List Text)
    → all clean current ≡ true
    → all clean lines ≡ true
    → all (λ s. not (has 0 s)) (sections_from current lines) ≡ true
unfolding sections_from all
sections_from-clean current [] h k = elim (Bool-cases (is_empty current)) [
  | inl e ↦ rw (sections_from, e) refl
  | inr f ↦ rw (sections_from, f) (ground (arith, join-no_null current h))
]
sections_from-clean current (line ∷ lines) h k =
    let later : all clean lines ≡ true = ground arith in
    let closed = sections_from-clean [] lines (unfold all in refl) later in
    elim (Bool-cases (text_eq (strip line) (codes "---"))) [
      | inl ends ↦ elim (Bool-cases (is_empty current)) [
        | inl bare ↦ rw (sections_from, ends, bare) closed
        | inr full ↦ rw (sections_from, ends, full) (ground (arith, join-no_null current h, closed))
      ]
      | inr more ↦
          rw (sections_from, more)
            (sections_from-clean (current ++ line ∷ []) lines
              (all-append clean current (line ∷ []) ∙ ground arith) later)
    ]

pub split_sections-clean :
    (content : Text)
    → has 0 content ≡ false
    → all (λ s. not (has 0 s)) (split_sections content) ≡ true
unfolding split_sections all
split_sections-clean content h =
    sections_from-clean [] (split_lines content) refl (split_lines-clean content h)

pub parse_ini_multi-clean :
    (section : Text) → has 0 section ≡ false → clean_fields (parse_ini_multi section) ≡ true
unfolding parse_ini_multi all
parse_ini_multi-clean section h =
    ini_from-clean [] [] (split_lines section) (split_lines-clean section h) refl

-- A name is found clean, or the empty name is given.
behind_literal-clean :
    (p s u : Text) → clean s ≡ true → behind_literal p s ≡ some u → clean u ≡ true
unfolding behind_literal has_control_chars
behind_literal-clean [] s u h e = ground arith
behind_literal-clean (c ∷ p) [] u h e = absurd (ground arith)
behind_literal-clean (c ∷ p) (d ∷ s) u h e =
    behind_literal-clean p s u (ground arith) (ground arith)

name_group-clean : (s u : Text) → clean s ≡ true → name_group s ≡ some u → clean u ≡ true
unfolding name_group
name_group-clean [] u h e = absurd (ground arith)
name_group-clean (c ∷ s) u h e =
    let same : strip (c ∷ s) ≡ u = ground arith in rw (← same) (strip-clean (c ∷ s) h)

-- One step of the match: what the next one gets is clean.
stage :
    (o : Option Text) (next : Text → Option Text) (u : Text)
    → ((s : Text) → o ≡ some s → next s ≡ some u → clean u ≡ true)
    → elim o [ none ↦ none | some s ↦ next s ] ≡ some u
    → clean u ≡ true
stage none next u h e = absurd (ground arith)
stage (some s) next u h e = h s refl e

filename_in-clean : (line u : Text) → clean line ≡ true → filename_in line ≡ some u → clean u ≡ true
unfolding filename_in
filename_in-clean line u h e =
    stage (behind_literal (codes "#") line) _ u
      (λ s es. stage (behind_literal (codes "FileName") (lstrip s)) _ u (λ t et.
        stage (behind_literal (codes "=") (lstrip t)) _ u (λ r er. name_group-clean (lstrip r) u (
          lstrip-clean r (
            behind_literal-clean (codes "=") (lstrip t) r
              (lstrip-clean t (
                behind_literal-clean (codes "FileName") (lstrip s) t
                  (lstrip-clean s (behind_literal-clean (codes "#") line s h es)) et))
              er)))))
      e

filename_of-clean :
    (lines : List Text)
    → all clean lines ≡ true
    → (name : Text) × (filename_of lines ≡ ok name) × (clean name ≡ true)
unfolding filename_of all
filename_of-clean [] h = ([], refl, unfold has_control_chars in refl)
filename_of-clean (line ∷ lines) h = elim (Option-cases (filename_in (strip line))) [
  | inl e ↦
      let (name, q, c) = filename_of-clean lines (ground arith) in (name, rw (filename_of, e) q, c)
  | inr (n, e) ↦
      let c = filename_in-clean (strip line) n (strip-clean line (ground arith)) e in
      (n, rw (filename_of, e) (clean-safe_str n c), c)
]

pub extract_filename-clean :
    (section : Text)
    → has 0 section ≡ false
    → (name : Text) × (extract_filename section ≡ ok name) × (clean name ≡ true)
unfolding extract_filename
extract_filename-clean section h =
    filename_of-clean (split_lines section) (split_lines-clean section h)
