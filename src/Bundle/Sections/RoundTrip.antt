-- ===== src/Bundle/Sections/RoundTrip.antt =====
-- The sections that `export_service_bundle` joins are those that `_split_sections` finds.
use quadletman.Prelude.{
  append_assoc, ℕ, Bool, true, false, not, ◌&&◌, List, [], ◌∷◌, ◌++◌, map, ◌≡◌, refl, sym, ap, ◌∙◌,
  arith, ◌==◌, Text, codes, text_eq, is_empty, strip, any, all, all-append, join, in_ranges,
  is_line_break, lines_from, split_lines,
}
use quadletman.Bundle.Sections.{sections_from, split_sections, bundle_text}

-- A line without a line break, and a line that closes no section.
abbrev pub plain : Text → Bool
plain line = not (any is_line_break line)

abbrev pub delimiter : Text → Bool
delimiter line = text_eq (strip line) (codes "---")

-- The lines of a section: there is one, all are plain, none is a delimiter.
abbrev pub section_lines : List Text → Bool
section_lines lines = not (is_empty lines) && all (λ l. plain l && not (delimiter l)) lines

append-nil {ℓ} : {A : Type ℓ} (s : List A) → s ++ [] ≡ s
append-nil [] = refl
append-nil (c ∷ s) = ap (◌∷◌ c) (append-nil s)

-- Every line with its line feed.
abbrev terminated : List Text → Text
terminated [] = []
terminated (l ∷ ls) = l ++ (b'\n' ∷ terminated ls)

plain-not_return : (c : ℕ) → is_line_break c ≡ false → (c == b'\r') ≡ false
unfolding is_line_break in_ranges
plain-not_return c h = ground arith

pub lines_from-plain :
    (line p rest : Text)
    → plain p ≡ true
    → lines_from false line (p ++ b'\n' ∷ rest) ≡ (line ++ p) ∷ lines_from false [] rest
unfolding lines_from any
lines_from-plain line [] rest h =
    unfold is_line_break in_ranges in ap (λ l. l ∷ lines_from false [] rest) (sym (append-nil line))
lines_from-plain line (c ∷ p) rest h =
    let soft : is_line_break c ≡ false = ground arith in
    rw (lines_from, soft, plain-not_return c soft)
      (lines_from-plain (line ++ c ∷ []) p rest (ground arith)
        ∙ ap (λ l. l ∷ lines_from false [] rest) (append_assoc line (c ∷ []) p))

split_lines-terminated : (ls : List Text) → all plain ls ≡ true → split_lines (terminated ls) ≡ ls
unfolding split_lines lines_from all
split_lines-terminated [] h = unfold is_empty in refl
split_lines-terminated (l ∷ ls) h =
    lines_from-plain [] l (terminated ls) (ground arith)
    ∙ ap (◌∷◌ l) (split_lines-terminated ls (ground arith))

-- The loop gathers the lines of a section up to the delimiter, or up to the end.
sections_from-delimited :
    (current ls rest : List Text)
    → all (λ l. plain l && not (delimiter l)) ls ≡ true
    → is_empty (current ++ ls) ≡ false
    → sections_from current (ls ++ codes "---" ∷ rest)
      ≡ join (codes "\n") (current ++ ls) ∷ sections_from [] rest
unfolding sections_from all
sections_from-delimited current [] rest h k =
    let filled : is_empty current ≡ false = rw (append-nil current) at k in
    rw (append-nil current, sections_from, filled) refl
sections_from-delimited current (l ∷ ls) rest h k =
    let inside : text_eq (strip l) (codes "---") ≡ false = ground arith in
    rw (sections_from, inside)
      (sections_from-delimited (current ++ l ∷ []) ls rest (ground arith)
          (rw (append_assoc current (l ∷ []) ls) k)
        ∙ ap (λ c. join (codes "\n") c ∷ sections_from [] rest) (append_assoc current (l ∷ []) ls))

sections_from-end :
    (current ls : List Text)
    → all (λ l. plain l && not (delimiter l)) ls ≡ true
    → is_empty (current ++ ls) ≡ false
    → sections_from current ls ≡ join (codes "\n") (current ++ ls) ∷ []
unfolding sections_from all
sections_from-end current [] h k =
    let filled : is_empty current ≡ false = rw (append-nil current) at k in
    rw (append-nil current, sections_from, filled) refl
sections_from-end current (l ∷ ls) h k =
    let inside : text_eq (strip l) (codes "---") ≡ false = ground arith in
    rw (sections_from, inside)
      (sections_from-end (current ++ l ∷ []) ls (ground arith)
          (rw (append_assoc current (l ∷ []) ls) k)
        ∙ ap (λ c. join (codes "\n") c ∷ []) (append_assoc current (l ∷ []) ls))

-- The lines of a bundle: those of its sections, with a delimiter between two.
abbrev weave : List Text → List (List Text) → List Text
weave ls [] = ls
weave ls (ms ∷ rest) = ls ++ codes "---" ∷ weave ms rest

terminated-append : (ls ms : List Text) → terminated (ls ++ ms) ≡ terminated ls ++ terminated ms
terminated-append [] ms = refl
terminated-append (l ∷ ls) ms =
    ap (λ t. l ++ (b'\n' ∷ t)) (terminated-append ls ms)
    ∙ sym (append_assoc l (b'\n' ∷ terminated ls) (terminated ms))

join-terminated :
    (l : Text) (ls : List Text) → join (codes "\n") (l ∷ ls) ++ codes "\n" ≡ terminated (l ∷ ls)
join-terminated l [] = refl
join-terminated l (m ∷ ls) =
    append_assoc l (codes "\n" ++ join (codes "\n") (m ∷ ls)) (codes "\n")
    ∙ ap (λ t. l ++ (b'\n' ∷ t)) (join-terminated m ls)

section-terminated :
    (ls : List Text) → section_lines ls ≡ true → join (codes "\n") ls ++ codes "\n" ≡ terminated ls
unfolding is_empty
section-terminated [] h = absurd (ground arith)
section-terminated (l ∷ ls) h = join-terminated l ls

bundle_text-terminated :
    (ls : List Text) (rest : List (List Text))
    → section_lines ls ≡ true
    → all section_lines rest ≡ true
    → bundle_text (map (join (codes "\n")) (ls ∷ rest)) ≡ terminated (weave ls rest)
unfolding bundle_text all
bundle_text-terminated ls [] h k = section-terminated ls h
bundle_text-terminated ls (ms ∷ rest) h k =
    let text = join (codes "\n") ls in
    let others = map (join (codes "\n")) (ms ∷ rest) in
    let ih = bundle_text-terminated ms rest (ground arith) (ground arith) in
    append_assoc text (codes "\n---\n" ++ join (codes "\n---\n") others) (codes "\n")
    ∙ ap (λ t. text ++ (codes "\n---\n" ++ t)) ih
    ∙ sym (append_assoc text (codes "\n") (codes "---\n" ++ terminated (weave ms rest)))
    ∙ ap (λ t. t ++ (codes "---\n" ++ terminated (weave ms rest))) (section-terminated ls h)
    ∙ sym (terminated-append ls (codes "---" ∷ weave ms rest))

all-weaken :
    (ls : List Text) → all (λ l. plain l && not (delimiter l)) ls ≡ true → all plain ls ≡ true
unfolding all
all-weaken [] h = refl
all-weaken (l ∷ ls) h = ground (arith, all-weaken ls)

weave-plain :
    (ls : List Text) (rest : List (List Text))
    → section_lines ls ≡ true
    → all section_lines rest ≡ true
    → all plain (weave ls rest) ≡ true
unfolding all any is_line_break
weave-plain ls [] h k = all-weaken ls (ground arith)
weave-plain ls (ms ∷ rest) h k =
    let tail = weave-plain ms rest (ground arith) (ground arith) in
    let own = all-weaken ls (ground arith) in
    all-append plain ls (codes "---" ∷ weave ms rest) ∙ rw own tail

sections_from-weave :
    (ls : List Text) (rest : List (List Text))
    → section_lines ls ≡ true
    → all section_lines rest ≡ true
    → sections_from [] (weave ls rest) ≡ map (join (codes "\n")) (ls ∷ rest)
unfolding all
sections_from-weave ls [] h k = sections_from-end [] ls (ground arith) (ground arith)
sections_from-weave ls (ms ∷ rest) h k =
    sections_from-delimited [] ls (weave ms rest) (ground arith) (ground arith)
    ∙ ap (◌∷◌ (join (codes "\n") ls)) (sections_from-weave ms rest (ground arith) (ground arith))

-- `_split_sections` finds in a bundle text the sections it was joined from, for sections of at least
-- one line whose lines hold no line break and are, stripped, not `---`.
pub split_sections-bundle_text :
    (ls : List Text) (rest : List (List Text))
    → section_lines ls ≡ true
    → all section_lines rest ≡ true
    → split_sections (bundle_text (map (join (codes "\n")) (ls ∷ rest)))
      ≡ map (join (codes "\n")) (ls ∷ rest)
unfolding split_sections
split_sections-bundle_text ls rest h k = rw (bundle_text-terminated ls rest h k) (
    ap (sections_from []) (split_lines-terminated (weave ls rest) (weave-plain ls rest h k))
    ∙ sections_from-weave ls rest h k)
