-- ===== src/Users/Subids/Ranges.antt =====
-- A new range of subordinate ids lies behind every range of the file.
use quadletman.Prelude.{
  ◌≤◌, ◌+◌, Bool, true, false, List, [], ◌∷◌, ◌++◌, Option, none, some, ◌≡◌, refl, inl, inr, arith,
  All, any, Option-cases, Text, codes, has_text, starts_with, starts_with-append, append_assoc,
  subst, ℤ, pos, negsuc, pos_part, neg_part, ◌+ℤ◌, ◌-ℤ◌, show_int,
}
use quadletman.Users.Subids.{
  Range, parse_range, raised, max_int, next_from, next_subid_start, subid_range_size, entry,
  setup_subids,
}

infix 50 ◌≤ℤ◌
abbrev pub ◌≤ℤ◌ : ℤ → ℤ → Type 0
a ≤ℤ b = pos_part a + neg_part b ≤ pos_part b + neg_part a

-- The range of a line, if it has one, ends at or below `n`.
abbrev pub EndsBelow : ℤ → Option Range → Type 0
EndsBelow n none = Unit
EndsBelow n (some r) = (r.start +ℤ r.count) ≤ℤ n

raised-le : (n : ℤ) (r : Option Range) → n ≤ℤ raised n r
unfolding max_int
raised-le n none = omega arith
raised-le n (some r) = ground arith

raised-EndsBelow : (n : ℤ) (r : Option Range) → EndsBelow (raised n r) r
unfolding max_int
raised-EndsBelow n none = tt
raised-EndsBelow n (some r) = ground arith

EndsBelow-le : (m n : ℤ) (r : Option Range) → m ≤ℤ n → EndsBelow m r → EndsBelow n r
EndsBelow-le m n none h e = tt
EndsBelow-le m n (some r) h e = omega arith

next_from-le : (n : ℤ) (lines : List Text) → n ≤ℤ next_from n lines
unfolding next_from
next_from-le n [] = omega arith
next_from-le n (line ∷ lines) =
    omega (arith, raised-le n (parse_range line), next_from-le (raised n (parse_range line)) lines)

pub next_from-EndsBelow :
    (n : ℤ) (lines : List Text) → All (λ l. EndsBelow (next_from n lines) (parse_range l)) lines
unfolding next_from
next_from-EndsBelow n [] = tt
next_from-EndsBelow n (line ∷ lines) =
    let m = raised n (parse_range line) in
    (
      EndsBelow-le m _ (parse_range line) (next_from-le m lines)
          (raised-EndsBelow n (parse_range line)),
      next_from-EndsBelow m lines,
    )

last_first : (s : ℤ) → (s +ℤ pos subid_range_size -ℤ pos 1) -ℤ s +ℤ pos 1 ≡ pos subid_range_size
last_first (pos n) = ground arith
last_first (negsuc n) = ground arith

-- `usermod --add-subuids FIRST-LAST` adds a line with the name, the first id and the number of ids.
abbrev pub Adds : (Text → ℤ → ℤ → List Text → Option (List Text)) → Type 0
Adds usermod =
    (username : Text) (first last : ℤ) (lines lines' : List Text)
    → usermod username first last lines ≡ some lines'
    → lines'
      ≡ lines
        ++ (username
            ++ (codes ":" ++ (show_int first ++ (codes ":" ++ show_int (last -ℤ first +ℤ pos 1)))))
          ∷ []

-- Where no line holds the name of the user with a colon: `_setup_subuid_subgid` adds one line, whether
-- `usermod` works or fails; the line gives the user 65536 ids from a number on that is at least
-- 100000, and at which every range of the file has ended, so that no id is given twice.
pub setup_subids-behind :
    (usermod : Text → ℤ → ℤ → List Text → Option (List Text))
    → Adds usermod
    → (username : Text) (lines : List Text) → any (has_text (username ++ codes ":")) lines ≡ false
    → (start : ℤ) × (setup_subids usermod username lines ≡ lines ++ entry username start ∷ [])
      × (pos 100000 ≤ℤ start)
      × All (λ l. EndsBelow start (parse_range l)) lines
unfolding setup_subids entry next_subid_start
setup_subids-behind usermod adds username lines fresh =
    let start = next_from (pos 100000) lines in
    let last = start +ℤ pos subid_range_size -ℤ pos 1 in
    (
      start,
      elim (Option-cases (usermod username start last lines)) [
        | inl e ↦ rw (fresh, e) refl
        | inr (lines', e) ↦
            rw (fresh, e) (rw (adds username start last lines lines' e, last_first start) refl)
      ],
      next_from-le (pos 100000) lines,
      next_from-EndsBelow (pos 100000) lines,
    )

has_text-starts : (needle s : Text) → starts_with needle s ≡ true → has_text needle s ≡ true
unfolding has_text
has_text-starts needle [] h = h
has_text-starts needle (c ∷ s) h = rw h refl

has_text-append : (needle pre post : Text) → has_text needle (pre ++ (needle ++ post)) ≡ true
unfolding has_text
has_text-append needle [] post =
    has_text-starts needle (needle ++ post) (starts_with-append needle post)
has_text-append needle (c ∷ pre) post = ground (arith, has_text-append needle pre post)

regroup : (a b c d : Text) → a ++ ((b ++ c) ++ d) ≡ (a ++ b) ++ (c ++ d)
regroup a b c d = simp append_assoc

has_name-suffix :
    (other name colon post : Text)
    → has_text (name ++ colon) ((other ++ name) ++ (colon ++ post)) ≡ true
has_name-suffix other name colon post =
    subst (λ (l : Text). has_text (name ++ colon) l ≡ true) (regroup other name colon post)
      (has_text-append (name ++ colon) other post)

any-append :
    (p : Text → Bool) (xs ys : List Text) (x : Text) → p x ≡ true → any p (xs ++ x ∷ ys) ≡ true
unfolding any
any-append p [] ys x h = rw h refl
any-append p (y ∷ xs) ys x h = ground (arith, any-append p xs ys x h)

-- A user whose name ends like that of another user who has a range, such as `qm-b` beside `qm-a-qm-b`:
-- `_setup_subuid_subgid` takes the line of the other user for its own and changes nothing.
pub setup_subids-skips_suffix :
    (usermod : Text → ℤ → ℤ → List Text → Option (List Text)) (other username : Text) (start : ℤ)
    (xs ys : List Text)
    → setup_subids usermod username (xs ++ entry (other ++ username) start ∷ ys)
      ≡ xs ++ entry (other ++ username) start ∷ ys
unfolding setup_subids entry
setup_subids-skips_suffix usermod other username start xs ys =
    let post = show_int start ++ (codes ":" ++ show_int (pos subid_range_size)) in
    rw
      (any-append (has_text (username ++ codes ":")) xs ys (entry (other ++ username) start)
        (has_name-suffix other username (codes ":") post))
      refl
