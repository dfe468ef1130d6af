-- ===== src/Bundle/Parse/Clean.antt =====
-- Texts without a line feed, a carriage return or a null, and what keeps them so.
use quadletman.Prelude.{
  ℕ, Bool, true, false, not, ◌&&◌, ◌||◌, List, [], ◌∷◌, ◌++◌, all, any, has, ◌≡◌, refl, ◌∙◌, arith,
  inl, inr, Bool-cases, ◌==◌, Text, codes, is_empty, lstrip, rstrip, strip, before, after, drop_end,
  join, is_line_break, in_ranges, lines_from, split_lines,
}
use quadletman.Sanitized.Check.{ok, has_control_chars}
use quadletman.Sanitized.Names.{safe_str}

abbrev pub clean : Text → Bool
clean s = not (has_control_chars s)

pub clean-safe_str : (s : Text) → clean s ≡ true → safe_str s ≡ ok s
unfolding safe_str
clean-safe_str s h = ground arith

pub clean-append : (s t : Text) → clean (s ++ t) ≡ (clean s && clean t)
unfolding has_control_chars
clean-append [] t = refl
clean-append (c ∷ s) t = ground (arith, clean-append s t)

pub lstrip-clean : (s : Text) → clean s ≡ true → clean (lstrip s) ≡ true
unfolding has_control_chars lstrip
lstrip-clean [] h = refl
lstrip-clean (c ∷ s) h = ground (arith, lstrip-clean s)

rstrip-clean : (s : Text) → clean s ≡ true → clean (rstrip s) ≡ true
unfolding has_control_chars rstrip
rstrip-clean [] h = refl
rstrip-clean (c ∷ s) h = ground (arith, rstrip-clean s)

pub strip-clean : (s : Text) → clean s ≡ true → clean (strip s) ≡ true
unfolding strip
strip-clean s h = lstrip-clean (rstrip s) (rstrip-clean s h)

pub before-clean : (sep : ℕ) (s : Text) → clean s ≡ true → clean (before sep s) ≡ true
unfolding has_control_chars before
before-clean sep [] h = refl
before-clean sep (c ∷ s) h = ground (arith, before-clean sep s)

pub after-clean : (sep : ℕ) (s : Text) → clean s ≡ true → clean (after sep s) ≡ true
unfolding has_control_chars after
after-clean sep [] h = refl
after-clean sep (c ∷ s) h = ground (arith, after-clean sep s)

pub drop_end-clean : (k : ℕ) (s : Text) → clean s ≡ true → clean (drop_end k s) ≡ true
unfolding has_control_chars drop_end
drop_end-clean k [] h = refl
drop_end-clean k (c ∷ s) h = ground (arith, drop_end-clean k s)

-- A text without a null splits into clean lines.
soft-clean : (c : ℕ) → is_line_break c ≡ false → (c == 0) ≡ false → clean (c ∷ []) ≡ true
unfolding is_line_break in_ranges has_control_chars
soft-clean c h k = ground arith

lines_from-clean :
    (cr : Bool) (line s : Text)
    → clean line ≡ true
    → has 0 s ≡ false
    → all clean (lines_from cr line s) ≡ true
unfolding lines_from has any all has_control_chars
lines_from-clean cr line [] h k = elim (Bool-cases (is_empty line)) [
  | inl e ↦ rw (lines_from, e) refl
  | inr f ↦ rw (lines_from, f) (ground (arith, h))
]
lines_from-clean cr line (c ∷ s) h k = elim (Bool-cases (is_line_break c)) [
  | inl brk ↦
      let rest = lines_from-clean (c == b'\r') [] s refl (ground arith) in
      elim (Bool-cases (cr && c == b'\n')) [
        | inl pair ↦ rw (lines_from, brk, pair) rest
        | inr alone ↦ rw (lines_from, brk, alone) (ground (arith, h, rest))
      ]
  | inr soft ↦
      let longer : clean (line ++ c ∷ []) ≡ true =
        clean-append line (c ∷ []) ∙ ground (arith, h, soft-clean c soft) in
      rw (lines_from, soft) (lines_from-clean (c == b'\r') (line ++ c ∷ []) s longer (ground arith))
]

pub split_lines-clean : (s : Text) → has 0 s ≡ false → all clean (split_lines s) ≡ true
unfolding split_lines
split_lines-clean s h = lines_from-clean false [] s (unfold has_control_chars in refl) h

-- The lines of a section, joined again, hold no null.
pub clean-no_null : (s : Text) → clean s ≡ true → has 0 s ≡ false
unfolding has any has_control_chars
clean-no_null [] h = refl
clean-no_null (c ∷ s) h = ground (arith, clean-no_null s)

has-append : (c : ℕ) (s t : Text) → has c (s ++ t) ≡ (has c s || has c t)
unfolding has any
has-append c [] t = refl
has-append c (d ∷ s) t = ground (arith, has-append c s t)

pub join-no_null :
    (lines : List Text) → all clean lines ≡ true → has 0 (join (codes "\n") lines) ≡ false
unfolding all
join-no_null [] h = unfold has any in refl
join-no_null (l ∷ []) h = clean-no_null l (ground arith)
join-no_null (l ∷ m ∷ lines) h =
    has-append 0 l _
    ∙ ground (
      arith,
      clean-no_null l,
      has-append 0 (codes "\n") (join (codes "\n") (m ∷ lines)),
      join-no_null (m ∷ lines),
      newline_no_null,
    )
  where
    newline_no_null : has 0 (codes "\n") ≡ false
    newline_no_null = unfold has any in refl
