-- ===== src/Regex/Tests.antt =====
-- Runs of the matcher.
use quadletman.Prelude.{true, false, [], ◌∷◌, ◌≡◌, refl, codes}
use quadletman.Regex.{chars, span, seq, star, full_match, match_end}

-- `^a[b]*$` takes one newline at the end.
newline_at_end :
    match_end
      (seq (chars false (span b'a' b'a' ∷ [])) (star (chars false (span b'b' b'b' ∷ []))))
      (codes "abb\n")
    ≡ true
unfolding match_end full_match
newline_at_end = refl
