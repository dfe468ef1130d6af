-- ===== src/Prelude/Lines.antt =====
-- `str.splitlines` and `sep.join`.
use Prim.Native.Nat.{ℕ}
use mathlib.Core.Bool.{Bool, false, not, ◌&&◌}
use mathlib.Core.List.{List, [], ◌∷◌, ◌++◌}
use quadletman.Prelude.Tests.{◌==◌, if◌then◌else◌}
use quadletman.Prelude.Lists.{is_empty}
use quadletman.Prelude.Strings.{Text, in_ranges}

unfoldable pub is_line_break : ℕ → Bool
unfolding in_ranges
is_line_break c = in_ranges ((10, 13) ∷ (28, 30) ∷ (133, 133) ∷ (8232, 8233) ∷ []) c

abbrev pub join : Text → List Text → Text
join sep [] = []
join sep (x ∷ []) = x
join sep (x ∷ y ∷ r) = x ++ (sep ++ join sep (y ∷ r))

-- The flag says that the last character was a carriage return, which joins a newline behind it.
unfoldable pub lines_from : Bool → Text → Text → List Text
unfolding is_line_break is_empty
lines_from cr line [] = if is_empty line then [] else line ∷ []
lines_from cr line (c ∷ s) =
    let rest = lines_from (c == b'\r') (if is_line_break c then [] else line ++ c ∷ []) s in
    if is_line_break c && not (cr && c == b'\n') then line ∷ rest else rest

unfoldable pub split_lines : Text → List Text
unfolding lines_from
split_lines s = lines_from false [] s
