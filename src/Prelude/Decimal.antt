-- ===== src/Prelude/Decimal.antt =====
-- `str(n)` and `int(s)` of Python, in base 10.
pub mod RoundTrip
use Prim.Native.Nat.{ℕ, zero, suc, ◌+◌, ◌-◌, ◌*◌, ◌/◌, ◌%◌}
use mathlib.Core.Bool.{Bool, true, false, not, ◌&&◌}
use mathlib.Core.Option
use mathlib.Core.Option.{Option, none, some}
use mathlib.Core.List.{List, [], ◌∷◌, ◌++◌}
use quadletman.Prelude.Tests.{ltb, ◌==◌, if◌then◌else◌}
use quadletman.Prelude.Lists.{is_empty}
use quadletman.Prelude.Strings.{Text, within, is_space}
use quadletman.Prelude.Int.{ℤ, pos, negsuc}

-- The code points of value 0 in the category Nd; each is followed by the digits 1 to 9.
abbrev decimal_zeros : List ℕ
decimal_zeros =
    0x30 ∷ 0x660 ∷ 0x6f0 ∷ 0x7c0 ∷ 0x966 ∷ 0x9e6 ∷ 0xa66 ∷ 0xae6 ∷ 0xb66 ∷ 0xbe6 ∷ 0xc66 ∷ 0xce6
    ∷ 0xd66 ∷ 0xde6 ∷ 0xe50 ∷ 0xed0 ∷ 0xf20 ∷ 0x1040 ∷ 0x1090 ∷ 0x17e0 ∷ 0x1810 ∷ 0x1946 ∷ 0x19d0
    ∷ 0x1a80 ∷ 0x1a90 ∷ 0x1b50 ∷ 0x1bb0 ∷ 0x1c40 ∷ 0x1c50 ∷ 0xa620 ∷ 0xa8d0 ∷ 0xa900 ∷ 0xa9d0
    ∷ 0xa9f0 ∷ 0xaa50 ∷ 0xabf0 ∷ 0xff10 ∷ 0x104a0 ∷ 0x10d30 ∷ 0x11066 ∷ 0x110f0 ∷ 0x11136 ∷ 0x111d0
    ∷ 0x112f0 ∷ 0x11450 ∷ 0x114d0 ∷ 0x11650 ∷ 0x116c0 ∷ 0x11730 ∷ 0x118e0 ∷ 0x11950 ∷ 0x11c50
    ∷ 0x11d50 ∷ 0x11da0 ∷ 0x11f50 ∷ 0x16a60 ∷ 0x16ac0 ∷ 0x16b50 ∷ 0x1d7ce ∷ 0x1d7d8 ∷ 0x1d7e2
    ∷ 0x1d7ec ∷ 0x1d7f6 ∷ 0x1e140 ∷ 0x1e2f0 ∷ 0x1e4f0 ∷ 0x1e950 ∷ 0x1fbf0 ∷ []

digit_from : List ℕ → ℕ → Option ℕ
digit_from [] c = none
digit_from (z ∷ zs) c = if within z (z + 9) c then some (c - z) else digit_from zs c

-- The value of a character of `\d`.
unfoldable pub digit_value : ℕ → Option ℕ
unfolding digit_from
digit_value c = digit_from decimal_zeros c

unfoldable pub is_digit : ℕ → Bool
unfolding digit_value
is_digit c = elim (digit_value c) [ none ↦ false | some _ ↦ true ]

-- Digits from the right, with more fuel than there are digits.
show_from : ℕ → ℕ → Text
show_from zero n = []
show_from (suc f) n =
    let tens = show_from f (n / 10) in
    if ltb n 10 then (48 + n) ∷ [] else tens ++ (48 + n % 10) ∷ []

unfoldable pub show : ℕ → Text
unfolding show_from
show n = show_from (suc n) n

unfoldable pub show_int : ℤ → Text
unfolding show
show_int (pos n) = show n
show_int (negsuc n) = b'-' ∷ show (suc n)

-- One underscore may stand between two digits; the flag says that a digit stands just before.
value_from : ℕ → Bool → Text → Option ℕ
unfolding digit_value
value_from acc after_digit [] = if after_digit then some acc else none
value_from acc after_digit (c ∷ s) =
    let underscored = value_from acc false s in
    let next = λ (d : ℕ). value_from (acc * 10 + d) true s in
    elim (digit_value c) [
      | some d ↦ next d
      | none ↦ if after_digit && c == b'_' then underscored else none
    ]

digit_count : Text → ℕ
unfolding is_digit
digit_count [] = 0
digit_count (c ∷ s) = (if is_digit c then 1 else 0) + digit_count s

-- `int` of a text with no sign and no space: CPython refuses more than 4300 digits.
unfoldable pub read_digits : Text → Option ℕ
unfolding value_from digit_count
read_digits s = if ltb 4300 (digit_count s) then none else value_from 0 false s

-- The white space that `int` strips: `str.isspace` less the four separators 0x1c to 0x1f.
is_int_space : ℕ → Bool
unfolding is_space
is_int_space c = is_space c && not (within 28 31 c)

lstrip_int : Text → Text
unfolding is_int_space
lstrip_int [] = []
lstrip_int (c ∷ s) = if is_int_space c then lstrip_int s else c ∷ s

rstrip_int : Text → Text
unfolding is_int_space is_empty
rstrip_int [] = []
rstrip_int (c ∷ s) = let r = rstrip_int s in if is_empty r && is_int_space c then [] else c ∷ r

negated : ℕ → ℤ
negated zero = pos 0
negated (suc n) = negsuc n

signed : Text → Option ℤ
unfolding read_digits negated
signed [] = none
signed (c ∷ s) =
    if c == b'-'
    then Option.map negated (read_digits s)
    else Option.map pos (read_digits (if c == b'+' then s else c ∷ s))

-- `int(s)`; `none` is its `ValueError`.
unfoldable pub parse_int : Text → Option ℤ
unfolding signed lstrip_int rstrip_int
parse_int s = signed (lstrip_int (rstrip_int s))
