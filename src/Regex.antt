-- ===== src/Regex.antt =====
-- The part of Python's `re` that models/constraints.py uses: patterns as data, and `re.match` by
-- derivatives. A pattern has no groups that are read back, so only the language counts.
pub mod Language
pub mod Classes
mod Tests
use quadletman.Prelude.{
  ℕ, zero, suc, ◌-◌, Bool, true, false, not, ◌&&◌, ◌||◌, List, [], ◌∷◌, ◌==◌, if◌then◌else◌, Text,
  within, in_ranges, is_digit, is_space,
}

-- One item of a bracket expression, or a class such as `\d`.
pub data Item : Type 0 where
  span : ℕ → ℕ → Item
  digit : Item
  space : Item

pub data Regex : Type 0 where
  fail : Regex
  epsilon : Regex
  -- the flag is the `^` of a negated class
  chars : Bool → List Item → Regex
  seq : Regex → Regex → Regex
  alt : Regex → Regex → Regex
  star : Regex → Regex

unfoldable pub item_has : Item → ℕ → Bool
unfolding is_digit is_space
item_has (span lo hi) c = within lo hi c
item_has digit c = is_digit c
item_has space c = is_space c

unfoldable pub items_have : List Item → ℕ → Bool
unfolding item_has
items_have [] c = false
items_have (i ∷ is) c = item_has i c || items_have is c

unfoldable pub class_has : Bool → List Item → ℕ → Bool
unfolding items_have
class_has negated is c = if negated then not (items_have is c) else items_have is c

-- Whether the pattern matches the empty text.
unfoldable pub nullable : Regex → Bool
nullable fail = false
nullable epsilon = true
nullable (chars n is) = false
nullable (seq r s) = nullable r && nullable s
nullable (alt r s) = nullable r || nullable s
nullable (star r) = true

-- Smart constructors keep derivatives small.
seq_of : Regex → Regex → Regex
seq_of fail s = fail
seq_of epsilon s = s
seq_of r s = seq r s

alt_of : Regex → Regex → Regex
alt_of fail s = s
alt_of r fail = r
alt_of r s = alt r s

-- What is left to match after `c`.
unfoldable pub derivative : ℕ → Regex → Regex
unfolding class_has nullable seq_of alt_of
derivative c fail = fail
derivative c epsilon = fail
derivative c (chars n is) = if class_has n is c then epsilon else fail
derivative c (seq r s) =
    let first = seq_of (derivative c r) s in
    let second = derivative c s in if nullable r then alt_of first second else first
derivative c (alt r s) = alt_of (derivative c r) (derivative c s)
derivative c (star r) = seq_of (derivative c r) (star r)

-- The whole text is in the language.
unfoldable pub full_match : Regex → Text → Bool
unfolding derivative
full_match r [] = nullable r
full_match r (c ∷ s) = full_match (derivative c r) s

-- `^r$`: `$` also stands before a newline that ends the text.
unfoldable pub match_end : Regex → Text → Bool
unfolding derivative
match_end r [] = nullable r
match_end r (c ∷ []) = full_match (derivative c r) [] || c == b'\n' && nullable r
match_end r (c ∷ d ∷ s) = match_end (derivative c r) (d ∷ s)

-- `^r` with no `$`: some prefix is in the language.
unfoldable pub match_prefix : Regex → Text → Bool
unfolding derivative
match_prefix r [] = nullable r
match_prefix r (c ∷ s) = nullable r || match_prefix (derivative c r) s

-- `r?`, `r+`, `r{n}` and `r{0,n}`
unfoldable pub optional : Regex → Regex
optional r = alt epsilon r

unfoldable pub plus : Regex → Regex
plus r = seq r (star r)

unfoldable pub times : ℕ → Regex → Regex
times zero r = epsilon
times (suc n) r = seq r (times n r)

unfoldable pub up_to : ℕ → Regex → Regex
up_to zero r = epsilon
up_to (suc n) r = alt epsilon (seq r (up_to n r))

-- A literal text of a pattern.
unfoldable pub literal : Text → Regex
literal [] = epsilon
literal (c ∷ s) = seq (chars false (span c c ∷ [])) (literal s)
