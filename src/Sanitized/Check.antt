-- ===== src/Sanitized/Check.antt =====
-- What every `.of()` of models/sanitized.py is made of: a value is returned, or a `ValueError` names
-- the rule that it breaks.
use quadletman.Prelude.{
  ℕ, Bool, true, false, not, ◌||◌, List, [], ◌∷◌, ◌==◌, ◌≡◌, refl, arith, ltb, length, Text,
  is_empty, one_of,
}
use quadletman.Regex.{Regex, match_end}

-- The rule that a `ValueError` reports.
pub data Refusal : Type 0 where
  control_chars null_byte carriage_return too_long bad_format traversal : Refusal
  out_of_range open_redirect not_absolute not_a_choice : Refusal

pub data Checked {ℓ} (A : Type ℓ) : Type ℓ where
  ok : A → Checked A
  refused : Refusal → Checked A

infixl 5 ◌>>=◌ ◌>>◌
abbrev pub ◌>>=◌ {ℓ κ} : {A : Type ℓ} {B : Type κ} → Checked A → (A → Checked B) → Checked B
ok a >>= f = f a
refused r >>= f = refused r

abbrev pub ◌>>◌ {ℓ} : {B : Type ℓ} → Checked (Unit {0}) → Checked B → Checked B
m >> k = m >>= λ _. k

-- `if not …: raise ValueError(…)`
abbrev pub demand : Bool → Refusal → Checked (Unit {0})
demand true r = ok tt
demand false r = refused r

pub demand-ok :
    {A : Type 0} (b : Bool) (r : Refusal) (k : Checked A) (a : A)
    → demand b r >> k ≡ ok a
    → (b ≡ true) × (k ≡ ok a)
demand-ok true r k a h = (refl, h)
demand-ok false r k a h = absurd (ground arith)

-- `CONTROL_CHARS_RE.search(v)`
unfoldable pub has_control_chars : Text → Bool
has_control_chars [] = false
has_control_chars (c ∷ s) = (c == b'\r' || c == b'\n' || c == 0) || has_control_chars s

-- `_check_control_chars`
abbrev pub check_control_chars : Text → Checked (Unit {0})
check_control_chars v = demand (not (has_control_chars v)) control_chars

-- `len(value) > n`
abbrev pub check_length : ℕ → Text → Checked (Unit {0})
check_length n v = demand (not (ltb n (length v))) too_long

-- `if not RE.match(value)` for a pattern between `^` and `$`
abbrev pub check_match : Regex → Text → Checked (Unit {0})
check_match r v = demand (match_end r v) bad_format

-- `.of()` of a class whose only rules are the control characters and a pattern
unfoldable pub of_pattern : Regex → Text → Checked Text
unfolding has_control_chars match_end
of_pattern r v = do check_control_chars v; check_match r v; ok v

-- the same with `if value and not RE.match(value)`
unfoldable pub of_pattern_or_empty : Regex → Text → Checked Text
unfolding has_control_chars match_end is_empty
of_pattern_or_empty r v = do
  check_control_chars v
  demand (is_empty v || match_end r v) bad_format
  ok v

-- the same with a length limit before the pattern
unfoldable pub of_limited : ℕ → Regex → Text → Checked Text
unfolding has_control_chars match_end
of_limited n r v = do check_control_chars v; check_length n v; check_match r v; ok v

-- `if not value: return …` before everything else
unfoldable pub or_empty : (Text → Checked Text) → Text → Checked Text
or_empty of [] = ok []
or_empty of (c ∷ s) = of (c ∷ s)

-- `.of()` of a class with a fixed set of values
unfoldable pub of_choice : List Text → Text → Checked Text
unfolding has_control_chars one_of
of_choice choices v = do check_control_chars v; demand (one_of v choices) not_a_choice; ok v
