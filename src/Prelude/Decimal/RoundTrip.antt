-- ===== src/Prelude/Decimal/RoundTrip.antt =====
-- `int` reads what `str` wrote.
use Prim.Native.Nat.{ℕ, zero, suc, ◌+◌, ◌-◌, ◌*◌, ◌/◌, ◌%◌, ◌^◌, ◌<◌, ◌≤◌}
use mathlib.Core.Path.{◌≡◌, refl, ap, ◌∙◌}
use mathlib.Core.Logic.{inl, inr}
use mathlib.Core.Bool.{Bool, true, false, ◌&&◌}
use mathlib.Core.Option.{none, some}
use mathlib.Core.List.{[], ◌∷◌, ◌++◌}
use native.Mathlib.Omega.{arith}
use quadletman.Prelude.Tests.{Bool-cases, ltb, if◌then◌else◌}
use quadletman.Prelude.Lists.{is_empty, all, all-append, length, length-append}
use quadletman.Prelude.Strings.{Text, within, is_space, in_ranges}
use quadletman.Prelude.Int.{pos}
use quadletman.Prelude.Decimal.{
  digit_value, digit_from, is_digit, show_from, show, value_from, digit_count, read_digits,
  is_int_space, lstrip_int, rstrip_int, signed, parse_int,
}

-- The digits 0 to 9.
abbrev pub is_decimal : ℕ → Bool
is_decimal c = within 48 57 c

abbrev value_of : ℕ → Text → ℕ
value_of acc [] = acc
value_of acc (c ∷ s) = value_of (acc * 10 + (c - 48)) s

value_of-append :
    (acc : ℕ) (s : Text) (c : ℕ) → value_of acc (s ++ c ∷ []) ≡ value_of acc s * 10 + (c - 48)
value_of-append acc [] c = refl
value_of-append acc (d ∷ s) c = value_of-append (acc * 10 + (d - 48)) s c

digit_value-decimal : (c : ℕ) → is_decimal c ≡ true → digit_value c ≡ some (c - 48)
unfolding digit_value digit_from
digit_value-decimal c h = ground arith

pub decimal-is_digit : (c : ℕ) → is_decimal c ≡ true → is_digit c ≡ true
unfolding is_digit
decimal-is_digit c h = rw (is_digit, digit_value-decimal c h) refl

value_from-decimal :
    (acc : ℕ) (after_digit : Bool) (s : Text)
    → all is_decimal s ≡ true
    → (is_empty s && ltb 0 (if after_digit then 0 else 1)) ≡ false
    → value_from acc after_digit s ≡ some (value_of acc s)
unfolding value_from all is_empty
value_from-decimal acc true [] h k = refl
value_from-decimal acc false [] h k = ground arith
value_from-decimal acc b (c ∷ s) h k =
    rw (value_from, digit_value-decimal c (ground arith))
      (value_from-decimal (acc * 10 + (c - 48)) true s (ground arith) (ground arith))

bit_le : {m n : ℕ} (b : Bool) → m ≤ n → (if b then 1 else 0) + m ≤ suc n
bit_le true h = omega arith
bit_le false h = omega arith

digit_count-length : (s : Text) → digit_count s ≤ length s
unfolding digit_count
digit_count-length [] = omega arith
digit_count-length (c ∷ s) = bit_le (is_digit c) (digit_count-length s)

show_from-decimal : (f n : ℕ) → all is_decimal (show_from f n) ≡ true
unfolding show_from all
show_from-decimal zero n = refl
show_from-decimal (suc f) n = ground (
  arith,
  show_from-decimal f (n / 10),
  all-append is_decimal (show_from f (n / 10)) ((48 + n % 10) ∷ []),
)

show_from-value : (f n : ℕ) → n < f → value_of 0 (show_from f n) ≡ n
unfolding show_from
show_from-value zero n h = absurd (omega arith)
show_from-value (suc f) n h = elim (Bool-cases (ltb n 10)) [
  | inl small ↦ rw small omega arith
  | inr large ↦
      let ih = show_from-value f (n / 10) (ground arith) in
      rw large (value_of-append 0 (show_from f (n / 10)) (48 + n % 10) ∙ rw ih omega arith)
]

show_from-length : (f k n : ℕ) → n < 10 ^ suc k → length (show_from f n) ≤ suc k
unfolding show_from
show_from-length zero k n h = omega arith
show_from-length (suc f) zero n h =
    let small : ltb n 10 ≡ true = ground arith in rw small omega arith
show_from-length (suc f) (suc k) n h = elim (Bool-cases (ltb n 10)) [
  | inl small ↦ rw small omega arith
  | inr large ↦
      let shorter : n / 10 < 10 ^ suc k = omega arith in
      let ih = show_from-length f k (n / 10) shorter in
      rw large omega (arith, length-append (show_from f (n / 10)) ((48 + n % 10) ∷ []))
]

append-not_empty : (s : Text) (c : ℕ) → is_empty (s ++ c ∷ []) ≡ false
unfolding is_empty
append-not_empty [] c = refl
append-not_empty (d ∷ s) c = refl

pub show-decimal : (n : ℕ) → all is_decimal (show n) ≡ true
unfolding show
show-decimal n = show_from-decimal (suc n) n

pub show-not_empty : (n : ℕ) → is_empty (show n) ≡ false
unfolding show show_from is_empty
show-not_empty n = elim (Bool-cases (ltb n 10)) [
  | inl small ↦ rw (is_empty, small) refl
  | inr large ↦ rw (is_empty, large) (append-not_empty (show_from n (n / 10)) (48 + n % 10))
]

-- `int(str(n))` is `n`, below the limit of 4300 digits.
pub read_digits-show : (n : ℕ) → n < 10 ^ 4300 → read_digits (show n) ≡ some n
unfolding read_digits
read_digits-show n h =
    let short : length (show n) ≤ 4300 = unfold show in show_from-length (suc n) 4299 n h in
    let few : ltb 4300 (digit_count (show n)) ≡ false =
      ground (arith, digit_count-length (show n)) in
    rw few (
      value_from-decimal 0 false (show n) (show-decimal n) (ground (arith, show-not_empty n))
      ∙ ap some (unfold show in show_from-value (suc n) n (omega arith)))

decimal-not_space : (c : ℕ) → is_decimal c ≡ true → is_int_space c ≡ false
unfolding is_int_space is_space in_ranges
decimal-not_space c h = ground arith

and_false : (b : Bool) → (b && false) ≡ false
and_false true = refl
and_false false = refl

rstrip_int-decimal : (s : Text) → all is_decimal s ≡ true → rstrip_int s ≡ s
unfolding rstrip_int all
rstrip_int-decimal [] h = refl
rstrip_int-decimal (c ∷ s) h =
    let head : is_decimal c ≡ true = ground arith in
    let rest : all is_decimal s ≡ true = ground arith in
    rw (rstrip_int-decimal s rest, decimal-not_space c head, and_false (is_empty s)) refl

lstrip_int-decimal : (s : Text) → all is_decimal s ≡ true → lstrip_int s ≡ s
unfolding lstrip_int all
lstrip_int-decimal [] h = refl
lstrip_int-decimal (c ∷ s) h = ground (arith, decimal-not_space c)

read_digits-nil : read_digits [] ≡ none
unfolding read_digits
read_digits-nil = refl

signed-decimal :
    (s : Text) (n : ℕ) → all is_decimal s ≡ true → read_digits s ≡ some n → signed s ≡ some (pos n)
unfolding signed all
signed-decimal [] n h e = ground (arith, read_digits-nil)
signed-decimal (c ∷ s) n h e = ground arith

-- `int(str(n))` with a sign and white space admitted
pub parse_int-show : (n : ℕ) → n < 10 ^ 4300 → parse_int (show n) ≡ some (pos n)
unfolding parse_int
parse_int-show n h =
    rw (rstrip_int-decimal (show n) (show-decimal n), lstrip_int-decimal (show n) (show-decimal n))
      (signed-decimal (show n) n (show-decimal n) (read_digits-show n h))
