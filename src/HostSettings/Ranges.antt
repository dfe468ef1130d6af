-- ===== src/HostSettings/Ranges.antt =====
-- What a value that is applied is like.
use quadletman.Prelude.{
  ℕ, ◌≤◌, Bool, true, false, not, ◌&&◌, ◌||◌, List, [], ◌∷◌, ◌++◌, Option, none, some, ◌≡◌, refl,
  sym, ap, subst, ◌∙◌, inl, inr, arith, ◌⊎◌, Option-cases, Text, codes, one_of, show, read_digits,
  is_empty, join, ltb, length,
}
use quadletman.Prelude.Dict.{insert}
use quadletman.Sanitized.Check.{
  Checked, ok, refused, Refusal, demand-ok, bad_format, out_of_range, too_long, control_chars,
  has_control_chars,
}
use quadletman.Sanitized.Names.{safe_str}
use quadletman.HostSettings.{
  ValueType, integer, boolean, ping_range, SysctlSetting, settings, setting_in, words, is_integer,
  at_least, at_most, bound_of, check_bounds, check_integer, check_pair, check_parts, check_type,
  validate_value, persisted, Settings, Applied, applied, write_failed, unknown_key, sysctl_failed,
  invalid, text_of, apply_sync, apply,
}

-- The value is one that the setting allows.
unfoldable pub IsInRange : SysctlSetting → ValueType → Text → Type 0
IsInRange s integer v =
    (n : ℕ) × (read_digits v ≡ some n)
    × (at_least s.min_val n ≡ true)
    × (at_most s.max_val n ≡ true)
IsInRange s boolean v = one_of v (codes "0" ∷ codes "1" ∷ []) ≡ true
IsInRange s ping_range v =
    (low : ℕ) × (high : ℕ) × (v ≡ show low ++ (codes " " ++ show high))
    × (low ≤ bound_of s.max_val)
    × (high ≤ bound_of s.max_val)

safe_str-same : (v w : Text) → safe_str v ≡ ok w → w ≡ v
unfolding safe_str
safe_str-same v w h = ground arith

check_bounds-IsInRange :
    (s : SysctlSetting) (v w : Text) (o : Option ℕ)
    → read_digits v ≡ o
    → check_bounds s v o ≡ ok w
    → IsInRange s integer w
unfolding check_bounds IsInRange
check_bounds-IsInRange s v w none e h = absurd (ground arith)
check_bounds-IsInRange s v w (some n) e h =
    let lo = demand-ok (at_least s.min_val n) out_of_range _ w h in
    let hi = demand-ok (at_most s.max_val n) out_of_range _ w lo.1 in
    let same = safe_str-same v w hi.1 in (n, ap read_digits same ∙ e, lo.0, hi.0)

check_pair-IsInRange :
    (s : SysctlSetting) (low high : Option ℕ) (w : Text)
    → check_pair s low high ≡ ok w
    → IsInRange s ping_range w
unfolding check_pair IsInRange
check_pair-IsInRange s none high w h = absurd (ground arith)
check_pair-IsInRange s (some low) none w h = absurd (ground arith)
check_pair-IsInRange s (some low) (some high) w h =
    let within =
      demand-ok (not (ltb (bound_of s.max_val) low || ltb (bound_of s.max_val) high)) out_of_range _
        w h in
    (low, high, safe_str-same _ w within.1, ground (arith, within.0), ground (arith, within.0))

check_parts-IsInRange :
    (s : SysctlSetting) (parts : List Text) (w : Text)
    → check_parts s parts ≡ ok w
    → IsInRange s ping_range w
unfolding check_parts
check_parts-IsInRange s [] w h = absurd (ground arith)
check_parts-IsInRange s (low ∷ []) w h = absurd (ground arith)
check_parts-IsInRange s (low ∷ high ∷ p ∷ parts) w h = absurd (ground arith)
check_parts-IsInRange s (low ∷ high ∷ []) w h =
    check_pair-IsInRange s (read_digits low) (read_digits high) w
      (demand-ok (is_integer low && is_integer high) bad_format _ w h).1

check_type-IsInRange :
    (s : SysctlSetting) (t : ValueType) (v w : Text) → check_type s t v ≡ ok w → IsInRange s t w
unfolding check_type check_integer IsInRange
check_type-IsInRange s integer v w h =
    check_bounds-IsInRange s v w (read_digits v) refl (demand-ok (is_integer v) bad_format _ w h).1
check_type-IsInRange s boolean v w h =
    let one = demand-ok (one_of v (codes "0" ∷ codes "1" ∷ [])) bad_format _ w h in
    subst (λ (x : Text). one_of x (codes "0" ∷ codes "1" ∷ []) ≡ true)
      (sym (safe_str-same v w one.1)) one.0
check_type-IsInRange s ping_range v w h = check_parts-IsInRange s (words v) w h

validate_value-IsInRange :
    (s : SysctlSetting) (v w : Text) → validate_value s v ≡ ok w → IsInRange s s.value_type w
unfolding validate_value
validate_value-IsInRange s v w h =
    let cleaned = join (codes " ") (words v) in
    let plain = demand-ok (not (has_control_chars v)) control_chars _ w h in
    let some_text = demand-ok (not (is_empty cleaned)) bad_format _ w plain.1 in
    let short = demand-ok (not (ltb 64 (length cleaned))) too_long _ w some_text.1 in
    check_type-IsInRange s s.value_type cleaned w short.1

-- What an outcome of `apply` means for the values in the kernel and for the file.
unfoldable pub IsSound : Bool → Text → Settings → Settings × Applied → Type 0
unfolding IsInRange insert persisted setting_in
IsSound readable key st (st', applied) =
    (s : SysctlSetting) × (v : Text) × (setting_in key settings ≡ some s)
    × IsInRange s s.value_type v
    × (st' ≡ record {
      kernel = insert key v st.kernel;
      file = some (persisted key v (text_of readable st.file));
    })
IsSound readable key st (st', write_failed) =
    (s : SysctlSetting) × (v : Text) × (setting_in key settings ≡ some s)
    × IsInRange s s.value_type v
    × (st' ≡ record st { kernel = insert key v st.kernel })
IsSound readable key st (st', unknown_key) = (st' ≡ st) × (setting_in key settings ≡ none)
IsSound readable key st (st', sysctl_failed) = st' ≡ st
IsSound readable key st (st', invalid r) = st' ≡ st

apply_sync-IsSound :
    (sysctl readable writable : Bool) (key v : Text) (st : Settings) (s : SysctlSetting)
    → setting_in key settings ≡ some s
    → IsInRange s s.value_type v
    → IsSound readable key st (apply_sync sysctl readable writable key v st)
unfolding IsSound apply_sync
apply_sync-IsSound false readable writable key v st s k r = refl
apply_sync-IsSound true readable false key v st s k r = (s, v, k, r, refl)
apply_sync-IsSound true readable true key v st s k r = (s, v, k, r, refl)

Checked-cases : (r : Checked Text) → ((w : Text) × (r ≡ ok w)) ⊎ ((e : Refusal) × (r ≡ refused e))
Checked-cases (ok w) = inl (w, refl)
Checked-cases (refused e) = inr (e, refl)

-- A setting of the kernel, whatever value is given for it and whether `sysctl -w` and the access to
-- the file succeed: if it is applied, its key is one of the settings that may be written, the value is
-- in the range of that setting, the kernel has it and the file is the one with it. The same holds
-- without the file if only that could not be written. Any other outcome changes nothing, and the key
-- is said to be unknown only if it is no setting.
pub apply-IsSound :
    (sysctl readable writable : Bool) (key value : Text) (st : Settings)
    → IsSound readable key st (apply sysctl readable writable key value st)
unfolding apply IsSound
apply-IsSound sysctl readable writable key value st =
    let step : (o : Settings × Applied) → Type 0 = IsSound readable key st in
    elim (Option-cases (setting_in key settings)) [
      | inl h ↦
          let same : apply sysctl readable writable key value st ≡ (st, unknown_key) =
            ground (arith, h) in
          subst step (sym same) (refl, h)
      | inr (s, h) ↦ elim (Checked-cases (validate_value s value)) [
        | inr (e, k) ↦
            let same : apply sysctl readable writable key value st ≡ (st, invalid e) =
              ground (arith, h, k) in
            subst step (sym same) refl
        | inl (v, k) ↦
            let run : apply sysctl readable writable key value st
                ≡ apply_sync sysctl readable writable key v st =
              ground (arith, h, k) in
            subst step (sym run) (
              apply_sync-IsSound sysctl readable writable key v st s h
                (validate_value-IsInRange s value v k))
      ]
    ]
