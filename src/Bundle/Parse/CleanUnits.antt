-- ===== src/Bundle/Parse/CleanUnits.antt =====
-- The builders of services/bundle_parser.py raise nothing on clean fields.
use quadletman.Prelude.{
  ℕ, true, List, [], ◌∷◌, ◌++◌, all, all-append, has, ◌≡◌, refl, ◌∙◌, arith, inl, inr, Bool-cases,
  Text, codes, is_empty, strip, before, after, ends_with, is_space,
}
use quadletman.Prelude.Dict.{Dict, insert}
use quadletman.Sanitized.Check.{Checked, ok, has_control_chars}
use quadletman.Bundle.Units.{
  first_or, without_prefix, name_or, each_safe, pairs, without_suffix, network_of, pod_of,
  words_from, split_words, service_names, after_names, volume_warning, volumes, no_image_warning,
}
use quadletman.Bundle.Parse.Clean.{
  clean, clean-safe_str, clean-append, strip-clean, before-clean, after-clean, drop_end-clean,
}

-- No exception.
abbrev pub Returns {ℓ} : {A : Type ℓ} → Checked A → Type ℓ
Returns {A = A} m = (a : A) × (m ≡ ok a)

pub first_or-clean :
    (default : Text) (vs : List Text)
    → clean default ≡ true
    → all clean vs ≡ true
    → clean (first_or default vs) ≡ true
unfolding first_or all
first_or-clean default [] h k = h
first_or-clean default (v ∷ vs) h k = ground arith

without_prefix-clean : (raw : Text) → clean raw ≡ true → clean (without_prefix raw) ≡ true
unfolding without_prefix
without_prefix-clean raw h = elim (Bool-cases (has b'-' raw)) [
  | inl dash ↦ rw (without_prefix, dash) (after-clean b'-' raw h)
  | inr bare ↦ rw (without_prefix, bare) h
]

empty-clean : clean [] ≡ true
unfolding has_control_chars
empty-clean = refl

pub name_or-clean :
    (filename : Text) (given : List Text)
    → clean filename ≡ true
    → all clean given ≡ true
    → clean (name_or filename given) ≡ true
unfolding name_or
name_or-clean filename given h k = elim (Bool-cases (is_empty filename)) [
  | inl e ↦
      rw (name_or, e)
        (without_prefix-clean (first_or [] given) (first_or-clean [] given empty-clean k))
  | inr f ↦ rw (name_or, f) h
]

without_suffix-clean :
    (n : ℕ) (suffix s : Text) → clean s ≡ true → clean (without_suffix n suffix s) ≡ true
unfolding without_suffix
without_suffix-clean n suffix s h = elim (Bool-cases (ends_with suffix s)) [
  | inl e ↦ rw (without_suffix, e) (drop_end-clean n s h)
  | inr f ↦ rw (without_suffix, f) h
]

pub network_of-clean :
    (default : Text) (nets : List Text)
    → clean default ≡ true
    → all clean nets ≡ true
    → clean (network_of default nets) ≡ true
unfolding network_of all
network_of-clean default [] h k = h
network_of-clean default (n ∷ nets) h k =
    without_suffix-clean 8 (codes ".network") (before b':' n) (before-clean b':' n (ground arith))

pub pod_of-clean : (raws : List Text) → all clean raws ≡ true → clean (pod_of raws) ≡ true
unfolding pod_of all
pod_of-clean [] k = empty-clean
pod_of-clean (raw ∷ raws) k = without_suffix-clean 4 (codes ".pod") raw (ground arith)

words_from-clean :
    (word s : Text) → clean word ≡ true → clean s ≡ true → all clean (words_from word s) ≡ true
unfolding words_from all has_control_chars
words_from-clean word [] h k = elim (Bool-cases (is_empty word)) [
  | inl e ↦ rw (words_from, e) refl
  | inr f ↦ rw (words_from, f) (ground (arith, h))
]
words_from-clean word (c ∷ s) h k = elim (Bool-cases (is_space c)) [
  | inl space ↦
      let rest = words_from-clean [] s refl (ground arith) in
      elim (Bool-cases (is_empty word)) [
        | inl e ↦ rw (words_from, space, e) rest
        | inr f ↦ rw (words_from, space, f) (ground (arith, h, rest))
      ]
  | inr letter ↦
      rw (words_from, letter)
        (words_from-clean (word ++ c ∷ []) s (clean-append word (c ∷ []) ∙ ground (arith, h, k))
          (ground arith))
]

service_names-clean :
    (parts : List Text) → all clean parts ≡ true → all clean (service_names parts) ≡ true
unfolding service_names all
service_names-clean [] h = refl
service_names-clean (part ∷ parts) h =
    ground (arith, drop_end-clean 8 part, service_names-clean parts)

pub after_names-clean : (vs : List Text) → all clean vs ≡ true → all clean (after_names vs) ≡ true
unfolding after_names split_words all
after_names-clean [] h = refl
after_names-clean (v ∷ vs) h =
    all-append clean (service_names (split_words v)) (after_names vs)
    ∙ ground (
      arith,
      service_names-clean (words_from [] v) (words_from-clean [] v empty-clean (ground arith)),
      after_names-clean vs,
    )

pub each_safe-clean : (vs : List Text) → all clean vs ≡ true → each_safe vs ≡ ok vs
unfolding each_safe all
each_safe-clean [] h = refl
each_safe-clean (v ∷ vs) h =
    rw (each_safe, clean-safe_str v (ground arith), each_safe-clean vs (ground arith)) refl

pub pairs-clean :
    (known : Dict Text) (lines : List Text) → all clean lines ≡ true → Returns (pairs known lines)
unfolding pairs all
pairs-clean known [] h = (known, refl)
pairs-clean known (line ∷ lines) h =
    let key = strip (before b'=' line) in
    let value = strip (after b'=' line) in
    let key_clean = strip-clean (before b'=' line) (before-clean b'=' line (ground arith)) in
    let value_clean = strip-clean (after b'=' line) (after-clean b'=' line (ground arith)) in
    elim (Bool-cases (is_empty key)) [
      | inl e ↦ let (d, q) = pairs-clean known lines (ground arith) in (d, rw (pairs, e) q)
      | inr f ↦
          let (d, q) = pairs-clean (insert key value known) lines (ground arith) in
          (d, rw (pairs, f, clean-safe_str key key_clean, clean-safe_str value value_clean) q)
    ]

volume_warning-clean :
    (name vol : Text)
    → clean name ≡ true
    → clean vol ≡ true
    → clean (volume_warning name vol) ≡ true
unfolding volume_warning has_control_chars
volume_warning-clean name vol h k =
    clean-append name _
    ∙ ground (
      arith,
      h,
      clean-append vol (codes "' skipped — add managed volumes via the UI after import"),
      k,
    )

pub volumes-clean :
    (name : Text) (vols : List Text)
    → clean name ≡ true
    → all clean vols ≡ true
    → Returns (volumes name vols)
unfolding volumes all
volumes-clean name [] h k = (([], []), refl)
volumes-clean name (vol ∷ vols) h k =
    let (rest, q) = volumes-clean name vols h (ground arith) in
    let own : clean vol ≡ true = ground arith in
    (
      (vol ∷ rest.0, volume_warning name vol ∷ rest.1),
      rw
          (
            volumes,
            clean-safe_str vol own,
            clean-safe_str (volume_warning name vol) (volume_warning-clean name vol h own),
            q,
          )
          refl,
    )

pub no_image_warning-clean :
    (what name : Text)
    → clean what ≡ true
    → clean name ≡ true
    → clean (no_image_warning what name) ≡ true
unfolding no_image_warning has_control_chars
no_image_warning-clean what name h k =
    clean-append what _
    ∙ ground (arith, h, clean-append name (codes "': no Image= found, skipping"), k)
