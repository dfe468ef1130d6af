-- ===== src/Sanitized/Patterns.antt =====
-- The validation patterns of models/constraints.py, anchors left to the `re.compile` of sanitized.py.
use quadletman.Prelude.{true, false, List, [], ◌∷◌, ℕ, codes}
use quadletman.Regex.{
  Item, span, digit, space, Regex, chars, seq, alt, star, optional, plus, times, up_to, literal,
}

abbrev pub low : Item
low = span b'a' b'z'

abbrev pub upp : Item
upp = span b'A' b'Z'

abbrev pub num : Item
num = span b'0' b'9'

abbrev pub ch : ℕ → Item
ch c = span c c

abbrev one_char : List Item → Regex
one_char = chars false

abbrev digits_between : ℕ → Regex
digits_between n = seq (one_char (digit ∷ [])) (up_to n (one_char (digit ∷ [])))

abbrev tcp_or_udp : Regex
tcp_or_udp = optional (alt (literal (codes "/tcp")) (literal (codes "/udp")))

abbrev alnum_items : List Item
alnum_items = low ∷ upp ∷ num ∷ []

unfoldable pub slug_pattern : Regex
unfolding up_to
slug_pattern =
    alt
      (seq (one_char (low ∷ num ∷ []))
        (seq (up_to 30 (one_char (low ∷ num ∷ ch b'-' ∷ []))) (one_char (low ∷ num ∷ []))))
      (one_char (low ∷ num ∷ []))

unfoldable pub image_pattern : Regex
image_pattern = seq (one_char alnum_items) (
    star
      (one_char (low ∷ upp ∷ num ∷ ch b'.' ∷ ch b'_' ∷ ch b'-' ∷ ch b'/' ∷ ch b':' ∷ ch b'@' ∷ [])))

unfoldable pub secret_name_pattern : Regex
secret_name_pattern =
    seq (one_char alnum_items)
      (star (one_char (low ∷ upp ∷ num ∷ ch b'.' ∷ ch b'_' ∷ ch b'-' ∷ [])))

unfoldable pub unit_name_pattern : Regex
unfolding plus
unit_name_pattern = plus (one_char (low ∷ upp ∷ num ∷ ch b'.' ∷ ch b'_' ∷ ch b'@' ∷ ch b'-' ∷ []))

unfoldable pub resource_name_pattern : Regex
resource_name_pattern =
    seq (one_char (low ∷ num ∷ [])) (star (one_char (low ∷ num ∷ ch b'_' ∷ ch b'-' ∷ [])))

unfoldable pub webhook_url_pattern : Regex
unfolding plus literal optional
webhook_url_pattern = seq (literal (codes "http")) (
    seq (optional (one_char (ch b's' ∷ [])))
      (seq (literal (codes "://")) (plus (chars true (space ∷ [])))))

unfoldable pub port_mapping_pattern : Regex
unfolding plus optional up_to literal
port_mapping_pattern =
    alt
      (seq
        (optional
          (seq (plus (one_char (digit ∷ ch b'.' ∷ ch b':' ∷ []))) (one_char (ch b':' ∷ []))))
        (seq (up_to 5 (one_char (digit ∷ [])))
          (seq (one_char (ch b':' ∷ [])) (seq (digits_between 4) tcp_or_udp))))
      (seq (digits_between 4) tcp_or_udp)

unfoldable pub uuid_pattern : Regex
unfolding times
uuid_pattern =
    let hex = one_char (num ∷ span b'a' b'f' ∷ []) in
    let dash = one_char (ch b'-' ∷ []) in
    seq (times 8 hex) (
      seq dash (
        seq (times 4 hex)
          (seq dash (seq (times 4 hex) (seq dash (seq (times 4 hex) (seq dash (times 12 hex))))))))

unfoldable pub selinux_context_pattern : Regex
unfolding plus
selinux_context_pattern = plus (one_char (low ∷ upp ∷ num ∷ ch b'_' ∷ []))

unfoldable pub username_pattern : Regex
unfolding up_to
username_pattern =
    seq (one_char (low ∷ ch b'_' ∷ [])) (up_to 31 (one_char (low ∷ num ∷ ch b'_' ∷ ch b'-' ∷ [])))

unfoldable pub abs_path_pattern : Regex
abs_path_pattern =
    seq (one_char (ch b'/' ∷ [])) (star (chars true (ch b'\r' ∷ ch b'\n' ∷ ch 0 ∷ [])))

unfoldable pub octal_mode_pattern : Regex
unfolding times up_to
octal_mode_pattern =
    let octal = one_char (span b'0' b'7' ∷ []) in seq (times 3 octal) (up_to 1 octal)

unfoldable pub time_duration_pattern : Regex
unfolding plus literal
time_duration_pattern =
    let blanks = star (one_char (space ∷ [])) in
    let unit = alt (literal (codes "usec")) (
      alt (literal (codes "msec")) (
        alt (literal (codes "sec")) (
          alt (literal (codes "s")) (
            alt (literal (codes "min")) (
              alt (literal (codes "m")) (
                alt (literal (codes "h")) (
                  alt (literal (codes "hr")) (
                    alt (literal (codes "d")) (
                      alt (literal (codes "w"))
                        (alt (literal (codes "M")) (literal (codes "y")))))))))))) in
    plus (seq (plus (one_char (digit ∷ []))) (seq blanks (seq unit blanks)))

unfoldable pub calendar_spec_pattern : Regex
unfolding plus
calendar_spec_pattern = plus (
    one_char (
      low
      ∷ upp
      ∷ num
      ∷ ch b' '
      ∷ ch b'*'
      ∷ ch b'/'
      ∷ ch b':'
      ∷ ch b'.'
      ∷ ch b','
      ∷ ch b'~'
      ∷ ch b'-'
      ∷ []))

unfoldable pub port_str_pattern : Regex
unfolding up_to
port_str_pattern = digits_between 4

unfoldable pub int_or_empty_pattern : Regex
unfolding optional up_to
int_or_empty_pattern = optional (seq (optional (one_char (ch b'-' ∷ []))) (digits_between 9))

unfoldable pub byte_size_pattern : Regex
unfolding optional plus
byte_size_pattern =
    let suffix = one_char (
      ch b'b'
      ∷ ch b'B'
      ∷ ch b'k'
      ∷ ch b'K'
      ∷ ch b'm'
      ∷ ch b'M'
      ∷ ch b'g'
      ∷ ch b'G'
      ∷ ch b't'
      ∷ ch b'T'
      ∷ []) in
    optional (seq (plus (one_char (digit ∷ []))) (optional suffix))

unfoldable pub linux_cap_pattern : Regex
unfolding literal
linux_cap_pattern = alt (literal (codes "ALL")) (
    alt (literal (codes "all")) (
      seq (literal (codes "CAP_"))
        (seq (one_char (upp ∷ [])) (star (one_char (upp ∷ num ∷ ch b'_' ∷ []))))))

unfoldable pub signal_name_pattern : Regex
unfolding optional literal up_to
signal_name_pattern = optional (
    alt
      (seq (literal (codes "SIG"))
        (seq (one_char (upp ∷ [])) (star (one_char (upp ∷ num ∷ ch b'+' ∷ [])))))
      (digits_between 1))

unfoldable pub expose_port_pattern : Regex
unfolding optional up_to literal
expose_port_pattern =
    seq (digits_between 4)
      (seq (optional (seq (one_char (ch b'-' ∷ [])) (digits_between 4))) tcp_or_udp)

-- The two alternatives of USER_GROUP_REF_PATTERN, which no group holds together.
unfoldable pub user_group_name_pattern : Regex
user_group_name_pattern =
    seq (one_char (low ∷ upp ∷ ch b'_' ∷ []))
      (star (one_char (low ∷ upp ∷ num ∷ ch b'_' ∷ ch b'.' ∷ ch b'-' ∷ [])))

unfoldable pub user_group_id_pattern : Regex
unfolding up_to
user_group_id_pattern = digits_between 9

unfoldable pub timezone_pattern : Regex
timezone_pattern =
    seq (one_char (upp ∷ low ∷ []))
      (star (one_char (upp ∷ low ∷ num ∷ ch b'_' ∷ ch b'+' ∷ ch b'-' ∷ ch b'/' ∷ [])))

unfoldable pub host_ip_mapping_pattern : Regex
unfolding plus
host_ip_mapping_pattern = seq (one_char alnum_items) (
    seq (star (one_char (low ∷ upp ∷ num ∷ ch b'.' ∷ ch b'-' ∷ []))) (
      seq (one_char (ch b':' ∷ []))
        (plus (one_char (num ∷ span b'a' b'f' ∷ span b'A' b'F' ∷ ch b'.' ∷ ch b':' ∷ [])))))

unfoldable pub env_var_name_pattern : Regex
env_var_name_pattern =
    seq (one_char (low ∷ upp ∷ ch b'_' ∷ [])) (star (one_char (low ∷ upp ∷ num ∷ ch b'_' ∷ [])))

unfoldable pub hostname_pattern : Regex
unfolding optional
hostname_pattern = seq (one_char alnum_items) (
    optional
      (seq (star (one_char (low ∷ upp ∷ num ∷ ch b'.' ∷ ch b'-' ∷ []))) (one_char alnum_items)))

unfoldable pub identifier_pattern : Regex
identifier_pattern =
    seq (one_char alnum_items)
      (star (one_char (low ∷ upp ∷ num ∷ ch b'.' ∷ ch b'_' ∷ ch b'/' ∷ ch b'-' ∷ [])))

unfoldable pub digest_pattern : Regex
unfolding plus
digest_pattern =
    seq (plus (one_char (low ∷ upp ∷ num ∷ ch b'_' ∷ ch b'+' ∷ ch b'.' ∷ ch b'-' ∷ [])))
      (seq (one_char (ch b':' ∷ [])) (plus (one_char (span b'a' b'f' ∷ span b'A' b'F' ∷ num ∷ []))))
