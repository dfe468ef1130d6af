-- ===== src/HostSettings/Tests.antt =====
-- A setting that is applied, values that are refused and a file that is written again, and the theorems
-- at them.
use quadletman.Prelude.{
  true, false, [], ◌∷◌, none, some, if◌then◌else◌, ◌≡◌, refl, Text, codes, text_eq, all,
}
use quadletman.Prelude.Dict.{Dict, lookup}
use quadletman.Sanitized.Check.{out_of_range, control_chars}
use quadletman.HostSettings.{
  Settings, invalid, unknown_key, apply, persisted, written, read_managed,
}
use quadletman.HostSettings.Ranges.{IsSound, apply-IsSound}
use quadletman.HostSettings.Entries.{is_clean}
use quadletman.HostSettings.RoundTrip.{read_managed-persisted}

abbrev fresh : Settings
fresh = record { kernel = []; file = none }

abbrev map_count : Text
map_count = codes "vm.max_map_count"

abbrev port_start : Text
port_start = codes "net.ipv4.ip_unprivileged_port_start"

too_low : apply true true true map_count (codes "1000") fresh ≡ (fresh, invalid out_of_range)
unfolding apply
too_low = refl

unknown : apply true true true (codes "kernel.panic") (codes "1") fresh ≡ (fresh, unknown_key)
unfolding apply
unknown = refl

injected : apply true true true map_count (codes "80\nx = 1") fresh ≡ (fresh, invalid control_chars)
unfolding apply
injected = refl

group_range :
    (apply true true true (codes "net.ipv4.ping_group_range") (codes " 0\t 00100 ") fresh).0.kernel
    ≡ (codes "net.ipv4.ping_group_range", codes "0 100") ∷ []
unfolding apply
group_range = refl

abbrev managed : Dict Text
managed = (map_count, codes "262144") ∷ (codes "net.ipv4.ip_forward", codes "1") ∷ []

file_text :
    written managed
    ≡ codes
        "# Managed by quadletman — do not edit manually\nnet.ipv4.ip_forward = 1\nvm.max_map_count = 262144\n"
unfolding written
file_text = refl

read_managed-persisted_example :
    lookup map_count (read_managed (persisted port_start (codes "80") (written managed)))
    ≡ (if text_eq port_start map_count then some (codes "80") else lookup map_count managed)
unfolding is_clean all lookup
read_managed-persisted_example =
    read_managed-persisted port_start (codes "80") managed (refl, (refl, tt)) refl map_count

apply-IsSound_example :
    IsSound true port_start fresh (apply true true false port_start (codes "80") fresh)
apply-IsSound_example = apply-IsSound true true false port_start (codes "80") fresh
