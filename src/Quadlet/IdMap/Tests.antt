-- ===== src/Quadlet/IdMap/Tests.antt =====
-- Runs of `_resolve_id_maps`.
use quadletman.Prelude.{ℕ, ◌<◌, none, some, List, [], ◌∷◌, ◌≡◌, refl, map, arith, Text, codes, pos}
use quadletman.Quadlet.IdMap.{IdEntry, uid_namespace_size, entry_text, parse_ids, resolve_id_maps}
use quadletman.Quadlet.IdMap.Coverage.{hosts, namespace_id, resolve_id_maps-covers}

resolve_two :
    resolve_id_maps (codes "1000" ∷ codes " 1_0 " ∷ [])
    ≡ some (
        codes "0:0:1"
        ∷ codes "1:2:9"
        ∷ codes "10:11:1"
        ∷ codes "11:12:989"
        ∷ codes "1000:1001:1"
        ∷ codes "1001:1002:64535"
        ∷ [])
unfolding resolve_id_maps
resolve_two = refl

-- The placeholder that the form shows for the field is no number.
resolve_placeholder : resolve_id_maps (codes "0:100000:65536" ∷ []) ≡ none
unfolding resolve_id_maps
resolve_placeholder = refl

abbrev one_id : List Text
one_id = codes "1000" ∷ []

resolve_id_maps-covers_example :
    (entries : List IdEntry) × (resolve_id_maps one_id ≡ some (map entry_text entries))
    × ((x : ℕ) → x < uid_namespace_size → hosts x entries ≡ namespace_id x ∷ [])
unfolding parse_ids
resolve_id_maps-covers_example =
    resolve_id_maps-covers one_id (pos 1000 ∷ []) (λ e. ground arith) refl (tt, tt)
