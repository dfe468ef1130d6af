-- ===== src/Quadlet/IdMap.antt =====
-- `_resolve_id_maps` of services/quadlet_writer.py: the UIDMap and GIDMap lines of a container.
pub mod Coverage
mod Tests
use quadletman.Prelude.{
  ℕ, ◌+◌, Bool, ◌&&◌, not, Option, none, some, List, [], ◌∷◌, ◌++◌, map, if◌then◌else◌, Text, codes,
  ℤ, pos, negsuc, pos_part, neg_part, ◌+ℤ◌, ◌-ℤ◌, lt_int, eq_int, show_int, parse_int, is_empty,
}

-- `_UID_NAMESPACE_SIZE`
abbrev pub uid_namespace_size : ℕ
uid_namespace_size = 65536

-- A line `container:host:count`; `host` is an id of the rootless user namespace.
pub record IdEntry : Type 0 where
  pub container : ℤ
  pub host : ℤ
  pub count : ℤ

abbrev pub entry : ℤ → ℤ → ℤ → IdEntry
entry c h n = record { container = c; host = h; count = n }

-- The f-string of an entry.
unfoldable pub entry_text : IdEntry → Text
unfolding show_int
entry_text e =
    show_int e.container ++ (codes ":" ++ (show_int e.host ++ (codes ":" ++ show_int e.count)))

-- `int(cid)` of each id; `none` is the `ValueError` of the first that is no number.
unfoldable pub parse_ids : List Text → Option (List ℤ)
unfolding parse_int
parse_ids [] = some []
parse_ids (t ∷ ts) =
    let rest = parse_ids ts in
    elim (parse_int t) [
      | none ↦ none
      | some c ↦ elim rest [ none ↦ none | some cs ↦ some (c ∷ cs) ]
    ]

-- A set of integers as its ascending list, which is what `sorted` gives.
unfoldable pub set_insert : ℤ → List ℤ → List ℤ
set_insert c [] = c ∷ []
set_insert c (d ∷ ds) =
    let later = d ∷ set_insert c ds in
    if lt_int c d then c ∷ d ∷ ds else if eq_int c d then d ∷ ds else later

unfoldable pub sorted_set : List ℤ → List ℤ
unfolding set_insert
sorted_set [] = []
sorted_set (c ∷ cs) = set_insert c (sorted_set cs)

-- The line of an explicit id.
unfoldable pub explicit_entry : ℤ → IdEntry
explicit_entry c =
    if eq_int c (pos 0) then entry (pos 0) (pos 0) (pos 1) else entry c (c +ℤ pos 1) (pos 1)

-- The line over the ids from `prev_end` to `c`, if there are any.
unfoldable pub gap_entry : ℤ → ℤ → List IdEntry
gap_entry prev_end c =
    if lt_int prev_end c then entry prev_end (prev_end +ℤ pos 1) (c -ℤ prev_end) ∷ [] else []

-- The loop over the explicit ids, with the line for the rest of the namespace behind it.
unfoldable pub entries_from : ℤ → List ℤ → List IdEntry
unfolding explicit_entry gap_entry
entries_from prev_end [] = gap_entry prev_end (pos uid_namespace_size)
entries_from prev_end (c ∷ cs) =
    gap_entry prev_end c ++ (explicit_entry c ∷ entries_from (c +ℤ pos 1) cs)

-- The entries for a list of ids that is not empty: 0 is always explicit.
unfoldable pub id_entries : List ℤ → List IdEntry
unfolding entries_from sorted_set
id_entries ids = entries_from (pos 0) (set_insert (pos 0) (sorted_set ids))

unfoldable pub resolve_id_maps : List Text → Option (List Text)
unfolding parse_ids id_entries entry_text
resolve_id_maps [] = some []
resolve_id_maps (t ∷ ts) = elim (parse_ids (t ∷ ts)) [
  | none ↦ none
  | some ids ↦ some (map entry_text (id_entries ids))
]
