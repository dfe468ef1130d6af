-- ===== src/Quadlet/IdMap/Coverage.antt =====
-- What the entries of `_resolve_id_maps` map each container id to.
use quadletman.Prelude.{
  ℕ, zero, suc, ◌+◌, ◌≤◌, ◌<◌, ◌≡◌, refl, ◌&&◌, not, List, [], ◌∷◌, ◌++◌, map, some, Text, ◌≢◌,
  arith, if◌then◌else◌, ◌∙◌, ltb, ◌==◌, ℤ, pos, negsuc, ◌+ℤ◌, ◌-ℤ◌, lt_int,
}
use quadletman.Quadlet.IdMap.{
  IdEntry, set_insert, sorted_set, explicit_entry, gap_entry, entries_from, id_entries,
  uid_namespace_size, parse_ids, resolve_id_maps, entry_text,
}

-- The host ids that the entries give to container id `x`, one for each entry that covers it.
abbrev pub hosts : ℕ → List IdEntry → List ℤ
hosts x [] = []
hosts x (e ∷ es) =
    if not (lt_int (pos x) e.container) && lt_int (pos x) (e.container +ℤ e.count)
    then (e.host +ℤ (pos x -ℤ e.container)) ∷ hosts x es
    else hosts x es

hosts-append : (x : ℕ) (es fs : List IdEntry) → hosts x (es ++ fs) ≡ hosts x es ++ hosts x fs
hosts-append x [] fs = refl
hosts-append x (e ∷ es) fs = ground (arith, hosts-append x es fs)

abbrev pub IsNatural : ℤ → Type 0
IsNatural (pos n) = Unit
IsNatural (negsuc n) = ⊥

abbrev pub AllNatural : List ℤ → Type 0
AllNatural [] = Unit
AllNatural (c ∷ cs) = IsNatural c × AllNatural cs

-- Ascending natural ids, none below `p`.
abbrev Above : ℕ → List ℤ → Type 0
Above p [] = Unit
Above p (pos c ∷ cs) = (p ≤ c) × Above (suc c) cs
Above p (negsuc c ∷ cs) = ⊥

set_insert-Above : (p c : ℕ) (cs : List ℤ) → p ≤ c → Above p cs → Above p (set_insert (pos c) cs)
unfolding set_insert
set_insert-Above p c [] h a = (h, tt)
set_insert-Above p c (pos d ∷ ds) h a = ground (arith, set_insert-Above (suc d) c ds)
set_insert-Above p c (negsuc d ∷ ds) h a = absurd a

sorted_set-Above : (cs : List ℤ) → AllNatural cs → Above 0 (sorted_set cs)
unfolding sorted_set
sorted_set-Above [] n = tt
sorted_set-Above (pos c ∷ cs) n =
    set_insert-Above 0 c (sorted_set cs) (omega arith) (sorted_set-Above cs n.1)
sorted_set-Above (negsuc c ∷ cs) n = absurd n.0

succ_pos : (c : ℕ) → pos c +ℤ pos 1 ≡ pos (suc c)
succ_pos c = ground arith

hosts-gap_entry :
    (x p c : ℕ)
    → hosts x (gap_entry (pos p) (pos c))
      ≡ (if not (ltb x p) && ltb x c then pos (x + 1) ∷ [] else [])
unfolding gap_entry
hosts-gap_entry x p c = ground arith

hosts-explicit_entry :
    (x c : ℕ)
    → 0 < c
    → hosts x (explicit_entry (pos c) ∷ []) ≡ (if x == c then pos (x + 1) ∷ [] else [])
unfolding explicit_entry
hosts-explicit_entry x c h = ground arith

-- Behind id 0 the entries map each id from `p` on to the next one, exactly once.
hosts-entries_from :
    (x p : ℕ) (cs : List ℤ)
    → 0 < p
    → Above p cs
    → x < uid_namespace_size
    → hosts x (entries_from (pos p) cs) ≡ (if ltb x p then [] else pos (x + 1) ∷ [])
unfolding entries_from
hosts-entries_from x p [] h a b = hosts-gap_entry x p uid_namespace_size ∙ ground arith
hosts-entries_from x p (pos c ∷ cs) h a b =
    rw (hosts-append, hosts-gap_entry)
      (rw (hosts-append x (explicit_entry (pos c) ∷ []) _) (
        rw
          (
            hosts-explicit_entry x c (omega arith),
            succ_pos c,
            hosts-entries_from x (suc c) cs (omega arith) a.1 b,
          )
          (ground arith)))
hosts-entries_from x p (negsuc c ∷ cs) h a b = absurd a

-- The first entry is that of id 0, and what follows stands above it.
first_zero :
    (cs : List ℤ)
    → Above 0 cs
    → (rest : List ℤ) × (set_insert (pos 0) cs ≡ pos 0 ∷ rest) × Above 1 rest
unfolding set_insert
first_zero [] a = ([], refl, tt)
first_zero (pos zero ∷ cs) a = (cs, refl, a.1)
first_zero (pos (suc c) ∷ cs) a = (pos (suc c) ∷ cs, ground arith, (omega arith, a.1))
first_zero (negsuc c ∷ cs) a = absurd a

abbrev pub namespace_id : ℕ → ℤ
namespace_id x = if x == 0 then pos 0 else pos (x + 1)

hosts-from_zero :
    (x : ℕ) (cs : List ℤ)
    → Above 1 cs
    → x < uid_namespace_size
    → hosts x (entries_from (pos 0) (pos 0 ∷ cs)) ≡ namespace_id x ∷ []
unfolding entries_from
hosts-from_zero x cs a b = rw (hosts-entries_from x 1 cs (omega arith) a b) (ground arith)

hosts-id_entries :
    (ids : List ℤ) (x : ℕ)
    → AllNatural ids
    → x < uid_namespace_size
    → hosts x (id_entries ids) ≡ namespace_id x ∷ []
unfolding id_entries
hosts-id_entries ids x n b =
    let (rest, e, a) = first_zero (sorted_set ids) (sorted_set-Above ids n) in
    rw e (hosts-from_zero x rest a b)

-- For a list of ids that is not empty and holds numbers from 0 on, `_resolve_id_maps` returns the
-- lines of entries under which every container id below 65536 is covered by exactly one entry,
-- which takes id 0 to id 0 and every other id to the next one of the rootless namespace.
pub resolve_id_maps-covers :
    (ts : List Text) (ids : List ℤ)
    → ts ≢ []
    → parse_ids ts ≡ some ids
    → AllNatural ids
    → (entries : List IdEntry) × (resolve_id_maps ts ≡ some (map entry_text entries))
      × ((x : ℕ) → x < uid_namespace_size → hosts x entries ≡ namespace_id x ∷ [])
unfolding resolve_id_maps
resolve_id_maps-covers [] ids ne p n = absurd (ne refl)
resolve_id_maps-covers (t ∷ ts) ids ne p n =
    (id_entries ids, ground arith, λ x b. hosts-id_entries ids x n b)
