-- ===== src/Compartments/Connections/Unique.antt =====
-- The unique constraint of the table of connections is kept by all that is done to it.
use quadletman.Prelude.{
  ℕ, ◌+◌, Bool, false, List, [], ◌∷◌, ◌++◌, Option, none, some, ◌≡◌, refl, ◌∙◌, inl, inr, arith,
  Bool-cases, any, Text, text_eq_iff,
}
use quadletman.Compartments.Patterns.{update_where, delete_where}
use quadletman.Compartments.Connections.{
  Endpoint, Connection, endpoint_eq, is_row_of, is_known, upsert_connection, delete_connection,
  clear_connections_history, cleanup_stale_connections,
}
use quadletman.Compartments.Connections.Alerts.{known_counted, known_added}

-- No two rows of a compartment have the same endpoint.
abbrev pub AreUnique : List Connection → Type 0
AreUnique [] = Unit
AreUnique (r ∷ rows) = (is_known r.compartment_id r.endpoint rows ≡ false) × AreUnique rows

known_deleted :
    (test : Connection → Bool) (comp : Text) (e : Endpoint) (rows : List Connection)
    → is_known comp e rows ≡ false
    → is_known comp e (delete_where test rows) ≡ false
unfolding is_known any delete_where
known_deleted test comp e [] h = refl
known_deleted test comp e (r ∷ rows) h = elim (Bool-cases (test r)) [
  | inl d ↦ rw d (known_deleted test comp e rows (ground arith))
  | inr d ↦ rw d (ground (arith, known_deleted test comp e rows))
]

delete_where-AreUnique :
    (test : Connection → Bool) (rows : List Connection)
    → AreUnique rows
    → AreUnique (delete_where test rows)
unfolding delete_where
delete_where-AreUnique test [] u = tt
delete_where-AreUnique test (r ∷ rows) u = elim (Bool-cases (test r)) [
  | inl d ↦ rw d (delete_where-AreUnique test rows u.1)
  | inr d ↦ rw d (
    known_deleted test r.compartment_id r.endpoint rows u.0,
    delete_where-AreUnique test rows u.1,
  )
]

counted-AreUnique :
    (comp : Text) (e : Endpoint) (now : ℕ) (rows : List Connection)
    → AreUnique rows
    → AreUnique (
        update_where
          (is_row_of comp e)
          (λ r. record r { times_seen = r.times_seen + 1; last_seen_at = now })
          rows)
counted-AreUnique comp e now [] u = tt
counted-AreUnique comp e now (r ∷ rows) u = elim (Bool-cases (is_row_of comp e r)) [
  | inl h ↦ rw h (
    known_counted r.compartment_id comp r.endpoint e now rows ∙ u.0,
    counted-AreUnique comp e now rows u.1,
  )
  | inr h ↦ rw h (
    known_counted r.compartment_id comp r.endpoint e now rows ∙ u.0,
    counted-AreUnique comp e now rows u.1,
  )
]

-- a row can be its own only in one direction
is_row_of-sym :
    (r s : Connection)
    → is_row_of r.compartment_id r.endpoint s ≡ is_row_of s.compartment_id s.endpoint r
unfolding is_row_of endpoint_eq
is_row_of-sym r s = ground (
  arith,
  text_eq_iff r.compartment_id s.compartment_id,
  text_eq_iff s.compartment_id r.compartment_id,
  text_eq_iff r.endpoint.container_name s.endpoint.container_name,
  text_eq_iff s.endpoint.container_name r.endpoint.container_name,
  text_eq_iff r.endpoint.proto s.endpoint.proto,
  text_eq_iff s.endpoint.proto r.endpoint.proto,
  text_eq_iff r.endpoint.dst_ip s.endpoint.dst_ip,
  text_eq_iff s.endpoint.dst_ip r.endpoint.dst_ip,
  text_eq_iff r.endpoint.direction s.endpoint.direction,
  text_eq_iff s.endpoint.direction r.endpoint.direction,
)

added-AreUnique :
    (rows : List Connection) (r : Connection)
    → AreUnique rows
    → is_known r.compartment_id r.endpoint rows ≡ false
    → AreUnique (rows ++ r ∷ [])
unfolding is_known any
added-AreUnique [] r u h = (refl, tt)
added-AreUnique (s ∷ rows) r u h = (
  known_added s.compartment_id s.endpoint rows r ∙ ground (arith, is_row_of-sym r s, u.0),
  added-AreUnique rows r u.1 (ground arith),
)

-- What is done to the table.
pub data Change : Type 0 where
  seen : Text → Text → Endpoint → ℕ → Change
  deleted : Text → Text → Change
  cleared : Text → Change
  cleaned : ℕ → List (Text × Option ℕ) → Change

unfoldable pub change : Change → List Connection → List Connection
unfolding upsert_connection delete_connection clear_connections_history cleanup_stale_connections
change (seen id comp e now) rows = (upsert_connection id comp e now rows).0
change (deleted comp id) rows = delete_connection comp id rows
change (cleared comp) rows = clear_connections_history comp rows
change (cleaned now comps) rows = cleanup_stale_connections now comps rows

unfoldable pub changes : List Change → List Connection → List Connection
unfolding change
changes [] rows = rows
changes (c ∷ cs) rows = changes cs (change c rows)

upsert-AreUnique :
    (id comp : Text) (e : Endpoint) (now : ℕ) (rows : List Connection)
    → AreUnique rows
    → AreUnique (upsert_connection id comp e now rows).0
unfolding upsert_connection
upsert-AreUnique id comp e now rows u = elim (Bool-cases (is_known comp e rows)) [
  | inl old ↦ rw old (counted-AreUnique comp e now rows u)
  | inr new ↦ rw new (
      added-AreUnique rows
        (record {
          id = id;
          compartment_id = comp;
          endpoint = e;
          times_seen = 1;
          last_seen_at = now;
        })
        u new)
]

cleaned-AreUnique :
    (now : ℕ) (comps : List (Text × Option ℕ)) (rows : List Connection)
    → AreUnique rows
    → AreUnique (cleanup_stale_connections now comps rows)
unfolding cleanup_stale_connections
cleaned-AreUnique now [] rows u = u
cleaned-AreUnique now ((comp, none) ∷ comps) rows u = cleaned-AreUnique now comps rows u
cleaned-AreUnique now ((comp, some days) ∷ comps) rows u =
    cleaned-AreUnique now comps _ (delete_where-AreUnique _ rows u)

change-AreUnique :
    (c : Change) (rows : List Connection) → AreUnique rows → AreUnique (change c rows)
unfolding change
change-AreUnique (seen id comp e now) rows u = upsert-AreUnique id comp e now rows u
change-AreUnique (deleted comp id) rows u = delete_where-AreUnique _ rows u
change-AreUnique (cleared comp) rows u = delete_where-AreUnique _ rows u
change-AreUnique (cleaned now comps) rows u = cleaned-AreUnique now comps rows u

-- Whatever is done to the table of connections, in any order: if no two rows of a compartment have the
-- same endpoint at the start, then none have at the end, so that no insert breaks the unique
-- constraint.
pub changes-AreUnique :
    (cs : List Change) (rows : List Connection) → AreUnique rows → AreUnique (changes cs rows)
unfolding changes
changes-AreUnique [] rows u = u
changes-AreUnique (c ∷ cs) rows u = changes-AreUnique cs (change c rows) (change-AreUnique c rows u)
