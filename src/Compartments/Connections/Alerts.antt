-- ===== src/Compartments/Connections/Alerts.antt =====
-- Which connections of a round are reported as unexpected.
use quadletman.Prelude.{
  ℕ, suc, ◌+◌, Bool, true, not, ◌&&◌, ◌||◌, List, [], ◌∷◌, ◌++◌, Option, if◌then◌else◌, ◌≡◌, ◌↔◌,
  refl, ap, subst, ◌∙◌, inl, inr, arith, Bool-cases, any, Text, text_eq_iff, text_eq_refl,
}
use quadletman.Compartments.Patterns.{update_where}
use quadletman.Compartments.Connections.{
  Endpoint, Connection, Rule, endpoint_eq, is_row_of, is_known, upsert_connection,
  connection_is_allowlisted, watch,
}

pub endpoint_eq_iff : (a b : Endpoint) → (endpoint_eq a b ≡ true) ↔ (a ≡ b)
unfolding endpoint_eq
endpoint_eq_iff a b = ground (
  arith,
  text_eq_iff a.container_name b.container_name,
  text_eq_iff a.proto b.proto,
  text_eq_iff a.dst_ip b.dst_ip,
  text_eq_iff a.direction b.direction,
)

-- counting a connection one time more does not change which ones are known
pub known_counted :
    (comp' comp : Text) (k e : Endpoint) (now : ℕ) (rows : List Connection)
    → is_known comp' k (
        update_where
          (is_row_of comp e)
          (λ r. record r { times_seen = r.times_seen + 1; last_seen_at = now })
          rows)
      ≡ is_known comp' k rows
unfolding is_known any is_row_of
known_counted comp' comp k e now [] = refl
known_counted comp' comp k e now (r ∷ rows) = elim (Bool-cases (is_row_of comp e r)) [
  | inl h ↦ ground (arith, known_counted comp' comp k e now rows, h)
  | inr h ↦ ground (arith, known_counted comp' comp k e now rows, h)
]

pub known_added :
    (comp : Text) (k : Endpoint) (rows : List Connection) (r : Connection)
    → is_known comp k (rows ++ r ∷ []) ≡ (is_row_of comp k r || is_known comp k rows)
unfolding is_known any
known_added comp k [] r = ground arith
known_added comp k (s ∷ rows) r = ground (arith, known_added comp k rows r)

known_again :
    (comp : Text) (k e : Endpoint) (rows : List Connection)
    → is_known comp e rows ≡ true
    → is_known comp k rows ≡ (endpoint_eq e k || is_known comp k rows)
known_again comp k e rows old = elim (Bool-cases (endpoint_eq e k)) [
  | inl same ↦
      let found =
        subst (λ (x : Endpoint). is_known comp x rows ≡ true) ((endpoint_eq_iff e k).0 same) old in
      rw (same, found) refl
  | inr other ↦ rw other refl
]

pub known-upsert :
    (id comp : Text) (k e : Endpoint) (now : ℕ) (rows : List Connection)
    → is_known comp k (upsert_connection id comp e now rows).0
      ≡ (endpoint_eq e k || is_known comp k rows)
unfolding upsert_connection
known-upsert id comp k e now rows = elim (Bool-cases (is_known comp e rows)) [
  | inl old ↦ rw old (known_counted comp comp k e now rows ∙ known_again comp k e rows old)
  | inr new ↦ rw new (
      known_added comp k rows (record {
        id = id;
        compartment_id = comp;
        endpoint = e;
        times_seen = 1;
        last_seen_at = now;
      })
      ∙ rw (text_eq_refl comp) refl)
]

pub upsert-is_new :
    (id comp : Text) (e : Endpoint) (now : ℕ) (rows : List Connection)
    → (upsert_connection id comp e now rows).1 ≡ not (is_known comp e rows)
unfolding upsert_connection
upsert-is_new id comp e now rows = elim (Bool-cases (is_known comp e rows)) [
  | inl old ↦ rw old refl
  | inr new ↦ rw new refl
]

-- `e` was seen in this round
unfoldable pub appears : Endpoint → List (Text × Endpoint) → Bool
unfolding any endpoint_eq
appears k seen = any (λ s. endpoint_eq s.1 k) seen

unfoldable pub count : Endpoint → List Endpoint → ℕ
unfolding endpoint_eq
count k [] = 0
count k (e ∷ es) = let rest = count k es in if endpoint_eq e k then suc rest else rest

module _ (lower : Text → Text) (in_network : Text → Text → Option Bool) (comp : Text) (now : ℕ)
    (rules : List Rule) (k : Endpoint) where
  -- A round reports an unexpected connection once, if it was seen in the round, had no row in the
  -- compartment before and matches no rule, however often it was seen; any other connection is not
  -- reported. Behind the round a connection has a row if it had one or was seen, so that it is not
  -- reported by a later round as long as its row stays.
  pub watch-reports :
      (seen : List (Text × Endpoint)) (rows : List Connection)
      → (count k (watch lower in_network comp now rules seen rows).1 ≡ (
          if appears k seen
            && (not (is_known comp k rows)
                && not (connection_is_allowlisted lower in_network rules k))
          then 1
          else 0))
        × (is_known comp k (watch lower in_network comp now rules seen rows).0
            ≡ (appears k seen || is_known comp k rows))
  unfolding watch appears count any
  watch-reports [] rows = (refl, refl)
  watch-reports ((new_id, e) ∷ seen) rows =
      let next = (upsert_connection new_id comp e now rows).0 in
      let ih = watch-reports seen next in
      let known = known-upsert new_id comp k e now rows in
      let fresh = upsert-is_new new_id comp e now rows in
      elim (Bool-cases (endpoint_eq e k)) [
        | inl same ↦
            let e≡k = (endpoint_eq_iff e k).0 same in
            let allowed = ap (connection_is_allowlisted lower in_network rules) e≡k in
            let row = ap (λ (x : Endpoint). is_known comp x rows) e≡k in
            (
              ground (arith, ih.0, known, fresh, same, allowed, row),
              ground (arith, ih.1, known, same),
            )
        | inr other ↦
            (ground (arith, ih.0, known, fresh, other), ground (arith, ih.1, known, other))
      ]
