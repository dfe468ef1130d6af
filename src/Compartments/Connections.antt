-- ===== src/Compartments/Connections.antt =====
-- services/compartment_manager.py: the connections that the monitor saw and the allowlist rules, and
-- the round of one compartment of `connection_monitor_loop` in services/notification_service.py. Times
-- are seconds; `str.lower` and the networks of `ipaddress` are parameters. The fields of a connection
-- are valid branded strings, so that no step of the round raises.
pub mod Alerts
pub mod Unique
mod Tests
use quadletman.Prelude.{
  ℕ, ◌+◌, ◌*◌, Bool, true, false, not, ◌&&◌, ◌||◌, List, [], ◌∷◌, ◌++◌, map, Option, none, some,
  if◌then◌else◌, any, Text, codes, text_eq, is_empty, has, ltb, leb, ◌==◌,
}
use quadletman.Compartments.Patterns.{update_where, delete_where}

-- What a connection is told apart by, within its compartment.
pub record Endpoint : Type 0 where
  pub container_name : Text
  pub proto : Text
  pub dst_ip : Text
  pub dst_port : ℕ
  pub direction : Text

pub record Connection : Type 0 where
  pub id : Text
  pub compartment_id : Text
  pub endpoint : Endpoint
  pub times_seen : ℕ
  pub last_seen_at : ℕ

-- A rule of the allowlist; `none` is NULL.
pub record Rule : Type 0 where
  pub id : Text
  pub compartment_id : Text
  pub description : Text
  pub container_name : Option Text
  pub proto : Option Text
  pub dst_ip : Option Text
  pub dst_port : Option ℕ
  pub direction : Option Text
  pub sort_order : ℕ
  pub created_at : ℕ

unfoldable pub endpoint_eq : Endpoint → Endpoint → Bool
unfolding text_eq
endpoint_eq a b =
    text_eq a.container_name b.container_name
    && (text_eq a.proto b.proto
        && (text_eq a.dst_ip b.dst_ip
            && (a.dst_port == b.dst_port && text_eq a.direction b.direction)))

-- `_conn_where`
unfoldable pub is_row_of : Text → Endpoint → Connection → Bool
unfolding endpoint_eq text_eq
is_row_of comp e r = text_eq r.compartment_id comp && endpoint_eq r.endpoint e

unfoldable pub is_known : Text → Endpoint → List Connection → Bool
unfolding any is_row_of
is_known comp e rows = any (is_row_of comp e) rows

-- `upsert_connection`, for the id that is drawn and the time; the Boolean is `is_new`
unfoldable pub upsert_connection :
    Text → Text → Endpoint → ℕ → List Connection → List Connection × Bool
unfolding is_known is_row_of
upsert_connection new_id comp e now rows =
    if is_known comp e rows
    then (
      update_where (is_row_of comp e)
          (λ r. record r { times_seen = r.times_seen + 1; last_seen_at = now }) rows,
      false,
    )
    else (
      rows
          ++ record {
            id = new_id;
            compartment_id = comp;
            endpoint = e;
            times_seen = 1;
            last_seen_at = now;
          }
            ∷ [],
      true,
    )

unfoldable pub delete_connection : Text → Text → List Connection → List Connection
unfolding text_eq delete_where
delete_connection comp id rows =
    delete_where (λ r. text_eq r.id id && text_eq r.compartment_id comp) rows

unfoldable pub clear_connections_history : Text → List Connection → List Connection
unfolding text_eq delete_where
clear_connections_history comp rows = delete_where (λ r. text_eq r.compartment_id comp) rows

-- `cleanup_stale_connections`, for the compartments with their retention in days
unfoldable pub cleanup_stale_connections :
    ℕ → List (Text × Option ℕ) → List Connection → List Connection
unfolding text_eq delete_where
cleanup_stale_connections now [] rows = rows
cleanup_stale_connections now ((comp, none) ∷ comps) rows = cleanup_stale_connections now comps rows
cleanup_stale_connections now ((comp, some days) ∷ comps) rows =
    cleanup_stale_connections now comps (
      delete_where (λ r. text_eq r.compartment_id comp && ltb (r.last_seen_at + days * 86400) now)
        rows)

-- `if rule.field and rule.field … value: return False`, for the test that a value has to meet
unfoldable pub meets : Option Text → (Text → Bool) → Bool
unfolding is_empty
meets none test = true
meets (some field) test = is_empty field || test field

abbrev port_meets : Option ℕ → ℕ → Bool
port_meets none port = true
port_meets (some p) port = p == port

-- a later rule of the order, as `ORDER BY sort_order, created_at` has it
abbrev stands_before : Rule → Rule → Bool
stands_before a b =
    ltb a.sort_order b.sort_order || (a.sort_order == b.sort_order && ltb a.created_at b.created_at)

place_rule : Rule → List Rule → List Rule
place_rule r [] = r ∷ []
place_rule r (s ∷ rules) =
    let rest = place_rule r rules in if stands_before s r then s ∷ rest else r ∷ s ∷ rules

unfoldable pub list_allowlist_rules : Text → List Rule → List Rule
unfolding text_eq place_rule
list_allowlist_rules comp [] = []
list_allowlist_rules comp (r ∷ rules) =
    let rest = list_allowlist_rules comp rules in
    if text_eq r.compartment_id comp then place_rule r rest else rest

max_order : Text → ℕ → List Rule → ℕ
unfolding text_eq
max_order comp n [] = n
max_order comp n (r ∷ rules) =
    max_order comp (if text_eq r.compartment_id comp && ltb n r.sort_order then r.sort_order else n)
      rules

-- `value or None`
abbrev or_none : Option Text → Option Text
or_none none = none
or_none (some []) = none
or_none (some (c ∷ s)) = some (c ∷ s)

-- `add_allowlist_rule`, of a rule whose id, compartment, order and time are set here
unfoldable pub add_allowlist_rule : Text → Text → ℕ → Rule → List Rule → List Rule
unfolding max_order
add_allowlist_rule rule_id comp now given rules =
    rules
    ++ record {
      id = rule_id;
      compartment_id = comp;
      description = given.description;
      container_name = or_none given.container_name;
      proto = or_none given.proto;
      dst_ip = or_none given.dst_ip;
      dst_port = given.dst_port;
      direction = or_none given.direction;
      sort_order = max_order comp 0 rules + 1;
      created_at = now;
    }
      ∷ []

unfoldable pub delete_allowlist_rule : Text → Text → List Rule → List Rule
unfolding text_eq delete_where
delete_allowlist_rule comp id rules =
    delete_where (λ r. text_eq r.id id && text_eq r.compartment_id comp) rules

-- An enabled hook of the compartment for `on_unexpected_connection`.
pub record Hook : Type 0 where
  pub qm_container_name : Text
  pub webhook_url : Text

-- `in_network network ip` is the test of `ipaddress`; `none` is its `ValueError`.
module _ (lower : Text → Text) (in_network : Text → Text → Option Bool) where
  ip_meets : Text → Text → Bool
  unfolding has text_eq
  ip_meets rule_ip ip =
      if has b'/' rule_ip
      then elim (in_network rule_ip ip) [ none ↦ false | some inside ↦ inside ]
      else text_eq rule_ip ip

  unfoldable pub rule_matches : Endpoint → Rule → Bool
  unfolding meets ip_meets text_eq
  rule_matches e r =
      meets r.direction (λ d. text_eq d e.direction)
      && (meets r.container_name (λ n. text_eq n e.container_name)
          && (meets r.proto (λ p. text_eq (lower p) (lower e.proto))
              && (meets r.dst_ip (λ ip. ip_meets ip e.dst_ip) && port_meets r.dst_port e.dst_port)))

  unfoldable pub connection_is_allowlisted : List Rule → Endpoint → Bool
  unfolding any rule_matches
  connection_is_allowlisted rules e = any (rule_matches e) rules

  -- `list_connections`: the rows of the compartment with `allowlisted`, before their order
  unfoldable pub annotated : Text → List Rule → List Connection → List (Connection × Bool)
  unfolding text_eq connection_is_allowlisted
  annotated comp rules [] = []
  annotated comp rules (r ∷ rows) =
      let rest = annotated comp rules rows in
      if text_eq r.compartment_id comp
      then (r, connection_is_allowlisted rules r.endpoint) ∷ rest
      else rest

  -- The loop over the connections of one compartment, with an id for each row that may be new: the
  -- rows behind it, and the connections that are unexpected.
  unfoldable pub watch :
      Text
      → ℕ
      → List Rule
      → List (Text × Endpoint)
      → List Connection
      → List Connection × List Endpoint
  unfolding upsert_connection connection_is_allowlisted
  watch comp now rules [] rows = (rows, [])
  watch comp now rules ((new_id, e) ∷ seen) rows =
      let (rows', is_new) = upsert_connection new_id comp e now rows in
      let (rows'', unexpected) = watch comp now rules seen rows' in
      (
        rows'',
        if is_new && not (connection_is_allowlisted rules e) then e ∷ unexpected else unexpected,
      )

-- the hooks that an unexpected connection fires
unfoldable pub fired : List Hook → Endpoint → List Hook
unfolding is_empty text_eq delete_where
fired hooks e =
    delete_where
      (λ h.
        not (is_empty h.qm_container_name) && not (text_eq h.qm_container_name e.container_name))
      hooks
