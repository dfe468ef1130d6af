-- ===== src/Notifications/States/Counting.antt =====
-- The counter of restarts in the table of counters, through each write of a row.
use quadletman.Prelude.{
  ℕ, ◌+◌, Bool, true, false, ◌&&◌, List, [], ◌∷◌, ◌++◌, Option, none, some, if◌then◌else◌, ◌≡◌,
  refl, subst, ◌∙◌, inl, inr, arith, Bool-cases, any, Text, text_eq, text_eq_iff,
}
use quadletman.Compartments.Patterns.{update_where}
use quadletman.Notifications.States.{Stats, is_stats_of, count_failure, count_restart}

-- The number that the table has for a container; no row counts as 0.
unfoldable pub restart_count : Text → Text → List Stats → ℕ
unfolding is_stats_of
restart_count comp name [] = 0
restart_count comp name (s ∷ rows) =
    let rest = restart_count comp name rows in
    if is_stats_of comp name s then s.restart_count else rest

has_row : Text → Text → List Stats → Bool
unfolding any is_stats_of
has_row comp name rows = any (is_stats_of comp name) rows

restart_count-none :
    (comp name : Text) (rows : List Stats)
    → has_row comp name rows ≡ false
    → restart_count comp name rows ≡ 0
unfolding restart_count has_row
restart_count-none comp name [] h = refl
restart_count-none comp name (s ∷ rows) h = ground (arith, restart_count-none comp name rows)

restart_count-append :
    (comp name : Text) (rows : List Stats) (new : Stats)
    → restart_count comp name (rows ++ new ∷ []) ≡ (
        if has_row comp name rows
        then restart_count comp name rows
        else if is_stats_of comp name new
        then new.restart_count
        else 0)
unfolding restart_count has_row any
restart_count-append comp name [] new = ground arith
restart_count-append comp name (s ∷ rows) new =
    ground (arith, restart_count-append comp name rows new)

-- a failure leaves every counter alone
failure_kept :
    (comp name comp' name' : Text) (now : ℕ) (rows : List Stats)
    → restart_count comp name
        (update_where (is_stats_of comp' name') (λ s. record s { last_failure_at = some now }) rows)
      ≡ restart_count comp name rows
unfolding restart_count is_stats_of
failure_kept comp name comp' name' now [] = refl
failure_kept comp name comp' name' now (s ∷ rows) = elim (Bool-cases (is_stats_of comp' name' s)) [
  | inl h ↦ ground (arith, failure_kept comp name comp' name' now rows, h)
  | inr h ↦ ground (arith, failure_kept comp name comp' name' now rows, h)
]

restart_kept :
    (comp name comp' name' : Text) (now : ℕ) (rows : List Stats)
    → (text_eq comp' comp && text_eq name' name) ≡ false
    → restart_count comp name (
        update_where
          (is_stats_of comp' name')
          (λ s. record s { restart_count = s.restart_count + 1; last_restart_at = some now })
          rows)
      ≡ restart_count comp name rows
unfolding restart_count is_stats_of
restart_kept comp name comp' name' now [] other = refl
restart_kept comp name comp' name' now (s ∷ rows) other = ground (
  arith,
  restart_kept comp name comp' name' now rows,
  text_eq_iff s.compartment_id comp',
  text_eq_iff s.compartment_id comp,
  text_eq_iff s.container_name name',
  text_eq_iff s.container_name name,
  text_eq_iff comp' comp,
  text_eq_iff name' name,
)

restart_counted :
    (comp name : Text) (now : ℕ) (rows : List Stats)
    → has_row comp name rows ≡ true
    → restart_count comp name (
        update_where
          (is_stats_of comp name)
          (λ s. record s { restart_count = s.restart_count + 1; last_restart_at = some now })
          rows)
      ≡ restart_count comp name rows + 1
unfolding restart_count is_stats_of has_row any
restart_counted comp name now [] h = ground arith
restart_counted comp name now (s ∷ rows) h = elim (Bool-cases (is_stats_of comp name s)) [
  | inl e ↦ ground (arith, e)
  | inr e ↦ ground (arith, e, restart_counted comp name now rows)
]

-- a new row for `comp'` and `name'` with the number `n`
added :
    (comp name comp' name' : Text) (n : ℕ) (f r : Option ℕ) (rows : List Stats)
    → has_row comp' name' rows ≡ false
    → restart_count comp name (
        rows
        ++ record {
          compartment_id = comp';
          container_name = name';
          restart_count = n;
          last_failure_at = f;
          last_restart_at = r;
        }
          ∷ [])
      ≡ restart_count comp name rows + (if text_eq comp' comp && text_eq name' name then n else 0)
unfolding is_stats_of
added comp name comp' name' n f r rows fresh =
    let new : Stats = record {
      compartment_id = comp';
      container_name = name';
      restart_count = n;
      last_failure_at = f;
      last_restart_at = r;
    } in
    let behind = restart_count-append comp name rows new in
    elim (Bool-cases (text_eq comp' comp && text_eq name' name)) [
      | inl e ↦
          let c = (text_eq_iff comp' comp).0 (ground arith) in
          let d = (text_eq_iff name' name).0 (ground arith) in
          let gone =
            subst (λ (x : Text). has_row x name rows ≡ false) c
              (subst (λ (y : Text). has_row comp' y rows ≡ false) d fresh) in
          behind ∙ rw (gone, e, restart_count-none comp name rows gone) (omega arith)
      | inr e ↦ elim (Bool-cases (has_row comp name rows)) [
        | inl h ↦ behind ∙ rw (h, e) (omega arith)
        | inr h ↦ behind ∙ rw (h, e, restart_count-none comp name rows h) (omega arith)
      ]
    ]

counted :
    (comp name comp' name' : Text) (now : ℕ) (rows : List Stats)
    → has_row comp' name' rows ≡ true
    → restart_count comp name (
        update_where
          (is_stats_of comp' name')
          (λ s. record s { restart_count = s.restart_count + 1; last_restart_at = some now })
          rows)
      ≡ restart_count comp name rows + (if text_eq comp' comp && text_eq name' name then 1 else 0)
counted comp name comp' name' now rows h =
    elim (Bool-cases (text_eq comp' comp && text_eq name' name)) [
      | inl e ↦
          let c = (text_eq_iff comp' comp).0 (ground arith) in
          let d = (text_eq_iff name' name).0 (ground arith) in
          rw (e, c, d)
            (restart_counted comp name now rows (
              subst (λ (x : Text). has_row x name rows ≡ true) c
                (subst (λ (y : Text). has_row comp' y rows ≡ true) d h)))
      | inr e ↦ rw e (restart_kept comp name comp' name' now rows e ∙ omega arith)
    ]

-- `count_failure` keeps the counter of every container, `count_restart` adds one to its own only.
pub count_failure-keeps :
    (comp name comp' name' : Text) (now : ℕ) (rows : List Stats)
    → restart_count comp name (count_failure comp' name' now rows) ≡ restart_count comp name rows
unfolding count_failure has_row
count_failure-keeps comp name comp' name' now rows = elim (Bool-cases (has_row comp' name' rows)) [
  | inl h ↦ rw h (failure_kept comp name comp' name' now rows)
  | inr h ↦ rw h (added comp name comp' name' 0 (some now) none rows h ∙ ground arith)
]

pub count_restart-counts :
    (comp name comp' name' : Text) (now : ℕ) (rows : List Stats)
    → restart_count comp name (count_restart comp' name' now rows)
      ≡ restart_count comp name rows + (if text_eq comp' comp && text_eq name' name then 1 else 0)
unfolding count_restart has_row
count_restart-counts comp name comp' name' now rows = elim (Bool-cases (has_row comp' name' rows)) [
  | inl h ↦ rw h (counted comp name comp' name' now rows h)
  | inr h ↦ rw h (added comp name comp' name' 1 none (some now) rows h)
]
