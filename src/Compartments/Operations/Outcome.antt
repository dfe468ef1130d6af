-- ===== src/Compartments/Operations/Outcome.antt =====
-- How an operation ends.
use quadletman.Prelude.{
  true, List, [], ◌∷◌, Option, none, some, ◌≡◌, refl, ◌∙◌, ap, arith, inl, inr, Bool-cases, Text,
  text_eq,
}
use quadletman.Compartments.Patterns.{update_where, first_where}
use quadletman.Compartments.Operations.{
  Status, running, failed, Result, error, Row, World, ended, expired_error, Attempt, returned,
  raised, Actions, attempt, set_row, record_exception, record_attempt, run_operation,
  found_operation, execute_operation,
}
use quadletman.Compartments.Operations.Dispatch.{
  Kind, IsNamed, end_of, attempted, attempted-attempt,
}

-- What a row ends with: without credentials it fails, otherwise its action decides, called with the
-- credentials set.
abbrev pub final : Actions → Kind → Row → World → Option (Text × Text) → Status × Result
final acts kind row w none = (failed, error expired_error)
final acts kind row w (some creds) =
    end_of acts kind row.op_type row.payload (record w { admin = some creds })

-- the state in which the action is called, but for the credentials
abbrev pub with_running : Text → World → World
with_running op_id w = record w {
  rows = update_where (λ r. text_eq r.id op_id) (λ r. record r { status = running }) w.rows;
}

-- The credentials of the task afterwards.
abbrev pub admin_after : Option (Text × Text) → Option (Text × Text) → Option (Text × Text)
admin_after none admin = admin
admin_after (some creds) admin = none

update_where-twice :
    (op_id : Text) (s : Status) (errors : Result) (rows : List Row)
    → update_where
        (λ r. text_eq r.id op_id)
        (ended s errors)
        (update_where (λ r. text_eq r.id op_id) (λ r. record r { status = running }) rows)
      ≡ update_where (λ r. text_eq r.id op_id) (ended s errors) rows
update_where-twice op_id s errors [] = refl
update_where-twice op_id s errors (r ∷ rows) = elim (Bool-cases (text_eq r.id op_id)) [
  | inl mine ↦
      rw (mine, mine) (ap (◌∷◌ (ended s errors r)) (update_where-twice op_id s errors rows))
  | inr other ↦ rw (other, other) (ap (◌∷◌ r) (update_where-twice op_id s errors rows))
]

abbrev marked : Row → Option Row
marked r = some (record r { status = running })

first_where-running :
    (op_id : Text) (rows : List Row) (row : Row)
    → first_where (λ r. text_eq r.id op_id) rows ≡ some row
    → first_where
        (λ r. text_eq r.id op_id)
        (update_where (λ r. text_eq r.id op_id) (λ r. record r { status = running }) rows)
      ≡ some (record row { status = running })
unfolding first_where
first_where-running op_id [] row h = absurd (ground arith)
first_where-running op_id (r ∷ rows) row h = elim (Bool-cases (text_eq r.id op_id)) [
  | inl mine ↦ let e : r ≡ row = ground arith in rw (mine, mine) (ap marked e)
  | inr other ↦ rw (other, other) (first_where-running op_id rows row (ground arith))
]

record_attempt_lem :
    (op_id : Text) (a : Attempt) (w : World)
    → record_attempt op_id a none true w ≡ set_row op_id (ended (attempted a).0 (attempted a).1) w
unfolding record_attempt record_exception attempted
record_attempt_lem op_id (returned errors) w = refl
record_attempt_lem op_id (raised e) w = refl

run_operation_lem :
    (op_id : Text) (acts : Actions) (kind : Kind) (row : Row) (creds : Option (Text × Text))
    (w : World)
    → IsNamed kind row.op_type
    → let (s, result) = final acts kind row w creds in
      run_operation op_id acts none true row creds w ≡ record w {
        rows = update_where (λ r. text_eq r.id op_id) (ended s result) w.rows;
        admin = admin_after creds w.admin;
      }
unfolding run_operation
run_operation_lem op_id acts kind row none w e = refl
run_operation_lem op_id acts kind row (some creds) w e =
    let called : World = record w { admin = some creds } in
    ap (λ (v : World). record v { admin = none })
      (record_attempt_lem op_id (attempt acts row.op_type row.payload called) called)
    ∙ ap
        (λ (end : Status × Result). record (set_row op_id (ended end.0 end.1) called) {
          admin = none;
        })
        (attempted-attempt acts kind row.op_type row.payload called e)

final-running :
    (acts : Actions) (kind : Kind) (row : Row) (w : World) (creds : Option (Text × Text))
    → final acts kind (record row { status = running }) w creds ≡ final acts kind row w creds
final-running acts kind row w none = refl
final-running acts kind row w (some creds) = refl

abbrev with_rows : World → Option (Text × Text) → List Row → World
with_rows w admin rows = record w { rows = rows; admin = admin }

-- `_execute_operation` of an id that has a row, when its updates are committed. Its action is the one of
-- its type, called while the rows of the id are running and the credentials of the session are set;
-- the rows of the id end completed if it lists no errors (for `resync` and the operations on a
-- container: if it raises nothing) and failed otherwise, an unknown type and a session without
-- credentials fail, every other row and every queue stays, and credentials that were set are gone.
pub execute_operation_lem :
    (op_id : Text) (acts : Actions) (kind : Kind) (credentials : Text → Option (Text × Text))
    (w : World) (row : Row)
    → first_where (λ r. text_eq r.id op_id) w.rows ≡ some row
    → IsNamed kind row.op_type
    → let creds = credentials row.session_id in
      let (s, result) = final acts kind row (with_running op_id w) creds in
      execute_operation op_id acts none true credentials w ≡ record w {
        rows = update_where (λ r. text_eq r.id op_id) (ended s result) w.rows;
        admin = admin_after creds w.admin;
      }
unfolding execute_operation found_operation
execute_operation_lem op_id acts kind credentials w row h e =
    let w' = set_row op_id (λ r. record r { status = running }) w in
    let creds = credentials row.session_id in
    let seen : Row = record row { status = running } in
    let end = final acts kind seen w' creds in
    ap (λ (o : Option Row). found_operation op_id acts none true credentials o w')
      (first_where-running op_id w.rows row h)
    ∙ run_operation_lem op_id acts kind seen creds w' e
    ∙ ap (with_rows w (admin_after creds w.admin)) (update_where-twice op_id end.0 end.1 w.rows)
    ∙ ap
        (λ (end : Status × Result).
          with_rows w (admin_after creds w.admin)
            (update_where (λ r. text_eq r.id op_id) (ended end.0 end.1) w.rows))
        (final-running acts kind row w' creds)
