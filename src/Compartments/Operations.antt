-- ===== src/Compartments/Operations.antt =====
-- services/compartment_manager.py: the queued operations, from their row to its last status.
pub mod Dispatch
pub mod Outcome
pub mod Restart
mod Tests
use quadletman.Prelude.{
  ℕ, Bool, true, false, not, ◌&&◌, ◌||◌, List, [], ◌∷◌, ◌++◌, map, Option, none, some,
  if◌then◌else◌, any, Text, codes, text_eq, is_empty,
}
use quadletman.Prelude.Dict.{Dict, lookup, insert}
use quadletman.Compartments.Patterns.{update_where, first_where}

pub data Status : Type 0 where
  pending running completed failed : Status

-- The JSON of a result: the list of the errors, each by its text, or one error.
pub data Result : Type 0 where
  no_result : Result
  listed : List Text → Result
  error : Text → Result

-- A row of the table `operations`.
pub record Row : Type 0 where
  pub id : Text
  pub compartment_id : Text
  pub op_type : Text
  pub payload : Text
  pub session_id : Text
  pub status : Status
  pub result : Result

-- The committed rows, the queue of each compartment, and the credentials of the current task.
pub record World : Type 0 where
  pub rows : List Row
  pub queues : Dict (List Text)
  pub admin : Option (Text × Text)

-- `enqueue_operation`, for the id that is drawn
unfoldable pub enqueue_operation : Text → Text → Text → Text → Text → World → World
unfolding lookup insert
enqueue_operation op_id comp op_type session payload w = record w {
  rows =
      w.rows
      ++ record {
        id = op_id;
        compartment_id = comp;
        op_type = op_type;
        payload = payload;
        session_id = session;
        status = pending;
        result = no_result;
      }
        ∷ [];
  queues = elim (lookup comp w.queues) [
    | none ↦ insert comp (op_id ∷ []) w.queues
    | some ops ↦ insert comp (ops ++ op_id ∷ []) w.queues
  ];
}

abbrev pub same_status : Status → Status → Bool
same_status pending pending = true
same_status running running = true
same_status completed completed = true
same_status failed failed = true
same_status _ _ = false

-- `OperationRow.status.in_(…)`
unfoldable pub status_in : List Status → Status → Bool
unfolding any
status_in statuses s = any (same_status s) statuses

abbrev pub ended : Status → Result → Row → Row
ended s result r = record r { status = s; result = result }

-- `mark_stale_operations_failed`
unfoldable pub mark_stale_operations_failed : World → World
unfolding status_in
mark_stale_operations_failed w = record w {
  rows =
      update_where (λ r. status_in (pending ∷ running ∷ []) r.status)
        (ended failed (error (codes "Server restarted before operation completed"))) w.rows;
}

-- `get_pending_operations`
unfoldable pub get_pending_operations : Text → List Row → List Row
unfolding text_eq status_in
get_pending_operations comp [] = []
get_pending_operations comp (r ∷ rows) =
    let rest = get_pending_operations comp rows in
    if text_eq r.compartment_id comp && status_in (pending ∷ running ∷ []) r.status
    then r ∷ rest
    else rest

-- An action of the manager: the error texts that it returns, or the text of an exception.
pub data Attempt : Type 0 where
  returned : List Text → Attempt
  raised : Text → Attempt

-- `SafeUUID.of(payload["container_id"], …)`: the id, or the text of the exception of either step.
pub data ContainerId : Type 0 where
  accepted : Text → ContainerId
  refused : Text → ContainerId

-- What the operations call, by what they come to in the state in which they are called: the rows that
-- are committed and the credentials of the task.
pub record Actions : Type 0 where
  pub start_compartment : World → Attempt
  pub stop_compartment : World → Attempt
  pub restart_compartment : World → Attempt
  pub resync_compartment : World → Attempt
  pub container_id : Text → ContainerId
  pub start_container : Text → World → Attempt
  pub stop_container : Text → World → Attempt

-- an action whose result is not used: only an exception counts
no_errors : Attempt → Attempt
no_errors (returned errors) = returned []
no_errors (raised e) = raised e

on_container : ContainerId → (Text → World → Attempt) → World → Attempt
unfolding no_errors
on_container (refused e) act w = raised e
on_container (accepted c) act w = no_errors (act c w)

-- The dispatch of `_execute_operation`; the payload is what `enqueue_operation` wrote, so that
-- `json.loads` reads it.
unfoldable pub attempt : Actions → Text → Text → World → Attempt
unfolding text_eq no_errors on_container
attempt acts op_type payload w =
    if text_eq op_type (codes "start")
    then acts.start_compartment w
    else if text_eq op_type (codes "stop")
    then acts.stop_compartment w
    else if text_eq op_type (codes "restart")
    then acts.restart_compartment w
    else if text_eq op_type (codes "resync")
    then no_errors (acts.resync_compartment w)
    else if text_eq op_type (codes "start_container")
    then on_container (acts.container_id payload) acts.start_container w
    else if text_eq op_type (codes "stop_container")
    then on_container (acts.container_id payload) acts.stop_container w
    else returned ((codes "Unknown operation type: " ++ op_type) ∷ [])

-- `UPDATE operations … WHERE id = op_id`
abbrev pub set_row : Text → (Row → Row) → World → World
set_row op_id change w = record w { rows = update_where (λ r. text_eq r.id op_id) change w.rows }

-- the `except` branch; the flag says that the second update is committed
unfoldable pub record_exception : Text → Text → Bool → World → World
record_exception op_id e saved w = if saved then set_row op_id (ended failed (error e)) w else w

-- The end of the `try` block; `save_error` is the exception of its update, if that is not committed.
unfoldable pub record_attempt : Text → Attempt → Option Text → Bool → World → World
unfolding record_exception is_empty
record_attempt op_id (raised e) save_error saved w = record_exception op_id e saved w
record_attempt op_id (returned errors) (some e) saved w = record_exception op_id e saved w
record_attempt op_id (returned errors) none saved w =
    set_row op_id (ended (if is_empty errors then completed else failed) (listed errors)) w

abbrev pub expired_error : Text
expired_error = codes "Session expired — please log in and retry"

-- behind the look-up of the row and of the credentials of its session
unfoldable pub run_operation :
    Text → Actions → Option Text → Bool → Row → Option (Text × Text) → World → World
unfolding attempt record_attempt
run_operation op_id acts save_error saved row none w =
    set_row op_id (ended failed (error expired_error)) w
run_operation op_id acts save_error saved row (some creds) w =
    let called = record w { admin = some creds } in
    let w' =
      record_attempt op_id (attempt acts row.op_type row.payload called) save_error saved called in
    record w' { admin = none }

unfoldable pub found_operation :
    Text → Actions → Option Text → Bool → (Text → Option (Text × Text)) → Option Row → World → World
unfolding run_operation
found_operation op_id acts save_error saved credentials none w = w
found_operation op_id acts save_error saved credentials (some row) w =
    run_operation op_id acts save_error saved row (credentials row.session_id) w

-- `_execute_operation`, for the `get_session_credentials` of the moment
unfoldable pub execute_operation :
    Text → Actions → Option Text → Bool → (Text → Option (Text × Text)) → World → World
unfolding found_operation first_where text_eq
execute_operation op_id acts save_error saved credentials w =
    let w' = set_row op_id (λ r. record r { status = running }) w in
    found_operation op_id acts save_error saved credentials
      (first_where (λ r. text_eq r.id op_id) w'.rows) w'
