-- ===== src/Compartments/Operations/Tests.antt =====
-- Runs of the operation queue, and the theorems at them.
use quadletman.Prelude.{
  true, [], ◌∷◌, map, Option, none, some, ◌≡◌, refl, if◌then◌else◌, Text, codes, text_eq,
}
use quadletman.Compartments.Patterns.{update_where, first_where}
use quadletman.Compartments.Operations.{
  pending, completed, failed, no_result, listed, error, Row, World, returned, raised, refused,
  Actions, ended, enqueue_operation, execute_operation, mark_stale_operations_failed,
  get_pending_operations,
}
use quadletman.Compartments.Operations.Dispatch.{starting}
use quadletman.Compartments.Operations.Outcome.{
  final, with_running, admin_after, execute_operation_lem,
}
use quadletman.Compartments.Operations.Restart.{
  restarted, changed, mark_stale_operations_failed_lem,
}

abbrev quiet : Actions
quiet = record {
  start_compartment = λ w. returned [];
  stop_compartment = λ w. raised (codes "busy");
  restart_compartment = λ w. returned (codes "no unit" ∷ []);
  resync_compartment = λ w. returned [];
  container_id = λ p. refused (codes "'container_id'");
  start_container = λ c w. returned [];
  stop_container = λ c w. returned [];
}

abbrev logged_in : Text → Option (Text × Text)
logged_in s = if text_eq s (codes "s1") then some (codes "root", codes "secret") else none

abbrev idle : World
idle = record { rows = []; queues = []; admin = none }

abbrev row_of : Text → Row
row_of op_type = record {
  id = codes "o1";
  compartment_id = codes "web";
  op_type = op_type;
  payload = codes "{}";
  session_id = codes "s1";
  status = pending;
  result = no_result;
}

abbrev queued : Text → World
queued op_type = record idle {
  rows = row_of op_type ∷ [];
  queues = (codes "web", codes "o1" ∷ []) ∷ [];
}

enqueue_first :
    enqueue_operation (codes "o1") (codes "web") (codes "stop") (codes "s1") (codes "{}") idle
    ≡ queued (codes "stop")
unfolding enqueue_operation
enqueue_first = refl

execute_stop :
    (execute_operation (codes "o1") quiet none true logged_in (queued (codes "stop"))).rows
    ≡ ended failed (error (codes "busy")) (row_of (codes "stop")) ∷ []
unfolding execute_operation text_eq
execute_stop = refl

execute_operation_lem_example :
    let (s, result) =
      final quiet starting
        (row_of (codes "start"))
        (with_running (codes "o1") (queued (codes "start")))
        (logged_in (codes "s1")) in
    execute_operation (codes "o1") quiet none true logged_in (queued (codes "start"))
    ≡ record (queued (codes "start")) {
      rows =
          update_where
            (λ r. text_eq r.id (codes "o1"))
            (ended s result)
            (queued (codes "start")).rows;
      admin = admin_after (logged_in (codes "s1")) none;
    }
unfolding first_where text_eq
execute_operation_lem_example =
    execute_operation_lem (codes "o1") quiet starting logged_in (queued (codes "start"))
      (row_of (codes "start")) refl refl

abbrev past : Row
past = ended completed (listed []) (row_of (codes "start"))

abbrev crashed : World
crashed = record idle { rows = past ∷ row_of (codes "stop") ∷ [] }

mark_stale_operations_failed_lem_example :
    (mark_stale_operations_failed crashed ≡ record crashed { rows = map restarted crashed.rows })
    × ((get_pending_operations (codes "web") crashed.rows
          ≡ changed (codes "web") crashed.rows (mark_stale_operations_failed crashed).rows)
        × (get_pending_operations (codes "web") (mark_stale_operations_failed crashed).rows ≡ []))
mark_stale_operations_failed_lem_example = mark_stale_operations_failed_lem (codes "web") crashed
