-- ===== src/Compartments/Operations/Restart.antt =====
-- What a restart of the server does to the queued operations.
use quadletman.Prelude.{
  false, not, ◌&&◌, List, [], ◌∷◌, map, if◌then◌else◌, ◌≡◌, refl, codes, ◌∙◌, ap, arith, sym, Text,
  text_eq, any,
}
use quadletman.Compartments.Patterns.{update_where}
use quadletman.Compartments.Operations.{
  Status, pending, running, completed, failed, error, Row, World, same_status, status_in, ended,
  mark_stale_operations_failed, get_pending_operations,
}

-- A row after the restart: it has failed if it had not ended.
abbrev pub restarted_as : Status → Row → Row
restarted_as pending r = record r {
  status = failed;
  result = error (codes "Server restarted before operation completed");
}
restarted_as running r = record r {
  status = failed;
  result = error (codes "Server restarted before operation completed");
}
restarted_as completed r = r
restarted_as failed r = r

abbrev pub restarted : Row → Row
restarted r = restarted_as r.status r

-- The rows of a compartment whose status is another one in the second list, in order.
unfoldable pub changed : Text → List Row → List Row → List Row
unfolding text_eq
changed comp [] later = []
changed comp (r ∷ rows) [] = []
changed comp (r ∷ rows) (q ∷ later) =
    let rest = changed comp rows later in
    if text_eq r.compartment_id comp && not (same_status r.status q.status) then r ∷ rest else rest

marked : List Row → List Row
marked rows =
    update_where (λ r. status_in (pending ∷ running ∷ []) r.status)
      (ended failed (error (codes "Server restarted before operation completed"))) rows

mark_one :
    (s : Status) (r : Row)
    → (if status_in (pending ∷ running ∷ []) s
        then ended failed (error (codes "Server restarted before operation completed")) r
        else r)
      ≡ restarted_as s r
unfolding status_in any
mark_one pending r = refl
mark_one running r = refl
mark_one completed r = refl
mark_one failed r = refl

marked-restarted : (rows : List Row) → marked rows ≡ map restarted rows
unfolding marked
marked-restarted [] = refl
marked-restarted (r ∷ rows) =
    ap (λ (q : Row). q ∷ marked rows) (mark_one r.status r)
    ∙ ap (◌∷◌ (restarted r)) (marked-restarted rows)

open_changes :
    (s : Status) (r : Row)
    → not (same_status s (restarted_as s (record r { status = s })).status)
      ≡ status_in (pending ∷ running ∷ []) s
unfolding status_in any
open_changes pending r = refl
open_changes running r = refl
open_changes completed r = refl
open_changes failed r = refl

changed-restarted :
    (comp : Text) (rows : List Row)
    → get_pending_operations comp rows ≡ changed comp rows (map restarted rows)
unfolding get_pending_operations changed
changed-restarted comp [] = refl
changed-restarted comp (r ∷ rows) =
    let ih = changed-restarted comp rows in
    let one = open_changes r.status r in ground (arith, ih, one)

closed_after :
    (s : Status) (r : Row)
    → status_in (pending ∷ running ∷ []) (restarted_as s (record r { status = s })).status ≡ false
unfolding status_in any
closed_after pending r = refl
closed_after running r = refl
closed_after completed r = refl
closed_after failed r = refl

none_pending :
    (comp : Text) (rows : List Row) → get_pending_operations comp (map restarted rows) ≡ []
unfolding get_pending_operations
none_pending comp [] = refl
none_pending comp (r ∷ rows) =
    let ih = none_pending comp rows in let one = closed_after r.status r in ground (arith, ih, one)

-- After a restart (`mark_stale_operations_failed`) each row that was pending or running has failed with
-- its error, and every other row, the queues and the credentials are as they were. The operations of a
-- compartment that `get_pending_operations` listed before are exactly those that it has changed, in
-- their order, and behind it none is listed.
pub mark_stale_operations_failed_lem :
    (comp : Text) (w : World)
    → (mark_stale_operations_failed w ≡ record w { rows = map restarted w.rows })
      × ((get_pending_operations comp w.rows
            ≡ changed comp w.rows (mark_stale_operations_failed w).rows)
          × (get_pending_operations comp (mark_stale_operations_failed w).rows ≡ []))
unfolding mark_stale_operations_failed marked
mark_stale_operations_failed_lem comp w =
    let same = marked-restarted w.rows in
    (
      ap (λ (rows : List Row). record w { rows = rows }) same,
      (
        changed-restarted comp w.rows ∙ ap (changed comp w.rows) (sym same),
        ap (get_pending_operations comp) same ∙ none_pending comp w.rows,
      ),
    )
