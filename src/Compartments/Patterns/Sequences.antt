-- ===== src/Compartments/Patterns/Sequences.antt =====
-- Any sequence of the operations on processes and patterns keeps the links right.
use quadletman.Prelude.{Bool, ◌&&◌, List, [], ◌∷◌, refl, Text, text_eq}
use quadletman.Compartments.Patterns.{
  Tables, first_where, delete_process, delete_process_pattern, forget_process, upsert_process,
  create_process_pattern, update_process_pattern, recognise_process,
}
use quadletman.Compartments.Patterns.Links.{
  IsLinked, delete_process-IsLinked, forget_process-IsLinked, delete_process_pattern-IsLinked,
  upsert_process-IsLinked,
}
use quadletman.Compartments.Patterns.Creation.{
  behind, create_process_pattern-IsLinked, recognise_found-IsLinked,
}
use quadletman.Compartments.Patterns.Rewriting.{behind_update, update_found-IsLinked}

-- What a request or the monitor asks for; the ids are the ones that are drawn.
pub data Change : Type 0 where
  seen : (pid comp name cmdline : Text) → Change
  created : (pid comp name regex : Text) → Change
  updated : (comp pattern regex : Text) → Change
  deleted : (comp pattern : Text) → Change
  recognised : (pid comp process : Text) → Change
  forgotten : (comp process : Text) → Change
  removed : (comp process : Text) → Change

module _ (fullmatch : Text → Text → Bool) (compiles : Text → Bool) where
  abbrev pub change : Change → Tables → Tables
  change (seen pid comp name cmdline) db =
      (upsert_process fullmatch compiles pid comp name cmdline db).0
  change (created pid comp name regex) db =
      behind fullmatch compiles (create_process_pattern fullmatch compiles pid comp name regex db)
        db
  change (updated comp pattern regex) db =
      behind_update fullmatch compiles
        (update_process_pattern fullmatch compiles comp pattern regex db) db
  change (deleted comp pattern) db = delete_process_pattern comp pattern db
  change (recognised pid comp process) db =
      behind fullmatch compiles (recognise_process fullmatch compiles pid comp process db) db
  change (forgotten comp process) db = forget_process comp process db
  change (removed comp process) db = delete_process comp process db

  abbrev pub changes : List Change → Tables → Tables
  changes [] db = db
  changes (c ∷ cs) db = changes cs (change c db)

  change-IsLinked :
      (c : Change) (db : Tables)
      → IsLinked fullmatch compiles db
      → IsLinked fullmatch compiles (change c db)
  unfolding update_process_pattern recognise_process
  change-IsLinked (seen pid comp name cmdline) db h =
      upsert_process-IsLinked fullmatch compiles pid comp name cmdline db h
  change-IsLinked (created pid comp name regex) db h =
      create_process_pattern-IsLinked fullmatch compiles pid comp name regex db h
  change-IsLinked (updated comp pattern regex) db h =
      update_found-IsLinked fullmatch compiles comp pattern regex _ db refl h
  change-IsLinked (deleted comp pattern) db h =
      delete_process_pattern-IsLinked fullmatch compiles comp pattern db h
  change-IsLinked (recognised pid comp process) db h =
      recognise_found-IsLinked fullmatch compiles pid
        (first_where (λ p. text_eq p.id process && text_eq p.compartment_id comp) db.processes) db h
  change-IsLinked (forgotten comp process) db h =
      forget_process-IsLinked fullmatch compiles comp process db h
  change-IsLinked (removed comp process) db h =
      delete_process-IsLinked fullmatch compiles comp process db h

  -- Whatever is done to processes and patterns, in any order, failed operations included: if at the
  -- start each known process is linked to a pattern of its name that matches its command line, and no
  -- other process has a link, then this is so at the end.
  pub changes-IsLinked :
      (cs : List Change) (db : Tables)
      → IsLinked fullmatch compiles db
      → IsLinked fullmatch compiles (changes cs db)
  changes-IsLinked [] db h = h
  changes-IsLinked (c ∷ cs) db h = changes-IsLinked cs (change c db) (change-IsLinked c db h)
