-- ===== src/Compartments/Patterns/Creation.antt =====
-- A new pattern, and the processes that it makes known.
use quadletman.Prelude.{
  Bool, true, false, ◌||◌, List, [], ◌∷◌, ◌++◌, Option, none, some, if◌then◌else◌, any, ◌≡◌, refl,
  ◌∙◌, arith, inl, inr, Bool-cases, Text, text_eq_iff, text_eq_refl,
}
use quadletman.Sanitized.Check.{Checked, ok, refused}
use quadletman.Compartments.Patterns.{
  Pattern, Process, Tables, Answer, done, failed, update_where, linked, to_link, settle,
  create_process_pattern, as_known, remember_as, recognise_row, recognise_found,
}
use quadletman.Compartments.Patterns.Links.{covers, link_ok, IsLinked, all-update_where, link_kept}

module _ (fullmatch : Text → Text → Bool) (compiles : Text → Bool) where
  -- the tables behind an answer: an operation that fails commits nothing
  abbrev pub behind {ℓ} : {A : Type ℓ} → Answer (A × Tables) → Tables → Tables
  behind (done (a, db')) db = db'
  behind (failed f) db = db

  any-append :
      (f : Pattern → Bool) (ps qs : List Pattern) → any f (ps ++ qs) ≡ (any f ps || any f qs)
  unfolding any
  any-append f [] qs = refl
  any-append f (p ∷ ps) qs = ground (arith, any-append f ps qs)

  -- A process that is linked to a pattern of its name that matches has a right link.
  pub link_new :
      (old new : List Pattern) (pid comp name regex : Text) (p : Process)
      → ((q : Text)
          → any (covers fullmatch compiles q p.process_name p.cmdline) old ≡ true
          → any (covers fullmatch compiles q p.process_name p.cmdline) new ≡ true)
      → (to_link fullmatch compiles comp name regex p ≡ true
          → any (covers fullmatch compiles pid p.process_name p.cmdline) new ≡ true)
      → link_ok fullmatch compiles old p ≡ true
      → link_ok fullmatch compiles new
          (if to_link fullmatch compiles comp name regex p then linked pid p else p)
        ≡ true
  link_new old new pid comp name regex p keep join k =
      elim (Bool-cases (to_link fullmatch compiles comp name regex p)) [
        | inl joins ↦ rw joins (join joins)
        | inr stays ↦ rw stays (link_kept fullmatch compiles old new p false (λ q e b. keep q) k)
      ]

  -- the tables with the new pattern and its links
  abbrev with_pattern : Text → Text → Text → Text → Tables → Tables
  with_pattern pid comp name regex db = record {
    processes = update_where (to_link fullmatch compiles comp name regex) (linked pid) db.processes;
    patterns =
        db.patterns
        ++ record { id = pid; compartment_id = comp; process_name = name; cmdline_pattern = regex }
          ∷ [];
  }

  named :
      (pid comp name regex : Text) (db : Tables) (p : Process)
      → to_link fullmatch compiles comp name regex p ≡ true
      → (any (covers fullmatch compiles pid p.process_name p.cmdline) db.patterns
          || any (covers fullmatch compiles pid p.process_name p.cmdline) (
              record {
                id = pid;
                compartment_id = comp;
                process_name = name;
                cmdline_pattern = regex;
              }
              ∷ []))
        ≡ true
  unfolding any to_link
  named pid comp name regex db p k =
      ground
        (arith, text_eq_refl pid, text_eq_iff name p.process_name, text_eq_iff p.process_name name)

  with_pattern-IsLinked :
      (pid comp name regex : Text) (db : Tables)
      → IsLinked fullmatch compiles db
      → IsLinked fullmatch compiles (with_pattern pid comp name regex db)
  unfolding any
  with_pattern-IsLinked pid comp name regex db h =
      let new = (with_pattern pid comp name regex db).patterns in
      all-update_where fullmatch compiles (link_ok fullmatch compiles db.patterns)
        (link_ok fullmatch compiles new) (to_link fullmatch compiles comp name regex) (linked pid)
        db.processes
        (λ p.
          link_new db.patterns new pid comp name regex p
            (λ q k.
              any-append (covers fullmatch compiles q p.process_name p.cmdline) db.patterns _
              ∙ rw k refl)
            (λ k.
              any-append (covers fullmatch compiles pid p.process_name p.cmdline) db.patterns _
              ∙ named pid comp name regex db p k))
        h

  settled :
      {A : Type 0} (o : Option Pattern) (b : Bool) (a : A) (db' db : Tables)
      → IsLinked fullmatch compiles db'
      → IsLinked fullmatch compiles db
      → IsLinked fullmatch compiles (behind (settle o b (a, db')) db)
  settled (some c) b a db' db h k = k
  settled none true a db' db h k = k
  settled none false a db' db h k = h

  pub create_process_pattern-IsLinked :
      (pid comp name regex : Text) (db : Tables)
      → IsLinked fullmatch compiles db
      → IsLinked fullmatch compiles
          (behind (create_process_pattern fullmatch compiles pid comp name regex db) db)
  unfolding create_process_pattern
  create_process_pattern-IsLinked pid comp name regex db h =
      settled _ _ _ (with_pattern pid comp name regex db) db
        (with_pattern-IsLinked pid comp name regex db h) h

  known-IsLinked :
      (a : Answer (Pattern × Tables)) (db : Tables)
      → IsLinked fullmatch compiles (behind a db)
      → IsLinked fullmatch compiles (behind (as_known fullmatch compiles a) db)
  known-IsLinked (failed f) db h = h
  known-IsLinked (done (pattern, db')) db h = h

  remember_as-IsLinked :
      (pid : Text) (p : Process) (db : Tables) (c : Checked Text)
      → IsLinked fullmatch compiles db
      → IsLinked fullmatch compiles (behind (remember_as fullmatch compiles pid p db c) db)
  unfolding remember_as
  remember_as-IsLinked pid p db (refused r) h = h
  remember_as-IsLinked pid p db (ok regex) h =
      known-IsLinked
        (create_process_pattern fullmatch compiles pid p.compartment_id p.process_name regex db) db
        (create_process_pattern-IsLinked pid p.compartment_id p.process_name regex db h)

  recognise_row-IsLinked :
      (pid : Text) (p : Process) (o : Option Pattern) (db : Tables)
      → IsLinked fullmatch compiles db
      → IsLinked fullmatch compiles (behind (recognise_row fullmatch compiles pid p o db) db)
  unfolding recognise_row
  recognise_row-IsLinked pid p (some r) db h = h
  recognise_row-IsLinked pid p none db h = remember_as-IsLinked pid p db _ h

  pub recognise_found-IsLinked :
      (pid : Text) (o : Option Process) (db : Tables)
      → IsLinked fullmatch compiles db
      → IsLinked fullmatch compiles (behind (recognise_found fullmatch compiles pid o db) db)
  unfolding recognise_found
  recognise_found-IsLinked pid none db h = h
  recognise_found-IsLinked pid (some p) db h = recognise_row-IsLinked pid p _ db h
