-- ===== src/Compartments/Patterns/Rewriting.antt =====
-- A pattern that gets another text: links are cut and made.
use quadletman.Prelude.{
  Bool, true, false, not, ◌&&◌, List, [], ◌∷◌, Option, none, some, any, all, ◌≡◌, sym, subst, arith,
  inl, inr, Bool-cases, Text, text_eq, text_eq_iff, text_eq_refl,
}
use quadletman.Compartments.Patterns.{
  Pattern, Process, Tables, Answer, done, failed, update_where, first_where, linked, unlinked,
  is_linked_to, to_link, settle, changed_pattern, update_found,
}
use quadletman.Compartments.Patterns.Links.{covers, link_ok, IsLinked, all-update_where, link_kept}
use quadletman.Compartments.Patterns.Creation.{link_new}

module _ (fullmatch : Text → Text → Bool) (compiles : Text → Bool) where
  abbrev pub behind_update : Answer Tables → Tables → Tables
  behind_update (done db') db = db'
  behind_update (failed f) db = db

  settled_update :
      (o : Option Pattern) (b : Bool) (db' db : Tables)
      → IsLinked fullmatch compiles db'
      → IsLinked fullmatch compiles db
      → IsLinked fullmatch compiles (behind_update (settle o b db') db)
  settled_update (some c) b db' db h k = k
  settled_update none true db' db h k = k
  settled_update none false db' db h k = h

  -- The pattern with its new text.
  abbrev rewritten : Text → Text → List Pattern → List Pattern
  rewritten pattern regex ps =
      update_where (λ q. text_eq q.id pattern) (λ q. record q { cmdline_pattern = regex }) ps

  any-rewritten :
      (pattern regex q name cmdline : Text) (ps : List Pattern)
      → (text_eq q pattern ≡ true → fullmatch regex cmdline ≡ true)
      → any (covers fullmatch compiles q name cmdline) ps ≡ true
      → any (covers fullmatch compiles q name cmdline) (rewritten pattern regex ps) ≡ true
  unfolding any
  any-rewritten pattern regex q name cmdline [] m h = h
  any-rewritten pattern regex q name cmdline (r ∷ ps) m h =
      elim (Bool-cases (text_eq r.id pattern)) [
        | inl same ↦ rw same (
            ground
              (arith, m, text_eq_iff r.id q, same, any-rewritten pattern regex q name cmdline ps m))
        | inr other ↦ rw other (ground (arith, any-rewritten pattern regex q name cmdline ps m))
      ]

  found-rewritten :
      (comp pattern regex cmdline : Text) (ps : List Pattern) (old : Pattern)
      → first_where (λ q. text_eq q.id pattern && text_eq q.compartment_id comp) ps ≡ some old
      → fullmatch regex cmdline ≡ true
      → any
          (covers fullmatch compiles pattern old.process_name cmdline)
          (rewritten pattern regex ps)
        ≡ true
  unfolding any first_where
  found-rewritten comp pattern regex cmdline [] old e m = absurd (ground arith)
  found-rewritten comp pattern regex cmdline (r ∷ ps) old e m =
      elim (Bool-cases (text_eq r.id pattern && text_eq r.compartment_id comp)) [
        | inl hit ↦
            let same : r ≡ old = ground arith in
            let mine : text_eq r.id pattern ≡ true = ground arith in
            rw mine (rw (← same) (ground (arith, mine, m, text_eq_refl r.process_name)))
        | inr miss ↦
            let later : first_where (λ q. text_eq q.id pattern && text_eq q.compartment_id comp) ps
                ≡ some old =
              ground arith in
            let ih = found-rewritten comp pattern regex cmdline ps old later m in ground arith
      ]

  still_matches :
      (pattern q : Text) (o : Option Text) (m : Bool)
      → o ≡ some q
      → (elim o [ none ↦ false | some r ↦ text_eq r pattern ] && not m) ≡ false
      → text_eq q pattern ≡ true
      → m ≡ true
  still_matches pattern q none m e h k = absurd (ground arith)
  still_matches pattern q (some r) m e h k = ground arith

  -- the processes of which the links that no longer match are cut
  abbrev cut : Text → Text → List Process → List Process
  cut pattern regex ps =
      update_where (λ p. is_linked_to pattern p && not (fullmatch regex p.cmdline)) unlinked ps

  cut-linked :
      (pattern regex : Text) (patterns : List Pattern) (ps : List Process)
      → all (link_ok fullmatch compiles patterns) ps ≡ true
      → all (link_ok fullmatch compiles (rewritten pattern regex patterns)) (cut pattern regex ps)
        ≡ true
  unfolding is_linked_to
  cut-linked pattern regex patterns ps h =
      let new = rewritten pattern regex patterns in
      let test = λ (p : Process). is_linked_to pattern p && not (fullmatch regex p.cmdline) in
      all-update_where fullmatch compiles (link_ok fullmatch compiles patterns)
        (link_ok fullmatch compiles new) test unlinked ps
        (λ p. link_kept fullmatch compiles patterns new p (test p) (λ q e b.
          any-rewritten pattern regex q p.process_name p.cmdline patterns
            (still_matches pattern q p.pattern_id (fullmatch regex p.cmdline) e b)))
        h

  joins-covered :
      (comp pattern regex : Text) (patterns : List Pattern) (old : Pattern) (p : Process)
      → first_where (λ q. text_eq q.id pattern && text_eq q.compartment_id comp) patterns ≡ some old
      → to_link fullmatch compiles comp old.process_name regex p ≡ true
      → any
          (covers fullmatch compiles pattern p.process_name p.cmdline)
          (rewritten pattern regex patterns)
        ≡ true
  unfolding to_link
  joins-covered comp pattern regex patterns old p e k =
      let name : p.process_name ≡ old.process_name =
        (text_eq_iff p.process_name old.process_name).0 (ground arith) in
      let found = found-rewritten comp pattern regex p.cmdline patterns old e (ground arith) in
      subst
        (λ n.
          any (covers fullmatch compiles pattern n p.cmdline) (rewritten pattern regex patterns)
          ≡ true)
        (sym name) found

  pub update_found-IsLinked :
      (comp pattern regex : Text) (o : Option Pattern) (db : Tables)
      → first_where (λ q. text_eq q.id pattern && text_eq q.compartment_id comp) db.patterns ≡ o
      → IsLinked fullmatch compiles db
      → IsLinked fullmatch compiles
          (behind_update (update_found fullmatch compiles comp pattern regex o db) db)
  unfolding update_found changed_pattern
  update_found-IsLinked comp pattern regex none db e h = h
  update_found-IsLinked comp pattern regex (some old) db e h =
      let new = rewritten pattern regex db.patterns in
      settled_update _ _
        (record {
          processes =
              update_where (to_link fullmatch compiles comp old.process_name regex) (linked pattern)
                (cut pattern regex db.processes);
          patterns = new;
        })
        db
        (all-update_where fullmatch compiles (link_ok fullmatch compiles new)
          (link_ok fullmatch compiles new) (to_link fullmatch compiles comp old.process_name regex)
          (linked pattern) (cut pattern regex db.processes)
          (λ p.
            link_new fullmatch compiles new new pattern comp old.process_name regex p (λ q k. k)
              (joins-covered comp pattern regex db.patterns old p e))
          (cut-linked pattern regex db.patterns db.processes h))
        h
