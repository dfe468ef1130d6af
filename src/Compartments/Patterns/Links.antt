-- ===== src/Compartments/Patterns/Links.antt =====
-- A process is known exactly when it is linked to a pattern, and this pattern matches it.
use quadletman.Prelude.{
  ◌+◌, Bool, true, false, not, ◌&&◌, List, [], ◌∷◌, Option, none, some, if◌then◌else◌, any, all,
  all-append, ◌≡◌, refl, ◌∙◌, arith, inl, inr, Bool-cases, Text, text_eq, text_eq_iff, text_eq_refl,
}
use quadletman.Compartments.Patterns.{
  Pattern, Process, Tables, update_where, delete_where, unlinked, is_linked_to, delete_process,
  delete_process_pattern, forget_process, match_process_against_patterns, list_process_patterns,
  new_process, upsert_process, same_process,
}

module _ (fullmatch : Text → Text → Bool) (compiles : Text → Bool) where
  -- The pattern `q` is for this process name and matches this command line.
  abbrev pub covers : Text → Text → Text → Pattern → Bool
  covers q name cmdline r =
      text_eq r.id q && text_eq r.process_name name && fullmatch r.cmdline_pattern cmdline

  abbrev pub link_ok : List Pattern → Process → Bool
  link_ok patterns p = elim p.pattern_id [
    | none ↦ not p.known
    | some q ↦ p.known && any (covers q p.process_name p.cmdline) patterns
  ]

  -- Every known process is linked to a pattern that matches it, and every other has no link.
  abbrev pub IsLinked : Tables → Type 0
  IsLinked db = all (link_ok db.patterns) db.processes ≡ true

  pub all-update_where :
      (ok₁ ok₂ : Process → Bool) (test : Process → Bool) (change : Process → Process)
      (ps : List Process)
      → ((p : Process) → ok₁ p ≡ true → ok₂ (if test p then change p else p) ≡ true)
      → all ok₁ ps ≡ true
      → all ok₂ (update_where test change ps) ≡ true
  unfolding all
  all-update_where ok₁ ok₂ test change [] h k = refl
  all-update_where ok₁ ok₂ test change (p ∷ ps) h k =
      ground (arith, h p, all-update_where ok₁ ok₂ test change ps h)

  all-delete_where :
      (ok₁ test : Process → Bool) (ps : List Process)
      → all ok₁ ps ≡ true
      → all ok₁ (delete_where test ps) ≡ true
  unfolding all delete_where
  all-delete_where ok₁ test [] k = refl
  all-delete_where ok₁ test (p ∷ ps) k = ground (arith, all-delete_where ok₁ test ps)

  pub delete_process-IsLinked :
      (comp process : Text) (db : Tables) → IsLinked db → IsLinked (delete_process comp process db)
  unfolding delete_process
  delete_process-IsLinked comp process db h = all-delete_where _ _ db.processes h

  unlinked-ok :
      (patterns : List Pattern) (b : Bool) (p : Process)
      → link_ok patterns p ≡ true
      → link_ok patterns (if b then unlinked p else p) ≡ true
  unlinked-ok patterns true p k = refl
  unlinked-ok patterns false p k = k

  pub forget_process-IsLinked :
      (comp process : Text) (db : Tables) → IsLinked db → IsLinked (forget_process comp process db)
  unfolding forget_process
  forget_process-IsLinked comp process db h =
      let test = λ (p : Process). text_eq p.id process && text_eq p.compartment_id comp in
      all-update_where (link_ok db.patterns) (link_ok db.patterns) test unlinked db.processes
        (λ p. unlinked-ok db.patterns (test p) p) h

  any-delete_where :
      (comp pattern q name cmdline : Text) (ps : List Pattern)
      → text_eq q pattern ≡ false
      → any (covers q name cmdline) ps ≡ true
      → any
          (covers q name cmdline)
          (delete_where (λ r. text_eq r.id pattern && text_eq r.compartment_id comp) ps)
        ≡ true
  unfolding any delete_where
  any-delete_where comp pattern q name cmdline [] ne h = h
  any-delete_where comp pattern q name cmdline (r ∷ ps) ne h =
      ground (arith, text_eq_iff r.id q, any-delete_where comp pattern q name cmdline ps ne)

  -- A process whose link is not cut keeps what makes the link right.
  pub link_kept :
      (old new : List Pattern) (p : Process) (b : Bool)
      → ((q : Text)
          → p.pattern_id ≡ some q
          → b ≡ false
          → any (covers q p.process_name p.cmdline) old ≡ true
          → any (covers q p.process_name p.cmdline) new ≡ true)
      → link_ok old p ≡ true
      → link_ok new (if b then unlinked p else p) ≡ true
  link_kept old new p true h k = refl
  link_kept old new p false h k = go p.pattern_id (λ q e. h q e refl) k
    where
      go :
          (o : Option Text)
          → ((q : Text)
              → o ≡ some q
              → any (covers q p.process_name p.cmdline) old ≡ true
              → any (covers q p.process_name p.cmdline) new ≡ true)
          → elim o [
            | none ↦ not p.known
            | some q ↦ p.known && any (covers q p.process_name p.cmdline) old
          ]
            ≡ true
          → elim o [
            | none ↦ not p.known
            | some q ↦ p.known && any (covers q p.process_name p.cmdline) new
          ]
            ≡ true
      go none h k = k
      go (some q) h k = ground (arith, h q refl)

  pub linked_to-other :
      (pattern q : Text) (o : Option Text)
      → o ≡ some q
      → elim o [ none ↦ false | some r ↦ text_eq r pattern ] ≡ false
      → text_eq q pattern ≡ false
  linked_to-other pattern q none e h = absurd (ground arith)
  linked_to-other pattern q (some r) e h = ground arith

  pub delete_process_pattern-IsLinked :
      (comp pattern : Text) (db : Tables)
      → IsLinked db
      → IsLinked (delete_process_pattern comp pattern db)
  unfolding delete_process_pattern is_linked_to
  delete_process_pattern-IsLinked comp pattern db h =
      let left =
        delete_where (λ r. text_eq r.id pattern && text_eq r.compartment_id comp) db.patterns in
      all-update_where (link_ok db.patterns) (link_ok left) (is_linked_to pattern) unlinked
        db.processes
        (λ p. link_kept db.patterns left p (is_linked_to pattern p) (λ q e b.
          any-delete_where comp pattern q p.process_name p.cmdline db.patterns
            (linked_to-other pattern q p.pattern_id e b)))
        h

  any-deleted :
      (f test : Pattern → Bool) (ps : List Pattern)
      → any f (delete_where test ps) ≡ true
      → any f ps ≡ true
  unfolding any delete_where
  any-deleted f test [] h = h
  any-deleted f test (r ∷ ps) h = ground (arith, any-deleted f test ps)

  match-covers :
      (name cmdline : Text) (ps : List Pattern) (m : Pattern)
      → match_process_against_patterns fullmatch compiles ps name cmdline ≡ some m
      → any (covers m.id name cmdline) ps ≡ true
  unfolding match_process_against_patterns any
  match-covers name cmdline [] m h = absurd (ground arith)
  match-covers name cmdline (r ∷ ps) m h =
      elim (Bool-cases (text_eq r.process_name name && fullmatch r.cmdline_pattern cmdline)) [
        | inl hit ↦ let e : r ≡ m = ground arith in rw (← e) (ground (arith, text_eq_refl r.id))
        | inr miss ↦
            let later : match_process_against_patterns fullmatch compiles ps name cmdline ≡ some m =
              ground arith in
            let ih = match-covers name cmdline ps m later in ground arith
      ]

  new_process-ok :
      (pid comp name cmdline : Text) (patterns : List Pattern)
      → link_ok patterns (
          new_process fullmatch compiles pid comp name cmdline (
            match_process_against_patterns fullmatch compiles
              (list_process_patterns fullmatch compiles comp patterns)
              name
              cmdline))
        ≡ true
  unfolding new_process list_process_patterns
  new_process-ok pid comp name cmdline patterns = go _ refl
    where
      go :
          (o : Option Pattern)
          → match_process_against_patterns fullmatch compiles
              (list_process_patterns fullmatch compiles comp patterns)
              name
              cmdline
            ≡ o
          → link_ok patterns (new_process fullmatch compiles pid comp name cmdline o) ≡ true
      go none e = refl
      go (some m) e =
          any-deleted (covers m.id name cmdline) (λ p. not (text_eq p.compartment_id comp)) patterns
            (match-covers name cmdline _ m e)

  pub upsert_process-IsLinked :
      (pid comp name cmdline : Text) (db : Tables)
      → IsLinked db
      → IsLinked (upsert_process fullmatch compiles pid comp name cmdline db).0
  unfolding upsert_process all
  upsert_process-IsLinked pid comp name cmdline db h =
      elim (Bool-cases (any (same_process comp name cmdline) db.processes)) [
        | inl old ↦ rw old (
            all-update_where (link_ok db.patterns) (link_ok db.patterns)
              (same_process comp name cmdline) (λ p. record p { times_seen = p.times_seen + 1 })
              db.processes (λ p. seen _ p) h)
        | inr new ↦ rw new (
            all-append (link_ok db.patterns) db.processes (_ ∷ [])
            ∙ ground (arith, h, new_process-ok pid comp name cmdline db.patterns))
      ]
    where
      seen :
          (b : Bool) (p : Process)
          → link_ok db.patterns p ≡ true
          → link_ok db.patterns (if b then record p { times_seen = p.times_seen + 1 } else p) ≡ true
      seen true p k = k
      seen false p k = k
