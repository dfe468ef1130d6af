-- ===== src/Compartments/Patterns.antt =====
-- services/compartment_manager.py: the processes that the monitor saw, and the patterns that make them
-- known. A table is the list of its rows in the order of insertion; `segments_json` and the time
-- stamps, which only the page shows, are left out.
pub mod Links
pub mod Creation
pub mod Rewriting
pub mod Sequences
use quadletman.Prelude.{
  ℕ, ◌+◌, Bool, true, false, not, ◌&&◌, ◌||◌, List, [], ◌∷◌, ◌++◌, map, Option, none, some,
  if◌then◌else◌, any, all, Text, codes, text_eq, has, has_text, one_of, length, ltb, ◌==◌,
}
use quadletman.Sanitized.Check.{
  null_byte, carriage_return, too_long, bad_format, Refusal, Checked, ok, refused, ◌>>=◌, ◌>>◌,
  demand,
}
use quadletman.Sanitized.Names.{safe_str}

pub record Pattern : Type 0 where
  pub id : Text
  pub compartment_id : Text
  pub process_name : Text
  pub cmdline_pattern : Text

pub record Process : Type 0 where
  pub id : Text
  pub compartment_id : Text
  pub process_name : Text
  pub cmdline : Text
  pub known : Bool
  pub pattern_id : Option Text
  pub times_seen : ℕ

pub record Tables : Type 0 where
  pub processes : List Process
  pub patterns : List Pattern

-- The `ValueError` of an operation, or the `IntegrityError` of a unique constraint.
pub data Failure : Type 0 where
  overlaps already_exists not_found : Failure
  invalid : Refusal → Failure

pub data Answer {ℓ} (A : Type ℓ) : Type ℓ where
  done : A → Answer A
  failed : Failure → Answer A

-- An overlap and a broken unique constraint are errors; otherwise the change is committed.
abbrev pub settle {ℓ} : {A : Type ℓ} → Option Pattern → Bool → A → Answer A
settle (some conflict) taken a = failed overlaps
settle none true a = failed already_exists
settle none false a = done a

-- `re.escape`
abbrev escaped_chars : List ℕ
escaped_chars = 9 ∷ 10 ∷ 11 ∷ 12 ∷ 13 ∷ codes " #$&()*+-.?[\\]^{|}~"

unfoldable pub escape : Text → Text
unfolding any
escape [] = []
escape (c ∷ s) =
    let rest = escape s in if any (λ d. d == c) escaped_chars then b'\\' ∷ c ∷ rest else c ∷ rest

unfoldable pub same_process : Text → Text → Text → Process → Bool
unfolding text_eq
same_process comp name cmdline p =
    text_eq p.compartment_id comp && text_eq p.process_name name && text_eq p.cmdline cmdline

-- `UPDATE … WHERE`
abbrev pub update_where {ℓ} : {A : Type ℓ} → (A → Bool) → (A → A) → List A → List A
update_where test change rows = map (λ r. if test r then change r else r) rows

-- `DELETE … WHERE`
unfoldable pub delete_where {ℓ} : {A : Type ℓ} → (A → Bool) → List A → List A
delete_where test [] = []
delete_where test (r ∷ rows) =
    let rest = delete_where test rows in if test r then rest else r ∷ rest

-- the first row that a `SELECT` gives
unfoldable pub first_where {ℓ} : {A : Type ℓ} → (A → Bool) → List A → Option A
first_where test [] = none
first_where test (r ∷ rows) = let rest = first_where test rows in if test r then some r else rest

-- `.values(known=1, pattern_id=…)` and `.values(known=0, pattern_id=None)`
abbrev pub linked : Text → Process → Process
linked pattern p = record p { known = true; pattern_id = some pattern }

abbrev pub unlinked : Process → Process
unlinked p = record p { known = false; pattern_id = none }

-- `process.pattern_id == pattern`
unfoldable pub is_linked_to : Text → Process → Bool
unfolding text_eq
is_linked_to pattern p = elim p.pattern_id [ none ↦ false | some q ↦ text_eq q pattern ]

unfoldable pub is_unlinked : Process → Bool
is_unlinked p = elim p.pattern_id [ none ↦ true | some q ↦ false ]

unfoldable pub delete_process : Text → Text → Tables → Tables
unfolding text_eq delete_where
delete_process comp process db = record db {
  processes =
      delete_where (λ p. text_eq p.id process && text_eq p.compartment_id comp) db.processes;
}

unfoldable pub delete_process_pattern : Text → Text → Tables → Tables
unfolding text_eq delete_where is_linked_to
delete_process_pattern comp pattern db = record {
  processes = update_where (is_linked_to pattern) unlinked db.processes;
  patterns = delete_where (λ q. text_eq q.id pattern && text_eq q.compartment_id comp) db.patterns;
}

-- `set_process_known(…, known=False)`
unfoldable pub forget_process : Text → Text → Tables → Tables
unfolding text_eq
forget_process comp process db = record db {
  processes =
      update_where (λ p. text_eq p.id process && text_eq p.compartment_id comp) unlinked
        db.processes;
}

-- `re.fullmatch` of a pattern that users wrote, and `re.compile` of it, are those of the interpreter.
module _ (fullmatch : Text → Text → Bool) (compiles : Text → Bool) where
  -- `SafeRegex.of`
  unfoldable pub safe_regex : Text → Checked Text
  unfolding has has_text
  safe_regex v = do
    demand (not (has 0 v)) null_byte
    demand (not (has b'\r' v)) carriage_return
    demand (not (ltb 10000 (length v))) too_long
    demand (not (has_text (codes "(?") v)) bad_format
    demand (compiles v) bad_format
    ok v

  unfoldable pub match_process_against_patterns : List Pattern → Text → Text → Option Pattern
  unfolding text_eq
  match_process_against_patterns [] name cmdline = none
  match_process_against_patterns (p ∷ ps) name cmdline =
      let rest = match_process_against_patterns ps name cmdline in
      if text_eq p.process_name name && fullmatch p.cmdline_pattern cmdline then some p else rest

  -- `list_process_patterns`
  unfoldable pub list_process_patterns : Text → List Pattern → List Pattern
  unfolding text_eq delete_where
  list_process_patterns comp patterns =
      delete_where (λ p. not (text_eq p.compartment_id comp)) patterns

  unfoldable pub new_process : Text → Text → Text → Text → Option Pattern → Process
  new_process pid comp name cmdline match = record {
    id = pid;
    compartment_id = comp;
    process_name = name;
    cmdline = cmdline;
    known = elim match [ none ↦ false | some p ↦ true ];
    pattern_id = elim match [ none ↦ none | some p ↦ some p.id ];
    times_seen = 1;
  }

  -- `upsert_process`, for the id that is drawn; the Boolean says that the process is new
  unfoldable pub upsert_process : Text → Text → Text → Text → Tables → Tables × Bool
  unfolding same_process match_process_against_patterns list_process_patterns new_process any
  upsert_process pid comp name cmdline db =
      let match =
        match_process_against_patterns (list_process_patterns comp db.patterns) name cmdline in
      if any (same_process comp name cmdline) db.processes
      then (
        record db {
          processes =
              update_where (same_process comp name cmdline)
                (λ p. record p { times_seen = p.times_seen + 1 }) db.processes;
        },
        false,
      )
      else (
        record db { processes = db.processes ++ new_process pid comp name cmdline match ∷ [] },
        true,
      )

  -- `exclude_pattern_id and row["pattern_id"] == …`
  unfoldable pub excluded : Option Text → Text → Bool
  unfolding text_eq
  excluded none q = false
  excluded (some e) q = text_eq q e

  -- `_check_pattern_overlap`: the pattern of the first linked process that the new one would match too
  unfoldable pub check_pattern_overlap :
      Text → Text → Text → Option Text → List Pattern → List Process → Option Pattern
  unfolding text_eq first_where excluded
  check_pattern_overlap comp name regex exclude patterns [] = none
  check_pattern_overlap comp name regex exclude patterns (p ∷ ps) =
      let rest = check_pattern_overlap comp name regex exclude patterns ps in
      if text_eq p.compartment_id comp && text_eq p.process_name name
      then elim p.pattern_id [
        | none ↦ rest
        | some q ↦
            if not (excluded exclude q) && fullmatch regex p.cmdline
            then elim (first_where (λ r. text_eq r.id q) patterns) [ none ↦ rest | some r ↦ some r ]
            else rest
      ]
      else rest

  -- the unlinked processes of the compartment and name that match
  unfoldable pub to_link : Text → Text → Text → Process → Bool
  unfolding text_eq is_unlinked
  to_link comp name regex p =
      text_eq p.compartment_id comp
      && text_eq p.process_name name
      && is_unlinked p
      && fullmatch regex p.cmdline

  -- the unique constraint of the table
  unfoldable pub same_pattern : Text → Text → Text → Pattern → Bool
  unfolding text_eq
  same_pattern comp name regex p =
      text_eq p.compartment_id comp
      && text_eq p.process_name name
      && text_eq p.cmdline_pattern regex

  -- `create_process_pattern`, for the id that is drawn
  unfoldable pub create_process_pattern :
      Text → Text → Text → Text → Tables → Answer (Pattern × Tables)
  unfolding check_pattern_overlap same_pattern to_link any
  create_process_pattern pid comp name regex db =
      let pattern : Pattern = record {
        id = pid;
        compartment_id = comp;
        process_name = name;
        cmdline_pattern = regex;
      } in
      let db' : Tables = record {
        processes = update_where (to_link comp name regex) (linked pid) db.processes;
        patterns = db.patterns ++ pattern ∷ [];
      } in
      settle (check_pattern_overlap comp name regex none db.patterns db.processes)
        (any (same_pattern comp name regex) db.patterns) (pattern, db')

  -- behind the look-up of the pattern in `update_process_pattern`
  unfoldable pub changed_pattern : Text → Text → Text → Pattern → Tables → Answer Tables
  unfolding text_eq check_pattern_overlap same_pattern to_link is_linked_to any
  changed_pattern comp pattern regex old db =
      let name = old.process_name in
      let others = λ (q : Pattern). not (text_eq q.id pattern) && same_pattern comp name regex q in
      let kept =
        update_where (λ p. is_linked_to pattern p && not (fullmatch regex p.cmdline)) unlinked
          db.processes in
      let db' : Tables = record {
        processes = update_where (to_link comp name regex) (linked pattern) kept;
        patterns =
            update_where (λ q. text_eq q.id pattern) (λ q. record q { cmdline_pattern = regex })
              db.patterns;
      } in
      settle (check_pattern_overlap comp name regex (some pattern) db.patterns db.processes)
        (any others db.patterns) db'

  unfoldable pub update_found : Text → Text → Text → Option Pattern → Tables → Answer Tables
  unfolding changed_pattern
  update_found comp pattern regex none db = failed not_found
  update_found comp pattern regex (some old) db = changed_pattern comp pattern regex old db

  unfoldable pub update_process_pattern : Text → Text → Text → Tables → Answer Tables
  unfolding text_eq first_where update_found
  update_process_pattern comp pattern regex db =
      update_found comp pattern regex
        (first_where (λ q. text_eq q.id pattern && text_eq q.compartment_id comp) db.patterns) db

  -- what the new pattern gives
  abbrev pub as_known : Answer (Pattern × Tables) → Answer (Option Pattern × Tables)
  as_known (failed f) = failed f
  as_known (done (pattern, db)) = done (some pattern, db)

  -- the new pattern for one command line, which is its text with every special character escaped
  unfoldable pub remember_as :
      Text → Process → Tables → Checked Text → Answer (Option Pattern × Tables)
  unfolding create_process_pattern
  remember_as pid p db (refused r) = failed (invalid r)
  remember_as pid p db (ok regex) =
      as_known (create_process_pattern pid p.compartment_id p.process_name regex db)

  -- the pattern that a process is linked to
  linked_pattern : List Pattern → Option Text → Option Pattern
  unfolding text_eq first_where
  linked_pattern patterns none = none
  linked_pattern patterns (some q) = first_where (λ r. text_eq r.id q) patterns

  unfoldable pub recognise_row :
      Text → Process → Option Pattern → Tables → Answer (Option Pattern × Tables)
  unfolding escape safe_regex remember_as
  recognise_row pid p (some r) db = done (some r, db)
  recognise_row pid p none db = remember_as pid p db (safe_regex (escape p.cmdline))

  unfoldable pub recognise_found : Text → Option Process → Tables → Answer (Option Pattern × Tables)
  unfolding linked_pattern recognise_row
  recognise_found pid none db = done (none, db)
  recognise_found pid (some p) db = recognise_row pid p (linked_pattern db.patterns p.pattern_id) db

  -- `set_process_known(…, known=True)`, for the id of a new pattern
  unfoldable pub recognise_process : Text → Text → Text → Tables → Answer (Option Pattern × Tables)
  unfolding text_eq first_where recognise_found
  recognise_process pid comp process db =
      recognise_found pid
        (first_where (λ p. text_eq p.id process && text_eq p.compartment_id comp) db.processes) db
