-- ===== src/Compartments/Tests.antt =====
-- Runs of the process monitor, with a `fullmatch` that compares texts, and the theorem at them.
use quadletman.Prelude.{
  Bool, true, false, List, [], ◌∷◌, none, some, ◌≡◌, refl, Text, codes, text_eq, all,
}
use quadletman.Compartments.Patterns.{
  Tables, escape, upsert_process, create_process_pattern, update_process_pattern,
}
use quadletman.Compartments.Patterns.Links.{IsLinked}
use quadletman.Compartments.Patterns.Sequences.{
  Change, seen, created, updated, changes, changes-IsLinked,
}

abbrev equal_texts : Text → Text → Bool
equal_texts = text_eq

abbrev all_compile : Text → Bool
all_compile v = true

abbrev empty_tables : Tables
empty_tables = record { processes = []; patterns = [] }

abbrev visit : List Change
visit =
    seen (codes "p1") (codes "web") (codes "nginx") (codes "nginx -g")
    ∷ created (codes "q1") (codes "web") (codes "nginx") (codes "nginx -g")
    ∷ seen (codes "p2") (codes "web") (codes "nginx") (codes "nginx -t")
    ∷ updated (codes "web") (codes "q1") (codes "nginx -t")
    ∷ []

-- The pattern moves from the first process to the second.
visit_result : changes equal_texts all_compile visit empty_tables ≡ record {
  processes =
      record {
        id = codes "p1";
        compartment_id = codes "web";
        process_name = codes "nginx";
        cmdline = codes "nginx -g";
        known = false;
        pattern_id = none;
        times_seen = 1;
      }
      ∷ record {
        id = codes "p2";
        compartment_id = codes "web";
        process_name = codes "nginx";
        cmdline = codes "nginx -t";
        known = true;
        pattern_id = some (codes "q1");
        times_seen = 1;
      }
      ∷ [];
  patterns =
      record {
        id = codes "q1";
        compartment_id = codes "web";
        process_name = codes "nginx";
        cmdline_pattern = codes "nginx -t";
      }
      ∷ [];
}
unfolding upsert_process create_process_pattern update_process_pattern text_eq
visit_result = refl

escape_dots : escape (codes "a.b c") ≡ codes "a\\.b\\ c"
unfolding escape
escape_dots = refl

changes-IsLinked_example :
    IsLinked equal_texts all_compile (changes equal_texts all_compile visit empty_tables)
unfolding all
changes-IsLinked_example = changes-IsLinked equal_texts all_compile visit empty_tables refl
