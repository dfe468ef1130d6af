-- ===== src/HostSettings/RoundTrip.antt =====
-- The file of the settings is read back as it was written.
use quadletman.Prelude.{
  Bool, true, false, List, [], ◌∷◌, ◌++◌, Option, none, some, if◌then◌else◌, ◌≡◌, refl, sym, ap,
  subst, ◌∙◌, inl, inr, arith, Bool-cases, all, any, Text, codes, text_eq, text_eq_iff, is_empty,
  is_space, strip, lstrip, rstrip, starts_with, split_lines, lines_from, is_line_break, in_ranges,
}
use quadletman.Prelude.Dict.{Dict, lookup, insert, lookup-insert}
use quadletman.Bundle.Sections.RoundTrip.{plain, lines_from-plain}
use quadletman.HostSettings.{
  read_entry, read_entries, place_entry, sorted, entry_lines, written, read_managed, header,
  persisted,
}
use quadletman.HostSettings.Sorted.{lookup-sorted, AreDistinct, sorted-AreDistinct}
use quadletman.HostSettings.Entries.{is_clean, both, is_clean-IsEntry, read_entry-clean, line-plain}

-- the entries of the second dict, put into the first one by one
unfoldable pub insert_each : Dict Text → Dict Text → Dict Text
unfolding insert
insert_each [] acc = acc
insert_each ((k, v) ∷ d) acc = insert_each d (insert k v acc)

read_entries-lines :
    (d acc : Dict Text)
    → all is_clean d ≡ true
    → read_entries (lines_from false [] (entry_lines d)) acc ≡ insert_each d acc
unfolding read_entries entry_lines insert_each all
read_entries-lines [] acc h = unfold lines_from is_empty in refl
read_entries-lines ((k, v) ∷ d) acc h =
    let clean = is_clean-IsEntry k v (both (is_clean (k, v)) _ h).0 in
    ap (λ (ls : List Text). read_entries ls acc)
      (lines_from-plain [] (k ++ (codes " = " ++ v)) (entry_lines d) (line-plain k v clean))
    ∙ ap (read_entries (lines_from false [] (entry_lines d))) (read_entry-clean k v acc clean)
    ∙ read_entries-lines d (insert k v acc) (both (is_clean (k, v)) _ h).1

abbrev or_else : Option Text → Option Text → Option Text
or_else none b = b
or_else (some v) b = some v

or_else-none : (o : Option Text) → or_else o none ≡ o
or_else-none none = refl
or_else-none (some v) = refl

or_else-put :
    (o rest : Option Text) (v : Text) (b : Bool)
    → (b ≡ true → o ≡ none)
    → or_else o (if b then some v else rest) ≡ or_else (if b then some v else o) rest
or_else-put none rest v true h = refl
or_else-put (some w) rest v true h = absurd (ground (arith, h refl))
or_else-put o rest v false h = refl

lookup-insert_each :
    (k : Text) (d acc : Dict Text)
    → AreDistinct d
    → lookup k (insert_each d acc) ≡ or_else (lookup k d) (lookup k acc)
unfolding insert_each lookup
lookup-insert_each k [] acc a = refl
lookup-insert_each k ((j, v) ∷ d) acc a =
    lookup-insert_each k d (insert j v acc) a.1
    ∙ ap (or_else (lookup k d)) (lookup-insert k j v acc)
    ∙ or_else-put (lookup k d) (lookup k acc) v (text_eq j k)
        (λ e. subst (λ (x : Text). lookup x d ≡ none) ((text_eq_iff j k).0 e) a.0)

place_entry-clean :
    (e : Text × Text) (d : Dict Text)
    → is_clean e ≡ true
    → all is_clean d ≡ true
    → all is_clean (place_entry e d) ≡ true
unfolding place_entry all
place_entry-clean e [] h k = ground (arith, h)
place_entry-clean e (f ∷ d) h k = ground (arith, h, k, place_entry-clean e d h)

sorted-clean : (d : Dict Text) → all is_clean d ≡ true → all is_clean (sorted d) ≡ true
unfolding sorted all
sorted-clean [] h = refl
sorted-clean (e ∷ d) h =
    place_entry-clean e (sorted d) (ground (arith, h)) (sorted-clean d (ground (arith, h)))

read_entry-header : (d : Dict Text) → read_entry header d ≡ d
unfolding read_entry header strip lstrip rstrip is_space in_ranges is_empty starts_with
read_entry-header d = refl

header-plain : plain header ≡ true
unfolding header any is_line_break in_ranges
header-plain = refl

-- what is read of the file that is written for some settings
read_managed-entries :
    (managed : Dict Text)
    → all is_clean managed ≡ true
    → read_managed (written managed) ≡ insert_each (sorted managed) []
unfolding read_managed written split_lines read_entries
read_managed-entries managed h =
    let d = sorted managed in
    ap (λ (ls : List Text). read_entries ls [])
      (lines_from-plain [] header (entry_lines d) header-plain)
    ∙ ap (read_entries (lines_from false [] (entry_lines d))) (read_entry-header [])
    ∙ read_entries-lines d [] (sorted-clean managed h)

lookup-read_managed :
    (k : Text) (managed : Dict Text)
    → AreDistinct managed
    → all is_clean managed ≡ true
    → lookup k (read_managed (written managed)) ≡ lookup k managed
unfolding lookup
lookup-read_managed k managed a h =
    ap (lookup k) (read_managed-entries managed h)
    ∙ lookup-insert_each k (sorted managed) [] (sorted-AreDistinct managed a)
    ∙ or_else-none (lookup k (sorted managed))
    ∙ lookup-sorted k managed

insert-AreDistinct : (k v : Text) (d : Dict Text) → AreDistinct d → AreDistinct (insert k v d)
unfolding insert lookup
insert-AreDistinct k v [] a = (refl, tt)
insert-AreDistinct k v ((j, w) ∷ d) a = elim (Bool-cases (text_eq j k)) [
  | inl e ↦ rw e a
  | inr e ↦ rw e (
    lookup-insert j k v d ∙ ground (arith, e, a.0, text_eq_iff j k, text_eq_iff k j),
    insert-AreDistinct k v d a.1,
  )
]

insert-clean :
    (k v : Text) (d : Dict Text)
    → is_clean (k, v) ≡ true
    → all is_clean d ≡ true
    → all is_clean (insert k v d) ≡ true
unfolding insert all
insert-clean k v [] c h = rw c refl
insert-clean k v ((j, w) ∷ d) c h =
    let parts = both (is_clean (j, w)) (all is_clean d) h in
    elim (Bool-cases (text_eq j k)) [
      | inl e ↦
          let kept = subst (λ (x : Text). is_clean (x, v) ≡ true) (sym ((text_eq_iff j k).0 e)) c in
          rw (e, kept) parts.1
      | inr e ↦ rw (e, parts.0) (insert-clean k v d c parts.1)
    ]

insert_each-IsManaged :
    (d acc : Dict Text)
    → all is_clean d ≡ true
    → AreDistinct acc × (all is_clean acc ≡ true)
    → AreDistinct (insert_each d acc) × (all is_clean (insert_each d acc) ≡ true)
unfolding insert_each all
insert_each-IsManaged [] acc h m = m
insert_each-IsManaged ((k, v) ∷ d) acc h m =
    let parts = both (is_clean (k, v)) (all is_clean d) h in
    insert_each-IsManaged d (insert k v acc) parts.1
      (insert-AreDistinct k v acc m.0, insert-clean k v acc parts.0 m.1)

-- A setting is persisted in a file that was written for some settings. Where names are distinct, not
-- empty, without `=` and no comments, and names and values are single lines without white space at
-- their ends: reading the new file gives the setting its new value, each other setting the value
-- that it had, and nothing else.
pub read_managed-persisted :
    (key value : Text) (managed : Dict Text)
    → AreDistinct managed
    → all is_clean ((key, value) ∷ managed) ≡ true
    → (k : Text)
    → lookup k (read_managed (persisted key value (written managed)))
      ≡ (if text_eq key k then some value else lookup k managed)
unfolding persisted all
read_managed-persisted key value managed a h k =
    let parts = both (is_clean (key, value)) (all is_clean managed) h in
    let old = read_managed (written managed) in
    let held =
      subst (λ (d : Dict Text). AreDistinct d × (all is_clean d ≡ true))
        (sym (read_managed-entries managed parts.1))
        (insert_each-IsManaged (sorted managed) [] (sorted-clean managed parts.1) (tt, refl)) in
    lookup-read_managed k (insert key value old) (insert-AreDistinct key value old held.0)
      (insert-clean key value old parts.0 held.1)
    ∙ lookup-insert k key value old
    ∙ ap (λ (o : Option Text). if text_eq key k then some value else o)
        (lookup-read_managed k managed a parts.1)
