-- ===== src/Compartments/Resources/Filed.antt =====
-- Which rows of images have the unit that their template gives.
use quadletman.Prelude.{
  Bool, true, false, not, ◌||◌, List, [], ◌∷◌, ◌++◌, Option, none, some, if◌then◌else◌, ◌≡◌, refl,
  sym, subst, ◌∙◌, inl, inr, arith, Bool-cases, Option-cases, All, all, all-append, any, Text,
  codes, text_eq, text_eq_iff, text_eq_refl,
}
use quadletman.Prelude.Dict.{Dict, lookup, insert, remove, lookup-insert, lookup-remove}
use quadletman.Quadlet.Units.{Resource, Templates, tidy}
use quadletman.Quadlet.Sync.{resource_files, issues, compare_file}
use quadletman.Quadlet.Sync.Repair.{tidy-tidy}
use quadletman.Compartments.Patterns.{update_where, delete_where}
use quadletman.Compartments.Resources.{ResourceRow, is_id, clashes, resources_of, with_settings}
use quadletman.Compartments.Resources.Tables.{IsApart, changed, text_eq-suffix, clashes-sym}

module _ (comp : Text) (t : Templates) where
  abbrev pub file_of : Resource → Text
  file_of r = r.qm_name ++ codes ".image"

  abbrev pub content_of : Resource → Text
  content_of r = tidy (t.image comp r)

  abbrev pub holds : Text → Option Text → Bool
  holds content none = false
  holds content (some found) = text_eq found content

  -- The row is of another compartment, or its file has the content of its template.
  unfoldable pub is_filed : Dict Text → ResourceRow → Bool
  unfolding text_eq lookup tidy
  is_filed disk r =
      not (text_eq r.compartment_id comp)
      || holds (content_of r.resource) (lookup (file_of r.resource) disk)

  other_file :
      (r row : ResourceRow)
      → text_eq row.compartment_id comp ≡ true
      → text_eq r.compartment_id comp ≡ true
      → clashes r row ≡ false
      → text_eq (file_of row.resource) (file_of r.resource) ≡ false
  unfolding clashes
  other_file r row c d h =
      let apart : text_eq row.resource.qm_name r.resource.qm_name ≡ false = ground (
        arith,
        c,
        d,
        h,
        text_eq_iff r.compartment_id comp,
        text_eq_iff row.compartment_id comp,
        text_eq_iff r.compartment_id row.compartment_id,
        text_eq_iff row.resource.qm_name r.resource.qm_name,
        text_eq_iff r.resource.qm_name row.resource.qm_name,
      ) in
      text_eq-suffix (codes ".image") row.resource.qm_name r.resource.qm_name ∙ apart

  -- writing or removing the file of one row leaves that of another one as it is
  inserted-other :
      (disk : Dict Text) (content : Text) (r row : ResourceRow)
      → text_eq row.compartment_id comp ≡ true
      → clashes r row ≡ false
      → is_filed (insert (file_of row.resource) content disk) r ≡ is_filed disk r
  unfolding is_filed
  inserted-other disk content r row c h = elim (Bool-cases (text_eq r.compartment_id comp)) [
    | inr e ↦ rw e refl
    | inl e ↦
        rw
          (
            lookup-insert (file_of r.resource) (file_of row.resource) content disk,
            other_file r row c e h,
          )
          refl
  ]

  removed-other :
      (disk : Dict Text) (r row : ResourceRow)
      → text_eq row.compartment_id comp ≡ true
      → clashes r row ≡ false
      → is_filed (remove (file_of row.resource) disk) r ≡ is_filed disk r
  unfolding is_filed
  removed-other disk r row c h = elim (Bool-cases (text_eq r.compartment_id comp)) [
    | inr e ↦ rw e refl
    | inl e ↦
        rw (lookup-remove (file_of r.resource) (file_of row.resource) disk, other_file r row c e h)
          refl
  ]

  written-own :
      (disk : Dict Text) (r : ResourceRow)
      → is_filed (insert (file_of r.resource) (content_of r.resource) disk) r ≡ true
  unfolding is_filed
  written-own disk r =
      rw
        (
          lookup-insert (file_of r.resource) (file_of r.resource) (content_of r.resource) disk,
          text_eq_refl (file_of r.resource),
          text_eq_refl (content_of r.resource),
        )
        (ground arith)

  pub all-inserted :
      (disk : Dict Text) (content : Text) (row : ResourceRow) (rows : List ResourceRow)
      → text_eq row.compartment_id comp ≡ true
      → any (clashes row) rows ≡ false
      → all (is_filed disk) rows ≡ true
      → all (is_filed (insert (file_of row.resource) content disk)) rows ≡ true
  unfolding all any
  all-inserted disk content row [] c h f = refl
  all-inserted disk content row (r ∷ rows) c h f =
      let apart : clashes r row ≡ false = clashes-sym r row ∙ ground (arith, h) in
      ground (
        arith,
        f,
        inserted-other disk content r row c apart,
        all-inserted disk content row rows c (ground (arith, h)) (ground (arith, f)),
      )

  pub all-added :
      (disk : Dict Text) (row : ResourceRow) (rows : List ResourceRow)
      → text_eq row.compartment_id comp ≡ true
      → any (clashes row) rows ≡ false
      → all (is_filed disk) rows ≡ true
      → all
          (is_filed (insert (file_of row.resource) (content_of row.resource) disk))
          (rows ++ row ∷ [])
        ≡ true
  unfolding all
  all-added disk row rows c h f =
      all-append _ rows (row ∷ [])
      ∙ ground
          (arith, written-own disk row, all-inserted disk (content_of row.resource) row rows c h f)

  pub all-changed :
      (id : Text) (given : Resource) (disk : Dict Text) (row : ResourceRow)
      (rows : List ResourceRow)
      → text_eq row.compartment_id comp ≡ true
      → is_id id row ≡ true
      → All (IsApart id row) rows
      → all (is_filed disk) rows ≡ true
      → all
          (is_filed
            (insert (file_of row.resource) (content_of (with_settings given row.resource)) disk))
          (update_where (is_id id) (changed given) rows)
        ≡ true
  unfolding all
  all-changed id given disk row [] c e a f = refl
  all-changed id given disk row (r ∷ rows) c e (inl same, a) f =
      let later = all-changed id given disk row rows c e a (ground (arith, f)) in
      let own =
        subst
          (λ (x : ResourceRow).
            is_filed
              (insert (file_of row.resource) (content_of (with_settings given row.resource)) disk)
              (if is_id id x then changed given x else x)
            ≡ true)
          (sym same) (rw e (written-own disk (changed given row))) in
      ground (arith, own, later)
  all-changed id given disk row (r ∷ rows) c e (inr (other, apart), a) f =
      let later = all-changed id given disk row rows c e a (ground (arith, f)) in
      let kept =
        inserted-other disk (content_of (with_settings given row.resource)) r row c apart in
      rw other (ground (arith, kept, later, f))

  pub all-deleted :
      (id : Text) (disk : Dict Text) (row : ResourceRow) (rows : List ResourceRow)
      → text_eq row.compartment_id comp ≡ true
      → is_id id row ≡ true
      → All (IsApart id row) rows
      → all (is_filed disk) rows ≡ true
      → all (is_filed (remove (file_of row.resource) disk)) (delete_where (is_id id) rows) ≡ true
  unfolding all delete_where
  all-deleted id disk row [] c e a f = refl
  all-deleted id disk row (r ∷ rows) c e (inl same, a) f =
      let later = all-deleted id disk row rows c e a (ground (arith, f)) in
      let gone : is_id id r ≡ true = subst (λ (x : ResourceRow). is_id id x ≡ true) (sym same) e in
      rw gone later
  all-deleted id disk row (r ∷ rows) c e (inr (other, apart), a) f =
      let later = all-deleted id disk row rows c e a (ground (arith, f)) in
      let kept = removed-other disk r row c apart in rw other (ground (arith, kept, later, f))

  -- where all rows are filed, the sync check finds no issue
  pub issues-filed :
      (disk : Dict Text) (rows : List ResourceRow)
      → all (is_filed disk) rows ≡ true
      → issues disk (resource_files (t.image comp) (codes ".image") (resources_of comp rows)) ≡ []
  unfolding all is_filed issues compare_file resources_of
  issues-filed disk [] f = refl
  issues-filed disk (r ∷ rows) f =
      let later = issues-filed disk rows (ground (arith, f)) in
      elim (Bool-cases (text_eq r.compartment_id comp)) [
        | inr e ↦ rw e later
        | inl e ↦ elim (Option-cases (lookup (file_of r.resource) disk)) [
          | inl none_there ↦ absurd (ground (arith, f, e, none_there))
          | inr (found, there) ↦
              let same : found ≡ content_of r.resource =
                (text_eq_iff found (content_of r.resource)).0 (ground (arith, f, e, there)) in
              rw
                (
                  e,
                  there,
                  same,
                  tidy-tidy (t.image comp r.resource),
                  text_eq_refl (content_of r.resource),
                )
                later
        ]
      ]
