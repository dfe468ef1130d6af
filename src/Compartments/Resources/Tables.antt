-- ===== src/Compartments/Resources/Tables.antt =====
-- The key and the unique constraint of a table of resources, through insertions, changes of settings
-- and deletions.
use quadletman.Prelude.{
  Bool, true, false, ◌&&◌, List, [], ◌∷◌, ◌++◌, some, ◌≡◌, refl, ap, subst, ◌∙◌, ◌⊎◌, inl, inr,
  arith, Bool-cases, All, any, length, length-append, Text, text_eq, text_eq_iff, text_eq_refl,
}
use quadletman.Compartments.Patterns.{update_where, delete_where, first_where}
use quadletman.Quadlet.Units.{Resource}
use quadletman.Compartments.Resources.{ResourceRow, is_id, clashes, row_of, with_settings}

pub text_eq-suffix : (s a b : Text) → text_eq (a ++ s) (b ++ s) ≡ text_eq a b
unfolding text_eq
text_eq-suffix s [] [] = text_eq_refl s
text_eq-suffix s (c ∷ a) (d ∷ b) = ground (arith, text_eq-suffix s a b)
text_eq-suffix s [] (d ∷ b) = elim (Bool-cases (text_eq s (d ∷ b ++ s))) [
  | inl e ↦ absurd (omega (arith, length-append b s, ap length ((text_eq_iff s (d ∷ b ++ s)).0 e)))
  | inr e ↦ e
]
text_eq-suffix s (c ∷ a) [] = elim (Bool-cases (text_eq (c ∷ a ++ s) s)) [
  | inl e ↦ absurd (omega (arith, length-append a s, ap length ((text_eq_iff (c ∷ a ++ s) s).0 e)))
  | inr e ↦ e
]

-- No two rows have the same id, or the same compartment and name.
abbrev pub AreDistinct : List ResourceRow → Type 0
AreDistinct [] = Unit
AreDistinct (r ∷ rows) = (any (clashes r) rows ≡ false) × AreDistinct rows

text_eq-sym : (s t : Text) → text_eq s t ≡ text_eq t s
text_eq-sym s t = ground (arith, text_eq_iff s t, text_eq_iff t s)

pub clashes-sym : (a b : ResourceRow) → clashes a b ≡ clashes b a
unfolding clashes
clashes-sym a b =
    rw
      (
        text_eq-sym a.resource.id b.resource.id,
        text_eq-sym a.compartment_id b.compartment_id,
        text_eq-sym a.resource.qm_name b.resource.qm_name,
      )
      refl

any-added :
    (f : ResourceRow → Bool) (rows : List ResourceRow) (r : ResourceRow)
    → any f rows ≡ false
    → f r ≡ false
    → any f (rows ++ r ∷ []) ≡ false
unfolding any
any-added f [] r h k = ground arith
any-added f (s ∷ rows) r h k = ground (arith, any-added f rows r)

pub added-AreDistinct :
    (row : ResourceRow) (rows : List ResourceRow)
    → any (clashes row) rows ≡ false
    → AreDistinct rows
    → AreDistinct (rows ++ row ∷ [])
unfolding any
added-AreDistinct row [] h d = (refl, tt)
added-AreDistinct row (r ∷ rows) h d = (
  any-added (clashes r) rows row d.0 (ground (arith, h, clashes-sym r row)),
  added-AreDistinct row rows (ground (arith, h)) d.1,
)

any-deleted :
    (f test : ResourceRow → Bool) (rows : List ResourceRow)
    → any f rows ≡ false
    → any f (delete_where test rows) ≡ false
unfolding any delete_where
any-deleted f test [] h = refl
any-deleted f test (r ∷ rows) h = ground (arith, any-deleted f test rows)

pub deleted-AreDistinct :
    (test : ResourceRow → Bool) (rows : List ResourceRow)
    → AreDistinct rows
    → AreDistinct (delete_where test rows)
unfolding delete_where
deleted-AreDistinct test [] d = tt
deleted-AreDistinct test (r ∷ rows) d = elim (Bool-cases (test r)) [
  | inl e ↦ rw e (deleted-AreDistinct test rows d.1)
  | inr e ↦ rw e (any-deleted (clashes r) test rows d.0, deleted-AreDistinct test rows d.1)
]

-- a row with the settings of `given`
abbrev pub changed : Resource → ResourceRow → ResourceRow
changed given r = record r { resource = with_settings given r.resource }

any-changed :
    (r : ResourceRow) (given : Resource) (test : ResourceRow → Bool) (rows : List ResourceRow)
    → any (clashes r) (update_where test (changed given) rows) ≡ any (clashes r) rows
unfolding any clashes
any-changed r given test [] = refl
any-changed r given test (s ∷ rows) = elim (Bool-cases (test s)) [
  | inl e ↦ ground (arith, any-changed r given test rows, e)
  | inr e ↦ ground (arith, any-changed r given test rows, e)
]

any-clashes-changed :
    (r : ResourceRow) (given : Resource) (rows : List ResourceRow)
    → any (clashes (changed given r)) rows ≡ any (clashes r) rows
unfolding any clashes
any-clashes-changed r given [] = refl
any-clashes-changed r given (s ∷ rows) = ground (arith, any-clashes-changed r given rows)

pub changed-AreDistinct :
    (given : Resource) (test : ResourceRow → Bool) (rows : List ResourceRow)
    → AreDistinct rows
    → AreDistinct (update_where test (changed given) rows)
changed-AreDistinct given test [] d = tt
changed-AreDistinct given test (r ∷ rows) d = elim (Bool-cases (test r)) [
  | inl e ↦ rw e (
    any-changed (changed given r) given test rows ∙ any-clashes-changed r given rows ∙ d.0,
    changed-AreDistinct given test rows d.1,
  )
  | inr e ↦ rw e (any-changed r given test rows ∙ d.0, changed-AreDistinct given test rows d.1)
]

-- A row of the table is the one that was found, or another one.
abbrev pub IsApart : Text → ResourceRow → ResourceRow → Type 0
IsApart id row r = (r ≡ row) ⊎ ((is_id id r ≡ false) × (clashes r row ≡ false))

-- what holds for no row does not hold for the one that was found
found-not :
    (comp id : Text) (f : ResourceRow → Bool) (row : ResourceRow) (rows : List ResourceRow)
    → row_of comp id rows ≡ some row
    → any f rows ≡ false
    → (f row ≡ false) × ((is_id id row ≡ true) × (text_eq row.compartment_id comp ≡ true))
unfolding row_of first_where any
found-not comp id f row [] h k = absurd (ground (arith, h))
found-not comp id f row (r ∷ rows) h k =
    elim (Bool-cases (is_id id r && text_eq r.compartment_id comp)) [
      | inl e ↦
          let same : r ≡ row = ground (arith, h, e) in
          (
            subst (λ (x : ResourceRow). f x ≡ false) same (ground (arith, k)),
            subst
                (λ (x : ResourceRow). (is_id id x ≡ true) × (text_eq x.compartment_id comp ≡ true))
                same (ground (arith, e), ground (arith, e)),
          )
      | inr e ↦ found-not comp id f row rows (ground (arith, h, e)) (ground (arith, k))
    ]

others-IsApart :
    (id : Text) (row : ResourceRow) (rows : List ResourceRow)
    → is_id id row ≡ true
    → any (clashes row) rows ≡ false
    → All (IsApart id row) rows
unfolding any clashes
others-IsApart id row [] e h = tt
others-IsApart id row (r ∷ rows) e h = (
  inr (
    ground (
      arith,
      h,
      e,
      text_eq_iff row.resource.id id,
      text_eq_iff r.resource.id id,
      text_eq_iff row.resource.id r.resource.id,
    ),
    clashes-sym r row ∙ ground (arith, h),
  ),
  others-IsApart id row rows e (ground (arith, h)),
)

same_id-clashes :
    (id : Text) (r row : ResourceRow)
    → is_id id r ≡ true
    → is_id id row ≡ true
    → clashes r row ≡ true
unfolding clashes
same_id-clashes id r row e k = ground (
  arith,
  e,
  k,
  text_eq_iff r.resource.id id,
  text_eq_iff row.resource.id id,
  text_eq_iff r.resource.id row.resource.id,
)

pub rows-IsApart :
    (comp id : Text) (row : ResourceRow) (rows : List ResourceRow)
    → AreDistinct rows
    → row_of comp id rows ≡ some row
    → All (IsApart id row) rows
unfolding row_of first_where
rows-IsApart comp id row [] d h = tt
rows-IsApart comp id row (r ∷ rows) d h = elim (Bool-cases (is_id id r)) [
  | inr e ↦
      let later : row_of comp id rows ≡ some row = ground (arith, h, e) in
      (
        inr (e, (found-not comp id (clashes r) row rows later d.0).0),
        rows-IsApart comp id row rows d.1 later,
      )
  | inl e ↦ elim (Bool-cases (text_eq r.compartment_id comp)) [
    | inl c ↦
        let same : r ≡ row = ground (arith, h, e, c) in
        (
          inl same,
          others-IsApart id row rows (subst (λ (x : ResourceRow). is_id id x ≡ true) same e)
              (subst (λ (x : ResourceRow). any (clashes x) rows ≡ false) same d.0),
        )
    | inr c ↦
        let later : row_of comp id rows ≡ some row = ground (arith, h, c) in
        let found = found-not comp id (clashes r) row rows later d.0 in
        absurd (ground (arith, found.0, same_id-clashes id r row e found.1.0))
  ]
]

abbrev no_row : ResourceRow → Bool
no_row r = false

any-no_row : (rows : List ResourceRow) → any no_row rows ≡ false
unfolding any
any-no_row [] = refl
any-no_row (r ∷ rows) = any-no_row rows

pub row_of-found :
    (comp id : Text) (row : ResourceRow) (rows : List ResourceRow)
    → row_of comp id rows ≡ some row
    → (is_id id row ≡ true) × (text_eq row.compartment_id comp ≡ true)
row_of-found comp id row rows h = (found-not comp id no_row row rows h (any-no_row rows)).1
