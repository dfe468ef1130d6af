-- ===== src/Quadlet/Sync/Files.antt =====
-- Files with distinct names, written one after the other: each is on disk, and no other changes.
use quadletman.Prelude.{
  Bool, false, List, [], ◌∷◌, ◌++◌, some, ◌≡◌, refl, ◌∙◌, arith, any, All, Text, text_eq,
  text_eq_iff, text_eq_refl,
}
use quadletman.Prelude.Dict.{Dict, lookup, insert, lookup-insert}
use quadletman.Quadlet.Sync.{File}

abbrev pub insert_all : List File → Dict Text → Dict Text
insert_all [] d = d
insert_all ((file, content) ∷ files) d = insert_all files (insert file content d)

pub insert_all-append :
    (xs ys : List File) (d : Dict Text) → insert_all (xs ++ ys) d ≡ insert_all ys (insert_all xs d)
insert_all-append [] ys d = refl
insert_all-append ((f, c) ∷ xs) ys d = insert_all-append xs ys (insert f c d)

-- A file of the list has this name.
unfoldable pub has_name : Text → List File → Bool
unfolding any text_eq
has_name name files = any (λ f. text_eq f.0 name) files

has_name-append :
    (name : Text) (xs ys : List File)
    → has_name name (xs ++ ys) ≡ false
    → (has_name name xs ≡ false) × (has_name name ys ≡ false)
unfolding has_name any
has_name-append name [] ys h = (refl, h)
has_name-append name (x ∷ xs) ys h = ground (arith, has_name-append name xs ys)

has_name-both :
    (name : Text) (xs ys : List File)
    → has_name name xs ≡ false
    → has_name name ys ≡ false
    → has_name name (xs ++ ys) ≡ false
unfolding has_name any
has_name-both name [] ys h k = k
has_name-both name (x ∷ xs) ys h k = ground (arith, has_name-both name xs ys)

-- No file of the first list has the name of one of the second.
abbrev pub AreApart : List File → List File → Type 0
AreApart xs ys = All (λ x. has_name x.0 ys ≡ false) xs

-- No two files have the same name.
abbrev pub AreDistinct : List File → Type 0
AreDistinct [] = Unit
AreDistinct (x ∷ xs) = (has_name x.0 xs ≡ false) × AreDistinct xs

pub AreDistinct-append :
    (xs ys : List File) → AreDistinct (xs ++ ys) → AreDistinct xs × AreDistinct ys × AreApart xs ys
AreDistinct-append [] ys h = (tt, h, tt)
AreDistinct-append (x ∷ xs) ys h =
    let n = has_name-append x.0 xs ys h.0 in
    let r = AreDistinct-append xs ys h.1 in ((n.0, r.0), r.1, (n.1, r.2))

pub AreDistinct-both :
    (xs ys : List File) → AreDistinct xs → AreDistinct ys → AreApart xs ys → AreDistinct (xs ++ ys)
AreDistinct-both [] ys h k a = k
AreDistinct-both (x ∷ xs) ys h k a =
    (has_name-both x.0 xs ys h.0 a.0, AreDistinct-both xs ys h.1 k a.1)

pub AreApart-append :
    (xs ys zs : List File) → AreApart xs (ys ++ zs) → AreApart xs ys × AreApart xs zs
AreApart-append [] ys zs a = (tt, tt)
AreApart-append (x ∷ xs) ys zs a =
    let n = has_name-append x.0 ys zs a.0 in
    let r = AreApart-append xs ys zs a.1 in ((n.0, r.0), (n.1, r.1))

pub AreApart-both :
    (xs ys zs : List File) → AreApart xs ys → AreApart xs zs → AreApart xs (ys ++ zs)
AreApart-both [] ys zs a b = tt
AreApart-both (x ∷ xs) ys zs a b = (has_name-both x.0 ys zs a.0 b.0, AreApart-both xs ys zs a.1 b.1)

AreApart-cons :
    (xs : List File) (y : File) (ys : List File)
    → has_name y.0 xs ≡ false
    → AreApart xs ys
    → AreApart xs (y ∷ ys)
unfolding has_name any
AreApart-cons [] y ys h a = tt
AreApart-cons (x ∷ xs) y ys h a = (
  ground (arith, text_eq_iff x.0 y.0, text_eq_iff y.0 x.0, a.0),
  AreApart-cons xs y ys (ground arith) a.1,
)

AreApart-nil : (xs : List File) → AreApart xs []
unfolding has_name any
AreApart-nil [] = tt
AreApart-nil (x ∷ xs) = (refl, AreApart-nil xs)

pub AreApart-sym : (xs ys : List File) → AreApart xs ys → AreApart ys xs
AreApart-sym [] ys a = AreApart-nil ys
AreApart-sym (x ∷ xs) ys a = AreApart-cons ys x xs a.0 (AreApart-sym xs ys a.1)

-- A name that none of the files has is left alone.
pub lookup-insert_all :
    (name : Text) (files : List File) (d : Dict Text)
    → has_name name files ≡ false
    → lookup name (insert_all files d) ≡ lookup name d
unfolding has_name any
lookup-insert_all name [] d h = refl
lookup-insert_all name ((f, c) ∷ files) d h =
    ground (arith, lookup-insert_all name files (insert f c d), lookup-insert name f c d)

-- Each file is on disk with its content.
abbrev pub AreOnDisk : Dict Text → List File → Type 0
AreOnDisk disk files = All (λ f. lookup f.0 disk ≡ some f.1) files

pub insert_all-AreOnDisk :
    (files : List File) (d : Dict Text) → AreDistinct files → AreOnDisk (insert_all files d) files
insert_all-AreOnDisk [] d h = tt
insert_all-AreOnDisk ((f, c) ∷ files) d h = (
  lookup-insert_all f files (insert f c d) h.0 ∙ rw (lookup-insert f f c d, text_eq_refl f) refl,
  insert_all-AreOnDisk files (insert f c d) h.1,
)

pub All-split {κ} : (P : File → Type κ) (xs ys : List File) → All P (xs ++ ys) → All P xs × All P ys
All-split P [] ys h = (tt, h)
All-split P (x ∷ xs) ys h = let r = All-split P xs ys h.1 in ((h.0, r.0), r.1)
