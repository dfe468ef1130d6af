-- ===== src/Quadlet/Sync/Repair.antt =====
-- The sync check against the files on disk, and what a rewrite of files does to its issues.
use quadletman.Prelude.{
  ℕ, zero, suc, List, [], ◌∷◌, ◌++◌, ◌≡◌, refl, ap, inl, inr, arith, Option-cases, All, Text,
  text_eq_refl,
}
use quadletman.Prelude.Dict.{Dict, lookup}
use quadletman.Quadlet.Units.{tidy, tidy_from}
use quadletman.Quadlet.Sync.{File, noted, compare_file, issues}
use quadletman.Quadlet.Sync.Files.{
  insert_all, AreDistinct, AreApart, AreOnDisk, All-split, lookup-insert_all, insert_all-AreOnDisk,
  AreDistinct-append, AreDistinct-both, AreApart-append, AreApart-both, AreApart-sym,
}

tidy_from-two : (n : ℕ) (s : Text) → tidy_from (suc (suc n)) s ≡ tidy_from 2 s
unfolding tidy_from
tidy_from-two n [] = refl
tidy_from-two n (c ∷ s) = refl

tidy_from-twice : (n : ℕ) (s : Text) → tidy_from n (tidy_from n s) ≡ tidy_from n s
unfolding tidy_from
tidy_from-twice zero [] = refl
tidy_from-twice (suc zero) [] = refl
tidy_from-twice (suc (suc n)) [] = refl
tidy_from-twice zero (c ∷ s) = ground (arith, tidy_from-twice 0 s, tidy_from-twice 1 s)
tidy_from-twice (suc zero) (c ∷ s) = ground (arith, tidy_from-twice 0 s, tidy_from-twice 2 s)
tidy_from-twice (suc (suc n)) (c ∷ s) =
    ground (arith, tidy_from-twice 0 s, tidy_from-twice 2 s, tidy_from-two n (tidy_from 2 s))

pub tidy-tidy : (s : Text) → tidy (tidy s) ≡ tidy s
unfolding tidy
tidy-tidy s = tidy_from-twice 0 s

-- Each content is as `tidy` leaves it.
abbrev pub IsTidy : List File → Type 0
IsTidy files = All (λ f. tidy f.1 ≡ f.1) files

pub issues-append :
    (disk : Dict Text) (xs ys : List File)
    → issues disk (xs ++ ys) ≡ issues disk xs ++ issues disk ys
unfolding issues
issues-append disk [] ys = refl
issues-append disk ((f, c) ∷ xs) ys = elim (Option-cases (compare_file f c (lookup f disk))) [
  | inl e ↦ rw (e, issues) (issues-append disk xs ys)
  | inr (i, e) ↦ rw (e, issues) (ap (◌∷◌ i) (issues-append disk xs ys))
]

issues-AreOnDisk :
    (disk : Dict Text) (files : List File)
    → IsTidy files
    → AreOnDisk disk files
    → issues disk files ≡ []
unfolding issues compare_file
issues-AreOnDisk disk [] tidied h = refl
issues-AreOnDisk disk ((f, c) ∷ files) tidied h =
    rw (h.0, compare_file, noted, tidied.0, text_eq_refl c)
      (issues-AreOnDisk disk files tidied.1 h.1)

issues-AreApart :
    (disk : Dict Text) (written files : List File)
    → AreApart files written
    → issues (insert_all written disk) files ≡ issues disk files
unfolding issues
issues-AreApart disk written [] a = refl
issues-AreApart disk written ((f, c) ∷ files) a =
    rw (lookup-insert_all f written disk a.0)
      (ap (noted _) (issues-AreApart disk written files a.1))

-- Once all files but `kept` are written anew, only `kept` has issues, and it has those it had.
pub issues-insert_all :
    (disk : Dict Text) (xs kept ys : List File)
    → AreDistinct (xs ++ (kept ++ ys))
    → IsTidy (xs ++ ys)
    → let after = insert_all (xs ++ ys) disk in
      (issues after xs ≡ []) × (issues after kept ≡ issues disk kept) × (issues after ys ≡ [])
issues-insert_all disk xs kept ys distinct tidied =
    let d = AreDistinct-append xs (kept ++ ys) distinct in
    let e = AreDistinct-append kept ys d.1 in
    let a = AreApart-append xs kept ys d.2 in
    let on =
      All-split _ xs ys
        (insert_all-AreOnDisk (xs ++ ys) disk (AreDistinct-both xs ys d.0 e.1 a.1)) in
    let tidy_parts = All-split _ xs ys tidied in
    (
      issues-AreOnDisk _ xs tidy_parts.0 on.0,
      issues-AreApart disk (xs ++ ys) kept
          (AreApart-both kept xs ys (AreApart-sym xs kept a.0) e.2),
      issues-AreOnDisk _ ys tidy_parts.1 on.1,
    )
