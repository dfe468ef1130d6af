-- ===== src/Podman/Info/Drivers.antt =====
-- What the driver lists hold.
use quadletman.Prelude.{
  ℕ, ◌+◌, Bool, true, false, not, ◌&&◌, List, [], ◌∷◌, ◌≡◌, refl, sym, ap, ◌∙◌, arith, inl, inr,
  Bool-cases, Option, none, some, if◌then◌else◌, Text, text_eq, text_eq_iff, text_ltb,
}
use mathlib.Core.Option
use quadletman.Prelude.Options.{◌>>=◌, bind-some}
use quadletman.Sanitized.Check.{has_control_chars}
use quadletman.Sanitized.Names.{safe_str}
use quadletman.Podman.Info.{
  null, boolean, number, string, array, object, Jsons, end, item, names_but, insert_sorted, sorted,
  accepted, all_safe, with_builtin,
}

-- Each text is not above the next.
abbrev pub ascending : List Text → Bool
ascending [] = true
ascending (t ∷ []) = true
ascending (t ∷ u ∷ us) = not (text_ltb u t) && ascending (u ∷ us)

-- How often a text stands in a list.
abbrev pub count : Text → List Text → ℕ
count t [] = 0
count t (u ∷ us) = (if text_eq u t then 1 else 0) + count t us

-- How often a name stands among the entries.
abbrev pub entries : Text → Jsons → ℕ
entries t end = 0
entries t (item (string u) rest) = (if text_eq u t then 1 else 0) + entries t rest
entries t (item _ rest) = entries t rest

text_ltb-asym : (s t : Text) → text_ltb s t ≡ true → text_ltb t s ≡ false
unfolding text_ltb
text_ltb-asym [] [] h = refl
text_ltb-asym [] (c ∷ t) h = refl
text_ltb-asym (d ∷ s) [] h = absurd (ground arith)
text_ltb-asym (d ∷ s) (c ∷ t) h = ground (arith, text_ltb-asym s t)

insert_sorted-ascending :
    (t : Text) (us : List Text) → ascending us ≡ true → ascending (insert_sorted t us) ≡ true
unfolding insert_sorted
insert_sorted-ascending t [] h = refl
insert_sorted-ascending t (u ∷ []) h = ground (arith, text_ltb-asym u t)
insert_sorted-ascending t (u ∷ w ∷ us) h =
    ground (arith, text_ltb-asym u t, text_ltb-asym w t, insert_sorted-ascending t (w ∷ us))

sorted-ascending : (ts : List Text) → ascending (sorted ts) ≡ true
unfolding sorted
sorted-ascending [] = refl
sorted-ascending (t ∷ ts) = insert_sorted-ascending t (sorted ts) (sorted-ascending ts)

count-insert_sorted :
    (s t : Text) (us : List Text) → count s (insert_sorted t us) ≡ count s (t ∷ us)
unfolding insert_sorted
count-insert_sorted s t [] = refl
count-insert_sorted s t (u ∷ us) = ground (arith, count-insert_sorted s t us)

count-sorted : (s : Text) (ts : List Text) → count s (sorted ts) ≡ count s ts
unfolding sorted
count-sorted s [] = refl
count-sorted s (t ∷ ts) = count-insert_sorted s t (sorted ts) ∙ omega (arith, count-sorted s ts)

accepted-same : (t u : Text) → accepted (safe_str t) ≡ some u → u ≡ t
unfolding accepted safe_str
accepted-same t u h = elim (Bool-cases (has_control_chars t)) [
  | inl dirty ↦ absurd (ground arith)
  | inr clean ↦ ground arith
]

-- `SafeStr.of` returns its argument.
all_safe-same : (ts us : List Text) → all_safe ts ≡ some us → us ≡ ts
unfolding all_safe
all_safe-same [] us h = ground arith
all_safe-same (t ∷ ts) us h =
    let (u, e, h1) =
      bind-some (accepted (safe_str t)) (λ u. all_safe ts >>= λ us'. some (u ∷ us')) us h in
    let (us', f, h2) = bind-some (all_safe ts) (λ us'. some (u ∷ us')) us h1 in
    let ih = all_safe-same ts us' f in let same = accepted-same t u e in ground arith

map-some :
    {A B : Type 0} (f : A → B) (o : Option A) (b : B)
    → Option.map f o ≡ some b
    → (a : A) × (o ≡ some a) × (b ≡ f a)
map-some f none b h = absurd (ground arith)
map-some f (some a) b h = (a, refl, ground arith)

same_name : (u name s : Text) → text_eq u name ≡ true → text_eq u s ≡ text_eq name s
same_name u name s h = ap (λ t. text_eq t s) ((text_eq_iff u name).0 h)

other_name :
    (u name s : Text) → text_eq u name ≡ false → text_eq name s ≡ true → text_eq u s ≡ false
other_name u name s h k = let e = (text_eq_iff name s).0 k in ap (text_eq u) (sym e) ∙ h

count_step :
    (a b : Bool) (m n : ℕ)
    → (b ≡ true → a ≡ false)
    → m ≡ (if b then 0 else n)
    → (if a then 1 else 0) + m ≡ (if b then 0 else (if a then 1 else 0) + n)
count_step a true m n h e = rw (h refl, e) refl
count_step a false m n h e = rw e refl

names_but-count :
    (name s : Text) (items : Jsons) (ts : List Text)
    → names_but name items ≡ some ts
    → count s ts ≡ (if text_eq name s then 0 else entries s items)
unfolding names_but
names_but-count name s end ts h = ground arith
names_but-count name s (item (string u) rest) ts h = elim (Bool-cases (text_eq u name)) [
  | inl same ↦
      let ih = names_but-count name s rest ts (ground arith) in
      ground (arith, same_name u name s same)
  | inr other ↦
      let mapped : Option.map (◌∷◌ u) (names_but name rest) ≡ some ts = ground arith in
      let (others, e, f) = map-some (◌∷◌ u) (names_but name rest) ts mapped in
      let ih = names_but-count name s rest others e in
      rw f (
        count_step (text_eq u s) (text_eq name s) _ (entries s rest) (other_name u name s other) ih)
]
names_but-count name s (item null rest) ts h = absurd (ground arith)
names_but-count name s (item (boolean b) rest) ts h = absurd (ground arith)
names_but-count name s (item (number n) rest) ts h = absurd (ground arith)
names_but-count name s (item (array js) rest) ts h = absurd (ground arith)
names_but-count name s (item (object ms) rest) ts h = absurd (ground arith)

-- The list that `get_network_drivers` and `get_volume_drivers` make of the reported plugins: it begins
-- with the built-in name, which stands nowhere else; the rest is ascending and holds every other
-- name as often as Podman reports it.
pub with_builtin_lem :
    (name : Text) (items : Jsons) (names : List Text)
    → with_builtin name items ≡ some names
    → (rest : List Text) × (names ≡ name ∷ rest)
      × (ascending rest ≡ true)
      × ((s : Text) → count s rest ≡ (if text_eq name s then 0 else entries s items))
unfolding with_builtin
with_builtin_lem name items names h =
    let (others, e, h1) = bind-some (names_but name items) _ names h in
    let (safe, f, h2) = bind-some (all_safe (sorted others)) (λ s. some (name ∷ s)) names h1 in
    let same = all_safe-same (sorted others) safe f in
    (
      safe,
      ground arith,
      rw same (sorted-ascending others),
      λ s. rw same (count-sorted s others ∙ names_but-count name s items others e),
    )
