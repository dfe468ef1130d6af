-- ===== src/Compartments/Lifecycle/Attempts.antt =====
-- Starting and stopping: every container is tried once, in its order, whatever fails.
use mathlib.Core.List.{append-nil}
use mathlib.Core.List.Perm
use mathlib.Core.List.{Perm}
use quadletman.Prelude.{
  ℕ, ◌≤◌, Bool, List, [], ◌∷◌, ◌++◌, map, some, if◌then◌else◌, ◌≡◌, refl, inl, inr, arith,
  Bool-cases, All, append_assoc, Text,
}
use quadletman.Sanitized.Check.{ok}
use quadletman.Sanitized.Names.{safe_unit_name}
use quadletman.Quadlet.Units.{Container, Compartment}
use quadletman.Compartments.Lifecycle.{
  World, Host, Call, stop, call, service_of, try_each, sorted_by, place, descending,
  stop_compartment,
}

-- `SafeUnitName.of` accepts the units of these containers.
abbrev pub AreUnits : List Container → Type 0
AreUnits ks = All (λ k. safe_unit_name (service_of k) ≡ ok (service_of k)) ks

-- the units whose call raised
unfoldable pub raising : Host → (Text → Call) → List Container → List Text
raising host to_call [] = []
raising host to_call (k ∷ ks) =
    let rest = raising host to_call ks in
    if host.succeeds (to_call (service_of k)) then rest else service_of k ∷ rest

pub try_each_lem :
    (host : Host) (to_call : Text → Call) (ks : List Container) (w : World)
    → AreUnits ks
    → try_each host to_call ks w ≡ (
      record w { calls = w.calls ++ map (λ k. to_call (service_of k)) ks },
      some (raising host to_call ks),
    )
unfolding try_each raising call
try_each_lem host to_call [] w u = rw append-nil
try_each_lem host to_call (k ∷ ks) w u =
    let later = map (λ j. to_call (service_of j)) ks in
    let next : World = record w { calls = w.calls ++ to_call (service_of k) ∷ [] } in
    let ih = try_each_lem host to_call ks next u.1 in
    let joined = append_assoc w.calls (to_call (service_of k) ∷ []) later in
    elim (Bool-cases (host.succeeds (to_call (service_of k)))) [
      | inl e ↦ rw (u.0, try_each, ih, e, joined) refl
      | inr e ↦ rw (u.0, try_each, ih, e, joined) refl
    ]

-- a container is placed among the others
place-perm :
    (before : Container → Container → Bool) (k : Container) (js : List Container)
    → Perm (place before k js) (k ∷ js)
unfolding place
place-perm before k [] = Perm.refl _
place-perm before k (j ∷ js) = elim (Bool-cases (before j k)) [
  | inl e ↦ rw e (Perm.trans (Perm.cons j (place-perm before k js)) (Perm.swap k j js))
  | inr e ↦ rw e (Perm.refl _)
]

sorted_by-perm :
    (before : Container → Container → Bool) (ks : List Container) → Perm (sorted_by before ks) ks
unfolding sorted_by
sorted_by-perm before [] = Perm.refl _
sorted_by-perm before (k ∷ ks) =
    Perm.trans (place-perm before k (sorted_by before ks)) (Perm.cons k (sorted_by-perm before ks))

-- No container stands before one of a higher order.
abbrev pub Descends : List Container → Type 0
Descends [] = Unit
Descends (k ∷ ks) = All (λ j. j.qm_sort_order ≤ k.qm_sort_order) ks × Descends ks

place-All :
    (n : ℕ) (k : Container) (js : List Container)
    → k.qm_sort_order ≤ n
    → All (λ j. j.qm_sort_order ≤ n) js
    → All (λ j. j.qm_sort_order ≤ n) (place descending k js)
unfolding place
place-All n k [] h a = (h, tt)
place-All n k (j ∷ js) h a = ground (arith, place-All n k js h a.1)

All-le :
    (m n : ℕ) (js : List Container)
    → m ≤ n
    → All (λ j. j.qm_sort_order ≤ m) js
    → All (λ j. j.qm_sort_order ≤ n) js
All-le m n [] h a = tt
All-le m n (j ∷ js) h a = (omega arith, All-le m n js h a.1)

place-Descends :
    (k : Container) (js : List Container) → Descends js → Descends (place descending k js)
unfolding place
place-Descends k [] d = (tt, tt)
place-Descends k (j ∷ js) d = ground (
  arith,
  place-Descends k js d.1,
  place-All j.qm_sort_order k js,
  All-le j.qm_sort_order k.qm_sort_order js,
)

sorted_by-Descends : (ks : List Container) → Descends (sorted_by descending ks)
unfolding sorted_by
sorted_by-Descends [] = tt
sorted_by-Descends (k ∷ ks) = place-Descends k (sorted_by descending ks) (sorted_by-Descends ks)

place-AreUnits :
    (before : Container → Container → Bool) (k : Container) (js : List Container)
    → safe_unit_name (service_of k) ≡ ok (service_of k)
    → AreUnits js
    → AreUnits (place before k js)
unfolding place
place-AreUnits before k [] h a = (h, tt)
place-AreUnits before k (j ∷ js) h a = elim (Bool-cases (before j k)) [
  | inl e ↦ rw e (a.0, place-AreUnits before k js h a.1)
  | inr e ↦ rw e (h, a)
]

sorted_by-AreUnits :
    (before : Container → Container → Bool) (ks : List Container)
    → AreUnits ks
    → AreUnits (sorted_by before ks)
unfolding sorted_by
sorted_by-AreUnits before [] a = tt
sorted_by-AreUnits before (k ∷ ks) a =
    place-AreUnits before k (sorted_by before ks) a.0 (sorted_by-AreUnits before ks a.1)

-- `stop_compartment`, where the names of all units are accepted: there is an order of the containers
-- in which no container stands before one of a higher `qm_sort_order`; each is told to stop once, in
-- this order, also after a stop that raised; exactly the units whose stop raised are returned, and
-- the files stay.
pub stop_compartment-tries_all :
    (host : Host) (c : Compartment) (w : World)
    → AreUnits c.containers
    → (ks : List Container) × Perm ks c.containers
      × Descends ks
      × (stop_compartment host c w ≡ (
        record w { calls = w.calls ++ map (λ k. stop (service_of k)) ks },
        some (raising host stop ks),
      ))
unfolding stop_compartment
stop_compartment-tries_all host c w u = (
  sorted_by descending c.containers,
  sorted_by-perm descending c.containers,
  sorted_by-Descends c.containers,
  try_each_lem host stop (sorted_by descending c.containers) w
      (sorted_by-AreUnits descending c.containers u),
)
