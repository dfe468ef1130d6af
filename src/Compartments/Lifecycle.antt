-- ===== src/Compartments/Lifecycle.antt =====
-- services/compartment_manager.py: `resync_compartment`, `check_sync`, `start_compartment`,
-- `stop_compartment`, and the writers of services/quadlet_writer.py that they call. The host answers
-- through `Host`; what is done to it is recorded in order.
pub mod Resync
pub mod Synced
pub mod Attempts
mod Tests
use quadletman.Prelude.{
  ℕ, Bool, true, false, not, List, [], ◌∷◌, ◌++◌, Option, none, some, if◌then◌else◌, Text, codes,
  ltb,
}
use mathlib.Core.Option
use quadletman.Prelude.Dict.{Dict, insert}
use quadletman.Sanitized.Check.{ok, refused}
use quadletman.Sanitized.Names.{safe_unit_name}
use quadletman.Quadlet.Units.{
  Container, Timer, Volume, Compartment, Templates, render_container, timer_target, tidy,
}
use quadletman.Quadlet.Sync.{
  File, Issue, pod_files, volume_files, image_files, network_files, only_used, only_quadlet,
  check_service_sync,
}

-- A call of systemctl, or of `_setup_subuid_subgid`.
pub data Call : Type 0 where
  setup_subids daemon_reload : Call
  start stop restart : Text → Call

-- The directory of the units of one compartment, and the calls that were made for it.
pub record World : Type 0 where
  pub disk : Dict Text
  pub calls : List Call

-- How the host answers in one run: which files can be written (none without the Linux user), which
-- calls raise nothing, and which units are active.
pub record Host : Type 0 where
  pub writes : Text → Bool
  pub succeeds : Call → Bool
  pub is_active : Text → Bool

-- A step with the world behind it; `false` is an exception, which ends the run.
abbrev pub Action : Type 0
Action = World → World × Bool

-- the second step if the first raised nothing
abbrev pub after_success : World × Bool → Action → World × Bool
after_success (w, true) next = next w
after_success (w, false) next = (w, false)

infixl 5 ◌>>◌
unfoldable pub ◌>>◌ : Action → Action → Action
◌>>◌ m k w = after_success (m w) k

unfoldable pub for_each {ℓ} : {A : Type ℓ} → (A → Action) → List A → Action
for_each act [] w = (w, true)
for_each act (x ∷ xs) w = after_success (act x w) (for_each act xs)

-- `f"{container.qm_name}.service"`
unfoldable pub service_of : Container → Text
service_of k = k.qm_name ++ codes ".service"

module _ (host : Host) where
  -- `_persist_unit`, behind `SafeUnitName.of`
  unfoldable pub persist_unit : File → Action
  unfolding insert
  persist_unit (file, content) w = elim (safe_unit_name file) [
    | refused r ↦ (w, false)
    | ok name ↦
        if host.writes name
        then (record w { disk = insert name content w.disk }, true)
        else (w, false)
  ]

  unfoldable pub call : Call → Action
  call c w = (record w { calls = w.calls ++ c ∷ [] }, host.succeeds c)

  unfoldable pub write_container_unit : Templates → Compartment → Container → Action
  unfolding persist_unit render_container
  write_container_unit t c k w = elim (render_container t c.id c.volumes k) [
    | none ↦ (w, false)
    | some content ↦ persist_unit (k.qm_name ++ codes ".container", content) w
  ]

  unfoldable pub write_timer_unit : Templates → Compartment → Timer → Action
  unfolding persist_unit timer_target tidy
  write_timer_unit t c m =
      persist_unit
        (m.qm_name ++ codes ".timer", tidy (t.timer c.id m (timer_target c.containers m)))

  -- the units that `resync_compartment` and `start_compartment` write before those of the containers
  unfoldable pub write_resource_units : Templates → Compartment → Action
  unfolding ◌>>◌ for_each persist_unit only_used only_quadlet
  write_resource_units t c =
      for_each persist_unit (pod_files t c)
      >> for_each persist_unit (volume_files t c)
      >> for_each persist_unit (image_files t c)
      >> for_each persist_unit (network_files t c)

  unfoldable pub restart_active : Container → Action
  unfolding service_of call
  restart_active k w = elim (safe_unit_name (service_of k)) [
    | refused r ↦ (w, false)
    | ok unit ↦ if host.is_active unit then call (restart unit) w else (w, true)
  ]

  -- `resync_compartment` of a compartment that is there
  unfoldable pub resync_compartment : Templates → Compartment → List Timer → Action
  unfolding ◌>>◌ for_each write_resource_units write_container_unit write_timer_unit call
      restart_active
  resync_compartment t c timers =
      write_resource_units t c
      >> for_each (write_container_unit t c) c.containers
      >> for_each (write_timer_unit t c) timers
      >> call daemon_reload
      >> for_each restart_active c.containers

-- `check_sync` of a compartment that is there
unfoldable pub check_sync : Templates → Compartment → List Timer → World → Option (List Issue)
unfolding check_service_sync
check_sync t c timers w = check_service_sync t c timers w.disk

-- `sorted(…, key=lambda c: c.qm_sort_order)`: a container stands before the later ones of its order
place : (Container → Container → Bool) → Container → List Container → List Container
place before k [] = k ∷ []
place before k (j ∷ js) = if before j k then j ∷ place before k js else k ∷ j ∷ js

unfoldable pub sorted_by : (Container → Container → Bool) → List Container → List Container
unfolding place
sorted_by before [] = []
sorted_by before (k ∷ ks) = place before k (sorted_by before ks)

abbrev pub ascending : Container → Container → Bool
ascending j k = ltb j.qm_sort_order k.qm_sort_order

-- `reverse=True`, which keeps the order of equal keys as well
abbrev pub descending : Container → Container → Bool
descending j k = ltb k.qm_sort_order j.qm_sort_order

module _ (host : Host) where
  -- the loop over the sorted containers: each call is tried, and the units of those that raise are
  -- returned; `none` is the exception of `SafeUnitName.of`, which nothing catches
  unfoldable pub try_each : (Text → Call) → List Container → World → World × Option (List Text)
  unfolding service_of call
  try_each to_call [] w = (w, some [])
  try_each to_call (k ∷ ks) w = elim (safe_unit_name (service_of k)) [
    | refused r ↦ (w, none)
    | ok unit ↦
        let rest = try_each to_call ks (call host (to_call unit) w).0 in
        (rest.0, if host.succeeds (to_call unit) then rest.1 else Option.map (◌∷◌ unit) rest.1)
  ]

  abbrev pub then_try : World × Bool → (Text → Call) → List Container → World × Option (List Text)
  then_try (w, false) to_call ks = (w, none)
  then_try (w, true) to_call ks = try_each to_call ks w

  -- `start_compartment`, without its entry in the event log
  unfoldable pub start_compartment : Templates → Compartment → World → World × Option (List Text)
  unfolding ◌>>◌ for_each call write_resource_units write_container_unit try_each sorted_by
  start_compartment t c w =
      then_try
        ((call host setup_subids
            >> write_resource_units host t c
            >> for_each (write_container_unit host t c) c.containers
            >> call host daemon_reload)
          w)
        start (sorted_by ascending c.containers)

  unfoldable pub stop_compartment : Compartment → World → World × Option (List Text)
  unfolding try_each sorted_by
  stop_compartment c w = try_each stop (sorted_by descending c.containers) w

  abbrev pub then_start :
      Templates → Compartment → World × Option (List Text) → World × Option (List Text)
  then_start t c (w, none) = (w, none)
  then_start t c (w, some errors) = start_compartment t c w

  unfoldable pub restart_compartment : Templates → Compartment → World → World × Option (List Text)
  unfolding stop_compartment start_compartment
  restart_compartment t c w = then_start t c (stop_compartment c w)
