-- ===== src/Compartments/Lifecycle/Resync.antt =====
-- What a resync repairs: every file but those of the builds.
use quadletman.Prelude.{
  Bool, true, false, List, [], ◌∷◌, ◌++◌, Option, some, ◌≡◌, refl, sym, ap, subst, ◌∙◌, ◌⊎◌, inl,
  inr, arith, Text, codes,
}
use quadletman.Prelude.Options.{bind-some}
use quadletman.Sanitized.Check.{Refusal, Checked, ok, refused, of_pattern, of_limited, or_empty}
use quadletman.Sanitized.Names.{safe_unit_name}
use quadletman.Quadlet.Units.{
  Container, Timer, Compartment, Templates, tidy, named, render_container, timer_target,
}
use quadletman.Quadlet.Sync.{
  File, pod_files, volume_files, image_files, network_files, container_file, timer_file, each_file,
}
use quadletman.Quadlet.Sync.Files.{insert_all, insert_all-append}
use quadletman.Compartments.Lifecycle.{
  World, Host, Action, Call, daemon_reload, after_success, ◌>>◌, for_each, persist_unit, call,
  write_container_unit, write_timer_unit, write_resource_units, restart_active, resync_compartment,
}

-- A step that raised nothing has made the disk into this one.
abbrev pub Writes : Action → List File → Type 0
Writes act files = (w : World) → (act w).1 ≡ true → (act w).0.disk ≡ insert_all files w.disk

after_success-true :
    (r : World × Bool) (k : Action)
    → (after_success r k).1 ≡ true
    → (r.1 ≡ true) × (after_success r k ≡ k r.0)
after_success-true (w, true) k h = (refl, refl)
after_success-true (w, false) k h = cc

-- the second of two steps that both raised nothing
then-Writes :
    (m k : Action) (xs ys : List File) (w : World)
    → Writes m xs
    → Writes k ys
    → (after_success (m w) k).1 ≡ true
    → (after_success (m w) k).0.disk ≡ insert_all (xs ++ ys) w.disk
then-Writes m k xs ys w hm hk h =
    let s = after_success-true (m w) k h in
    ap (λ (r : World × Bool). r.0.disk) s.1
    ∙ hk (m w).0 (sym (ap (λ (r : World × Bool). r.1) s.1) ∙ h)
    ∙ ap (insert_all ys) (hm w s.0)
    ∙ sym (insert_all-append xs ys w.disk)

pub >>-Writes :
    (m k : Action) (xs ys : List File) → Writes m xs → Writes k ys → Writes (m >> k) (xs ++ ys)
unfolding ◌>>◌
>>-Writes m k xs ys hm hk w h = then-Writes m k xs ys w hm hk h

-- steps that leave the disk alone
for_each-Keeps :
    {A : Type 0} (act : A → Action)
    → ((x : A) → Writes (act x) [])
    → (xs : List A) → Writes (for_each act xs) []
unfolding for_each
for_each-Keeps act one [] w h = refl
for_each-Keeps act one (x ∷ xs) w h =
    then-Writes (act x) (for_each act xs) [] [] w (one x) (for_each-Keeps act one xs) h

for_each-Writes :
    {A : Type 0} (act : A → Action) (file : A → Option File)
    → ((x : A) (f : File) → file x ≡ some f → Writes (act x) (f ∷ []))
    → (xs : List A) (files : List File) → each_file file xs ≡ some files
    → Writes (for_each act xs) files
unfolding for_each each_file
for_each-Writes act file one [] [] e w h = refl
for_each-Writes act file one [] (f ∷ files) e w h = cc
for_each-Writes act file one (x ∷ xs) files e w h =
    let (f, found, e') = bind-some (file x) _ files e in
    let (fs, rest, e'') = bind-some (each_file file xs) _ files e' in
    let same : f ∷ fs ≡ files = ground arith in
    subst (λ (l : List File). (for_each act (x ∷ xs) w).0.disk ≡ insert_all l w.disk) same
      (then-Writes (act x) (for_each act xs) (f ∷ []) fs w (one x f found)
        (for_each-Writes act file one xs fs rest) h)

each_file-some : (files : List File) → each_file some files ≡ some files
unfolding each_file
each_file-some [] = refl
each_file-some (f ∷ files) = rw (each_file-some files) refl

pub safe_unit_name-same : (v w : Text) → safe_unit_name v ≡ ok w → w ≡ v
unfolding or_empty of_pattern
safe_unit_name-same [] w e = ground arith
safe_unit_name-same (c ∷ v) w e = ground arith

pub named-same : (v w : Text) → named v ≡ some w → w ≡ v
unfolding named of_limited
named-same v w e = ground arith

pub Checked-cases :
    (r : Checked Text) → ((w : Text) × (r ≡ ok w)) ⊎ ((e : Refusal) × (r ≡ refused e))
Checked-cases (ok w) = inl (w, refl)
Checked-cases (refused e) = inr (e, refl)

module _ (host : Host) where
  persist_unit-Writes : (f : File) → Writes (persist_unit host f) (f ∷ [])
  unfolding persist_unit
  persist_unit-Writes (f, c) w h = elim (Checked-cases (safe_unit_name f)) [
    | inl (name, e) ↦ ground (arith, e, safe_unit_name-same f name e)
    | inr (r, e) ↦ ground (arith, e)
  ]

  pub persist_all-Writes : (files : List File) → Writes (for_each (persist_unit host) files) files
  persist_all-Writes files =
      for_each-Writes (persist_unit host) some
        (λ x f e.
          subst (λ (y : File). Writes (persist_unit host x) (y ∷ [])) (ground arith)
            (persist_unit-Writes x))
        files files (each_file-some files)

  call-Writes : (c : Call) → Writes (call host c) []
  unfolding call
  call-Writes c w h = refl

  restart_active-Writes : (k : Container) → Writes (restart_active host k) []
  unfolding restart_active call
  restart_active-Writes k w h = ground arith

  module _ (t : Templates) (c : Compartment) where
    write_container_unit-Writes :
        (k : Container) (f : File)
        → container_file t c k ≡ some f
        → Writes (write_container_unit host t c k) (f ∷ [])
    unfolding container_file write_container_unit
    write_container_unit-Writes k f e w h =
        let (text, rendered, made) = bind-some (render_container t c.id c.volumes k) _ f e in
        let same : (k.qm_name ++ codes ".container", text) ≡ f = ground arith in
        let run : write_container_unit host t c k w
            ≡ persist_unit host (k.qm_name ++ codes ".container", text) w =
          ground (arith, rendered) in
        ap (λ (r : World × Bool). r.0.disk) run
        ∙ persist_unit-Writes (k.qm_name ++ codes ".container", text) w
            (sym (ap (λ (r : World × Bool). r.1) run) ∙ h)
        ∙ ap (λ (g : File). insert_all (g ∷ []) w.disk) same

    write_timer_unit-Writes :
        (m : Timer) (f : File)
        → timer_file t c m ≡ some f
        → Writes (write_timer_unit host t c m) (f ∷ [])
    unfolding timer_file write_timer_unit
    write_timer_unit-Writes m f e w h =
        let (name, found, made) = bind-some (named (timer_target c.containers m)) _ f e in
        let same : (
          m.qm_name ++ codes ".timer",
          tidy (t.timer c.id m (timer_target c.containers m)),
        )
            ≡ f =
          rw (← named-same _ name found) (ground arith) in
        persist_unit-Writes _ w h ∙ ap (λ (g : File). insert_all (g ∷ []) w.disk) same

    abbrev pub resources : List File
    resources = ((pod_files t c ++ volume_files t c) ++ image_files t c) ++ network_files t c

    pub write_resource_units-Writes : Writes (write_resource_units host t c) resources
    unfolding write_resource_units
    write_resource_units-Writes =
        let pods = pod_files t c in
        let volumes = volume_files t c in
        let images = image_files t c in
        >>-Writes _ _ ((pods ++ volumes) ++ images) (network_files t c)
          (>>-Writes _ _ (pods ++ volumes) images
            (>>-Writes _ _ pods volumes (persist_all-Writes pods) (persist_all-Writes volumes))
            (persist_all-Writes images))
          (persist_all-Writes (network_files t c))

    module _ (timers : List Timer) (cs ts : List File)
        (rendered : each_file (container_file t c) c.containers ≡ some cs)
        (timed : each_file (timer_file t c) timers ≡ some ts) where
      pub resync_compartment-Writes :
          Writes (resync_compartment host t c timers) ((((resources ++ cs) ++ ts) ++ []) ++ [])
      unfolding resync_compartment
      resync_compartment-Writes =
          >>-Writes _ _ (((resources ++ cs) ++ ts) ++ []) []
            (>>-Writes _ _ ((resources ++ cs) ++ ts) []
              (>>-Writes _ _ (resources ++ cs) ts
                (>>-Writes _ _ resources cs write_resource_units-Writes
                  (for_each-Writes _ _ write_container_unit-Writes c.containers cs rendered))
                (for_each-Writes _ _ write_timer_unit-Writes timers ts timed))
              (call-Writes daemon_reload))
            (for_each-Keeps _ restart_active-Writes c.containers)
