-- ===== src/Compartments/Lifecycle/Synced.antt =====
-- What the sync check finds after a resync.
use quadletman.Prelude.{
  true, List, [], ◌∷◌, ◌++◌, map, Option, some, ◌≡◌, refl, sym, ap, subst, ◌∙◌, arith, All-append,
  append_assoc, Text, codes, is_empty, if◌then◌else◌,
}
use mathlib.Core.List.{append-nil}
use quadletman.Prelude.Dict.{Dict}
use quadletman.Prelude.Options.{bind-some}
use quadletman.Quadlet.Units.{
  Resource, Container, Timer, Compartment, Templates, tidy, named, render_container, resolve_mounts,
  timer_target,
}
use quadletman.Quadlet.IdMap.{resolve_id_maps}
use quadletman.Quadlet.Sync.{
  File, issues, volume_file, only_quadlet, only_used, pod_files, volume_files, image_files,
  network_files, build_files, container_file, timer_file, each_file, render_quadlet_files,
  check_service_sync,
}
use quadletman.Quadlet.Sync.Files.{insert_all, AreDistinct}
use quadletman.Quadlet.Sync.Repair.{tidy-tidy, IsTidy, issues-append, issues-insert_all}
use quadletman.Compartments.Lifecycle.{World, Host, resync_compartment, check_sync}
use quadletman.Compartments.Lifecycle.Resync.{resync_compartment-Writes}

map-IsTidy :
    {A : Type 0} (name text : A → Text) (xs : List A)
    → IsTidy (map (λ x. (name x, tidy (text x))) xs)
map-IsTidy name text [] = tt
map-IsTidy name text (x ∷ xs) = (tidy-tidy (text x), map-IsTidy name text xs)

each_file-IsTidy :
    {A : Type 0} (file : A → Option File)
    → ((x : A) (f : File) → file x ≡ some f → tidy f.1 ≡ f.1)
    → (xs : List A) (files : List File) → each_file file xs ≡ some files
    → IsTidy files
unfolding each_file
each_file-IsTidy file one [] [] e = tt
each_file-IsTidy file one [] (f ∷ files) e = cc
each_file-IsTidy file one (x ∷ xs) files e =
    let (f, found, e') = bind-some (file x) _ files e in
    let (fs, rest, e'') = bind-some (each_file file xs) _ files e' in
    let same : f ∷ fs ≡ files = ground arith in
    subst IsTidy same (one x f found, each_file-IsTidy file one xs fs rest)

module _ (t : Templates) (c : Compartment) where
  container_file-tidy : (k : Container) (f : File) → container_file t c k ≡ some f → tidy f.1 ≡ f.1
  unfolding container_file render_container
  container_file-tidy k f e =
      let (text, rendered, made) = bind-some (render_container t c.id c.volumes k) _ f e in
      let (m, _, e1) = bind-some (resolve_mounts t c.id k c.volumes) _ text rendered in
      let (u, _, e2) = bind-some (resolve_id_maps k.uid_map) _ text e1 in
      let (g, _, e3) =
        bind-some (resolve_id_maps (if is_empty k.gid_map then k.uid_map else k.gid_map)) _ text
          e2 in
      ground (arith, tidy-tidy (t.container c.id k m u g))

  timer_file-tidy : (m : Timer) (f : File) → timer_file t c m ≡ some f → tidy f.1 ≡ f.1
  unfolding timer_file
  timer_file-tidy m f e =
      let (name, found, made) = bind-some (named (timer_target c.containers m)) _ f e in
      ground (arith, tidy-tidy (t.timer c.id m name))

-- the files in the order in which a resync writes them, and in that of the listing
regrouped :
    (p v i n b cs ts : List File)
    → (p ++ (v ++ (i ++ (n ++ (b ++ (cs ++ ts)))))) ≡ (((p ++ v) ++ i) ++ n) ++ (b ++ (cs ++ ts))
regrouped p v i n b cs ts = simp append_assoc

written_in_order : (r cs ts : List File) → (((r ++ cs) ++ ts) ++ []) ++ [] ≡ r ++ (cs ++ ts)
written_in_order r cs ts = simp (append_assoc, append-nil)

both_empty : {A : Type 0} (xs ys : List A) → xs ++ ys ≡ [] → (xs ≡ []) × (ys ≡ [])
both_empty [] ys h = (refl, h)
both_empty (x ∷ xs) ys h = cc

issues-parts :
    (disk : Dict Text) (xs ys : List File)
    → issues disk (xs ++ ys) ≡ []
    → (issues disk xs ≡ []) × (issues disk ys ≡ [])
issues-parts disk xs ys h = both_empty _ _ (sym (issues-append disk xs ys) ∙ h)

-- in the order of the check, the issues of all files are those of the builds
checked :
    (disk : Dict Text) (p v i n b q : List File)
    → issues disk (((p ++ v) ++ i) ++ n) ≡ []
    → issues disk q ≡ []
    → issues disk (n ++ (p ++ (v ++ (i ++ (b ++ q))))) ≡ issues disk b
checked disk p v i n b q h k =
    let (hpvi, hn) = issues-parts disk ((p ++ v) ++ i) n h in
    let (hpv, hi) = issues-parts disk (p ++ v) i hpvi in
    let (hp, hv) = issues-parts disk p v hpv in simp (issues-append, hn, hp, hv, hi, k, append-nil)

module _ (t : Templates) (c : Compartment) (cs ts : List File) where
  abbrev quadlets : List File
  quadlets = ((pod_files t c ++ volume_files t c) ++ image_files t c) ++ network_files t c

  quadlets-IsTidy : IsTidy quadlets
  quadlets-IsTidy =
      let pods = map-IsTidy (λ (r : Resource). r.qm_name ++ codes ".pod") (t.pod c.id) c.pods in
      let volumes = map-IsTidy (volume_file c.id) (t.volume c.id) (only_quadlet c.volumes) in
      let images =
        map-IsTidy (λ (r : Resource). r.qm_name ++ codes ".image") (t.image c.id) c.images in
      let networks =
        map-IsTidy (λ (r : Resource). r.qm_name ++ codes ".network") (t.network c.id)
          (only_used c.containers c.networks) in
      All-append _ ((pod_files t c ++ volume_files t c) ++ image_files t c) (network_files t c)
        (All-append _ (pod_files t c ++ volume_files t c) (image_files t c)
          (All-append _ (pod_files t c) (volume_files t c) pods volumes) images)
        networks

  -- after all files but those of the builds are written
  repaired :
      (disk : Dict Text)
      → IsTidy (cs ++ ts)
      → AreDistinct (
          pod_files t c
          ++ (volume_files t c
              ++ (image_files t c ++ (network_files t c ++ (build_files t c ++ (cs ++ ts))))))
      → issues (insert_all (quadlets ++ (cs ++ ts)) disk) (
          network_files t c
          ++ (pod_files t c
              ++ (volume_files t c ++ (image_files t c ++ (build_files t c ++ (cs ++ ts))))))
        ≡ issues disk (build_files t c)
  repaired disk tidied distinct =
      let grouped =
        subst AreDistinct
          (regrouped (pod_files t c) (volume_files t c) (image_files t c) (network_files t c)
            (build_files t c) cs ts)
          distinct in
      let r =
        issues-insert_all disk quadlets (build_files t c) (cs ++ ts) grouped
          (All-append _ quadlets (cs ++ ts) quadlets-IsTidy tidied) in
      checked _ (pod_files t c) (volume_files t c) (image_files t c) (network_files t c)
        (build_files t c) (cs ++ ts) r.0 r.2
      ∙ r.1

  module _ (host : Host) (timers : List Timer) (w : World)
      (rendered : each_file (container_file t c) c.containers ≡ some cs)
      (timed : each_file (timer_file t c) timers ≡ some ts) where
    resync_compartment-checked :
        AreDistinct (
          pod_files t c
          ++ (volume_files t c
              ++ (image_files t c ++ (network_files t c ++ (build_files t c ++ (cs ++ ts))))))
        → (resync_compartment host t c timers w).1 ≡ true
        → check_sync t c timers (resync_compartment host t c timers w).0
          ≡ some (issues w.disk (build_files t c))
    unfolding check_sync check_service_sync
    resync_compartment-checked distinct h =
        let tidied =
          All-append _ cs ts (each_file-IsTidy _ (container_file-tidy t c) c.containers cs rendered)
            (each_file-IsTidy _ (timer_file-tidy t c) timers ts timed) in
        let written =
          resync_compartment-Writes host t c timers cs ts rendered timed w h
          ∙ ap (λ (l : List File). insert_all l w.disk) (written_in_order quadlets cs ts) in
        rw (rendered, timed)
          (ap
              (λ (d : Dict Text). some (
                issues d (
                  network_files t c
                  ++ (pod_files t c
                      ++ (volume_files t c
                          ++ (image_files t c ++ (build_files t c ++ (cs ++ ts))))))))
              written
            ∙ ap some (repaired w.disk tidied distinct))

-- A resync that raises nothing, of a compartment whose units have distinct file names: the sync check
-- then finds exactly the issues that the build units had before, and no other; so it finds nothing
-- where there are no builds, and a missing or changed build unit stays as it is.
pub resync_compartment-repairs :
    (host : Host) (t : Templates) (c : Compartment) (timers : List Timer) (w : World)
    (files : List File)
    → render_quadlet_files t c timers ≡ some files
    → AreDistinct files
    → (resync_compartment host t c timers w).1 ≡ true
    → check_sync t c timers (resync_compartment host t c timers w).0
      ≡ some (issues w.disk (build_files t c))
unfolding render_quadlet_files
resync_compartment-repairs host t c timers w files e distinct h =
    let (cs, rendered, e1) = bind-some (each_file (container_file t c) c.containers) _ files e in
    let (ts, timed, e2) = bind-some (each_file (timer_file t c) timers) _ files e1 in
    resync_compartment-checked t c cs ts host timers w rendered timed
      (subst AreDistinct (ground arith) distinct) h
