-- ===== src/Quadlet/Sync.antt =====
-- services/quadlet_writer.py: the files that a compartment should have, and how they differ from disk.
pub mod Files
pub mod Repair
use quadletman.Prelude.{
  Bool, true, false, List, [], ◌∷◌, ◌++◌, map, Option, none, some, if◌then◌else◌, Text, codes,
  text_eq,
}
use quadletman.Prelude.Dict.{Dict, lookup}
use quadletman.Prelude.Options.{◌>>=◌}
use quadletman.Quadlet.Units.{
  Resource, Volume, Container, Timer, Compartment, Templates, tidy, named, render_container,
  timer_target, is_used,
}

-- A file name with its content.
abbrev pub File : Type 0
File = Text × Text

pub data Status : Type 0 where
  missing changed : Status

-- of an issue, without the text of the difference
pub record Issue : Type 0 where
  pub file : Text
  pub status : Status

-- `compare_file` of a file that was read
unfoldable pub compare_file : Text → Text → Option Text → Option Issue
unfolding text_eq
compare_file file expected none = some (record { file = file; status = missing })
compare_file file expected (some found) =
    if text_eq (tidy found) expected then none else some (record { file = file; status = changed })

abbrev pub resource_files : (Resource → Text) → Text → List Resource → List File
resource_files render suffix rs = map (λ r. (r.qm_name ++ suffix, tidy (render r))) rs

unfoldable pub only_used : List Container → List Resource → List Resource
unfolding is_used
only_used cs [] = []
only_used cs (n ∷ ns) =
    let rest = only_used cs ns in if is_used cs n.qm_name then n ∷ rest else rest

-- `if vol.qm_use_quadlet`
unfoldable pub only_quadlet : List Volume → List Volume
only_quadlet [] = []
only_quadlet (v ∷ vs) = let rest = only_quadlet vs in if v.qm_use_quadlet then v ∷ rest else rest

-- `f"{service_id}-{vol.qm_name}.volume"`
abbrev pub volume_file : Text → Volume → Text
volume_file sid v = sid ++ (codes "-" ++ (v.qm_name ++ codes ".volume"))

module _ (t : Templates) (c : Compartment) where
  abbrev pub pod_files : List File
  pod_files = resource_files (t.pod c.id) (codes ".pod") c.pods

  abbrev pub volume_files : List File
  volume_files = map (λ v. (volume_file c.id v, tidy (t.volume c.id v))) (only_quadlet c.volumes)

  abbrev pub image_files : List File
  image_files = resource_files (t.image c.id) (codes ".image") c.images

  abbrev pub network_files : List File
  network_files =
      resource_files (t.network c.id) (codes ".network") (only_used c.containers c.networks)

  abbrev pub build_files : List File
  build_files = resource_files (t.build c.id) (codes ".build") c.builds

  -- the unit of a container; `none` is the exception of its rendering
  unfoldable pub container_file : Container → Option File
  unfolding render_container
  container_file k =
      render_container t c.id c.volumes k >>= λ text. some (k.qm_name ++ codes ".container", text)

  unfoldable pub timer_file : Timer → Option File
  unfolding timer_target named
  timer_file m = named (timer_target c.containers m) >>= λ name.
      some (m.qm_name ++ codes ".timer", tidy (t.timer c.id m name))

-- each file of a list, as long as none raises
unfoldable pub each_file {ℓ} : {A : Type ℓ} → (A → Option File) → List A → Option (List File)
each_file f [] = some []
each_file f (x ∷ xs) = f x >>= λ file. each_file f xs >>= λ files. some (file ∷ files)

-- `if issue: issues.append(issue)`
abbrev pub noted : Option Issue → List Issue → List Issue
noted none rest = rest
noted (some i) rest = i ∷ rest

-- the issues of some files
unfoldable pub issues : Dict Text → List File → List Issue
unfolding compare_file lookup
issues disk [] = []
issues disk ((file, expected) ∷ files) =
    noted (compare_file file expected (lookup file disk)) (issues disk files)

module _ (t : Templates) (c : Compartment) (timers : List Timer) where
  -- `render_quadlet_files` and `get_quadlet_files` without the two configuration files
  unfoldable pub render_quadlet_files : Option (List File)
  unfolding only_quadlet only_used each_file container_file timer_file
  render_quadlet_files = do
    containers ← each_file (container_file t c) c.containers
    timed ← each_file (timer_file t c) timers
    some (
        pod_files t c
        ++ (volume_files t c
            ++ (image_files t c
                ++ (network_files t c ++ (build_files t c ++ (containers ++ timed))))))

  -- `check_service_sync`, where the directory of the units could be made
  unfoldable pub check_service_sync : Dict Text → Option (List Issue)
  unfolding issues only_quadlet only_used each_file container_file timer_file
  check_service_sync disk = do
    containers ← each_file (container_file t c) c.containers
    timed ← each_file (timer_file t c) timers
    some (
        issues disk (
          network_files t c
          ++ (pod_files t c
              ++ (volume_files t c
                  ++ (image_files t c ++ (build_files t c ++ (containers ++ timed)))))))
