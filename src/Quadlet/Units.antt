-- ===== src/Quadlet/Units.antt =====
-- services/quadlet_writer.py and services/unsafe/quadlet.py: the units of a compartment and the text
-- of their files. Of a resource the fields that Python code reads are fields here, and all others,
-- which only its template reads, stand in `settings`. The Jinja2 templates are parameters.
use quadletman.Prelude.{
  ℕ, zero, suc, Bool, false, not, ◌&&◌, List, [], ◌∷◌, ◌++◌, Option, none, some, if◌then◌else◌, any,
  Text, codes, text_eq, is_empty, one_of, ◌==◌,
}
use quadletman.Prelude.Dict.{Dict, lookup, insert}
use quadletman.Prelude.Options.{◌>>=◌}
use quadletman.Sanitized.Check.{ok, refused}
use quadletman.Sanitized.Names.{safe_resource_name}
use quadletman.Sanitized.Paths.{resolve_safe_path}
use quadletman.Quadlet.IdMap.{resolve_id_maps}

-- A pod, an image, a build or a network.
pub record Resource : Type 0 where
  pub id : Text
  pub qm_name : Text
  pub settings : Dict Text

pub record Volume : Type 0 where
  pub id : Text
  pub qm_name : Text
  pub qm_use_quadlet : Bool
  pub settings : Dict Text

pub record VolumeMount : Type 0 where
  pub volume_id : Text
  pub container_path : Text
  pub options : Text

pub record Container : Type 0 where
  pub id : Text
  pub qm_name : Text
  pub image : Text
  pub network : Text
  pub pod : Text
  pub volumes : List VolumeMount
  pub uid_map : List Text
  pub gid_map : List Text
  pub qm_sort_order : ℕ
  pub settings : Dict Text

pub record Timer : Type 0 where
  pub qm_name : Text
  pub qm_container_id : Text
  pub qm_container_name : Text
  pub settings : Dict Text

pub record Compartment : Type 0 where
  pub id : Text
  pub containers : List Container
  pub volumes : List Volume
  pub pods : List Resource
  pub images : List Resource
  pub builds : List Resource
  pub networks : List Resource

pub record ResolvedMount : Type 0 where
  pub quadlet_name : Text
  pub host_path : Text
  pub container_path : Text
  pub options : Text

-- What the templates render, with the features of the Podman at hand; `realpath` of the file system,
-- and `settings.volumes_base`.
pub record Templates : Type 0 where
  pub pod : Text → Resource → Text
  pub volume : Text → Volume → Text
  pub image : Text → Resource → Text
  pub network : Text → Resource → Text
  pub build : Text → Resource → Text
  pub container : Text → Container → List ResolvedMount → List Text → List Text → Text
  pub timer : Text → Timer → Text → Text
  pub realpath : Text → Text
  pub volumes_base : Text

-- `_MULTI_BLANK.sub("\n\n", content)`, behind as many newlines as are counted, up to two
unfoldable pub tidy_from : ℕ → Text → Text
tidy_from n [] = []
tidy_from zero (c ∷ s) = if c == b'\n' then b'\n' ∷ tidy_from 1 s else c ∷ tidy_from 0 s
tidy_from (suc zero) (c ∷ s) = if c == b'\n' then b'\n' ∷ tidy_from 2 s else c ∷ tidy_from 0 s
tidy_from (suc (suc n)) (c ∷ s) = if c == b'\n' then tidy_from 2 s else c ∷ tidy_from 0 s

unfoldable pub tidy : Text → Text
unfolding tidy_from
tidy s = tidy_from 0 s

-- `{v.id: v for v in service_volumes}`
unfoldable pub vol_by_id : List Volume → Dict Volume → Dict Volume
unfolding insert
vol_by_id [] d = d
vol_by_id (v ∷ vs) d = vol_by_id vs (insert v.id v d)

-- `{c.id: c.qm_name for c in containers}`
unfoldable pub container_map : List Container → Dict Text → Dict Text
unfolding insert
container_map [] d = d
container_map (c ∷ cs) d = container_map cs (insert c.id c.qm_name d)

-- `SafeResourceName.of(…)`; `none` is the `ValueError`
unfoldable pub named : Text → Option Text
named name = elim (safe_resource_name name) [ ok n ↦ some n | refused r ↦ none ]

-- `resolve_safe_path(volumes_base, …)`; `none` is the `ValueError`
unfoldable pub volume_path : Templates → Text → Text → Option Text
unfolding resolve_safe_path
volume_path t sid name =
    elim (resolve_safe_path t.realpath t.volumes_base (sid ++ (codes "/" ++ name)) false) [
      | ok p ↦ some p
      | refused r ↦ none
    ]

resolved_mount : Templates → Text → VolumeMount → Volume → Option ResolvedMount
unfolding named volume_path
resolved_mount t sid vm vol =
    if vol.qm_use_quadlet
    then some (record {
      quadlet_name = sid ++ (codes "-" ++ (vol.qm_name ++ codes ".volume"));
      host_path = [];
      container_path = vm.container_path;
      options = vm.options;
    })
    else (do
      name ← named vol.qm_name
      path ← volume_path t sid name
      some (record {
        quadlet_name = [];
        host_path = path;
        container_path = vm.container_path;
        options = vm.options;
      }))

-- the loop of `_resolve_mounts`: a mount of a volume that is not there is left out
mounts_from : Templates → Text → Dict Volume → List VolumeMount → Option (List ResolvedMount)
unfolding resolved_mount lookup
mounts_from t sid vols [] = some []
mounts_from t sid vols (vm ∷ vms) =
    let rest = mounts_from t sid vols vms in
    elim (lookup vm.volume_id vols) [
      | none ↦ rest
      | some vol ↦ resolved_mount t sid vm vol >>= λ m. rest >>= λ ms. some (m ∷ ms)
    ]

unfoldable pub resolve_mounts :
    Templates → Text → Container → List Volume → Option (List ResolvedMount)
unfolding mounts_from vol_by_id
resolve_mounts t sid c vols = mounts_from t sid (vol_by_id vols []) c.volumes

unfoldable pub render_container : Templates → Text → List Volume → Container → Option Text
unfolding resolve_mounts resolve_id_maps is_empty tidy
render_container t sid vols c = do
  mounts ← resolve_mounts t sid c vols
  uids ← resolve_id_maps c.uid_map
  gids ← resolve_id_maps (if is_empty c.gid_map then c.uid_map else c.gid_map)
  some (tidy (t.container sid c mounts uids gids))

-- `container_map.get(timer.qm_container_id, timer.qm_container_name)`
unfoldable pub timer_target : List Container → Timer → Text
unfolding container_map lookup
timer_target cs timer = elim (lookup timer.qm_container_id (container_map cs [])) [
  | none ↦ timer.qm_container_name
  | some name ↦ name
]

-- `c.network not in (…) and not c.pod`
unfoldable pub uses_own_network : Container → Bool
unfolding one_of is_empty
uses_own_network c =
    not (one_of c.network (codes "host" ∷ codes "none" ∷ codes "slirp4netns" ∷ codes "pasta" ∷ []))
    && is_empty c.pod

-- `net.qm_name in network_names_used`
unfoldable pub is_used : List Container → Text → Bool
unfolding any uses_own_network text_eq
is_used cs name = any (λ c. uses_own_network c && text_eq c.network name) cs
