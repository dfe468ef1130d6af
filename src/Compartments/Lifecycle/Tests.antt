-- ===== src/Compartments/Lifecycle/Tests.antt =====
-- A compartment with a unit of each kind, and the theorems at it.
use mathlib.Core.List.{Perm}
use quadletman.Prelude.{
  true, not, List, [], ◌∷◌, ◌++◌, map, some, ◌≡◌, refl, Text, codes, text_eq, any,
}
use quadletman.Regex.{full_match}
use quadletman.Sanitized.Check.{of_limited, or_empty, of_pattern}
use quadletman.Sanitized.Patterns.{resource_name_pattern, unit_name_pattern}
use quadletman.Quadlet.Units.{Resource, Container, Timer, Compartment, Templates}
use quadletman.Quadlet.Sync.{File, missing, issues, build_files, render_quadlet_files}
use quadletman.Quadlet.Sync.Files.{has_name}
use quadletman.Compartments.Lifecycle.{
  World, Host, Call, stop, service_of, resync_compartment, check_sync, stop_compartment,
}
use quadletman.Compartments.Lifecycle.Synced.{resync_compartment-repairs}
use quadletman.Compartments.Lifecycle.Attempts.{Descends, raising, stop_compartment-tries_all}

abbrev templates : Templates
templates = record {
  pod = λ sid r. codes "[Pod]\n\n\n\n" ++ r.qm_name;
  volume = λ sid v. codes "[Volume]";
  image = λ sid r. codes "[Image]";
  network = λ sid r. codes "[Network]";
  build = λ sid r. codes "[Build]";
  container = λ sid k mounts uids gids. codes "[Container]\n" ++ k.image;
  timer = λ sid m name. codes "[Timer]\n" ++ name;
  realpath = λ p. p;
  volumes_base = codes "/v";
}

abbrev named_resource : Text → Resource
named_resource name = record { id = name; qm_name = name; settings = [] }

abbrev app : Container
app = record {
  id = codes "1";
  qm_name = codes "app";
  image = codes "nginx";
  network = codes "net";
  pod = [];
  volumes = [];
  uid_map = [];
  gid_map = [];
  qm_sort_order = 1;
  settings = [];
}

abbrev database : Container
database = record app { id = codes "2"; qm_name = codes "db"; qm_sort_order = 5 }

abbrev web : Compartment
web = record {
  id = codes "web";
  containers = app ∷ database ∷ [];
  volumes =
      record { id = codes "v"; qm_name = codes "data"; qm_use_quadlet = true; settings = [] } ∷ [];
  pods = named_resource (codes "p") ∷ [];
  images = named_resource (codes "i") ∷ [];
  builds = named_resource (codes "b") ∷ [];
  networks = named_resource (codes "net") ∷ named_resource (codes "unused") ∷ [];
}

abbrev nightly : List Timer
nightly =
    record {
      qm_name = codes "nightly";
      qm_container_id = codes "2";
      qm_container_name = codes "old";
      settings = [];
    }
    ∷ []

abbrev empty_disk : World
empty_disk = record { disk = []; calls = [] }

-- everything works, but that a stop of `app` raises
abbrev host : Host
host = record {
  writes = λ f. true;
  succeeds = λ c. elim c [ stop u ↦ not (text_eq u (codes "app.service")) | _ ↦ true ];
  is_active = λ u. true;
}

abbrev web_files : List File
web_files =
    (codes "p.pod", codes "[Pod]\n\np")
    ∷ (codes "web-data.volume", codes "[Volume]")
    ∷ (codes "i.image", codes "[Image]")
    ∷ (codes "net.network", codes "[Network]")
    ∷ (codes "b.build", codes "[Build]")
    ∷ (codes "app.container", codes "[Container]\nnginx")
    ∷ (codes "db.container", codes "[Container]\nnginx")
    ∷ (codes "nightly.timer", codes "[Timer]\ndb")
    ∷ []

web_renders : render_quadlet_files templates web nightly ≡ some web_files
unfolding render_quadlet_files of_limited full_match resource_name_pattern
web_renders = refl

web_resyncs : (resync_compartment host templates web nightly empty_disk).1 ≡ true
unfolding resync_compartment or_empty of_pattern full_match unit_name_pattern
web_resyncs = refl

web_restarts :
    (resync_compartment host templates web nightly empty_disk).0.calls
    ≡ Call.daemon_reload
      ∷ Call.restart (codes "app.service")
      ∷ Call.restart (codes "db.service")
      ∷ []
unfolding resync_compartment or_empty of_pattern full_match unit_name_pattern
web_restarts = refl

-- The build unit is still missing.
build_missing :
    issues [] (build_files templates web) ≡ record { file = codes "b.build"; status = missing } ∷ []
unfolding issues
build_missing = refl

resync_compartment-repairs_example :
    check_sync templates web nightly (resync_compartment host templates web nightly empty_disk).0
    ≡ some (issues [] (build_files templates web))
unfolding has_name any
resync_compartment-repairs_example =
    resync_compartment-repairs host templates web nightly empty_disk web_files web_renders
      (refl, (refl, (refl, (refl, (refl, (refl, (refl, (refl, tt)))))))) web_resyncs

stop_order : stop_compartment host web empty_disk ≡ (
  record { disk = []; calls = stop (codes "db.service") ∷ stop (codes "app.service") ∷ [] },
  some (codes "app.service" ∷ []),
)
unfolding stop_compartment or_empty of_pattern full_match unit_name_pattern text_eq
stop_order = refl

stop_compartment-tries_all_example :
    (ks : List Container) × Perm ks web.containers
    × Descends ks
    × (stop_compartment host web empty_disk ≡ (
      record empty_disk { calls = [] ++ map (λ k. stop (service_of k)) ks },
      some (raising host stop ks),
    ))
unfolding or_empty of_pattern full_match unit_name_pattern service_of
stop_compartment-tries_all_example =
    stop_compartment-tries_all host web empty_disk (refl, (refl, tt))
