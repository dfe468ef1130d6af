-- ===== src/Compartments/Resources/Tests.antt =====
-- Images, networks and pods of a compartment that are added, changed and deleted, and the theorems at
-- them.
use quadletman.Prelude.{true, false, List, [], ◌∷◌, ◌≡◌, refl, Text, codes, all}
use quadletman.Regex.{full_match}
use quadletman.Sanitized.Check.{or_empty, of_pattern, of_limited}
use quadletman.Sanitized.Patterns.{unit_name_pattern, resource_name_pattern}
use quadletman.Quadlet.Units.{Resource, Templates, Container}
use quadletman.Quadlet.Sync.{resource_files, issues}
use quadletman.Compartments.Lifecycle.{Host, daemon_reload}
use quadletman.Compartments.Resources.{Store, done, blocked, resources_of}
use quadletman.Compartments.Resources.Image.{add_image, delete_image}
use quadletman.Compartments.Resources.Network.{add_network, update_network}
use quadletman.Compartments.Resources.Pod.{add_pod, delete_pod}
use quadletman.Compartments.Resources.Undone.{IsSettled, add-IsSettled}
use quadletman.Compartments.Resources.Synced.{
  Reply, Edit, adds, updates, deletes, edits, none_ahead, edits-synced,
}

abbrev web : Text
web = codes "web"

-- each template shows the value of the first setting
abbrev shown : Text → Resource → Text
shown sid r = elim r.settings [ [] ↦ codes "-" | (k, v) ∷ d ↦ v ]

abbrev templates : Templates
templates = record {
  pod = shown;
  volume = λ sid v. [];
  image = shown;
  network = shown;
  build = shown;
  container = λ sid k mounts uids gids. [];
  timer = λ sid m name. [];
  realpath = λ p. p;
  volumes_base = codes "/v";
}

abbrev resource : Text → Text → Text → Resource
resource id name value = record {
  id = id;
  qm_name = name;
  settings = (codes "network_name", value) ∷ [];
}

abbrev nginx : Resource
nginx = resource (codes "1") (codes "nginx") (codes "a")

abbrev redis : Resource
redis = resource (codes "2") (codes "redis") (codes "b")

abbrev app : Container
app = record {
  id = codes "c";
  qm_name = codes "app";
  image = codes "nginx.image";
  network = codes "net";
  pod = [];
  volumes = [];
  uid_map = [];
  gid_map = [];
  qm_sort_order = 0;
  settings = [];
}

abbrev initial : Store
initial = record {
  images = [];
  networks = [];
  pods = [];
  containers = app ∷ [];
  events = [];
  world = record { disk = []; calls = [] };
}

abbrev works : Host
works = record { writes = λ f. true; succeeds = λ c. true; is_active = λ u. false }

-- no file can be written
abbrev full : Host
full = record works { writes = λ f. false }

abbrev answers : Reply
answers = record { host = works; unlinks = λ f. true; cleans = true }

-- The second addition fails, the first deletion is blocked by a container.
abbrev history : List Edit
history =
    adds answers nginx
    ∷ adds (record answers { host = full }) redis
    ∷ adds answers redis
    ∷ updates answers (codes "1") (resource [] (codes "other") (codes "c"))
    ∷ deletes answers (codes "1")
    ∷ deletes answers (codes "2")
    ∷ []

history_disk :
    (edits web templates history initial).world.disk ≡ (codes "nginx.image", codes "c") ∷ []
unfolding edits or_empty of_pattern full_match unit_name_pattern of_limited resource_name_pattern
history_disk = refl

history_rows :
    resources_of web (edits web templates history initial).images
    ≡ resource (codes "1") (codes "nginx") (codes "c") ∷ []
unfolding edits resources_of or_empty of_pattern full_match unit_name_pattern of_limited
    resource_name_pattern
history_rows = refl

is_blocked :
    (delete_image web templates works true
      (λ f. true)
      true
      (codes "1")
      (edits web templates history initial)).1
    ≡ blocked (codes "app" ∷ [])
unfolding edits delete_image or_empty of_pattern full_match unit_name_pattern of_limited
    resource_name_pattern
is_blocked = refl

-- a new network is written without its name, and a change writes it
network_written :
    (add_network web templates works true
      (λ f. true)
      true
      (resource (codes "3") (codes "net") (codes "n"))
      initial).0.world.disk
    ≡ (codes "net.network", codes "-") ∷ []
unfolding add_network or_empty of_pattern full_match unit_name_pattern
network_written = refl

network_changed :
    (update_network web templates works true
      (λ f. true)
      true
      (codes "3")
      (resource [] (codes "net") (codes "n"))
      (add_network web templates works true
        (λ f. true)
        true
        (resource (codes "3") (codes "net") (codes "n"))
        initial).0).0.world.disk
    ≡ (codes "net.network", codes "n") ∷ []
unfolding add_network update_network or_empty of_pattern full_match unit_name_pattern
network_changed = refl

pod_deleted :
    (delete_pod web templates works true
      (λ f. true)
      true
      (codes "4")
      (add_pod web templates works true
        (λ f. true)
        true
        (resource (codes "4") (codes "p") [])
        initial).0)
    ≡ (
      record initial {
        events = (codes "pod_add", codes "Pod p added") ∷ [];
        world = record { disk = []; calls = daemon_reload ∷ daemon_reload ∷ [] };
      },
      done,
    )
unfolding add_pod delete_pod or_empty of_pattern full_match unit_name_pattern of_limited
    resource_name_pattern
pod_deleted = refl

edits-synced_example :
    issues (edits web templates history initial).world.disk (
      resource_files
        (templates.image web)
        (codes ".image")
        (resources_of web (edits web templates history initial).images))
    ≡ []
unfolding none_ahead all or_empty of_pattern full_match unit_name_pattern of_limited
    resource_name_pattern
edits-synced_example = edits-synced web templates history initial (tt, refl) refl

add-IsSettled_example :
    IsSettled
      (λ s. s.images)
      (record { compartment_id = web; resource = nginx })
      initial
      (add_image web templates full true (λ f. true) true nginx initial)
    × (IsSettled
          (λ s. s.networks)
          (record { compartment_id = web; resource = nginx })
          initial
          (add_network web templates full true (λ f. true) true nginx initial)
        × IsSettled
            (λ s. s.pods)
            (record { compartment_id = web; resource = nginx })
            initial
            (add_pod web templates full true (λ f. true) true nginx initial))
add-IsSettled_example = add-IsSettled web templates full true (λ f. true) true nginx initial
