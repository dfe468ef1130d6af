-- ===== src/Bundle/Units.antt =====
-- services/bundle_parser.py: what becomes of a section of each type; the records are those of
-- models/service.
use quadletman.Prelude.{
  ℕ, Bool, not, ◌&&◌, List, [], ◌∷◌, ◌++◌, none, some, if◌then◌else◌, Text, codes, is_empty,
  is_space, strip, ends_with, drop_end, has, before, after,
}
use quadletman.Prelude.Dict.{Dict, lookup, insert}
use quadletman.Sanitized.Check.{Checked, ok, ◌>>=◌}
use quadletman.Sanitized.Names.{safe_str}
use quadletman.Bundle.Sections.{Fields}

pub record ParsedContainer : Type 0 where
  pub qm_name : Text
  pub image : Text
  pub environment : Dict Text
  pub ports : List Text
  pub labels : Dict Text
  pub network : Text
  pub restart_policy : Text
  pub exec_start_pre : Text
  pub exec_start_post : Text
  pub exec_stop : Text
  pub memory_limit : Text
  pub cpu_quota : Text
  pub depends_on : List Text
  pub apparmor_profile : Text
  pub pod : Text
  pub log_driver : Text
  pub working_dir : Text
  pub hostname : Text
  pub no_new_privileges : Bool
  pub read_only : Bool
  pub skipped_volumes : List Text

pub record ParsedPod : Type 0 where
  pub qm_name : Text
  pub network : Text
  pub publish_ports : List Text

pub record ParsedVolumeUnit : Type 0 where
  pub qm_name : Text
  pub driver : Text
  pub device : Text
  pub options : Text
  pub copy : Bool

pub record ParsedImageUnit : Type 0 where
  pub qm_name : Text
  pub image : Text
  pub auth_file : Text

-- `fields.get(key, [])`
unfoldable pub values : Text → Fields → List Text
unfolding lookup
values key fields = elim (lookup key fields) [ none ↦ [] | some vs ↦ vs ]

-- `(fields.get(key) or [default])[0]`
unfoldable pub first_or : Text → List Text → Text
first_or default [] = default
first_or default (v ∷ vs) = v

-- `raw.split("-", 1)[1] if "-" in raw else raw`
unfoldable pub without_prefix : Text → Text
unfolding has after
without_prefix raw = if has b'-' raw then after b'-' raw else raw

-- The file name, or else the name that the unit gives.
unfoldable pub name_or : Text → List Text → Text
unfolding is_empty first_or without_prefix
name_or filename given = if is_empty filename then without_prefix (first_or [] given) else filename

-- `s[: -len(suffix)] if s.endswith(suffix) else s`
unfoldable pub without_suffix : ℕ → Text → Text → Text
unfolding ends_with drop_end
without_suffix size suffix s = if ends_with suffix s then drop_end size s else s

-- `[SafeStr.of(v, …) for v in values]`
unfoldable pub each_safe : List Text → Checked (List Text)
unfolding safe_str
each_safe [] = ok []
each_safe (v ∷ vs) = do w ← safe_str v; ws ← each_safe vs; ok (w ∷ ws)

-- The loop over `KEY=value` lines.
unfoldable pub pairs : Dict Text → List Text → Checked (Dict Text)
unfolding is_empty strip before after safe_str insert
pairs known [] = ok known
pairs known (line ∷ lines) =
    let key = strip (before b'=' line) in
    let skipped = pairs known lines in
    if is_empty key then skipped else (do
      k ← safe_str key
      v ← safe_str (strip (after b'=' line))
      pairs (insert k v known) lines)

-- `net_vals[0].split(":")[0]` and the suffix `.network`
unfoldable pub network_of : Text → List Text → Text
unfolding before without_suffix
network_of default [] = default
network_of default (net ∷ nets) = without_suffix 8 (codes ".network") (before b':' net)

unfoldable pub pod_of : List Text → Text
unfolding without_suffix
pod_of [] = []
pod_of (raw ∷ raws) = without_suffix 4 (codes ".pod") raw

-- `s.split()`: the words; the text before the first white space comes first, if it is not empty.
unfoldable pub words_from : Text → Text → List Text
unfolding is_empty is_space
words_from word [] = if is_empty word then [] else word ∷ []
words_from word (c ∷ s) =
    let next = words_from [] s in
    let more = words_from (word ++ c ∷ []) s in
    if is_space c then (if is_empty word then next else word ∷ next) else more

unfoldable pub split_words : Text → List Text
unfolding words_from
split_words s = words_from [] s

unfoldable pub service_names : List Text → List Text
unfolding ends_with drop_end
service_names [] = []
service_names (part ∷ parts) =
    let rest = service_names parts in
    if ends_with (codes ".service") part && not (ends_with (codes "-pod.service") part)
    then drop_end 8 part ∷ rest
    else rest

unfoldable pub after_names : List Text → List Text
unfolding split_words service_names
after_names [] = []
after_names (v ∷ vs) = service_names (split_words v) ++ after_names vs

-- The warning for each volume, and the volumes.
unfoldable pub volume_warning : Text → Text → Text
volume_warning name vol =
    codes "Container '"
    ++ (name
        ++ (codes "': volume mount '"
            ++ (vol ++ codes "' skipped — add managed volumes via the UI after import")))

unfoldable pub volumes : Text → List Text → Checked (List Text × List Text)
unfolding safe_str volume_warning
volumes name [] = ok ([], [])
volumes name (vol ∷ vols) = do
  v ← safe_str vol
  w ← safe_str (volume_warning name vol)
  rest ← volumes name vols
  ok (v ∷ rest.0, w ∷ rest.1)

unfoldable pub no_image_warning : Text → Text → Text
no_image_warning what name = what ++ (codes " '" ++ (name ++ codes "': no Image= found, skipping"))

-- the record, once there are an image and a name; the warnings are those of the skipped volumes
unfoldable pub container_of : Text → Text → Fields → Checked (ParsedContainer × List Text)
unfolding values first_or each_safe pairs network_of pod_of after_names volumes safe_str is_empty
container_of name image fields = do
  environment ← pairs [] (values (codes "Container.Environment") fields)
  ports ← each_safe (values (codes "Container.PublishPort") fields)
  labels ← pairs [] (values (codes "Container.Label") fields)
  skipped ← volumes name (values (codes "Container.Volume") fields)
  depends_on ← each_safe (after_names (values (codes "Unit.After") fields))
  qm_name ← safe_str name
  image' ← safe_str image
  network ← safe_str (network_of (codes "host") (values (codes "Container.Network") fields))
  restart_policy ← safe_str (first_or (codes "always") (values (codes "Service.Restart") fields))
  exec_start_pre ← safe_str (first_or [] (values (codes "Service.ExecStartPre") fields))
  exec_start_post ← safe_str (first_or [] (values (codes "Service.ExecStartPost") fields))
  exec_stop ← safe_str (first_or [] (values (codes "Service.ExecStop") fields))
  memory_limit ← safe_str (first_or [] (values (codes "Service.MemoryLimit") fields))
  cpu_quota ← safe_str (first_or [] (values (codes "Service.CPUQuota") fields))
  apparmor_profile ← safe_str (first_or [] (values (codes "Container.AppArmor") fields))
  pod ← safe_str (pod_of (values (codes "Container.Pod") fields))
  log_driver ← safe_str (first_or [] (values (codes "Container.LogDriver") fields))
  working_dir ← safe_str (first_or [] (values (codes "Container.WorkingDir") fields))
  hostname ← safe_str (first_or [] (values (codes "Container.HostName") fields))
  ok (
    record {
      qm_name = qm_name;
      image = image';
      environment = environment;
      ports = ports;
      labels = labels;
      network = network;
      restart_policy = restart_policy;
      exec_start_pre = exec_start_pre;
      exec_start_post = exec_start_post;
      exec_stop = exec_stop;
      memory_limit = memory_limit;
      cpu_quota = cpu_quota;
      depends_on = depends_on;
      apparmor_profile = apparmor_profile;
      pod = pod;
      log_driver = log_driver;
      working_dir = working_dir;
      hostname = hostname;
      no_new_privileges = not (is_empty (values (codes "Container.NoNewPrivileges") fields));
      read_only = not (is_empty (values (codes "Container.ReadOnly") fields));
      skipped_volumes = skipped.0;
    },
    skipped.1,
  )
