-- ===== src/Compartments/Connections/Tests.antt =====
-- A round of the monitor with an allowed and an unexpected connection, and the theorems at it.
use quadletman.Prelude.{
  Bool, true, not, ◌&&◌, ◌||◌, List, [], ◌∷◌, Option, none, some, if◌then◌else◌, ◌≡◌, refl, Text,
  codes,
}
use quadletman.Compartments.Connections.{
  Endpoint, Rule, is_known, watch, connection_is_allowlisted, add_allowlist_rule,
  list_allowlist_rules, fired,
}
use quadletman.Compartments.Connections.Alerts.{appears, count, watch-reports}
use quadletman.Compartments.Connections.Unique.{
  AreUnique, Change, seen, deleted, cleaned, changes, changes-AreUnique,
}

abbrev same_text : Text → Text
same_text s = s

-- a network that holds every address
abbrev any_network : Text → Text → Option Bool
any_network network ip = some true

abbrev to_dns : Endpoint
to_dns = record {
  container_name = codes "app";
  proto = codes "tcp";
  dst_ip = codes "10.0.0.1";
  dst_port = 53;
  direction = codes "outbound";
}

abbrev to_web : Endpoint
to_web = record to_dns { dst_ip = codes "1.2.3.4"; dst_port = 443 }

abbrev dns_rule : Rule
dns_rule = record {
  id = [];
  compartment_id = [];
  description = codes "dns";
  container_name = none;
  proto = some (codes "tcp");
  dst_ip = some (codes "10.0.0.0/8");
  dst_port = some 53;
  direction = some [];
  sort_order = 0;
  created_at = 0;
}

abbrev rules : List Rule
rules =
    list_allowlist_rules (codes "web") (add_allowlist_rule (codes "r1") (codes "web") 7 dns_rule [])

abbrev round : List (Text × Endpoint)
round = (codes "1", to_dns) ∷ (codes "2", to_web) ∷ (codes "3", to_web) ∷ []

unexpected : (watch same_text any_network (codes "web") 9 rules round []).1 ≡ to_web ∷ []
unfolding watch list_allowlist_rules add_allowlist_rule
unexpected = refl

counted :
    (watch same_text any_network (codes "web") 9 rules round []).0
    ≡ record {
      id = codes "1";
      compartment_id = codes "web";
      endpoint = to_dns;
      times_seen = 1;
      last_seen_at = 9;
    }
      ∷ record {
        id = codes "2";
        compartment_id = codes "web";
        endpoint = to_web;
        times_seen = 2;
        last_seen_at = 9;
      }
      ∷ []
unfolding watch list_allowlist_rules add_allowlist_rule
counted = refl

only_app :
    fired
      (record { qm_container_name = codes "db"; webhook_url = codes "u" }
        ∷ record { qm_container_name = []; webhook_url = codes "v" }
        ∷ [])
      to_web
    ≡ record { qm_container_name = []; webhook_url = codes "v" } ∷ []
unfolding fired
only_app = refl

watch-reports_example :
    (count to_web (watch same_text any_network (codes "web") 9 rules round []).1 ≡ (
      if appears to_web round
        && (not (is_known (codes "web") to_web [])
            && not (connection_is_allowlisted same_text any_network rules to_web))
      then 1
      else 0))
    × (is_known (codes "web") to_web (watch same_text any_network (codes "web") 9 rules round []).0
        ≡ (appears to_web round || is_known (codes "web") to_web []))
watch-reports_example = watch-reports same_text any_network (codes "web") 9 rules to_web round []

abbrev history : List Change
history =
    seen (codes "1") (codes "web") to_web 5
    ∷ seen (codes "2") (codes "web") to_web 8
    ∷ cleaned 90000 ((codes "web", some 1) ∷ [])
    ∷ seen (codes "3") (codes "web") to_web 90001
    ∷ deleted (codes "web") (codes "9")
    ∷ []

history_result :
    changes history []
    ≡ record {
      id = codes "3";
      compartment_id = codes "web";
      endpoint = to_web;
      times_seen = 1;
      last_seen_at = 90001;
    }
      ∷ []
unfolding changes
history_result = refl

changes-AreUnique_example : AreUnique (changes history [])
changes-AreUnique_example = changes-AreUnique history [] tt
