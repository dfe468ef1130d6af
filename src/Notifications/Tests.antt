-- ===== src/Notifications/Tests.antt =====
-- A delivery, the states of a container over a few rounds and the pending updates, and the theorems at
-- them.
use quadletman.Prelude.{
  ℕ, zero, suc, ◌+◌, true, List, [], ◌∷◌, Option, none, some, ◌≡◌, refl, Text, codes, ℤ, pos,
  one_of, has, all, false,
}
use quadletman.Prelude.Dict.{lookup}
use quadletman.Notifications.Webhook.{fire_webhook}
use quadletman.Notifications.Webhook.Delivery.{IsFirst, outcome_at, fire_webhook-ends}
use quadletman.Notifications.States.{Hook, Monitor, state_key}
use quadletman.Notifications.States.Counting.{restart_count}
use quadletman.Notifications.States.History.{
  Event, seen, ended, run, restarts, states_of, run-counts,
}
use quadletman.Notifications.Updates.{Report, Round}
use quadletman.Notifications.Updates.Edges.{plain_round, fires, edges}
use quadletman.Notifications.Updates.Once.{fires_lem}

-- an exception, a server error, and a success
abbrev answers : ℕ → Option ℤ
answers zero = none
answers (suc zero) = some (pos 500)
answers (suc (suc n)) = some (pos 204)

delivered : fire_webhook 3 5 answers ≡ record { posts = 3; slept = 5 ∷ 10 ∷ []; delivered = true }
unfolding fire_webhook
delivered = refl

abbrev refused : ℕ → Option ℤ
refused n = some (pos 404)

fire_webhook-ends_example :
    (k : ℕ) × IsFirst 3 refused k × (fire_webhook 3 5 refused ≡ outcome_at 3 5 k)
fire_webhook-ends_example = fire_webhook-ends 3 5 refused

abbrev web : Text
web = codes "web"

abbrev app : Text
app = codes "app"

abbrev hook : Hook
hook = record {
  compartment_id = web;
  qm_container_name = [];
  event_type = codes "on_restart";
  enabled = true;
  webhook_url = codes "u";
}

abbrev fresh : Monitor
fresh = record { last_states = []; stats = []; fired = [] }

abbrev events : List Event
events =
    seen web app (codes "active") 1
    ∷ seen web (codes "db") (codes "failed") 1
    ∷ ended (codes "web/app" ∷ codes "web/db" ∷ [])
    ∷ seen web app (codes "failed") 2
    ∷ seen web (codes "db") (codes "activating") 2
    ∷ seen web app (codes "activating") 3
    ∷ []

monitored : run (hook ∷ []) events fresh ≡ record {
  last_states = (codes "web/app", codes "activating") ∷ (codes "web/db", codes "activating") ∷ [];
  stats =
      record {
        compartment_id = web;
        container_name = app;
        restart_count = 1;
        last_failure_at = some 2;
        last_restart_at = some 3;
      }
      ∷ record {
        compartment_id = web;
        container_name = codes "db";
        restart_count = 1;
        last_failure_at = none;
        last_restart_at = some 2;
      }
      ∷ [];
  fired = (hook, codes "on_restart") ∷ (hook, codes "on_restart") ∷ [];
}
unfolding run
monitored = refl

run-counts_example :
    restart_count web app (run (hook ∷ []) events fresh).stats
    ≡ restart_count web app fresh.stats
      + restarts (lookup (state_key web app) fresh.last_states) (states_of web app events)
unfolding has one_of state_key
run-counts_example =
    run-counts web app (hook ∷ []) events fresh refl
      (refl, (refl, (refl, (refl, (refl, (refl, tt))))))

abbrev nginx : Text → Report
nginx updated = record {
  updated = updated;
  unit = codes "app.service";
  image = codes "nginx";
  policy = codes "registry";
}

abbrev listener : Text → Hook
listener name = record {
  compartment_id = web;
  qm_container_name = name;
  event_type = codes "on_image_update";
  enabled = true;
  webhook_url = codes "https://example.org/hook";
}

abbrev round_of : Option (List Report) → Round
round_of reports = record {
  hooks = listener [] ∷ listener app ∷ listener (codes "db") ∷ [];
  checks =
      record {
        compartment_id = web;
        auto_updates = codes "registry" ∷ [];
        user_exists = true;
        reports = reports;
      }
      ∷ [];
}

-- reported twice, still pending, a failed check, pending again, and updated
abbrev rounds : List Round
rounds =
    round_of (some (nginx (codes "pending") ∷ nginx (codes "pending") ∷ []))
    ∷ round_of (some (nginx (codes "pending") ∷ []))
    ∷ round_of none
    ∷ round_of (some (nginx (codes "pending") ∷ []))
    ∷ round_of (some (nginx (codes "true") ∷ []))
    ∷ []

twice : fires (λ h. true) web app (codes "nginx") rounds [] ≡ 4
unfolding fires
twice = refl

fires_lem_example :
    fires (λ h. true) web app (codes "nginx") rounds []
    ≡ edges (λ h. true) web app (codes "nginx") rounds false
unfolding has all plain_round
fires_lem_example = fires_lem (λ h. true) web app (codes "nginx") refl refl rounds refl
