-- ===== src/Podman/Info/Cooldown.antt =====
-- When `get_podman_info` runs the command, and what it keeps.
use quadletman.Prelude.{ℕ, ◌+◌, ◌≤◌, ◌<◌, true, false, ◌≡◌, refl, arith, none, some, ltb}
use quadletman.Podman.Info.{Members, last, Caches, InfoRun, run_info, or_empty, get_podman_info}

attempt-run :
    (interval now : ℕ) (run : InfoRun) (st : Caches)
    → st.info ≡ none
    → st.last_attempt + interval ≤ now
    → get_podman_info interval now run st
      ≡ (or_empty (run_info run), record st { last_attempt = now; info = run_info run })
unfolding get_podman_info
attempt-run interval now run st e h =
    let due : ltb now (st.last_attempt + interval) ≡ false = ground arith in
    rw (get_podman_info, e, due) refl

attempt-early :
    (interval now : ℕ) (run : InfoRun) (st : Caches)
    → now < st.last_attempt + interval
    → get_podman_info interval now run (record st { info = none })
      ≡ (last, record st { info = none })
unfolding get_podman_info
attempt-early interval now run st h =
    let early : ltb now (st.last_attempt + interval) ≡ true = ground arith in rw early refl

-- After a run that gave no dict, a call within the interval returns the empty dict and changes nothing,
-- whatever the command would have answered.
pub get_podman_info-cooldown :
    (interval now later : ℕ) (first run : InfoRun) (st : Caches)
    → st.info ≡ none
    → st.last_attempt + interval ≤ now
    → run_info first ≡ none
    → later < now + interval
    → let (info, st') = get_podman_info interval now first st in
      (info ≡ last) × (get_podman_info interval later run st' ≡ (last, st'))
unfolding or_empty
get_podman_info-cooldown interval now later first run st e h f k =
    let ran = attempt-run interval now first st e h in
    rw (ran, f)
      (refl, attempt-early interval later run (record st { last_attempt = now; info = none }) k)

-- Once a run gave a dict, every later call returns this dict and changes nothing, at any time and
-- whatever the command would answer.
pub get_podman_info-kept :
    (interval now later : ℕ) (first run : InfoRun) (st : Caches) (info : Members)
    → st.info ≡ none
    → st.last_attempt + interval ≤ now
    → run_info first ≡ some info
    → get_podman_info interval later run ((get_podman_info interval now first st).1)
      ≡ (info, (get_podman_info interval now first st).1)
unfolding get_podman_info
get_podman_info-kept interval now later first run st info e h f =
    let ran = attempt-run interval now first st e h in rw (ran, f) refl
