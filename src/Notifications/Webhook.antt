-- ===== src/Notifications/Webhook.antt =====
-- `fire_webhook`: the attempts of one delivery. `post n` is what `_sync_post` gives in attempt `n`, and
-- `none` is an exception.
pub mod Delivery
use quadletman.Prelude.{
  ℕ, zero, suc, ◌+◌, ◌*◌, ◌^◌, Bool, true, false, ◌&&◌, List, [], ◌∷◌, Option, none, some,
  if◌then◌else◌, ltb, ℤ, pos, lt_int,
}

-- How often the hook was called, the seconds slept between the calls, and whether one succeeded.
pub record Outcome : Type 0 where
  pub posts : ℕ
  pub slept : List ℕ
  pub delivered : Bool

-- `0 < status < 400`
unfoldable pub is_success : Option ℤ → Bool
is_success none = false
is_success (some status) = lt_int (pos 0) status && lt_int status (pos 400)

module _ (max_attempts base_delay : ℕ) (post : ℕ → Option ℤ) where
  -- an attempt that failed, before the outcome of the later ones; `attempt < _MAX_ATTEMPTS - 1`
  unfoldable pub failed_attempt : ℕ → Outcome → Outcome
  failed_attempt attempt later = record {
    posts = suc later.posts;
    slept =
        if ltb (attempt + 1) max_attempts
        then base_delay * 2 ^ attempt ∷ later.slept
        else later.slept;
    delivered = later.delivered;
  }

  -- the loop, for the attempts that are left
  unfoldable pub attempts_from : ℕ → ℕ → Outcome
  unfolding is_success failed_attempt
  attempts_from zero attempt = record { posts = 0; slept = []; delivered = false }
  attempts_from (suc left) attempt =
      let later = attempts_from left (attempt + 1) in
      if is_success (post attempt)
      then record { posts = 1; slept = []; delivered = true }
      else failed_attempt attempt later

  unfoldable pub fire_webhook : Outcome
  unfolding attempts_from
  fire_webhook = attempts_from max_attempts 0
