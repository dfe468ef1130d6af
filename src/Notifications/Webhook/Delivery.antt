-- ===== src/Notifications/Webhook/Delivery.antt =====
-- A delivery ends with the first success, or behind the last attempt.
use quadletman.Prelude.{
  ℕ, zero, suc, ◌+◌, ◌-◌, ◌*◌, ◌^◌, ◌<◌, ◌≤◌, Bool, true, false, List, [], ◌∷◌, Option, ◌≡◌, refl,
  sym, subst, ltb, arith, ℤ, inl, inr, ◌⊎◌, Bool-cases, not, ◌&&◌, ◌||◌, if◌then◌else◌,
}
use quadletman.Notifications.Webhook.{
  Outcome, is_success, failed_attempt, attempts_from, fire_webhook,
}

split_last : (j k : ℕ) → j < suc k → (j < k) ⊎ (j ≡ k)
split_last j k h = omega arith

-- `n` delays from attempt `a` on, each twice the one before
unfoldable pub delays : ℕ → ℕ → ℕ → List ℕ
delays base a zero = []
delays base a (suc n) = base * 2 ^ a ∷ delays base (a + 1) n

module _ (max base : ℕ) (post : ℕ → Option ℤ) where
  -- the attempts from `a` to below `a + k` failed, and that behind them succeeds
  attempts_from-success :
      (k left a : ℕ)
      → k < left
      → a + left ≡ max
      → ((j : ℕ) → a ≤ j → j < a + k → is_success (post j) ≡ false)
      → is_success (post (a + k)) ≡ true
      → attempts_from max base post left a
        ≡ record { posts = k + 1; slept = delays base a k; delivered = true }
  unfolding attempts_from delays failed_attempt
  attempts_from-success k zero a h e before success = absurd (omega arith)
  attempts_from-success zero (suc left) a h e before success =
      let same : a + 0 ≡ a = omega arith in
      let here = subst (λ (n : ℕ). is_success (post n) ≡ true) same success in rw here refl
  attempts_from-success (suc k) (suc left) a h e before success =
      let fails = before a (omega arith) (omega arith) in
      let more : ltb (a + 1) max ≡ true = ground arith in
      let same : a + suc k ≡ (a + 1) + k = omega arith in
      let ih =
        attempts_from-success k left (a + 1) (omega arith) (omega arith)
          (λ j lo hi. before j (omega arith) (omega arith))
          (subst (λ (n : ℕ). is_success (post n) ≡ true) same success) in
      rw (fails, ih, more) (ground arith)

  -- all attempts that are left fail
  attempts_from-failure :
      (left a : ℕ)
      → a + left ≡ max
      → ((j : ℕ) → a ≤ j → j < max → is_success (post j) ≡ false)
      → attempts_from max base post left a
        ≡ record { posts = left; slept = delays base a (left - 1); delivered = false }
  unfolding attempts_from delays failed_attempt
  attempts_from-failure zero a e fails = refl
  attempts_from-failure (suc zero) a e fails =
      let now = fails a (omega arith) (omega arith) in
      let last : ltb (a + 1) max ≡ false = ground arith in rw (now, last) refl
  attempts_from-failure (suc (suc left)) a e fails =
      let now = fails a (omega arith) (omega arith) in
      let more : ltb (a + 1) max ≡ true = ground arith in
      let ih =
        attempts_from-failure (suc left) (a + 1) (omega arith)
          (λ j lo hi. fails j (omega arith) hi) in
      rw (now, ih, more) (ground arith)

-- the attempts below `k` all fail
unfoldable pub all_fail : (ℕ → Option ℤ) → ℕ → Bool
unfolding is_success
all_fail post zero = true
all_fail post (suc k) = let rest = all_fail post k in not (is_success (post k)) && rest

all_fail-below :
    (post : ℕ → Option ℤ) (k j : ℕ) → all_fail post k ≡ true → j < k → is_success (post j) ≡ false
unfolding all_fail
all_fail-below post zero j h lt = absurd (omega arith)
all_fail-below post (suc k) j h lt = elim (split_last j k lt) [
  | inl below ↦ all_fail-below post k j (ground (arith, h)) below
  | inr last ↦ subst (λ (n : ℕ). is_success (post n) ≡ false) (sym last) (ground (arith, h))
]

-- `k` is the first attempt that succeeds, or `max`.
unfoldable pub IsFirst : ℕ → (ℕ → Option ℤ) → ℕ → Type 0
IsFirst max post k =
    (k ≤ max) × ((all_fail post k ≡ true) × ((not (ltb k max) || is_success (post k)) ≡ true))

IsFirst-exists : (max : ℕ) (post : ℕ → Option ℤ) → (k : ℕ) × IsFirst max post k
unfolding IsFirst all_fail
IsFirst-exists zero post = (0, (omega arith, (refl, refl)))
IsFirst-exists (suc max) post =
    let (k, (le, (fails, ends))) = IsFirst-exists max post in
    elim (Bool-cases (is_success (post k))) [
      | inl success ↦ (k, (omega arith, (fails, ground (arith, success))))
      | inr failure ↦
          let last : k ≡ max = ground (arith, ends, failure) in
          (suc k, (omega arith, (ground (arith, fails, failure), ground arith)))
    ]

-- What a delivery of at most `max` attempts comes to when the first success is attempt `k`, or `max`.
unfoldable pub outcome_at : ℕ → ℕ → ℕ → Outcome
unfolding delays
outcome_at max base k =
    if ltb k max
    then record { posts = k + 1; slept = delays base 0 k; delivered = true }
    else record { posts = max; slept = delays base 0 (max - 1); delivered = false }

fire_webhook-outcome_at :
    (max base : ℕ) (post : ℕ → Option ℤ) (k : ℕ)
    → IsFirst max post k
    → fire_webhook max base post ≡ outcome_at max base k
unfolding IsFirst outcome_at fire_webhook
fire_webhook-outcome_at max base post k (le, (fails, ends)) = elim (Bool-cases (ltb k max)) [
  | inl more ↦ rw more (
      attempts_from-success max base post k max 0 (ground (arith, more)) (omega arith)
        (λ j lo hi. all_fail-below post k j fails (omega arith)) (ground (arith, more, ends)))
  | inr over ↦
      let same : k ≡ max = ground (arith, over) in
      rw over (
        attempts_from-failure max base post max 0 (omega arith)
          (λ j lo hi. all_fail-below post k j fails (omega arith)))
]

-- Every delivery ends: there is an attempt `k`, counted from 0, that is the first to succeed, or `k` is
-- the number `max` of attempts and all of them fail. In the first case the hook is called exactly `k + 1`
-- times, with a pause after each failure that begins at the base delay and doubles, and the delivery
-- has succeeded. In the second it is called exactly `max` times, with such a pause after each attempt
-- but the last, and has not.
pub fire_webhook-ends :
    (max base : ℕ) (post : ℕ → Option ℤ)
    → (k : ℕ) × IsFirst max post k × (fire_webhook max base post ≡ outcome_at max base k)
fire_webhook-ends max base post =
    let (k, first) = IsFirst-exists max post in
    (k, first, fire_webhook-outcome_at max base post k first)
