-- ===== src/Onchain/Send/Results.antt =====
-- What the result of `send_with_retry` says, whatever the callbacks do.
use cubiczan_resilience.Base.{
  ℕ, ◌≤◌, ◌<◌, ◌≡◌, ◌⊎◌, inl, inr, refl, true, false, Option, none, some,
}
use cubiczan_resilience.Onchain.{is_receipt_success, is_retryable, is_legacy, bad_fee}
use cubiczan_resilience.Onchain.Fees.{HasFee}
use cubiczan_resilience.Onchain.Breaker
use cubiczan_resilience.Onchain.Breaker.{Breaker, IsValid}
use cubiczan_resilience.Onchain.Attempt.{
  Raised, SendError, bad_config, already_sent, circuit_open, bad_fees, reverted, passed_on,
  non_retryable, retry_exhausted, Sent, sent, failed, SendOpts, Env, Pinned, Round, finish, again,
  text_of,
}
use cubiczan_resilience.Onchain.Send.{is_submitted, closed_if}

-- The failures that the loop may end with, at the pinned fee that it has.
abbrev pub LoopError : SendError → Type 0
LoopError bad_config = ⊥
LoopError already_sent = ⊥
LoopError circuit_open = ⊥
LoopError (bad_fees e) = e ≡ bad_fee
LoopError (reverted _) = Unit
LoopError (passed_on _) = Unit
LoopError (non_retryable e) = is_retryable (text_of e) ≡ false
LoopError (retry_exhausted none) = ⊥
LoopError (retry_exhausted (some e)) = is_retryable (text_of e) ≡ true

-- A breaker, if there is one, that has just recorded a success.
abbrev pub Reset : Option Breaker → Type 0
Reset none = Unit
Reset (some b) = (b.consecutive_failures ≡ 0) × (b.opened_at ≡ none)

abbrev pub LoopSent : Sent → Option Breaker → Type 0
LoopSent (sent r) b = (is_receipt_success r ≡ true) × Reset b
LoopSent (failed e) b = LoopError e

abbrev RoundFits : SendOpts → ℕ → Round → Option Breaker → Type 0
RoundFits o k (finish s) b = LoopSent s b
RoundFits o k (again pin e) b =
    HasFee (is_legacy o.fee_mode) pin.fee_fields
    × ((is_retryable (text_of e) ≡ true) ⊎ (k < o.max_attempts))

pub Round-cases :
    (r : Round)
    → ((s : Sent) × (r ≡ finish s)) ⊎ ((pin : Pinned) × (e : Raised) × (r ≡ again pin e))
Round-cases (finish s) = inl (s, refl)
Round-cases (again pin e) = inr (pin, e, refl)

module _ {W : Type 0} (env : Env W) (o : SendOpts) (h : 1000000 < o.bump_factor) where
  -- The exception that the round before `k` left, or none in the first round.
  abbrev LastFits : ℕ → Option Raised → Type 0
  LastFits k none = k ≡ 1
  LastFits k (some e) = (is_retryable (text_of e) ≡ true) ⊎ (k ≤ o.max_attempts)

-- What a result says, for a call that finds the breaker `b` and the world `w`.
abbrev pub Answers :
    {W : Type 0} → Env W → SendOpts → Option Breaker → W → Sent → Option Breaker → Type 0
Answers env o b w (sent r) b' = (is_receipt_success r ≡ true) × Reset b'
Answers env o b w (failed bad_config) b' =
    ((o.bump_factor ≤ 1000000) ⊎ (o.max_attempts ≡ 0)) × (b' ≡ b)
Answers env o b w (failed already_sent) b' = ((is_submitted env o w).0 ≡ true) × (b' ≡ b)
Answers env o b w (failed circuit_open) b' =
    ((is_submitted env o w).0 ≡ false)
    × ((closed_if env o b (is_submitted env o w).1).0 ≡ false)
    × (b' ≡ b)
Answers env o b w (failed e) b' = LoopError e
