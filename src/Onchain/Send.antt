-- ===== src/Onchain/Send.antt =====
-- `send_with_retry` of onchain/python/resilient_onchain/client.py. What it calls is the parameter
-- `env`. The logger is left out, and `already_sent` answers without raising.
mod Effects
pub mod Rounds
pub mod Escalation
pub mod Results
pub mod Late
mod Tests
use cubiczan_resilience.Base.{
  ℕ, zero, suc, ◌+◌, ◌-◌, ◌*◌, ◌^◌, Bool, true, false, not, [], Option, none, some, ltb, leb,
  if◌then◌else◌,
}
use cubiczan_resilience.Onchain.{
  NormalizedReceipt, is_receipt_success, fee, fee_error, initial_fee, bump_fee, is_nonce_too_low,
  is_retryable,
}
use cubiczan_resilience.Onchain.Breaker
use cubiczan_resilience.Onchain.Breaker.{Breaker}
use cubiczan_resilience.Onchain.Attempt.{
  Attempted, Env, Pinned, Raised, Round, SendOpts, Sent, StateResult, TxContext, again,
  already_sent, bad_config, bad_fees, circuit_open, failed, finish, non_retryable, other, passed_on,
  raises, retry_exhausted, reverted, sent, text_of, timed_out, tx_failed, value,
}

module _ {W : Type 0} (env : Env W) (o : SendOpts) where
  -- The inner function `_submit_and_wait`.
  pub awaited : Attempted ℕ → W → Attempted NormalizedReceipt × W
  awaited (raises e) w = (raises e, w)
  awaited (value hash) w = env.wait hash w

  pub submit_and_wait : TxContext → W → Attempted NormalizedReceipt × W
  unfolding awaited
  submit_and_wait ctx w = let (h, w') = env.sign_send ctx w in awaited h w'

  -- `_with_timeout` around it.
  pub with_timeout : TxContext → W → Attempted NormalizedReceipt × W
  unfolding submit_and_wait
  with_timeout ctx w =
      let (start, w₁) = env.monotonic w in
      let (r, w₂) = submit_and_wait ctx w₁ in
      elim r [
        | raises e ↦ (raises e, w₂)
        | value receipt ↦
            let (stop, w₃) = env.monotonic w₂ in
            (if ltb (start + o.timeout) stop then raises timed_out else value receipt, w₃)
      ]

  pub failure_if : Option Breaker → W → Option Breaker × W
  failure_if none w = (none, w)
  failure_if (some b) w = let (b', w') = Breaker.record_failure env.breaker_now b w in (some b', w')

  pub success_if : Option Breaker → Option Breaker
  success_if none = none
  success_if (some b) = some (Breaker.record_success b)

  -- After an exception that is no refreshed nonce: it is reported, and the loop ends or bumps the
  -- fee, sleeps and goes on. After the last attempt the loop runs out with nothing bumped.
  pub fail_with : ℕ → Pinned → Raised → Option Breaker → W → Round × Option Breaker × W
  unfolding failure_if
  fail_with attempt pin e b w =
      let (b', w') = failure_if b w in
      if not (is_retryable (text_of e))
      then (finish (failed (non_retryable e)), b', w')
      else if ltb attempt o.max_attempts
      then elim (bump_fee o.fee_mode pin.fee_fields o.bump_factor) [
        | fee_error x ↦ (finish (failed (bad_fees x)), b', w')
        | fee f ↦ (
          again (record pin { fee_fields = f }) e,
          b',
          env.sleep (o.backoff_base * 2 ^ (attempt - 1)) w',
        )
      ]
      else (again pin e, b', w')

  -- "Nonce drifted": the state is fetched anew, and before the last attempt the loop goes on.
  pub refreshed :
      ℕ → Raised → Attempted StateResult → Option Breaker → W → Round × Option Breaker × W
  unfolding fail_with
  refreshed attempt e (raises x) b w = (finish (failed (passed_on x)), b, w)
  refreshed attempt e (value state) b w = elim (initial_fee o.fee_mode state.fee_fields) [
    | fee_error x ↦ (finish (failed (bad_fees x)), b, w)
    | fee f ↦
        let pin : Pinned = record { nonce = state.nonce; fee_fields = f } in
        if ltb attempt o.max_attempts
        then (again pin e, b, env.sleep o.backoff_base w)
        else fail_with attempt pin e b w
  ]

  pub refresh : ℕ → Raised → Option Breaker → W → Round × Option Breaker × W
  unfolding refreshed
  refresh attempt e b w = let (s, w') = env.fetch_state w in refreshed attempt e s b w'

  -- What stands below the submission: the receipt is checked, or the exception is handled.
  pub settle :
      ℕ → Pinned → Attempted NormalizedReceipt → Option Breaker → W → Round × Option Breaker × W
  unfolding success_if failure_if refresh
  settle attempt pin (value receipt) b w =
      if is_receipt_success receipt
      then (finish (sent receipt), success_if b, w)
      else (let (b', w') = failure_if b w in (finish (failed (reverted receipt)), b', w'))
  settle attempt pin (raises (tx_failed receipt)) b w = (finish (failed (reverted receipt)), b, w)
  settle attempt pin (raises (other msg)) b w =
      if is_nonce_too_low msg
      then refresh attempt (other msg) b w
      else fail_with attempt pin (other msg) b w

  -- The body of the loop.
  pub attempt_once : ℕ → Pinned → Option Breaker → W → Round × Option Breaker × W
  unfolding with_timeout settle
  attempt_once attempt pin b w =
      let ctx : TxContext = record {
        nonce = pin.nonce;
        fee_fields = pin.fee_fields;
        attempt = attempt;
      } in
      let (r, w') = with_timeout ctx w in settle attempt pin r b w'

  -- `for attempt in range(1, max_attempts + 1)`, with the rounds left and `last_err`.
  pub rounds : ℕ → ℕ → Pinned → Option Raised → Option Breaker → W → Sent × Option Breaker × W
  unfolding attempt_once
  rounds zero attempt pin last b w = (failed (retry_exhausted last), b, w)
  rounds (suc n) attempt pin last b w =
      let (r, b', w') = attempt_once attempt pin b w in
      elim r [ finish s ↦ (s, b', w') | again pin' e ↦ rounds n (attempt + 1) pin' (some e) b' w' ]

  -- The idempotency guard: true where the key was submitted before.
  pub is_submitted : W → Bool × W
  is_submitted w = elim o.idempotency_key [
    | none ↦ (false, w)
    | some key ↦ elim env.already_sent [ none ↦ (false, w) | some ask ↦ ask key w ]
  ]

  -- The check of the breaker before the loop: false where it raises.
  pub closed_if : Option Breaker → W → Bool × W
  closed_if none w = (true, w)
  closed_if (some b) w = Breaker.assert_closed env.breaker_now b w

  -- The nonce and the fee are fetched, and the loop runs.
  pub started : Attempted StateResult → Option Breaker → W → Sent × Option Breaker × W
  unfolding rounds
  started (raises x) b w = (failed (passed_on x), b, w)
  started (value state) b w = elim (initial_fee o.fee_mode state.fee_fields) [
    | fee_error x ↦ (failed (bad_fees x), b, w)
    | fee f ↦ rounds o.max_attempts 1 (record { nonce = state.nonce; fee_fields = f }) none b w
  ]

  pub start : Option Breaker → W → Sent × Option Breaker × W
  unfolding started
  start b w = let (s, w') = env.fetch_state w in started s b w'

  pub send_with_retry : Option Breaker → W → Sent × Option Breaker × W
  unfolding is_submitted closed_if start
  send_with_retry b w =
      if leb o.bump_factor 1000000
      then (failed bad_config, b, w)
      else if ltb o.max_attempts 1
      then (failed bad_config, b, w)
      else (let (dup, w₁) = is_submitted w in
          if dup
          then (failed already_sent, b, w₁)
          else (let (closed, w₂) = closed_if b w₁ in
              if closed then start b w₂ else (failed circuit_open, b, w₂)))
