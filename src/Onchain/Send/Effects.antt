-- ===== src/Onchain/Send/Effects.antt =====
-- A log of the submitted transactions, and the steps of `send_with_retry` that add to it.
use cubiczan_resilience.Base.{
  ℕ, ◌∙◌, ◌-◌, ◌*◌, ◌^◌, ◌≡◌, inl, inr, refl, Bool, Option, none, some, List, ◌∷◌, arith,
  Option-cases,
}
use cubiczan_resilience.Text.{Text}
use cubiczan_resilience.Onchain.{NormalizedReceipt, initial_fee}
use cubiczan_resilience.Onchain.Fees.{FeeResult-cases}
use cubiczan_resilience.Onchain.Breaker
use cubiczan_resilience.Onchain.Breaker.{Breaker}
use cubiczan_resilience.Onchain.Attempt.{
  TxContext, StateResult, Raised, tx_failed, other, Attempted, value, raises, SendOpts, Env, Pinned,
}
use cubiczan_resilience.Onchain.Send.{
  awaited, submit_and_wait, with_timeout, failure_if, fail_with, refresh, refreshed, settle,
  attempt_once, is_submitted, closed_if,
}

-- `log` holds the submitted contexts, the newest first, and nothing but `sign_send` changes it.
pub record Logs {W : Type 0} (env : Env W) (log : W → List TxContext) : Type 0 where
  pub at_sign_send : (c : TxContext) (w : W) → log (env.sign_send c w).1 ≡ c ∷ log w
  pub at_wait : (hash : ℕ) (w : W) → log (env.wait hash w).1 ≡ log w
  pub at_fetch_state : (w : W) → log (env.fetch_state w).1 ≡ log w
  pub at_already_sent :
      (ask : Text → W → Bool × W)
      → env.already_sent ≡ some ask
      → (key : Text) (w : W) → log (ask key w).1 ≡ log w
  pub at_monotonic : (w : W) → log (env.monotonic w).1 ≡ log w
  pub at_breaker_now : (w : W) → log (env.breaker_now w).1 ≡ log w
  pub at_sleep : (d : ℕ) (w : W) → log (env.sleep d w) ≡ log w

module _ {W : Type 0} (env : Env W) (o : SendOpts) (log : W → List TxContext)
    (logs : Logs env log) where
  awaited-log : (h : Attempted ℕ) (w : W) → log (awaited env o h w).1 ≡ log w
  unfolding awaited
  awaited-log (raises e) w = refl
  awaited-log (value hash) w = logs.at_wait hash w

  submit_and_wait-log : (c : TxContext) (w : W) → log (submit_and_wait env o c w).1 ≡ c ∷ log w
  unfolding submit_and_wait
  submit_and_wait-log c w =
      let (h, w') = env.sign_send c w in awaited-log h w' ∙ logs.at_sign_send c w

  with_timeout-log : (c : TxContext) (w : W) → log (with_timeout env o c w).1 ≡ c ∷ log w
  unfolding with_timeout
  with_timeout-log c w =
      let w₁ = (env.monotonic w).1 in
      let w₂ = (submit_and_wait env o c w₁).1 in
      ground (arith, logs.at_monotonic w, submit_and_wait-log c w₁, logs.at_monotonic w₂)

  failure_if-log : (b : Option Breaker) (w : W) → log (failure_if env o b w).1 ≡ log w
  unfolding failure_if Breaker.record_failure
  failure_if-log none w = refl
  failure_if-log (some b) w = ground (arith, logs.at_breaker_now w)

  fail_with-log :
      (k : ℕ) (pin : Pinned) (e : Raised) (b : Option Breaker) (w : W)
      → log (fail_with env o k pin e b w).2 ≡ log w
  unfolding fail_with
  fail_with-log k pin e b w = ground (
    arith,
    failure_if-log b w,
    logs.at_sleep (o.backoff_base * 2 ^ (k - 1)) (failure_if env o b w).1,
  )

  refreshed-log :
      (k : ℕ) (e : Raised) (s : Attempted StateResult) (b : Option Breaker) (w : W)
      → log (refreshed env o k e s b w).2 ≡ log w
  unfolding refreshed
  refreshed-log k e (raises x) b w = refl
  refreshed-log k e (value state) b w =
      elim (FeeResult-cases (initial_fee o.fee_mode state.fee_fields)) [
        | inl (f, x) ↦
            rw (x, refreshed)
              (ground (
                arith,
                fail_with-log k (record { nonce = state.nonce; fee_fields = f }) e b w,
                logs.at_sleep o.backoff_base w,
              ))
        | inr (err, x) ↦ rw (x, refreshed)
      ]

  refresh-log :
      (k : ℕ) (e : Raised) (b : Option Breaker) (w : W) → log (refresh env o k e b w).2 ≡ log w
  unfolding refresh
  refresh-log k e b w =
      let (s, w') = env.fetch_state w in refreshed-log k e s b w' ∙ logs.at_fetch_state w

  settle-log :
      (k : ℕ) (pin : Pinned) (r : Attempted NormalizedReceipt) (b : Option Breaker) (w : W)
      → log (settle env o k pin r b w).2 ≡ log w
  unfolding settle
  settle-log k pin (value receipt) b w = ground (arith, failure_if-log b w)
  settle-log k pin (raises (tx_failed receipt)) b w = refl
  settle-log k pin (raises (other msg)) b w =
      ground (arith, refresh-log k (other msg) b w, fail_with-log k pin (other msg) b w)

  -- A round submits exactly one transaction, with the pinned nonce and fee.
  pub attempt_once-log :
      (k : ℕ) (pin : Pinned) (b : Option Breaker) (w : W)
      → log (attempt_once env o k pin b w).2
        ≡ record { nonce = pin.nonce; fee_fields = pin.fee_fields; attempt = k } ∷ log w
  unfolding attempt_once
  attempt_once-log k pin b w =
      let c : TxContext = record { nonce = pin.nonce; fee_fields = pin.fee_fields; attempt = k } in
      ground (
        arith,
        with_timeout-log c w,
        settle-log k pin (with_timeout env o c w).0 b (with_timeout env o c w).1,
      )

  pub is_submitted-log : (w : W) → log (is_submitted env o w).1 ≡ log w
  unfolding is_submitted
  is_submitted-log w = elim (Option-cases env.already_sent) [
    | inl e ↦ ground arith
    | inr (ask, e) ↦ elim (Option-cases o.idempotency_key) [
      | inl k ↦ ground arith
      | inr (key, k) ↦ ground (arith, logs.at_already_sent ask e key w)
    ]
  ]

  pub closed_if-log : (b : Option Breaker) (w : W) → log (closed_if env o b w).1 ≡ log w
  unfolding closed_if Breaker.assert_closed
  closed_if-log none w = refl
  closed_if-log (some b) w = ground (arith, logs.at_breaker_now w)
