-- ===== src/Onchain/Send/Late.antt =====
-- A receipt that comes after the timeout.
use cubiczan_resilience.Base.{ℕ, ◌+◌, ◌<◌, ◌≡◌, Option, arith}
use cubiczan_resilience.Onchain.{NormalizedReceipt, is_legacy, is_nonce_too_low, is_retryable}
use cubiczan_resilience.Onchain.Fees.{HasFee, Exceeds, bump_fee-Bumped}
use cubiczan_resilience.Onchain.Breaker.{Breaker}
use cubiczan_resilience.Onchain.Attempt.{
  TxContext, value, raises, SendOpts, Env, Pinned, Round, finish, again, timed_out,
}
use cubiczan_resilience.Onchain.Send.{with_timeout, fail_with, settle, attempt_once}

-- The round sends the loop on to another transaction of the same nonce with a higher fee.
abbrev pub Resubmits : SendOpts → Pinned → Round → Type 0
Resubmits o pin (finish _) = ⊥
Resubmits o pin (again pin' e) =
    (e ≡ timed_out)
    × (pin'.nonce ≡ pin.nonce)
    × Exceeds (is_legacy o.fee_mode) pin.fee_fields pin'.fee_fields

module _ {W : Type 0} (env : Env W) (o : SendOpts) (k : ℕ) (pin : Pinned) (b : Option Breaker)
    (w : W) (hash : ℕ) (receipt : NormalizedReceipt) where
  -- The transaction of attempt `k`.
  abbrev pub context : TxContext
  context = record { nonce = pin.nonce; fee_fields = pin.fee_fields; attempt = k }

  with_timeout-late :
      (env.sign_send context (env.monotonic w).1).0 ≡ value hash
      → (env.wait hash (env.sign_send context (env.monotonic w).1).1).0 ≡ value receipt
      → (env.monotonic w).0 + o.timeout
        < (env.monotonic (env.wait hash (env.sign_send context (env.monotonic w).1).1).1).0
      → (with_timeout env o context w).0 ≡ raises timed_out
  unfolding with_timeout
  with_timeout-late s r late = ground arith

  fail_with-timed_out :
      (w' : W)
      → 1000000 < o.bump_factor
      → k < o.max_attempts
      → HasFee (is_legacy o.fee_mode) pin.fee_fields
      → Resubmits o pin (fail_with env o k pin timed_out b w').0
  unfolding fail_with is_retryable
  fail_with-timed_out w' h more has =
      ground (arith, bump_fee-Bumped o.fee_mode pin.fee_fields o.bump_factor h has)

  settle-timed_out :
      (w' : W)
      → 1000000 < o.bump_factor
      → k < o.max_attempts
      → HasFee (is_legacy o.fee_mode) pin.fee_fields
      → Resubmits o pin (settle env o k pin (raises timed_out) b w').0
  unfolding settle is_nonce_too_low
  settle-timed_out w' h more has = fail_with-timed_out w' h more has

  -- A receipt that comes after the timeout is thrown away, whatever it says, a success as well:
  -- before the last attempt the loop goes on to submit the same nonce once more, at a higher fee.
  pub attempt_once-late :
      1000000 < o.bump_factor
      → k < o.max_attempts
      → HasFee (is_legacy o.fee_mode) pin.fee_fields
      → (env.sign_send context (env.monotonic w).1).0 ≡ value hash
      → (env.wait hash (env.sign_send context (env.monotonic w).1).1).0 ≡ value receipt
      → (env.monotonic w).0 + o.timeout
        < (env.monotonic (env.wait hash (env.sign_send context (env.monotonic w).1).1).1).0
      → Resubmits o pin (attempt_once env o k pin b w).0
  unfolding attempt_once
  attempt_once-late h more has s r late =
      rw (with_timeout-late s r late, attempt_once) (settle-timed_out _ h more has)
