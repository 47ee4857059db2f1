-- ===== src/Onchain/Send/Rounds.antt =====
-- The transactions that `send_with_retry` submits.
use cubiczan_resilience.Base.{
  ℕ, zero, suc, ◌+◌, ◌≤◌, ◌<◌, ◌≡◌, inl, inr, Option, none, some, List, [], arith, length, ap, ◌∙◌,
}
use cubiczan_resilience.Onchain.{NormalizedReceipt, initial_fee}
use cubiczan_resilience.Onchain.Fees.{FeeResult-cases}
use cubiczan_resilience.Onchain.Breaker.{Breaker}
use cubiczan_resilience.Onchain.Attempt.{
  TxContext, StateResult, Raised, tx_failed, other, Attempted, value, raises, bad_config,
  already_sent, circuit_open, bad_fees, reverted, passed_on, non_retryable, retry_exhausted, Sent,
  sent, failed, SendOpts, Env, Pinned, Round, finish,
}
use cubiczan_resilience.Onchain.Send.{
  fail_with, refreshed, refresh, settle, attempt_once, rounds, started, start, is_submitted,
  closed_if, send_with_retry,
}
use cubiczan_resilience.Onchain.Send.Effects.{
  Logs, attempt_once-log, is_submitted-log, closed_if-log,
}
use cubiczan_resilience.Onchain.Send.Results.{Round-cases}

-- How many transactions a result comes after.
abbrev pub Submissions : SendOpts → ℕ → Sent → Type 0
Submissions o n (sent _) = (0 < n) × (n ≤ o.max_attempts)
Submissions o n (failed bad_config) = n ≡ 0
Submissions o n (failed already_sent) = n ≡ 0
Submissions o n (failed circuit_open) = n ≡ 0
Submissions o n (failed (bad_fees _)) = n ≤ o.max_attempts
Submissions o n (failed (passed_on _)) = n ≤ o.max_attempts
Submissions o n (failed (reverted _)) = (0 < n) × (n ≤ o.max_attempts)
Submissions o n (failed (non_retryable _)) = (0 < n) × (n ≤ o.max_attempts)
Submissions o n (failed (retry_exhausted _)) = n ≡ o.max_attempts

-- A round does not end by what only the code before or after the loop raises.
abbrev Settled : Round → Type 0
Settled (finish (failed bad_config)) = ⊥
Settled (finish (failed already_sent)) = ⊥
Settled (finish (failed circuit_open)) = ⊥
Settled (finish (failed (retry_exhausted _))) = ⊥
Settled _ = Unit

module _ {W : Type 0} (env : Env W) (o : SendOpts) where
  fail_with-Settled :
      (k : ℕ) (pin : Pinned) (e : Raised) (b : Option Breaker) (w : W)
      → Settled (fail_with env o k pin e b w).0
  unfolding fail_with
  fail_with-Settled k pin e b w = ground arith

  refreshed-Settled :
      (k : ℕ) (e : Raised) (s : Attempted StateResult) (b : Option Breaker) (w : W)
      → Settled (refreshed env o k e s b w).0
  unfolding refreshed
  refreshed-Settled k e (raises x) b w = tt
  refreshed-Settled k e (value state) b w =
      elim (FeeResult-cases (initial_fee o.fee_mode state.fee_fields)) [
        | inl (f, x) ↦
            rw (x, refreshed)
              (ground
                (arith, fail_with-Settled k (record { nonce = state.nonce; fee_fields = f }) e b w))
        | inr (err, x) ↦ rw (x, refreshed) tt
      ]

  settle-Settled :
      (k : ℕ) (pin : Pinned) (r : Attempted NormalizedReceipt) (b : Option Breaker) (w : W)
      → Settled (settle env o k pin r b w).0
  unfolding settle refresh
  settle-Settled k pin (value receipt) b w = ground arith
  settle-Settled k pin (raises (tx_failed receipt)) b w = tt
  settle-Settled k pin (raises (other msg)) b w = ground (
    arith,
    refreshed-Settled k (other msg) (env.fetch_state w).0 b (env.fetch_state w).1,
    fail_with-Settled k pin (other msg) b w,
  )

  attempt_once-Settled :
      (k : ℕ) (pin : Pinned) (b : Option Breaker) (w : W) → Settled (attempt_once env o k pin b w).0
  unfolding attempt_once
  attempt_once-Settled k pin b w = settle-Settled k pin _ b _

  module _ (log : W → List TxContext) (logs : Logs env log) where
    finish-Submissions :
        (s : Sent) (n : ℕ) → Settled (finish s) → 0 < n → n ≤ o.max_attempts → Submissions o n s
    finish-Submissions (sent _) n h pos le = (pos, le)
    finish-Submissions (failed bad_config) n h pos le = absurd h
    finish-Submissions (failed already_sent) n h pos le = absurd h
    finish-Submissions (failed circuit_open) n h pos le = absurd h
    finish-Submissions (failed (bad_fees _)) n h pos le = le
    finish-Submissions (failed (passed_on _)) n h pos le = le
    finish-Submissions (failed (reverted _)) n h pos le = (pos, le)
    finish-Submissions (failed (non_retryable _)) n h pos le = (pos, le)
    finish-Submissions (failed (retry_exhausted _)) n h pos le = absurd h

    rounds-Submissions :
        (n k : ℕ) (pin : Pinned) (last : Option Raised) (b : Option Breaker) (w : W)
        → k + n ≡ o.max_attempts + 1
        → length (log w) + 1 ≡ k
        → let (s, _, w') = rounds env o n k pin last b w in Submissions o (length (log w')) s
    unfolding rounds
    rounds-Submissions zero k pin last b w e c = omega arith
    rounds-Submissions (suc n) k pin last b w e c =
        let (r, b', w') = attempt_once env o k pin b w in
        let added : length (log w') ≡ suc (length (log w)) =
          ap length (attempt_once-log env o log logs k pin b w) in
        let settled : Settled r = attempt_once-Settled k pin b w in
        elim (Round-cases r) [
          | inl (s, x) ↦
              rw (x, rounds)
                (finish-Submissions s (length (log w')) (rw x at settled) (omega arith)
                  (omega arith))
          | inr (pin', err, x) ↦
              rw (x, rounds)
                (rounds-Submissions n (k + 1) pin' (some err) b' w' (omega arith) (omega arith))
        ]

    started-Submissions :
        (s : Attempted StateResult) (b : Option Breaker) (w : W)
        → log w ≡ []
        → let (r, _, w') = started env o s b w in Submissions o (length (log w')) r
    unfolding started
    started-Submissions (raises x) b w e = rw e (omega arith)
    started-Submissions (value state) b w e =
        let none_yet : length (log w) ≡ 0 = ap length e in
        elim (FeeResult-cases (initial_fee o.fee_mode state.fee_fields)) [
          | inl (f, x) ↦
              rw (x, started)
                (rounds-Submissions o.max_attempts 1
                  (record { nonce = state.nonce; fee_fields = f }) none b w (omega arith)
                  (omega arith))
          | inr (err, x) ↦ rw (x, started) (omega arith)
        ]

    -- How many transactions `send_with_retry` has submitted when it ends, on a log that was empty.
    -- A success, a reverted transaction and a `NonRetryableError` come after 1 to `max_attempts`
    -- submissions, `RetryExhaustedError` after exactly `max_attempts`. BAD_CONFIG, ALREADY_SENT and
    -- `CircuitOpenError` come before the first. BAD_FEE and what `fetch_state` raises come after at
    -- most `max_attempts`.
    pub send_with_retry-Submissions :
        (b : Option Breaker) (w : W)
        → log w ≡ []
        → let (s, _, w') = send_with_retry env o b w in Submissions o (length (log w')) s
    unfolding send_with_retry start
    send_with_retry-Submissions b w e =
        let w₁ = (is_submitted env o w).1 in
        let e₁ : log w₁ ≡ [] = is_submitted-log env o log logs w ∙ e in
        let w₂ = (closed_if env o b w₁).1 in
        let e₂ : log w₂ ≡ [] = closed_if-log env o log logs b w₁ ∙ e₁ in
        let (s, w₃) = env.fetch_state w₂ in
        ground (arith, started-Submissions s b w₃ (logs.at_fetch_state w₂ ∙ e₂))
