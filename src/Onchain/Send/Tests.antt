-- ===== src/Onchain/Send/Tests.antt =====
-- Runs of `send_with_retry`, and the theorems about it at concrete inputs.
use cubiczan_resilience.Base.{
  ℕ, ◌+◌, ◌≡◌, refl, true, false, none, some, List, [], ◌∷◌, arith, length,
}
use cubiczan_resilience.Text.{codes}
use cubiczan_resilience.Onchain.{
  NormalizedReceipt, number, text, is_receipt_success, legacy_fee, is_legacy, initial_fee, bump_fee,
  bump, is_nonce_too_low, is_retryable,
}
use cubiczan_resilience.Onchain.Fees.{HasFee, Bumped, bump_fee-Bumped}
use cubiczan_resilience.Onchain.Breaker.{Breaker}
use cubiczan_resilience.Onchain.Attempt.{
  TxContext, other, Attempted, value, raises, sent, SendOpts, Env, Pinned,
}
use cubiczan_resilience.Onchain.Send.{attempt_once, send_with_retry}
use cubiczan_resilience.Onchain.Send.Effects.{Logs}
use cubiczan_resilience.Onchain.Send.Rounds.{Submissions, send_with_retry-Submissions}
use cubiczan_resilience.Onchain.Send.Escalation.{Escalates, send_with_retry-Escalates}
use cubiczan_resilience.Onchain.Send.Late.{Resubmits, attempt_once-late}

abbrev confirmed : NormalizedReceipt
confirmed = record { status = number 1; tx_hash = some 5 }

abbrev reverted_receipt : NormalizedReceipt
reverted_receipt = record confirmed { status = number 0 }

is_receipt_success-text :
    is_receipt_success (record { status = text (codes "Success"); tx_hash = none }) ≡ true
unfolding is_receipt_success
is_receipt_success-text = refl

is_nonce_too_low-known : is_nonce_too_low (codes "RPC: Already Known") ≡ true
unfolding is_nonce_too_low
is_nonce_too_low-known = refl

is_retryable-funds : is_retryable (codes "INSUFFICIENT FUNDS for gas") ≡ false
unfolding is_retryable
is_retryable-funds = refl

-- 1.125 is the default factor.
bump-default : bump 1125000 100 ≡ 113
unfolding bump
bump-default = refl

-- The answers to come, each with the time that it takes; the time; the log.
record World : Type 0 where
  script : List (ℕ × Attempted NormalizedReceipt)
  time : ℕ
  log : List TxContext

abbrev answer : List (ℕ × Attempted NormalizedReceipt) → World → Attempted NormalizedReceipt × World
answer [] w = (raises (other (codes "connection refused")), w)
answer ((t, a) ∷ rest) w = (a, record w { script = rest; time = w.time + t })

abbrev chain : Env World
chain = record {
  fetch_state = λ w. (value (record { nonce = 7; fee_fields = legacy_fee 100 }), w);
  sign_send = λ c w. (value c.attempt, record w { log = c ∷ w.log });
  wait = λ hash w. answer w.script w;
  already_sent = none;
  monotonic = λ w. (w.time, w);
  breaker_now = λ w. (w.time, w);
  sleep = λ d w. record w { time = w.time + d };
}

abbrev opts : SendOpts
opts = record {
  max_attempts = 3;
  fee_mode = "legacy";
  bump_factor = 1125000;
  timeout = 60;
  backoff_base = 1;
  idempotency_key = none;
}

chain-Logs : Logs chain (λ w. w.log)
chain-Logs = record {
  at_sign_send = λ c w. refl;
  at_wait = λ hash w. ground arith;
  at_fetch_state = λ w. refl;
  at_already_sent = λ ask e key w. cc;
  at_monotonic = λ w. refl;
  at_breaker_now = λ w. refl;
  at_sleep = λ d w. refl;
}

abbrev world : List (ℕ × Attempted NormalizedReceipt) → World
world s = record { script = s; time = 0; log = [] }

-- The first receipt is late, the second attempt fails, the third succeeds.
abbrev slow : World
slow =
    world
      ((61, value confirmed) ∷ (1, raises (other (codes "timeout"))) ∷ (1, value confirmed) ∷ [])

abbrev bid : ℕ → ℕ → TxContext
bid k g = record { nonce = 7; fee_fields = legacy_fee g; attempt = k }

-- Three transactions of nonce 7, each with a higher gas price.
send-slow : send_with_retry chain opts none slow ≡ (
  sent confirmed,
  none,
  record { script = []; time = 66; log = bid 3 128 ∷ bid 2 113 ∷ bid 1 100 ∷ [] },
)
unfolding send_with_retry initial_fee is_receipt_success is_nonce_too_low is_retryable bump_fee bump
send-slow = refl

send_with_retry-Submissions_example :
    let (s, _, w') = send_with_retry chain opts none slow in Submissions opts (length w'.log) s
send_with_retry-Submissions_example =
    send_with_retry-Submissions chain opts (λ w. w.log) chain-Logs none slow refl

-- A chain that refuses every connection.
abbrev dead : Env World
dead = record chain { wait = λ hash w. (raises (other (codes "connection refused")), w) }

dead-Logs : Logs dead (λ w. w.log)
dead-Logs = record {
  at_sign_send = λ c w. refl;
  at_wait = λ hash w. refl;
  at_fetch_state = λ w. refl;
  at_already_sent = λ ask e key w. cc;
  at_monotonic = λ w. refl;
  at_breaker_now = λ w. refl;
  at_sleep = λ d w. refl;
}

send_with_retry-Escalates_example :
    Escalates (is_legacy "legacy") (send_with_retry dead opts none slow).2.log
unfolding is_nonce_too_low
send_with_retry-Escalates_example =
    send_with_retry-Escalates dead opts (omega arith) (λ c w. tt) (λ hash w. refl) (λ w. w.log)
      dead-Logs none slow refl

abbrev pin : Pinned
pin = record { nonce = 7; fee_fields = legacy_fee 100 }

has_fee : HasFee (is_legacy "legacy") (legacy_fee 100)
has_fee = ground arith

attempt_once-late_example : Resubmits opts pin (attempt_once chain opts 1 pin none slow).0
attempt_once-late_example =
    attempt_once-late chain opts 1 pin none slow 1 confirmed (omega arith) (omega arith) has_fee
      refl refl (omega arith)

bump_fee-Bumped_example :
    Bumped (is_legacy "legacy") (legacy_fee 100) (bump_fee "legacy" (legacy_fee 100) 1000001)
bump_fee-Bumped_example = bump_fee-Bumped "legacy" (legacy_fee 100) 1000001 (omega arith) has_fee

abbrev breaker : Breaker
breaker = record { threshold = 2; cooldown = 30; consecutive_failures = 0; opened_at = none }
