-- ===== src/Onchain/Attempt.antt =====
-- The data of `send_with_retry` of onchain/python/resilient_onchain/client.py: what it is given, what
-- an attempt uses and raises, and what it returns. What it calls is the record `Env` over a world
-- `W`: the callbacks, the clocks and the sleep.
use cubiczan_resilience.Base.{ℕ, String, Bool, [], Option}
use cubiczan_resilience.Text.{Text, codes}
use cubiczan_resilience.Onchain.{NormalizedReceipt, FeeFields, FeeError}

pub record TxContext : Type 0 where
  pub nonce : ℕ
  pub fee_fields : FeeFields
  pub attempt : ℕ

pub record StateResult : Type 0 where
  pub nonce : ℕ
  pub fee_fields : FeeFields

-- An exception inside an attempt: a `TxFailedError` with its receipt, or another one with its text.
pub data Raised : Type 0 where
  tx_failed : NormalizedReceipt → Raised
  other : Text → Raised

pub data Attempted (A : Type 0) : Type 0 where
  value : A → Attempted A
  raises : Raised → Attempted A

-- What `send_with_retry` raises: `OnchainWriteError` with the codes BAD_CONFIG, ALREADY_SENT and
-- BAD_FEE, a failed `assert`, `CircuitOpenError`, `TxFailedError`, an exception of a callback that
-- passes through, `NonRetryableError` and `RetryExhaustedError` with the last exception.
pub data SendError : Type 0 where
  bad_config already_sent circuit_open : SendError
  bad_fees : FeeError → SendError
  reverted : NormalizedReceipt → SendError
  passed_on : Raised → SendError
  non_retryable : Raised → SendError
  retry_exhausted : Option Raised → SendError

pub data Sent : Type 0 where
  sent : NormalizedReceipt → Sent
  failed : SendError → Sent

pub record SendOpts : Type 0 where
  pub max_attempts : ℕ
  pub fee_mode : String
  pub bump_factor : ℕ
  pub timeout : ℕ
  pub backoff_base : ℕ
  pub idempotency_key : Option Text

pub record Env (W : Type 0) : Type 0 where
  pub fetch_state : W → Attempted StateResult × W
  pub sign_send : TxContext → W → Attempted ℕ × W
  pub wait : ℕ → W → Attempted NormalizedReceipt × W
  pub already_sent : Option (Text → W → Bool × W)
  pub monotonic : W → ℕ × W
  pub breaker_now : W → ℕ × W
  pub sleep : ℕ → W → W

-- The nonce and the fee that the next attempt uses.
pub record Pinned : Type 0 where
  pub nonce : ℕ
  pub fee_fields : FeeFields

-- One round: the loop ends, or goes on after an exception.
pub data Round : Type 0 where
  finish : Sent → Round
  again : Pinned → Raised → Round

-- The text of an exception, `str(err)`. That of a `TxFailedError` is not looked at.
abbrev pub text_of : Raised → Text
text_of (tx_failed _) = []
text_of (other msg) = msg

-- The error TIMEOUT. The numbers in its text are left out: no text that is searched for holds a
-- digit.
abbrev pub timed_out : Raised
timed_out = other (codes "attempt exceeded timeout")
