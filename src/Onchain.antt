-- ===== src/Onchain.antt =====
-- The receipts, fees and errors of onchain/python/resilient_onchain/client.py. Fees are numbers of
-- wei; the bump factor is in millionths, and times are numbers of clock ticks.
pub mod Fees
pub mod Breaker
pub mod Attempt
pub mod Send
use cubiczan_resilience.Base.{
  ℕ, ◌+◌, ◌*◌, ◌/◌, ◌%◌, String, str_eq, Bool, not, Option, none, some, [], ◌∷◌, any, ltb, ◌==◌,
  if◌then◌else◌,
}
use cubiczan_resilience.Text.{Text, codes, text_eq, lower, occurs_in}

-- `NormalizedReceipt.status`: a bool, an int (not negative) or a str.
pub data Status : Type 0 where
  flag : Bool → Status
  number : ℕ → Status
  text : Text → Status

pub record NormalizedReceipt : Type 0 where
  pub status : Status
  pub tx_hash : Option ℕ

unfoldable pub is_success : Status → Bool
is_success (flag b) = b
is_success (number n) = n == 1
is_success (text s) =
    any (text_eq (lower s)) (codes "success" ∷ codes "1" ∷ codes "true" ∷ codes "ok" ∷ [])

unfoldable pub is_receipt_success : NormalizedReceipt → Bool
unfolding is_success
is_receipt_success r = is_success r.status

pub record FeeFields : Type 0 where
  pub gas_price : Option ℕ
  pub max_fee_per_gas : Option ℕ
  pub max_priority_fee_per_gas : Option ℕ

-- What the fee functions raise: `OnchainWriteError` with the code "BAD_FEE", and a failed `assert`.
pub data FeeError : Type 0 where
  bad_fee assertion_error : FeeError

pub data FeeResult : Type 0 where
  fee : FeeFields → FeeResult
  fee_error : FeeError → FeeResult

abbrev pub legacy_fee : ℕ → FeeFields
legacy_fee g = record {
  gas_price = some g;
  max_fee_per_gas = none;
  max_priority_fee_per_gas = none;
}

abbrev pub dynamic_fee : ℕ → ℕ → FeeFields
dynamic_fee m p = record {
  gas_price = none;
  max_fee_per_gas = some m;
  max_priority_fee_per_gas = some p;
}

abbrev pub or_else : Option ℕ → ℕ → ℕ
or_else none d = d
or_else (some n) d = n

-- Every mode but "legacy" is treated as "eip1559".
abbrev pub is_legacy : String → Bool
is_legacy mode = str_eq mode "legacy"

unfoldable pub initial_fee : String → FeeFields → FeeResult
initial_fee mode base =
    if is_legacy mode
    then elim base.gas_price [ none ↦ fee_error bad_fee | some g ↦ fee (legacy_fee g) ]
    else elim base.max_fee_per_gas [
      | none ↦ fee_error bad_fee
      | some m ↦ fee (dynamic_fee m (or_else base.max_priority_fee_per_gas m))
    ]

-- `round(factor * 1000)`, to the nearest and from a half to the even, of `f` millionths.
unfoldable pub rounded_factor : ℕ → ℕ
rounded_factor f =
    let q = f / 1000 in
    let r = f % 1000 in if ltb r 500 then q else if ltb 500 r then q + 1 else q + q % 2

-- The inner function `bump`.
unfoldable pub bump : ℕ → ℕ → ℕ
unfolding rounded_factor
bump factor v = v * rounded_factor factor / 1000 + 1

unfoldable pub bump_fee : String → FeeFields → ℕ → FeeResult
bump_fee mode f factor =
    if is_legacy mode
    then elim f.gas_price [
      | none ↦ fee_error assertion_error
      | some g ↦ fee (legacy_fee (bump factor g))
    ]
    else elim f.max_fee_per_gas [
      | none ↦ fee_error assertion_error
      | some m ↦
          fee (dynamic_fee (bump factor m) (bump factor (or_else f.max_priority_fee_per_gas m)))
    ]

-- `is_nonce_too_low` and `is_retryable` read the text of the error.
unfoldable pub is_nonce_too_low : Text → Bool
is_nonce_too_low msg =
    any (λ s. occurs_in s (lower msg))
      (codes "nonce too low"
        ∷ codes "nonce-too-low"
        ∷ codes "nonce is too low"
        ∷ codes "already known"
        ∷ codes "invalid nonce"
        ∷ [])

unfoldable pub is_retryable : Text → Bool
is_retryable msg = not (
    any (λ s. occurs_in s (lower msg))
      (codes "insufficient funds"
        ∷ codes "invalid signature"
        ∷ codes "execution reverted"
        ∷ codes "unauthorized"
        ∷ []))
