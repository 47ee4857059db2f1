-- ===== src/Onchain/Fees.antt =====
-- The fee of a replacement transaction.
use cubiczan_resilience.Base.{
  ℕ, ◌/◌, ◌≤◌, ◌<◌, ◌≡◌, String, Bool, true, false, Option, none, some, arith, ◌≢◌, Bool-cases, inl,
  inr, refl, ◌⊎◌,
}
use native.Mathlib.Nat.{mul-le-mul_left, mul-le-mul_right}
use cubiczan_resilience.Onchain.{
  FeeFields, FeeResult, fee, is_legacy, or_else, initial_fee, rounded_factor, bump, bump_fee,
  bad_fee, fee_error, FeeError,
}

pub FeeResult-cases :
    (r : FeeResult) → ((f : FeeFields) × (r ≡ fee f)) ⊎ ((e : FeeError) × (r ≡ fee_error e))
FeeResult-cases (fee f) = inl (f, refl)
FeeResult-cases (fee_error e) = inr (e, refl)

-- The fields that the mode needs are there.
abbrev pub HasFee : Bool → FeeFields → Type 0
HasFee true f = f.gas_price ≢ none
HasFee false f = (f.max_fee_per_gas ≢ none) × (f.max_priority_fee_per_gas ≢ none)

-- Every fee that the mode uses is above the one before.
abbrev pub Above : Option ℕ → Option ℕ → Type 0
Above (some a) (some b) = a < b
Above _ _ = ⊥

abbrev pub Exceeds : Bool → FeeFields → FeeFields → Type 0
Exceeds true f g = Above f.gas_price g.gas_price
Exceeds false f g =
    Above f.max_fee_per_gas g.max_fee_per_gas
    × Above f.max_priority_fee_per_gas g.max_priority_fee_per_gas

thousand-le-rounded_factor : (f : ℕ) → 1000000 < f → 1000 ≤ rounded_factor f
unfolding rounded_factor
thousand-le-rounded_factor f h = ground arith

div-le-div : (a b : ℕ) → a ≤ b → a / 1000 ≤ b / 1000
div-le-div a b h = omega arith

bump_grows : (f v : ℕ) → 1000000 < f → v < bump f v
unfolding bump
bump_grows f v h = omega (arith, mul-le-mul_left v (thousand-le-rounded_factor f h))

bump_mono : (f u v : ℕ) → u ≤ v → bump f u ≤ bump f v
unfolding bump
bump_mono f u v h = omega (arith, mul-le-mul_right (rounded_factor f) h)

abbrev pub Initial : Bool → FeeFields → FeeResult → Type 0
Initial legacy base (fee f) = HasFee legacy f
Initial true base (fee_error e) = (e ≡ bad_fee) × (base.gas_price ≡ none)
Initial false base (fee_error e) = (e ≡ bad_fee) × (base.max_fee_per_gas ≡ none)

-- `initial_fee` returns a fee with the fields of its mode, or fails with BAD_FEE because the base
-- lacks the first of them.
pub initial_fee-Initial :
    (mode : String) (base : FeeFields) → Initial (is_legacy mode) base (initial_fee mode base)
unfolding initial_fee
initial_fee-Initial mode base = elim (Bool-cases (is_legacy mode)) [
  | inl l ↦ rw (l, initial_fee) (ground arith)
  | inr l ↦ rw (l, initial_fee) (ground arith)
]

abbrev pub Bumped : Bool → FeeFields → FeeResult → Type 0
Bumped legacy f (fee g) = HasFee legacy g × Exceeds legacy f g
Bumped legacy f (fee_error e) = ⊥

-- With a bump factor above 1, the bump of a fee with the fields of its mode never fails, keeps
-- those fields, and raises each of them by at least one wei, however close to 1 the factor is.
pub bump_fee-Bumped :
    (mode : String) (f : FeeFields) (factor : ℕ)
    → 1000000 < factor
    → HasFee (is_legacy mode) f
    → Bumped (is_legacy mode) f (bump_fee mode f factor)
unfolding bump_fee
bump_fee-Bumped mode f factor h has = elim (Bool-cases (is_legacy mode)) [
  | inl l ↦
      let has' : HasFee true f = rw l at has in
      rw (l, bump_fee) (ground (arith, bump_grows factor (or_else f.gas_price 0) h))
  | inr l ↦
      let has' : HasFee false f = rw l at has in
      rw (l, bump_fee)
        (ground (
          arith,
          bump_grows factor (or_else f.max_fee_per_gas 0) h,
          bump_grows factor (or_else f.max_priority_fee_per_gas 0) h,
        ))
]

-- A priority fee that is at most the maximal fee stays so.
pub bump_fee-priority :
    (mode : String) (f g : FeeFields) (factor m p m' p' : ℕ)
    → is_legacy mode ≡ false
    → f.max_fee_per_gas ≡ some m
    → f.max_priority_fee_per_gas ≡ some p
    → p ≤ m
    → bump_fee mode f factor ≡ fee g
    → g.max_fee_per_gas ≡ some m'
    → g.max_priority_fee_per_gas ≡ some p'
    → p' ≤ m'
unfolding bump_fee
bump_fee-priority mode f g factor m p m' p' l em ep le h em' ep' =
    ground (arith, bump_mono factor p m le)
