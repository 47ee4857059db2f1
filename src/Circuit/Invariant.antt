-- ===== src/Circuit/Invariant.antt =====
-- What holds of a breaker between two method calls.
use cubiczan_resilience.Base.{ℕ, ◌≤◌, ◌<◌, ◌≡◌, ◌≢◌, none, arith}
use cubiczan_resilience.Base.Int.{ℤ}
use cubiczan_resilience.Circuit.{
  CircuitState, closed, opened, half_open, Circuit, made, make, maybe_half_open, get_state, allow,
  retry_after, record_success, reset, record_failure,
}

-- The counters that a state may have.
abbrev pub Fits : CircuitState → Circuit → Type 0
Fits closed c =
    (c.failure_count < c.failure_threshold) × (c.opened_at ≡ none) × (c.half_open_calls ≡ 0)
Fits opened c = (c.opened_at ≢ none) × (c.half_open_calls ≡ 0)
Fits half_open c = (c.opened_at ≢ none) × (c.half_open_calls ≤ c.half_open_max_calls)

pub record IsValid (c : Circuit) : Type 0 where
  pub positive_threshold : 0 < c.failure_threshold
  pub positive_calls : 0 < c.half_open_max_calls
  pub fits : Fits c.state c

-- A breaker that the constructor returns is valid.
pub make-IsValid : (t d m : ℤ) (c : Circuit) → make t d m ≡ made c → IsValid c
unfolding make
make-IsValid t d m c h = ground arith

pub record_success-IsValid : {c : Circuit} → IsValid c → IsValid (record_success c)
unfolding record_success
record_success-IsValid v = ground arith

pub reset-IsValid : {c : Circuit} → IsValid c → IsValid (reset c)
unfolding reset
reset-IsValid v = ground arith

module _ {W : Type 0} (clock : W → ℕ × W) where
  pub maybe_half_open-IsValid :
      (c : Circuit) (w : W) → IsValid c → IsValid (maybe_half_open clock c w).0
  unfolding maybe_half_open
  maybe_half_open-IsValid c w v = ground arith

  pub get_state-IsValid : (c : Circuit) (w : W) → IsValid c → IsValid (get_state clock c w).1
  unfolding get_state
  get_state-IsValid c w v = ground arith

  pub allow-IsValid : (c : Circuit) (w : W) → IsValid c → IsValid (allow clock c w).1
  unfolding allow
  allow-IsValid c w v = ground arith

  pub retry_after-IsValid : (c : Circuit) (w : W) → IsValid c → IsValid (retry_after clock c w).1
  unfolding retry_after
  retry_after-IsValid c w v = ground arith

  pub record_failure-IsValid :
      (c : Circuit) (w : W) → IsValid c → IsValid (record_failure clock c w).0
  unfolding record_failure
  record_failure-IsValid c w v = ground arith
