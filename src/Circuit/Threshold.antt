-- ===== src/Circuit/Threshold.antt =====
-- When failures open a closed breaker.
use cubiczan_resilience.Base.{ℕ, zero, suc, ◌+◌, ◌≡◌, arith, if◌then◌else◌, leb}
use cubiczan_resilience.Circuit.{closed, opened, Circuit, record_success, record_failure}
use cubiczan_resilience.Circuit.Invariant.{IsValid, record_failure-IsValid}

module _ {W : Type 0} (clock : W → ℕ × W) where
  -- `n` failures in a row.
  pub failures : ℕ → Circuit × W → Circuit × W
  failures zero s = s
  failures (suc n) (c, w) = failures n (record_failure clock c w)

  record_failure-closed :
      (c : Circuit) (w : W)
      → c.state ≡ closed
      → let (c', _) = record_failure clock c w in
        (c'.failure_count ≡ c.failure_count + 1)
        × (c'.failure_threshold ≡ c.failure_threshold)
        × (c'.state ≡ (if leb c.failure_threshold (c.failure_count + 1) then opened else closed))
  unfolding record_failure
  record_failure-closed c w h = ground arith

  record_failure-opened :
      (c : Circuit) (w : W) → c.state ≡ opened → (record_failure clock c w).0.state ≡ opened
  unfolding record_failure
  record_failure-opened c w h = ground arith

  failures-opened :
      (n : ℕ) (c : Circuit) (w : W) → c.state ≡ opened → (failures n (c, w)).0.state ≡ opened
  unfolding failures
  failures-opened zero c w h = h
  failures-opened (suc n) c w h =
      let (c', w') = record_failure clock c w in
      failures-opened n c' w' (record_failure-opened c w h)

  -- After `n` failures in a row a valid closed breaker is open exactly when, with the failures
  -- counted before, they reach the threshold; it is closed otherwise.
  pub failures-closed :
      (n : ℕ) (c : Circuit) (w : W)
      → IsValid c
      → c.state ≡ closed
      → (failures n (c, w)).0.state
        ≡ (if leb c.failure_threshold (c.failure_count + n) then opened else closed)
  unfolding failures
  failures-closed zero c w v h = ground arith
  failures-closed (suc n) c w v h =
      let (c', w') = record_failure clock c w in
      let f = record_failure-closed c w h in
      ground (
        arith,
        failures-closed n c' w' (record_failure-IsValid clock c w v),
        failures-opened n c' w',
      )

  -- From any state a success starts the count anew: it closes the breaker, and the failures that
  -- follow open it exactly when they alone reach the threshold.
  pub failures-record_success :
      (n : ℕ) (c : Circuit) (w : W)
      → IsValid c
      → (failures n (record_success c, w)).0.state
        ≡ (if leb c.failure_threshold n then opened else closed)
  unfolding record_success
  failures-record_success n c w v = ground (arith, failures-closed n (record_success c) w)
