-- ===== src/Circuit/Cooldown.antt =====
-- The time that an open breaker stays open, and the time that a refused caller is told to wait.
use cubiczan_resilience.Base.{ℕ, ◌+◌, ◌-◌, ◌≤◌, ◌<◌, ◌≡◌, some, arith, leb, if◌then◌else◌}
use cubiczan_resilience.Circuit.{opened, half_open, Circuit, refused, allow, guard}
use cubiczan_resilience.Circuit.Invariant.{IsValid}

module _ {W : Type 0} (clock : W → ℕ × W) (c : Circuit) (w : W) (since : ℕ) where
  -- A valid breaker that opened at `since` lets a call through exactly when the reading of the
  -- clock has reached `since + cooldown`. Then it is half open and has counted that call as its
  -- first trial; otherwise it is unchanged.
  pub allow-opened :
      IsValid c
      → c.state ≡ opened
      → c.opened_at ≡ some since
      → let (b, c', _) = allow clock c w in
        (b ≡ leb (since + c.cooldown) (clock w).0)
        × (c' ≡ (
            if leb (since + c.cooldown) (clock w).0
            then record c { state = half_open; half_open_calls = 1 }
            else c))
  unfolding allow
  allow-opened v o s = ground arith

  -- When an open breaker refuses a call, the wait that it tells ends no later than the cooldown
  -- counted from the first reading, and is over only when the cooldown is: `n₁ ≤ n₂ ≤ n₃` are the
  -- readings, and any later time serves as `n₃` where it makes two of them only.
  pub guard-opened :
      c.state ≡ opened
      → c.opened_at ≡ some since
      → let (n₁, w₁) = clock w in
        let (n₂, w₂) = clock w₁ in
        let n₃ = (clock w₂).0 in
        n₁ ≤ n₂
        → n₂ ≤ n₃
        → n₁ < since + c.cooldown
        → (wait : ℕ) × ((guard clock c w).0 ≡ refused wait)
          × (n₁ + wait ≤ since + c.cooldown)
          × (since + c.cooldown ≤ n₃ + wait)
  unfolding guard
  guard-opened o s h k early =
      let (n₁, w₁) = clock w in
      let (n₂, w₂) = clock w₁ in
      let n₃ = (clock w₂).0 in
      (
        (if leb (since + c.cooldown) n₂ then 0 else c.cooldown + since - n₃),
        ground arith,
        ground arith,
        ground arith,
      )
