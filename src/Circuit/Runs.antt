-- ===== src/Circuit/Runs.antt =====
-- Any sequence of method calls on one breaker. The lock makes each call one step, so what several
-- threads do to a breaker is such a sequence.
use cubiczan_resilience.Base.{ℕ, ◌≡◌, ◌≢◌, ◌⊎◌, List, [], ◌∷◌, arith}
use cubiczan_resilience.Circuit.{
  CircuitState, closed, opened, half_open, Circuit, get_state, allow, retry_after, record_success,
  reset, record_failure, guard,
}
use cubiczan_resilience.Circuit.Invariant.{
  IsValid, record_success-IsValid, reset-IsValid, get_state-IsValid, allow-IsValid,
  retry_after-IsValid, record_failure-IsValid,
}

pub data Op : Type 0 where
  get_state_op allow_op retry_after_op guard_op success_op failure_op reset_op : Op

-- An arrow of the breaker's life cycle, or no change.
abbrev pub Arrow : CircuitState → CircuitState → Op → Type 0
Arrow closed closed _ = Unit
Arrow opened opened _ = Unit
Arrow half_open half_open _ = Unit
Arrow closed opened op = op ≡ failure_op
Arrow half_open opened op = op ≡ failure_op
Arrow closed half_open _ = ⊥
Arrow opened half_open op = (op ≢ success_op) × (op ≢ failure_op) × (op ≢ reset_op)
Arrow opened closed op = (op ≡ success_op) ⊎ (op ≡ reset_op)
Arrow half_open closed op = (op ≡ success_op) ⊎ (op ≡ reset_op)

module _ {W : Type 0} (clock : W → ℕ × W) where
  unfoldable pub step : Op → Circuit × W → Circuit × W
  step get_state_op (c, w) = let (_, c', w') = get_state clock c w in (c', w')
  step allow_op (c, w) = let (_, c', w') = allow clock c w in (c', w')
  step retry_after_op (c, w) = let (_, c', w') = retry_after clock c w in (c', w')
  step guard_op (c, w) = let (_, c', w') = guard clock c w in (c', w')
  step success_op (c, w) = (record_success c, w)
  step failure_op (c, w) = record_failure clock c w
  step reset_op (c, w) = (reset c, w)

  unfoldable pub run : List Op → Circuit × W → Circuit × W
  unfolding step
  run [] s = s
  run (op ∷ ops) s = run ops (step op s)

  pub guard-IsValid : (c : Circuit) (w : W) → IsValid c → IsValid (guard clock c w).1
  unfolding guard
  guard-IsValid c w v = ground arith

  pub step-IsValid : (op : Op) (s : Circuit × W) → IsValid s.0 → IsValid (step op s).0
  unfolding step
  step-IsValid get_state_op s v = get_state-IsValid clock s.0 s.1 v
  step-IsValid allow_op s v = allow-IsValid clock s.0 s.1 v
  step-IsValid retry_after_op s v = retry_after-IsValid clock s.0 s.1 v
  step-IsValid guard_op s v = guard-IsValid s.0 s.1 v
  step-IsValid success_op s v = record_success-IsValid v
  step-IsValid failure_op s v = record_failure-IsValid clock s.0 s.1 v
  step-IsValid reset_op s v = reset-IsValid v

  -- Whatever methods are called, in whatever order, a valid breaker stays valid: while closed it
  -- has fewer failures than the threshold, while open or half open it knows when it opened, and
  -- while half open it has let through at most `half_open_max_calls` trial calls.
  pub run-IsValid : (ops : List Op) (s : Circuit × W) → IsValid s.0 → IsValid (run ops s).0
  unfolding run
  run-IsValid [] s v = v
  run-IsValid (op ∷ ops) s v = run-IsValid ops (step op s) (step-IsValid op s v)

  -- Each method call leaves the state or makes an arrow of the life cycle: a closed or half-open
  -- breaker opens only by a reported failure, an open one becomes half open only by a call that
  -- looks at the clock, an open or half-open one closes only by a reported success or a reset, and a
  -- closed one never becomes half open.
  pub step-Arrow : (op : Op) (s : Circuit × W) → Arrow s.0.state (step op s).0.state op
  unfolding step get_state allow retry_after guard record_success record_failure reset
  step-Arrow get_state_op s = ground arith
  step-Arrow allow_op s = ground arith
  step-Arrow retry_after_op s = ground arith
  step-Arrow guard_op s = ground arith
  step-Arrow success_op s = ground arith
  step-Arrow failure_op s = ground arith
  step-Arrow reset_op s = ground arith
