-- ===== src/Circuit.antt =====
-- The circuit breaker of python/src/cubiczan_resilience/circuit.py. A time is a number of clock
-- ticks. The injected clock is the parameter `clock`, which reads the time from a world `W` and
-- returns the world after the reading. Each method runs under the breaker's lock, so a method call
-- is one step. The proofs stand in the modules below.
pub mod Invariant
pub mod Runs
pub mod Cooldown
pub mod Trials
pub mod Threshold
pub mod Machine
mod Tests
use cubiczan_resilience.Base.{
  ℕ, ◌+◌, ◌-◌, Bool, true, false, Option, none, some, leb, if◌then◌else◌,
}
use cubiczan_resilience.Base.Int.{ℤ, is_negative, is_below_one, magnitude}

-- `CircuitState`.
pub data CircuitState : Type 0 where
  closed opened half_open : CircuitState

pub record Circuit : Type 0 where
  pub failure_threshold : ℕ
  pub cooldown : ℕ
  pub half_open_max_calls : ℕ
  pub state : CircuitState
  pub failure_count : ℕ
  pub opened_at : Option ℕ
  pub half_open_calls : ℕ

-- The `ValueError`s of the constructor, or the breaker.
pub data Made : Type 0 where
  bad_threshold bad_cooldown bad_max_calls : Made
  made : Circuit → Made

abbrev pub fresh : ℕ → ℕ → ℕ → Circuit
fresh threshold cooldown calls = record {
  failure_threshold = threshold;
  cooldown = cooldown;
  half_open_max_calls = calls;
  state = closed;
  failure_count = 0;
  opened_at = none;
  half_open_calls = 0;
}

-- `CircuitBreaker.__init__`.
unfoldable pub make : ℤ → ℤ → ℤ → Made
make threshold cooldown calls =
    if is_below_one threshold
    then bad_threshold
    else if is_negative cooldown
    then bad_cooldown
    else if is_below_one calls
    then bad_max_calls
    else made (fresh (magnitude threshold) (magnitude cooldown) (magnitude calls))

abbrev pub is_open : CircuitState → Bool
is_open opened = true
is_open _ = false

abbrev pub is_half_open : CircuitState → Bool
is_half_open half_open = true
is_half_open _ = false

-- `record_success` and `reset` write the same fields.
unfoldable pub record_success : Circuit → Circuit
record_success c = record c {
  failure_count = 0;
  half_open_calls = 0;
  opened_at = none;
  state = closed;
}

unfoldable pub reset : Circuit → Circuit
reset c = record c { state = closed; failure_count = 0; opened_at = none; half_open_calls = 0 }

-- What `guard` does: it returns, or raises `CircuitOpenError` with its `retry_after`.
pub data Guard : Type 0 where
  pass : Guard
  refused : ℕ → Guard

module _ {W : Type 0} (clock : W → ℕ × W) where
  -- `self._clock() - self._opened_at >= self.cooldown_seconds` is `opened_at + cooldown ≤ now`.
  unfoldable pub maybe_half_open : Circuit → W → Circuit × W
  maybe_half_open c w =
      if is_open c.state
      then elim c.opened_at [
        | none ↦ (c, w)
        | some since ↦
            let (now, w') = clock w in
            if leb (since + c.cooldown) now
            then (record c { state = half_open; half_open_calls = 0 }, w')
            else (c, w')
      ]
      else (c, w)

  -- The property `state`, which applies the transition by time.
  unfoldable pub get_state : Circuit → W → CircuitState × Circuit × W
  unfolding maybe_half_open
  get_state c w = let (c', w') = maybe_half_open c w in (c'.state, c', w')

  abbrev admit : Circuit → Bool × Circuit
  admit c =
      if is_open c.state
      then (false, c)
      else if is_half_open c.state
      then (if leb c.half_open_max_calls c.half_open_calls
          then (false, c)
          else (true, record c { half_open_calls = c.half_open_calls + 1 }))
      else (true, c)

  unfoldable pub allow : Circuit → W → Bool × Circuit × W
  unfolding maybe_half_open
  allow c w = let (c', w') = maybe_half_open c w in let (b, c'') = admit c' in (b, c'', w')

  -- `max(0.0, cooldown - (now - opened_at))` is the truncated `cooldown + opened_at - now`.
  unfoldable pub retry_after : Circuit → W → ℕ × Circuit × W
  unfolding maybe_half_open
  retry_after c w =
      let (c', w') = maybe_half_open c w in
      if is_open c'.state
      then elim c'.opened_at [
        | none ↦ (0, c', w')
        | some since ↦ let (now, w'') = clock w' in (c'.cooldown + since - now, c', w'')
      ]
      else (0, c', w')

  unfoldable pub trip_open : Circuit → W → Circuit × W
  trip_open c w =
      let (now, w') = clock w in
      (record c { state = opened; opened_at = some now; half_open_calls = 0 }, w')

  unfoldable pub record_failure : Circuit → W → Circuit × W
  unfolding trip_open
  record_failure c w =
      if is_half_open c.state
      then trip_open c w
      else (let c' = record c { failure_count = c.failure_count + 1 } in
          if leb c'.failure_threshold c'.failure_count then trip_open c' w else (c', w))

  unfoldable pub guard : Circuit → W → Guard × Circuit × W
  unfolding allow retry_after
  guard c w =
      let (b, c', w') = allow c w in
      if b
      then (pass, c', w')
      else (let (wait, c'', w'') = retry_after c' w' in (refused wait, c'', w''))
