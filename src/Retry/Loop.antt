-- ===== src/Retry/Loop.antt =====
-- The attempt loops `_run_sync` and `_run_async` of retry.py. What the loops call is the parameter
-- `env` over a world `W`: the wrapped function, the clocks, the random generator and the sleep. The
-- breaker is passed along; between the loop's own calls of it nobody else uses it.
pub mod Ends
pub mod Count
pub mod Calls
pub mod Guarded
pub mod Budget
pub mod Live
pub mod Script
mod Tests
use cubiczan_resilience.Base.{
  ℕ, zero, suc, ◌+◌, ◌-◌, Bool, not, ◌||◌, Option, none, some, ltb, ◌==◌, if◌then◌else◌,
}
use cubiczan_resilience.Circuit
use cubiczan_resilience.Circuit.{Circuit, Guard, pass, refused}
use cubiczan_resilience.Retry.{Exc, RetryPolicy, ceiling, is_instance, is_retryable}

-- What one call of the wrapped function does.
pub data Outcome (A : Type 0) : Type 0 where
  value : A → Outcome A
  raises : Exc → Outcome A

-- `breaker_clock` and `monotonic` read a clock, `call` runs the function, `wait_for` awaits it with
-- a deadline, `uniform` draws from 0 to a ceiling.
pub record Env (W A : Type 0) : Type 0 where
  pub breaker_clock : W → ℕ × W
  pub monotonic : W → ℕ × W
  pub call : W → Outcome A × W
  pub wait_for : ℕ → W → Outcome A × W
  pub uniform : ℕ → W → ℕ × W
  pub sleep : ℕ → W → W

-- The exception that the last attempt left: a `TimeoutExceeded`, or the function's own.
pub data Failure : Type 0 where
  timeout_exceeded : Failure
  own : Exc → Failure

-- How a loop ends. `circuit_open` is the breaker's refusal with its `retry_after`, `exhausted` is
-- `RetriesExhausted`, and `assertion_error` is the failed `assert last_exc is not None`.
pub data Ending (A : Type 0) : Type 0 where
  returned : A → Ending A
  circuit_open : ℕ → Ending A
  failed : Failure → Ending A
  exhausted : ℕ → Failure → Ending A
  assertion_error : Ending A

-- One round: the loop ends, or goes on after a failure.
pub data Round (A : Type 0) : Type 0 where
  finish : Ending A → Round A
  again : Failure → Round A

abbrev pub is_last : RetryPolicy → ℕ → Bool
is_last p attempt = attempt == p.max_attempts - 1

module _ {W A : Type 0} (env : Env W A) (p : RetryPolicy) where
  -- `if cb is not None: cb.guard()`, and the reports to the breaker.
  pub guard_if : Option Circuit → W → Guard × Option Circuit × W
  guard_if none w = (pass, none, w)
  guard_if (some cb) w =
      let (g, cb', w') = Circuit.guard env.breaker_clock cb w in (g, some cb', w')

  pub failure_if : Option Circuit → W → Option Circuit × W
  failure_if none w = (none, w)
  failure_if (some cb) w =
      let (cb', w') = Circuit.record_failure env.breaker_clock cb w in (some cb', w')

  pub success_if : Option Circuit → Option Circuit
  success_if none = none
  success_if (some cb) = some (Circuit.record_success cb)

  -- `backoff`, `_sleep_sync` and the sleep of the async loop.
  pub backoff : ℕ → W → ℕ × W
  unfolding ceiling
  backoff attempt w = env.uniform (ceiling p attempt) w

  pub sleep_sync : ℕ → W → W
  unfolding backoff
  sleep_sync attempt w =
      let (delay, w') = backoff attempt w in if ltb 0 delay then env.sleep delay w' else w'

  pub sleep_async : ℕ → W → W
  unfolding backoff
  sleep_async attempt w = let (delay, w') = backoff attempt w in env.sleep delay w'

  -- A failed attempt: it is reported, and the loop ends by it or pauses and goes on.
  pub fail_with :
      (ℕ → W → W) → Bool → Failure → ℕ → Option Circuit → W → Round A × Option Circuit × W
  unfolding failure_if
  fail_with pause ends e attempt cb w =
      let (cb', w') = failure_if cb w in
      if ends then (finish (failed e), cb', w') else (again e, cb', pause attempt w')

  -- What stands below the call of the function in `_run_sync`.
  pub after_call_sync : ℕ → Outcome A → ℕ → Option Circuit → W → Round A × Option Circuit × W
  unfolding fail_with success_if sleep_sync
  after_call_sync start (raises e) attempt cb w =
      fail_with sleep_sync (not (is_retryable p e) || is_last p attempt) (own e) attempt cb w
  after_call_sync start (value a) attempt cb w =
      let (stop, w') = env.monotonic w in
      if ltb (start + p.timeout) stop
      then fail_with sleep_sync (is_last p attempt) timeout_exceeded attempt cb w'
      else (finish (returned a), success_if cb, w')

  -- What stands below the breaker's guard in `_run_sync`.
  pub call_sync : ℕ → Option Circuit → W → Round A × Option Circuit × W
  unfolding after_call_sync
  call_sync attempt cb w =
      let (start, w₁) = env.monotonic w in
      let (o, w₂) = env.call w₁ in after_call_sync start o attempt cb w₂

  abbrev pub after_guard :
      (ℕ → Option Circuit → W → Round A × Option Circuit × W)
      → ℕ
      → Guard × Option Circuit × W
      → Round A × Option Circuit × W
  after_guard go attempt (refused wait, cb, w) = (finish (circuit_open wait), cb, w)
  after_guard go attempt (pass, cb, w) = go attempt cb w

  -- The body of the loop of `_run_sync`.
  pub attempt_sync : ℕ → Option Circuit → W → Round A × Option Circuit × W
  unfolding guard_if call_sync
  attempt_sync attempt cb w = after_guard call_sync attempt (guard_if cb w)

  -- What stands below the call of the function in `_run_async`. As of Python 3.11
  -- `asyncio.TimeoutError` is `TimeoutError`, so a function that raises one itself is handled as one
  -- that met its deadline.
  pub after_call_async : Outcome A → ℕ → Option Circuit → W → Round A × Option Circuit × W
  unfolding fail_with success_if sleep_async is_instance
  after_call_async (raises e) attempt cb w =
      if is_instance e "TimeoutError"
      then fail_with sleep_async (is_last p attempt) timeout_exceeded attempt cb w
      else fail_with sleep_async (not (is_retryable p e) || is_last p attempt) (own e) attempt cb w
  after_call_async (value a) attempt cb w = (finish (returned a), success_if cb, w)

  pub call_async : ℕ → Option Circuit → W → Round A × Option Circuit × W
  unfolding after_call_async
  call_async attempt cb w =
      let (o, w') = env.wait_for p.timeout w in after_call_async o attempt cb w'

  -- The body of the loop of `_run_async`.
  pub attempt_async : ℕ → Option Circuit → W → Round A × Option Circuit × W
  unfolding guard_if call_async
  attempt_async attempt cb w = after_guard call_async attempt (guard_if cb w)

  -- What stands after the loop.
  abbrev after_loop : Option Failure → Ending A
  after_loop none = assertion_error
  after_loop (some e) = exhausted p.max_attempts e

  -- `for attempt in range(max_attempts)`, with the rounds left, the index and `last_exc`.
  pub rounds :
      (ℕ → Option Circuit → W → Round A × Option Circuit × W)
      → ℕ
      → ℕ
      → Option Failure
      → Option Circuit
      → W
      → Ending A × Option Circuit × W
  rounds body zero attempt last cb w = (after_loop last, cb, w)
  rounds body (suc n) attempt last cb w =
      let (r, cb', w') = body attempt cb w in
      elim r [ finish e ↦ (e, cb', w') | again e ↦ rounds body n (attempt + 1) (some e) cb' w' ]

  pub run_sync : Option Circuit → W → Ending A × Option Circuit × W
  unfolding rounds attempt_sync
  run_sync = rounds attempt_sync p.max_attempts 0 none

  pub run_async : Option Circuit → W → Ending A × Option Circuit × W
  unfolding rounds attempt_async
  run_async = rounds attempt_async p.max_attempts 0 none
