-- ===== src/Retry/Resilient.antt =====
-- The decorator `resilient` of retry.py: the policy that it builds from its arguments, and a call of
-- the wrapper, which runs the loop for `def` or for `async def` functions.
pub mod Calls
pub mod Live
mod Tests
use cubiczan_resilience.Base.{ℕ, String, Bool, true, false, Option, none, List}
use cubiczan_resilience.Base.Int.{ℤ, pos}
use cubiczan_resilience.Circuit.{Circuit}
use cubiczan_resilience.Retry.{
  RetryPolicy, Built, bad_timeout, bad_attempts, bad_delays, bad_multiplier, built, build_policy,
  default_retryable_status,
}
use cubiczan_resilience.Retry.Loop.{Env, Ending, run_sync, run_async}

-- The arguments of `resilient`, but for the function, the breaker and the generator.
pub record Settings : Type 0 where
  pub timeout : ℤ
  pub max_attempts : ℤ
  pub base_delay : ℤ
  pub max_delay : ℤ
  pub multiplier : ℤ
  pub retryable_exceptions : Option (List String)
  pub retryable_status : List ℕ

-- The defaults, where a tick is a millisecond.
abbrev pub default_settings : Settings
default_settings = record {
  timeout = pos 30000;
  max_attempts = pos 3;
  base_delay = pos 100;
  max_delay = pos 30000;
  multiplier = pos 2000;
  retryable_exceptions = none;
  retryable_status = default_retryable_status;
}

-- The wrapper's policy and whether the function is a coroutine function, or the `ValueError` of the
-- policy, which `decorate` raises.
pub data Decorated : Type 0 where
  wrapper : RetryPolicy → Bool → Decorated
  value_error : Built → Decorated

abbrev pub decorated : Bool → Built → Decorated
decorated is_coroutine (built p) = wrapper p is_coroutine
decorated is_coroutine bad_timeout = value_error bad_timeout
decorated is_coroutine bad_attempts = value_error bad_attempts
decorated is_coroutine bad_delays = value_error bad_delays
decorated is_coroutine bad_multiplier = value_error bad_multiplier

unfoldable pub resilient : Settings → Bool → Decorated
resilient s is_coroutine = decorated is_coroutine (
    build_policy s.timeout s.max_attempts s.base_delay s.max_delay s.multiplier
      s.retryable_exceptions s.retryable_status)

-- `async_wrapper` and `sync_wrapper`.
unfoldable pub invoke :
    {W A : Type 0}
    → Env W A
    → RetryPolicy
    → Bool
    → Option Circuit
    → W
    → Ending A × Option Circuit × W
invoke env p true cb w = run_async env p cb w
invoke env p false cb w = run_sync env p cb w
