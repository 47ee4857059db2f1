-- ===== src/Retry/Resilient/Calls.antt =====
-- What a call of a decorated function does, whatever the arguments of the decorator.
use cubiczan_resilience.Base.{ℕ, ◌-◌, ◌≤◌, ◌≡◌, Bool, true, false, Option, arith}
use cubiczan_resilience.Circuit.{Circuit}
use cubiczan_resilience.Retry.{
  RetryPolicy, Built, bad_timeout, bad_attempts, bad_delays, bad_multiplier, built,
}
use cubiczan_resilience.Retry.Backoff.{IsUsable, build_policy-IsUsable}
use cubiczan_resilience.Retry.Loop.{Env}
use cubiczan_resilience.Retry.Loop.Ends.{IsProper, run_sync-IsProper, run_async-IsProper}
use cubiczan_resilience.Retry.Loop.Count.{Counts}
use cubiczan_resilience.Retry.Loop.Calls.{Accounts, run_sync-Accounts, run_async-Accounts}
use cubiczan_resilience.Retry.Loop.Guarded.{Leaves, ValidIf, run_sync-Leaves, run_async-Leaves}
use cubiczan_resilience.Retry.Resilient.{Settings, wrapper, decorated, resilient, invoke}

decorated-built :
    (b b' : Bool) (r : Built) {p : RetryPolicy} → decorated b r ≡ wrapper p b' → r ≡ built p
decorated-built b b' (built p) h = ground arith
decorated-built b b' bad_timeout h = ground arith
decorated-built b b' bad_attempts h = ground arith
decorated-built b b' bad_delays h = ground arith
decorated-built b b' bad_multiplier h = ground arith

-- A function that `resilient` has wrapped has a usable policy: a positive timeout, at least one
-- attempt and a multiplier of at least 1.
pub resilient-IsUsable :
    (s : Settings) (b b' : Bool) (p : RetryPolicy) → resilient s b ≡ wrapper p b' → IsUsable p
unfolding resilient
resilient-IsUsable s b b' p h =
    build_policy-IsUsable s.timeout s.max_attempts s.base_delay s.max_delay s.multiplier
      s.retryable_exceptions s.retryable_status (decorated-built b b' _ h)

module _ {W A : Type 0} (env : Env W A) (s : Settings) (p : RetryPolicy) where
  -- Whatever the arguments of `resilient` and whether the function is a coroutine function, a call
  -- of the function that it wraps ends by returning the function's value, by the breaker's refusal
  -- if there is a breaker, or by raising the failure of an attempt. The code after the loop is not
  -- reached: neither an assertion error nor `RetriesExhausted` is raised.
  pub invoke-IsProper :
      (b : Bool) (cb : Option Circuit) (w : W)
      → resilient s b ≡ wrapper p b
      → IsProper cb (invoke env p b cb w).0
  unfolding invoke
  invoke-IsProper true cb w h =
      run_async-IsProper env p cb w (resilient-IsUsable s true true p h).positive_attempts
  invoke-IsProper false cb w h =
      run_sync-IsProper env p cb w (resilient-IsUsable s false false p h).positive_attempts

  -- How the ending of a call of a wrapped function goes with the number of calls of the function
  -- itself, which `count` counts, whatever the arguments of `resilient`. A value was returned after
  -- 1 to `max_attempts` calls. The breaker's refusal left at least one attempt unused. A
  -- `TimeoutExceeded` was raised only when all attempts were used. An exception of the function was
  -- raised after 1 to `max_attempts` calls, and if it was after fewer than `max_attempts`, it was
  -- not retryable.
  pub invoke-Accounts :
      (count : W → ℕ)
      → Counts env count
      → (b : Bool) (cb : Option Circuit) (w : W) → resilient s b ≡ wrapper p b
      → let (e, _, w') = invoke env p b cb w in
        (count w ≤ count w') × Accounts p (count w' - count w) e
  unfolding invoke
  invoke-Accounts count counts true cb w h =
      run_async-Accounts env p count counts cb w
        (resilient-IsUsable s true true p h).positive_attempts
  invoke-Accounts count counts false cb w h =
      run_sync-Accounts env p count counts cb w
        (resilient-IsUsable s false false p h).positive_attempts

module _ {W A : Type 0} (env : Env W A) (p : RetryPolicy) where
  -- Where a call of a wrapped function, coroutine or not, finds no breaker or a valid one, it
  -- leaves none or a valid one: closed and with no failures counted when a value is returned, not
  -- closed when the call was refused, and not half open when the failure of an attempt is raised.
  pub invoke-Leaves :
      (b : Bool) (cb : Option Circuit) (w : W)
      → ValidIf cb
      → let (e, cb', _) = invoke env p b cb w in Leaves e cb'
  unfolding invoke
  invoke-Leaves true cb w v = run_async-Leaves env p cb w v
  invoke-Leaves false cb w v = run_sync-Leaves env p cb w v
