-- ===== src/Retry/Loop/Count.antt =====
-- A count of the calls of the wrapped function, and the steps of the loops that leave it alone.
use cubiczan_resilience.Base.{ℕ, ◌+◌, ◌≡◌, refl, Bool, Option, none, some, arith, if◌then◌else◌}
use cubiczan_resilience.Circuit
use cubiczan_resilience.Circuit.{Circuit, Guard, pass, refused}
use cubiczan_resilience.Retry.{RetryPolicy}
use cubiczan_resilience.Retry.Loop.{
  Env, Failure, failed, finish, again, guard_if, failure_if, sleep_sync, sleep_async, fail_with,
}

-- `count` counts the calls of the wrapped function, and nothing else that the loops do changes it.
pub record Counts {W A : Type 0} (env : Env W A) (count : W → ℕ) : Type 0 where
  pub at_call : (w : W) → count (env.call w).1 ≡ count w + 1
  pub at_wait_for : (t : ℕ) (w : W) → count (env.wait_for t w).1 ≡ count w + 1
  pub at_breaker_clock : (w : W) → count (env.breaker_clock w).1 ≡ count w
  pub at_monotonic : (w : W) → count (env.monotonic w).1 ≡ count w
  pub at_uniform : (c : ℕ) (w : W) → count (env.uniform c w).1 ≡ count w
  pub at_sleep : (d : ℕ) (w : W) → count (env.sleep d w) ≡ count w

module _ {W A : Type 0} (env : Env W A) (p : RetryPolicy) (count : W → ℕ)
    (counts : Counts env count) where
  guard-count : (cb : Circuit) (w : W) → count (Circuit.guard env.breaker_clock cb w).2 ≡ count w
  unfolding Circuit.guard
  guard-count cb w = grind (arith, counts.at_breaker_clock)

  record_failure-count :
      (cb : Circuit) (w : W) → count (Circuit.record_failure env.breaker_clock cb w).1 ≡ count w
  unfolding Circuit.record_failure
  record_failure-count cb w = grind (arith, counts.at_breaker_clock)

  pub guard_if-count : (cb : Option Circuit) (w : W) → count (guard_if env p cb w).2 ≡ count w
  unfolding guard_if
  guard_if-count none w = refl
  guard_if-count (some cb) w = guard-count cb w

  pub failure_if-count : (cb : Option Circuit) (w : W) → count (failure_if env p cb w).1 ≡ count w
  unfolding failure_if
  failure_if-count none w = refl
  failure_if-count (some cb) w = record_failure-count cb w

  pub sleep_sync-count : (k : ℕ) (w : W) → count (sleep_sync env p k w) ≡ count w
  unfolding sleep_sync
  sleep_sync-count k w = grind (arith, counts.at_uniform, counts.at_sleep)

  pub sleep_async-count : (k : ℕ) (w : W) → count (sleep_async env p k w) ≡ count w
  unfolding sleep_async
  sleep_async-count k w = grind (arith, counts.at_uniform, counts.at_sleep)

  -- A failed attempt makes no call.
  pub fail_with-count :
      (pause : ℕ → W → W) (ends : Bool) (e : Failure) (k : ℕ) (cb : Option Circuit) (w : W)
      → ((w' : W) → count (pause k w') ≡ count w')
      → count (fail_with env p pause ends e k cb w).2 ≡ count w
  unfolding fail_with
  fail_with-count pause ends e k cb w quiet =
      ground (arith, failure_if-count cb w, quiet (failure_if env p cb w).1)

  pub fail_with-round :
      (pause : ℕ → W → W) (ends : Bool) (e : Failure) (k : ℕ) (cb : Option Circuit) (w : W)
      → (fail_with env p pause ends e k cb w).0 ≡ (if ends then finish (failed e) else again e)
  unfolding fail_with
  fail_with-round pause ends e k cb w = ground arith
