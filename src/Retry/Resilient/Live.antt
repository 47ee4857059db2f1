-- ===== src/Retry/Resilient/Live.antt =====
-- When a call of a decorated function succeeds.
use cubiczan_resilience.Base.{ℕ, ◌<◌, Bool, true, false, Option, some}
use cubiczan_resilience.Circuit.{Circuit}
use cubiczan_resilience.Retry.{RetryPolicy}
use cubiczan_resilience.Retry.Loop.{Env, sleep_sync, sleep_async}
use cubiczan_resilience.Retry.Loop.Live.{
  Endures, HitsSync, MissesSync, HitsAsync, MissesAsync, Flaky,
}
use cubiczan_resilience.Retry.Loop.Live.Rounds.{Ended, run_sync-Ended, run_async-Ended}
use cubiczan_resilience.Retry.Loop.Live.Recovery.{IsCooled, run_sync-recovers, run_async-recovers}
use cubiczan_resilience.Retry.Resilient.{invoke}

module _ {W A : Type 0} (env : Env W A) (p : RetryPolicy) where
  -- A trial of the function, plain or coroutine, gives the value in time.
  abbrev pub Hits : Bool → W → A → Type 0
  Hits true = HitsAsync env p
  Hits false = HitsSync env p

  -- The function, plain or coroutine, fails from attempt 0 on `n` times in a way that is tried
  -- again, and is then good for a value.
  abbrev pub FlakyAt : Bool → ℕ → W → A → Type 0
  FlakyAt true n w v = Flaky (HitsAsync env p) (MissesAsync env p) (sleep_async env p) n 0 w v
  FlakyAt false n w v = Flaky (HitsSync env p) (MissesSync env p) (sleep_sync env p) n 0 w v

  -- If the function fails `n` times in a way that is tried again, `n` below `max_attempts`, and then
  -- gives a value in time, a call of the wrapped function, coroutine or not, returns that value,
  -- provided that there is no breaker, or a closed one that `n` more failures do not open. The
  -- breaker is then as after a success.
  pub invoke-succeeds :
      (b : Bool) (n : ℕ) (cb : Option Circuit) (w : W) (v : A)
      → FlakyAt b n w v
      → Endures n cb
      → n < p.max_attempts
      → Ended env p v cb (invoke env p b cb w)
  unfolding invoke
  invoke-succeeds true = run_async-Ended env p
  invoke-succeeds false = run_sync-Ended env p

  -- If a breaker is open and its cooldown is over when the call reads the clock, the first call of a
  -- wrapped function, coroutine or not, is let through: where the function gives a value in time, it
  -- is returned and the breaker is as after a success, closed and with no failures counted.
  pub invoke-recovers :
      (b : Bool) (c : Circuit) (w : W) (v : A)
      → IsCooled (env.breaker_clock w).0 c
      → Hits b (env.breaker_clock w).1 v
      → 0 < p.max_attempts
      → Ended env p v (some c) (invoke env p b (some c) w)
  unfolding invoke
  invoke-recovers true = run_async-recovers env p
  invoke-recovers false = run_sync-recovers env p
