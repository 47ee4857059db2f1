-- ===== src/Retry/Loop/Live.antt =====
-- When the attempt loops succeed: the function may fail first, if no breaker opens meanwhile.
pub mod Rounds
pub mod Recovery
use cubiczan_resilience.Base.{
  ℕ, suc, ◌+◌, ◌≤◌, ◌<◌, ◌≡◌, refl, true, ◌||◌, Option, none, some, arith,
}
use cubiczan_resilience.Circuit
use cubiczan_resilience.Circuit.{Circuit, closed, pass}
use cubiczan_resilience.Retry.{RetryPolicy, is_instance, is_retryable}
use cubiczan_resilience.Retry.Loop.{Env, Outcome, value, raises, guard_if, failure_if, success_if}

-- There is no breaker, or a closed one that `n` more failures do not open.
abbrev pub Endures : ℕ → Option Circuit → Type 0
Endures n none = Unit
Endures n (some c) = (c.state ≡ closed) × (c.failure_count + n < c.failure_threshold)

-- The breaker after one more failure that does not open it.
abbrev pub one_more : Option Circuit → Option Circuit
one_more none = none
one_more (some c) = some (record c { failure_count = c.failure_count + 1 })

pub one_more-Endures : (n : ℕ) (cb : Option Circuit) → Endures (suc n) cb → Endures n (one_more cb)
one_more-Endures n none h = tt
one_more-Endures n (some c) h = ground arith

module _ {W A : Type 0} (env : Env W A) (p : RetryPolicy) where
  pub guard_if-Endures :
      (n : ℕ) (cb : Option Circuit) (w : W) → Endures n cb → guard_if env p cb w ≡ (pass, cb, w)
  unfolding guard_if Circuit.guard
  guard_if-Endures n none w h = refl
  guard_if-Endures n (some c) w h = ground arith

  pub failure_if-Endures :
      (n : ℕ) (cb : Option Circuit) (w : W)
      → Endures (suc n) cb
      → failure_if env p cb w ≡ (one_more cb, w)
  unfolding failure_if Circuit.record_failure
  failure_if-Endures n none w h = refl
  failure_if-Endures n (some c) w h = ground arith

  pub success_if-one_more :
      (cb : Option Circuit) → success_if env p (one_more cb) ≡ success_if env p cb
  unfolding success_if Circuit.record_success
  success_if-one_more none = refl
  success_if-one_more (some c) = refl

  -- What a trial of the function in `_run_sync` that begins in the world `w` comes to: a value `v` in
  -- time, or a failure that is tried again, after which the world is `w'`.
  abbrev pub HitsSync : W → A → Type 0
  HitsSync w v =
      let (start, w₁) = env.monotonic w in
      let (o, w₂) = env.call w₁ in (o ≡ value v) × ((env.monotonic w₂).0 ≤ start + p.timeout)

  abbrev pub Missed : ℕ → Outcome A × W → W → Type 0
  Missed start (raises e, w) w' = (is_retryable p e ≡ true) × (w' ≡ w)
  Missed start (value _, w) w' =
      let (stop, w₁) = env.monotonic w in (start + p.timeout < stop) × (w' ≡ w₁)

  abbrev pub MissesSync : W → W → Type 0
  MissesSync w w' = let (start, w₁) = env.monotonic w in Missed start (env.call w₁) w'

  -- The same for `_run_async`.
  abbrev pub HitsAsync : W → A → Type 0
  HitsAsync w v = (env.wait_for p.timeout w).0 ≡ value v

  abbrev pub MissedAsync : Outcome A × W → W → Type 0
  MissedAsync (raises e, w) w' =
      ((is_instance e "TimeoutError" || is_retryable p e) ≡ true) × (w' ≡ w)
  MissedAsync (value _, w) w' = ⊥

  abbrev pub MissesAsync : W → W → Type 0
  MissesAsync w w' = MissedAsync (env.wait_for p.timeout w) w'

-- From attempt `k` on in the world `w`, the function fails `n` times and is then good for `v`. The
-- pauses between the attempts are part of what happens.
pub data Flaky {W A : Type 0} (hits : W → A → Type 0) (misses : W → W → Type 0) (pause : ℕ → W → W)
    : ℕ → ℕ → W → A → Type 0 where
  responds : {k : ℕ} {w : W} {v : A} → hits w v → Flaky hits misses pause 0 k w v
  fails :
      {n k : ℕ} {w w' : W} {v : A}
      → misses w w'
      → Flaky hits misses pause n (k + 1) (pause k w') v
      → Flaky hits misses pause (suc n) k w v
