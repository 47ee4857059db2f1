-- ===== src/Retry/Loop/Live/Recovery.antt =====
-- The first call of an attempt loop after the breaker's cooldown.
use cubiczan_resilience.Base.{
  ℕ, zero, suc, ◌+◌, ◌≤◌, ◌<◌, ◌≡◌, ◌∙◌, refl, ap, Option, none, some, arith,
}
use cubiczan_resilience.Circuit
use cubiczan_resilience.Circuit.{Circuit, closed, opened, half_open, Guard, pass}
use cubiczan_resilience.Retry.{RetryPolicy}
use cubiczan_resilience.Retry.Loop.{
  Env, returned, finish, Round, guard_if, success_if, after_guard, call_sync, call_async, rounds,
  run_sync, run_async,
}
use cubiczan_resilience.Retry.Loop.Live.{HitsSync, HitsAsync}
use cubiczan_resilience.Retry.Loop.Live.Rounds.{Ended, after_call_sync-hits, rounds-returns}

-- A breaker that opened at `since` and lets a call through if its cooldown is over at `now`.
pub record IsCooled (now : ℕ) (c : Circuit) : Type 0 where
  pub since : ℕ
  pub is_open : c.state ≡ opened
  pub at_since : c.opened_at ≡ some since
  pub over : since + c.cooldown ≤ now
  pub positive_calls : 0 < c.half_open_max_calls

-- It is on trial for the call.
abbrev on_trial : Circuit → Circuit
on_trial c = record c { state = half_open; half_open_calls = 1 }

module _ {W A : Type 0} (env : Env W A) (p : RetryPolicy) where
  guard-cooled :
      (c : Circuit) (w : W)
      → IsCooled (env.breaker_clock w).0 c
      → Circuit.guard env.breaker_clock c w ≡ (pass, on_trial c, (env.breaker_clock w).1)
  unfolding Circuit.guard
  guard-cooled c w h = ground (arith, h.is_open, h.at_since, h.over, h.positive_calls)

  guard_if-cooled :
      (c : Circuit) (w : W)
      → IsCooled (env.breaker_clock w).0 c
      → guard_if env p (some c) w ≡ (pass, some (on_trial c), (env.breaker_clock w).1)
  unfolding guard_if
  guard_if-cooled c w h = ap (λ r. (r.0, some r.1, r.2)) (guard-cooled c w h)

  success_if-on_trial :
      (c : Circuit) → success_if env p (some (on_trial c)) ≡ success_if env p (some c)
  unfolding success_if Circuit.record_success
  success_if-on_trial c = refl

  -- A body whose call returns `v` ends the loop, also after the breaker's wait.
  rounds-recovers :
      (go : ℕ → Option Circuit → W → Round A × Option Circuit × W) (n : ℕ) (c : Circuit) (w : W)
      (v : A)
      → IsCooled (env.breaker_clock w).0 c
      → 0 < n
      → ((cb : Option Circuit)
          → let (r, cb', _) = go 0 cb (env.breaker_clock w).1 in
            (r ≡ finish (returned v)) × (cb' ≡ success_if env p cb))
      → Ended env p v (some c) (
          rounds env p (λ k cb w. after_guard env p go k (guard_if env p cb w)) n 0 none (some c) w)
  rounds-recovers go zero c w v h l hits = absurd (omega (arith, l))
  rounds-recovers go (suc n) c w v h l hits = rounds-returns env p _ n 0 none (some c) w v (
      rw (guard_if-cooled c w h)
        (let x = hits (some (on_trial c)) in (x.0, x.1 ∙ success_if-on_trial c)))

  pub run_sync-recovers :
      (c : Circuit) (w : W) (v : A)
      → IsCooled (env.breaker_clock w).0 c
      → HitsSync env p (env.breaker_clock w).1 v
      → 0 < p.max_attempts
      → Ended env p v (some c) (run_sync env p (some c) w)
  unfolding run_sync
  run_sync-recovers c w v h hits l =
      rounds-recovers (call_sync env p) p.max_attempts c w v h l (λ cb.
        (let (start, w₁) = env.monotonic (env.breaker_clock w).1 in
          let (o, w₂) = env.call w₁ in after_call_sync-hits env p start 0 o cb w₂ v hits.0 hits.1))

  pub run_async-recovers :
      (c : Circuit) (w : W) (v : A)
      → IsCooled (env.breaker_clock w).0 c
      → HitsAsync env p (env.breaker_clock w).1 v
      → 0 < p.max_attempts
      → Ended env p v (some c) (run_async env p (some c) w)
  unfolding run_async call_async
  run_async-recovers c w v h hits l =
      rounds-recovers (call_async env p) p.max_attempts c w v h l (λ cb. rw hits (refl, refl))
