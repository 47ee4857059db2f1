-- ===== src/Retry/Loop/Budget.antt =====
-- How many calls a circuit breaker lets an attempt loop make.
pub mod Total
use cubiczan_resilience.Base.{
  ℕ, ◌+◌, ◌-◌, ◌≤◌, ◌<◌, ◌≡◌, ◌≢◌, inl, inr, Bool-cases, Bool, Option, none, some, arith,
}
use cubiczan_resilience.Circuit
use cubiczan_resilience.Circuit.{
  Circuit, CircuitState, closed, opened, half_open, Guard, pass, refused,
}
use cubiczan_resilience.Circuit.Invariant.{IsValid}
use cubiczan_resilience.Retry.{RetryPolicy, is_instance}
use cubiczan_resilience.Retry.Loop.{
  Env, Outcome, value, raises, Failure, timeout_exceeded, own, circuit_open, Round, finish, again,
  is_last, guard_if, sleep_sync, sleep_async, fail_with, after_call_sync, call_sync,
  after_call_async, call_async, after_guard, attempt_sync, attempt_async,
}

-- The calls that may still be made before the breaker refuses, if no cooldown ends meanwhile.
abbrev pub budget : Circuit → ℕ
budget c = elim c.state [
  | closed ↦ c.failure_threshold - c.failure_count
  | opened ↦ 0
  | half_open ↦ 1
]

-- An open breaker opened at `start` or later.
abbrev pub OpenedSince : ℕ → CircuitState → Option ℕ → Type 0
OpenedSince start opened none = ⊥
OpenedSince start opened (some t) = start ≤ t
OpenedSince start _ _ = Unit

-- A valid breaker that has not been open for long at `start`.
pub record IsRecent (start cooldown : ℕ) (c : Circuit) : Type 0 where
  pub valid : IsValid c
  pub since : OpenedSince start c.state c.opened_at
  pub same : c.cooldown ≡ cooldown

module _ {W : Type 0} (clock : W → ℕ × W) (start d : ℕ)
    (short : (w : W) → (start ≤ (clock w).0) × ((clock w).0 < start + d)) where
  abbrev GuardSpends : Circuit → Guard × Circuit × W → Type 0
  GuardSpends c (pass, c', _) =
      IsRecent start d c' × (0 < budget c) × (budget c' ≡ budget c) × (c'.state ≢ opened)
  GuardSpends c (refused _, c', _) = IsRecent start d c'

  guard-spends :
      (c : Circuit) (w : W) → IsRecent start d c → GuardSpends c (Circuit.guard clock c w)
  unfolding Circuit.guard
  guard-spends c w r = ground (arith, short w, short (clock w).1)

  record_failure-spends :
      (c : Circuit) (w : W)
      → IsRecent start d c
      → c.state ≢ opened
      → let (c', _) = Circuit.record_failure clock c w in
        IsRecent start d c' × (budget c' + 1 ≤ budget c)
  unfolding Circuit.record_failure
  record_failure-spends c w r h = ground (arith, short w)

-- What a round spends: one call of the budget, or it ends the loop.
abbrev pub RoundSpends : {A : Type 0} (start d : ℕ) → Circuit → Round A → Option Circuit → Type 0
RoundSpends start d c (again _) none = ⊥
RoundSpends start d c (again _) (some c') = IsRecent start d c' × (budget c' + 1 ≤ budget c)
RoundSpends start d c (finish (circuit_open _)) _ = Unit
RoundSpends start d c (finish _) _ = 0 < budget c

module _ {W A : Type 0} (env : Env W A) (p : RetryPolicy) (start d : ℕ)
    (short : (w : W)
      → (start ≤ (env.breaker_clock w).0) × ((env.breaker_clock w).0 < start + d)) where
  fail_with-spends :
      (pause : ℕ → W → W) (ends : Bool) (e : Failure) (k : ℕ) (c : Circuit) (w : W)
      → IsRecent start d c
      → c.state ≢ opened
      → 0 < budget c
      → let (r, cb', _) = fail_with env p pause ends e k (some c) w in RoundSpends start d c r cb'
  unfolding fail_with
  fail_with-spends pause ends e k c w r h b =
      ground (arith, record_failure-spends env.breaker_clock start d short c w r h)

  after_call_sync-spends :
      (from : ℕ) (o : Outcome A) (k : ℕ) (c : Circuit) (w : W)
      → IsRecent start d c
      → c.state ≢ opened
      → 0 < budget c
      → let (r, cb', _) = after_call_sync env p from o k (some c) w in RoundSpends start d c r cb'
  unfolding after_call_sync
  after_call_sync-spends from (raises e) k c w r h b =
      fail_with-spends (sleep_sync env p) _ (own e) k c w r h b
  after_call_sync-spends from (value a) k c w r h b = ground (
    arith,
    fail_with-spends (sleep_sync env p) (is_last p k) timeout_exceeded k c (env.monotonic w).1 r h
        b,
  )

  after_call_async-spends :
      (o : Outcome A) (k : ℕ) (c : Circuit) (w : W)
      → IsRecent start d c
      → c.state ≢ opened
      → 0 < budget c
      → let (r, cb', _) = after_call_async env p o k (some c) w in RoundSpends start d c r cb'
  unfolding after_call_async
  after_call_async-spends (raises e) k c w r h b =
      elim (Bool-cases (is_instance e "TimeoutError")) [
        | inl t ↦ rw t (fail_with-spends (sleep_async env p) _ timeout_exceeded k c w r h b)
        | inr t ↦ rw t (fail_with-spends (sleep_async env p) _ (own e) k c w r h b)
      ]
  after_call_async-spends (value a) k c w r h b = b

  module _ (go : ℕ → Option Circuit → W → Round A × Option Circuit × W)
      (spends : (k : ℕ) (c : Circuit) (w : W)
        → IsRecent start d c
        → c.state ≢ opened
        → 0 < budget c
        → let (r, cb', _) = go k (some c) w in RoundSpends start d c r cb') where
    after_guard-spends :
        (k : ℕ) (c : Circuit) (g : Guard) (c' : Circuit) (w : W)
        → GuardSpends env.breaker_clock start d short c (g, c', w)
        → let (r, cb', _) = after_guard env p go k (g, some c', w) in RoundSpends start d c r cb'
    after_guard-spends k c (refused wait) c' w s = tt
    after_guard-spends k c pass c' w s =
        ground (arith, spends k c' w s.0 s.3 (omega (arith, s.1, s.2)))

    attempt-spends :
        (k : ℕ) (c : Circuit) (w : W)
        → IsRecent start d c
        → let (r, cb', _) = after_guard env p go k (guard_if env p (some c) w) in
          RoundSpends start d c r cb'
    unfolding guard_if
    attempt-spends k c w r =
        let (g, c', w') = Circuit.guard env.breaker_clock c w in
        after_guard-spends k c g c' w' (guard-spends env.breaker_clock start d short c w r)

  pub attempt_sync-spends :
      (k : ℕ) (c : Circuit) (w : W)
      → IsRecent start d c
      → let (r, cb', _) = attempt_sync env p k (some c) w in RoundSpends start d c r cb'
  unfolding attempt_sync call_sync
  attempt_sync-spends k c w r =
      attempt-spends (call_sync env p)
        (λ k c w.
          (let (from, w₁) = env.monotonic w in
            let (o, w₂) = env.call w₁ in after_call_sync-spends from o k c w₂))
        k c w r

  pub attempt_async-spends :
      (k : ℕ) (c : Circuit) (w : W)
      → IsRecent start d c
      → let (r, cb', _) = attempt_async env p k (some c) w in RoundSpends start d c r cb'
  unfolding attempt_async call_async
  attempt_async-spends k c w r =
      attempt-spends (call_async env p)
        (λ k c w. (let (o, w') = env.wait_for p.timeout w in after_call_async-spends o k c w')) k c
        w r
