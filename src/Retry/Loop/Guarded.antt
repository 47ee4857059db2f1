-- ===== src/Retry/Loop/Guarded.antt =====
-- The attempt loops and their circuit breaker.
use cubiczan_resilience.Base.{
  ℕ, zero, suc, ◌+◌, ◌≡◌, ◌≢◌, ◌⊎◌, Bool-cases, inl, inr, refl, Bool, Option, none, some, arith,
}
use cubiczan_resilience.Circuit
use cubiczan_resilience.Circuit.{
  Circuit, CircuitState, closed, opened, half_open, Guard, pass, refused,
}
use cubiczan_resilience.Circuit.Invariant.{IsValid, record_failure-IsValid}
use cubiczan_resilience.Circuit.Runs.{guard-IsValid}
use cubiczan_resilience.Retry.{RetryPolicy, is_instance}
use cubiczan_resilience.Retry.Loop.{
  Env, Outcome, value, raises, Failure, timeout_exceeded, Ending, returned, circuit_open, failed,
  exhausted, assertion_error, Round, finish, again, is_last, guard_if, success_if, sleep_sync,
  sleep_async, fail_with, after_call_sync, call_sync, after_call_async, call_async, after_guard,
  attempt_sync, attempt_async, rounds, run_sync, run_async,
}

-- What an ending says of the breaker that it leaves, if there is one.
abbrev pub Leaves : {A : Type 0} → Ending A → Option Circuit → Type 0
Leaves e none = Unit
Leaves (returned _) (some c) = IsValid c × (c.state ≡ closed) × (c.failure_count ≡ 0)
Leaves (circuit_open _) (some c) = IsValid c × (c.state ≢ closed)
Leaves (failed _) (some c) = IsValid c × (c.state ≢ half_open)
Leaves (exhausted _ _) (some c) = IsValid c
Leaves assertion_error (some c) = IsValid c

abbrev pub ValidIf : Option Circuit → Type 0
ValidIf none = Unit
ValidIf (some c) = IsValid c

abbrev RoundLeaves : {A : Type 0} → Round A → Option Circuit → Type 0
RoundLeaves (finish e) cb = Leaves e cb
RoundLeaves (again e) cb = Leaves {A = ℕ} (failed e) cb

-- A breaker that refuses a call is not closed after it.
abbrev GuardLeaves : Guard → Option Circuit → Type 0
GuardLeaves g none = Unit
GuardLeaves pass (some c) = IsValid c
GuardLeaves (refused _) (some c) = IsValid c × (c.state ≢ closed)

pub Round-cases :
    {A : Type 0} (r : Round A) → ((e : Ending A) × (r ≡ finish e)) ⊎ ((e : Failure) × (r ≡ again e))
Round-cases (finish e) = inl (e, refl)
Round-cases (again e) = inr (e, refl)

ValidIf-of-again : (e : Failure) (cb : Option Circuit) → Leaves {A = ℕ} (failed e) cb → ValidIf cb
ValidIf-of-again e none h = tt
ValidIf-of-again e (some c) h = h.0

Guard-cases : (g : Guard) → (g ≡ pass) ⊎ ((wait : ℕ) × (g ≡ refused wait))
Guard-cases pass = inl refl
Guard-cases (refused wait) = inr (wait, refl)

refused-ne-closed :
    {W : Type 0} (clock : W → ℕ × W) (c : Circuit) (w : W) (wait : ℕ)
    → (Circuit.guard clock c w).0 ≡ refused wait
    → (Circuit.guard clock c w).1.state ≢ closed
unfolding Circuit.guard
refused-ne-closed clock c w wait h = ground arith

record_failure-ne-half_open :
    {W : Type 0} (clock : W → ℕ × W) (c : Circuit) (w : W)
    → (Circuit.record_failure clock c w).0.state ≢ half_open
unfolding Circuit.record_failure
record_failure-ne-half_open clock c w = ground arith

module _ {W A : Type 0} (env : Env W A) (p : RetryPolicy) where
  guard_if-Leaves :
      (cb : Option Circuit) (w : W)
      → ValidIf cb
      → let (g, cb', _) = guard_if env p cb w in GuardLeaves g cb'
  unfolding guard_if
  guard_if-Leaves none w v = tt
  guard_if-Leaves (some c) w v =
      let (g, c', w') = Circuit.guard env.breaker_clock c w in
      elim (Guard-cases g) [
        | inl e ↦ rw e (guard-IsValid env.breaker_clock c w v)
        | inr (wait, e) ↦
            rw e (
              guard-IsValid env.breaker_clock c w v,
              refused-ne-closed env.breaker_clock c w wait e,
            )
      ]

  fail_with-Leaves :
      (pause : ℕ → W → W) (ends : Bool) (e : Failure) (k : ℕ) (cb : Option Circuit) (w : W)
      → ValidIf cb
      → let (r, cb', _) = fail_with env p pause ends e k cb w in RoundLeaves r cb'
  unfolding fail_with
  fail_with-Leaves pause ends e k none w v = ground arith
  fail_with-Leaves pause ends e k (some c) w v = ground (
    arith,
    record_failure-IsValid env.breaker_clock c w v,
    record_failure-ne-half_open env.breaker_clock c w,
  )

  success_if-Leaves :
      (a : A) (cb : Option Circuit)
      → ValidIf cb
      → RoundLeaves (finish (returned a)) (success_if env p cb)
  unfolding success_if Circuit.record_success
  success_if-Leaves a none v = tt
  success_if-Leaves a (some c) v = ground arith

  after_call_sync-Leaves :
      (start : ℕ) (o : Outcome A) (k : ℕ) (cb : Option Circuit) (w : W)
      → ValidIf cb
      → let (r, cb', _) = after_call_sync env p start o k cb w in RoundLeaves r cb'
  unfolding after_call_sync
  after_call_sync-Leaves start (raises e) k cb w v =
      fail_with-Leaves (sleep_sync env p) _ _ k cb w v
  after_call_sync-Leaves start (value a) k cb w v = ground (
    arith,
    success_if-Leaves a cb v,
    fail_with-Leaves (sleep_sync env p) (is_last p k) timeout_exceeded k cb (env.monotonic w).1 v,
  )

  after_call_async-Leaves :
      (o : Outcome A) (k : ℕ) (cb : Option Circuit) (w : W)
      → ValidIf cb
      → let (r, cb', _) = after_call_async env p o k cb w in RoundLeaves r cb'
  unfolding after_call_async
  after_call_async-Leaves (raises e) k cb w v = elim (Bool-cases (is_instance e "TimeoutError")) [
    | inl h ↦ rw h (fail_with-Leaves (sleep_async env p) _ _ k cb w v)
    | inr h ↦ rw h (fail_with-Leaves (sleep_async env p) _ _ k cb w v)
  ]
  after_call_async-Leaves (value a) k cb w v = success_if-Leaves a cb v

  module _ (go : ℕ → Option Circuit → W → Round A × Option Circuit × W)
      (leaves : (k : ℕ) (cb : Option Circuit) (w : W)
        → ValidIf cb
        → let (r, cb', _) = go k cb w in RoundLeaves r cb') where
    after_guard-Leaves :
        (k : ℕ) (g : Guard × Option Circuit × W)
        → GuardLeaves g.0 g.1
        → let (r, cb', _) = after_guard env p go k g in RoundLeaves r cb'
    after_guard-Leaves k (refused wait, none, w) v = tt
    after_guard-Leaves k (refused wait, some c, w) v = v
    after_guard-Leaves k (pass, none, w) v = leaves k none w tt
    after_guard-Leaves k (pass, some c, w) v = leaves k (some c) w v

    rounds-Leaves :
        (n k : ℕ) (last : Option Failure) (cb : Option Circuit) (w : W)
        → ValidIf cb
        → let (e, cb', _) = rounds env p go n k last cb w in Leaves e cb'
    unfolding rounds
    rounds-Leaves zero k none none w v = tt
    rounds-Leaves zero k none (some c) w v = v
    rounds-Leaves zero k (some e) none w v = tt
    rounds-Leaves zero k (some e) (some c) w v = v
    rounds-Leaves (suc n) k last cb w v =
        let (r, cb', w') = go k cb w in
        elim (Round-cases r) [
          | inl (e, h) ↦ rw (h, rounds) (rw h at (leaves k cb w v))
          | inr (e, h) ↦
              rw (h, rounds)
                (rounds-Leaves n (k + 1) (some e) cb' w'
                  (ValidIf-of-again e cb' (rw h at (leaves k cb w v))))
        ]

  attempt_sync-Leaves :
      (k : ℕ) (cb : Option Circuit) (w : W)
      → ValidIf cb
      → let (r, cb', _) = attempt_sync env p k cb w in RoundLeaves r cb'
  unfolding attempt_sync call_sync
  attempt_sync-Leaves k cb w v =
      after_guard-Leaves (call_sync env p)
        (λ k cb w.
          (let (start, w₁) = env.monotonic w in
            let (o, w₂) = env.call w₁ in after_call_sync-Leaves start o k cb w₂))
        k (guard_if env p cb w) (guard_if-Leaves cb w v)

  attempt_async-Leaves :
      (k : ℕ) (cb : Option Circuit) (w : W)
      → ValidIf cb
      → let (r, cb', _) = attempt_async env p k cb w in RoundLeaves r cb'
  unfolding attempt_async call_async
  attempt_async-Leaves k cb w v =
      after_guard-Leaves (call_async env p)
        (λ k cb w. (let (o, w') = env.wait_for p.timeout w in after_call_async-Leaves o k cb w')) k
        (guard_if env p cb w) (guard_if-Leaves cb w v)

  -- Where `_run_sync` is given a valid breaker, it leaves a valid one: closed and with no failures
  -- counted when it returns a value, not closed when it was refused, and not half open when it
  -- raises the failure of an attempt, which has been reported.
  pub run_sync-Leaves :
      (cb : Option Circuit) (w : W)
      → ValidIf cb
      → let (e, cb', _) = run_sync env p cb w in Leaves e cb'
  unfolding run_sync
  run_sync-Leaves cb w v =
      rounds-Leaves (attempt_sync env p) attempt_sync-Leaves p.max_attempts 0 none cb w v

  -- Where `_run_async` is given a valid breaker, it leaves a valid one: closed and with no failures
  -- counted when it returns a value, not closed when it was refused, and not half open when it
  -- raises the failure of an attempt, which has been reported.
  pub run_async-Leaves :
      (cb : Option Circuit) (w : W)
      → ValidIf cb
      → let (e, cb', _) = run_async env p cb w in Leaves e cb'
  unfolding run_async
  run_async-Leaves cb w v =
      rounds-Leaves (attempt_async env p) attempt_async-Leaves p.max_attempts 0 none cb w v
