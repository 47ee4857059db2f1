-- ===== src/Retry/Loop/Calls.antt =====
-- How often the attempt loops call the wrapped function.
use cubiczan_resilience.Base.{
  ℕ, zero, suc, ◌+◌, ◌-◌, ◌≤◌, ◌<◌, ◌≡◌, ◌⊎◌, refl, true, false, Option, none, some, arith, not,
  ◌||◌,
}
use cubiczan_resilience.Circuit.{Circuit, Guard, pass, refused}
use cubiczan_resilience.Retry.{RetryPolicy, is_retryable}
use cubiczan_resilience.Retry.Loop.Count.{
  Counts, guard_if-count, sleep_sync-count, sleep_async-count, fail_with-count, fail_with-round,
}
use cubiczan_resilience.Retry.Loop.{
  Env, Outcome, value, raises, Failure, timeout_exceeded, own, Ending, returned, circuit_open,
  failed, exhausted, assertion_error, Round, finish, again, is_last, guard_if, sleep_sync,
  sleep_async, after_call_sync, call_sync, after_call_async, call_async, after_guard, attempt_sync,
  attempt_async, rounds, run_sync, run_async,
}

-- What the ending says of the number of calls that were made.
abbrev pub Accounts : {A : Type 0} → RetryPolicy → ℕ → Ending A → Type 0
Accounts p calls (returned _) = (0 < calls) × (calls ≤ p.max_attempts)
Accounts p calls (circuit_open _) = calls < p.max_attempts
Accounts p calls (failed timeout_exceeded) = calls ≡ p.max_attempts
Accounts p calls (failed (own e)) =
    (0 < calls) × (calls ≤ p.max_attempts) × ((is_retryable p e ≡ false) ⊎ (calls ≡ p.max_attempts))
Accounts p calls (exhausted _ _) = ⊥
Accounts p calls assertion_error = ⊥

-- The same of one round, which makes `calls` calls.
abbrev pub RoundCalls : {A : Type 0} → RetryPolicy → ℕ → ℕ → Round A → Type 0
RoundCalls p k calls (finish (returned _)) = calls ≡ 1
RoundCalls p k calls (finish (circuit_open _)) = calls ≡ 0
RoundCalls p k calls (finish (failed timeout_exceeded)) = (calls ≡ 1) × (is_last p k ≡ true)
RoundCalls p k calls (finish (failed (own e))) =
    (calls ≡ 1) × ((is_retryable p e ≡ false) ⊎ (is_last p k ≡ true))
RoundCalls p k calls (finish (exhausted _ _)) = ⊥
RoundCalls p k calls (finish assertion_error) = ⊥
RoundCalls p k calls (again _) = (calls ≡ 1) × (is_last p k ≡ false)

module _ {W A : Type 0} (env : Env W A) (p : RetryPolicy) (count : W → ℕ)
    (counts : Counts env count) where
  after_call_sync-calls :
      (start : ℕ) (o : Outcome A) (k : ℕ) (cb : Option Circuit) (w : W)
      → let (r, _, w') = after_call_sync env p start o k cb w in
        (count w' ≡ count w) × RoundCalls p k 1 r
  unfolding after_call_sync
  after_call_sync-calls start (raises e) k cb w =
      let ends = not (is_retryable p e) || is_last p k in
      ground (
        arith,
        fail_with-count env p count counts (sleep_sync env p) ends (own e) k cb w
            (sleep_sync-count env p count counts k),
        fail_with-round env p count counts (sleep_sync env p) ends (own e) k cb w,
      )
  after_call_sync-calls start (value a) k cb w =
      let w₁ = (env.monotonic w).1 in
      ground (
        arith,
        counts.at_monotonic w,
        fail_with-count env p count counts (sleep_sync env p) (is_last p k) timeout_exceeded k cb w₁
            (sleep_sync-count env p count counts k),
        fail_with-round env p count counts (sleep_sync env p) (is_last p k) timeout_exceeded k cb
            w₁,
      )

  after_call_async-calls :
      (o : Outcome A) (k : ℕ) (cb : Option Circuit) (w : W)
      → let (r, _, w') = after_call_async env p o k cb w in
        (count w' ≡ count w) × RoundCalls p k 1 r
  unfolding after_call_async
  after_call_async-calls (raises e) k cb w =
      let ends = not (is_retryable p e) || is_last p k in
      ground (
        arith,
        fail_with-count env p count counts (sleep_async env p) ends (own e) k cb w
            (sleep_async-count env p count counts k),
        fail_with-round env p count counts (sleep_async env p) ends (own e) k cb w,
        fail_with-count env p count counts (sleep_async env p) (is_last p k) timeout_exceeded k cb w
            (sleep_async-count env p count counts k),
        fail_with-round env p count counts (sleep_async env p) (is_last p k) timeout_exceeded k cb
            w,
      )
  after_call_async-calls (value a) k cb w = ground arith

  -- The function is called once in a round that passes the guard, and not in one that does not.
  abbrev pub Called : ℕ → W → Round A × Option Circuit × W → Type 0
  Called k w (r, _, w') = (count w ≤ count w') × RoundCalls p k (count w' - count w) r

  Called-once :
      (k : ℕ) (w : W) (t : Round A × Option Circuit × W)
      → count t.2 ≡ count w + 1
      → RoundCalls p k 1 t.0
      → Called k w t
  Called-once k w t e h = let d : count t.2 - count w ≡ 1 = omega arith in (omega arith, rw d h)

  call_sync-Called : (k : ℕ) (cb : Option Circuit) (w : W) → Called k w (call_sync env p k cb w)
  unfolding call_sync
  call_sync-Called k cb w =
      let (start, w₁) = env.monotonic w in
      let (o, w₂) = env.call w₁ in
      let after = after_call_sync-calls start o k cb w₂ in
      Called-once k w (after_call_sync env p start o k cb w₂)
        (omega (arith, after.0, counts.at_call w₁, counts.at_monotonic w)) after.1

  call_async-Called : (k : ℕ) (cb : Option Circuit) (w : W) → Called k w (call_async env p k cb w)
  unfolding call_async
  call_async-Called k cb w =
      let (o, w₁) = env.wait_for p.timeout w in
      let after = after_call_async-calls o k cb w₁ in
      Called-once k w (after_call_async env p o k cb w₁)
        (omega (arith, after.0, counts.at_wait_for p.timeout w)) after.1

  module _ (go : ℕ → Option Circuit → W → Round A × Option Circuit × W)
      (called : (k : ℕ) (cb : Option Circuit) (w : W) → Called k w (go k cb w)) where
    after_guard-Called :
        (k : ℕ) (w : W) (g : Guard × Option Circuit × W)
        → count g.2 ≡ count w
        → Called k w (after_guard env p go k g)
    after_guard-Called k w (refused wait, cb, w') e = ground arith
    after_guard-Called k w (pass, cb, w') e = rw (← e) (called k cb w')

    -- The accounts of the rounds `k`, `k + 1`, … of a loop whose body calls the function so.
    rounds-Accounts :
        (n k : ℕ) (last : Option Failure) (cb : Option Circuit) (w : W) (before : ℕ)
        → k + suc n ≡ p.max_attempts
        → count w ≡ before + k
        → let (e, _, w') = rounds env p go (suc n) k last cb w in
          (before ≤ count w') × Accounts p (count w' - before) e
    unfolding rounds
    rounds-Accounts zero k last cb w before e c = ground (arith, called k cb w)
    rounds-Accounts (suc n) k last cb w before e c =
        let (r, cb', w') = go k cb w in
        ground
          (arith, called k cb w, rounds-Accounts n (k + 1) (some timeout_exceeded) cb' w' before)

    Accounts-from :
        (n : ℕ) (cb : Option Circuit) (w : W)
        → 0 < n
        → n ≡ p.max_attempts
        → let (e, _, w') = rounds env p go n 0 none cb w in
          (count w ≤ count w') × Accounts p (count w' - count w) e
    Accounts-from zero cb w h e = absurd (omega arith)
    Accounts-from (suc n) cb w h e =
        rounds-Accounts n 0 none cb w (count w) (omega arith) (omega arith)

  pub attempt_sync-Called :
      (k : ℕ) (cb : Option Circuit) (w : W) → Called k w (attempt_sync env p k cb w)
  unfolding attempt_sync
  attempt_sync-Called k cb w =
      after_guard-Called (call_sync env p) call_sync-Called k w (guard_if env p cb w)
        (guard_if-count env p count counts cb w)

  pub attempt_async-Called :
      (k : ℕ) (cb : Option Circuit) (w : W) → Called k w (attempt_async env p k cb w)
  unfolding attempt_async
  attempt_async-Called k cb w =
      after_guard-Called (call_async env p) call_async-Called k w (guard_if env p cb w)
        (guard_if-count env p count counts cb w)

  -- How an ending of `_run_sync` and the number of calls of the function go together, for a policy
  -- that allows at least one attempt. A value was returned after 1 to `max_attempts` calls. The
  -- breaker's refusal left at least one attempt unused. A `TimeoutExceeded` was raised only when
  -- all attempts were used. An exception of the function was raised after 1 to `max_attempts`
  -- calls, and if it was after fewer than `max_attempts`, it was not retryable.
  pub run_sync-Accounts :
      (cb : Option Circuit) (w : W)
      → 0 < p.max_attempts
      → let (e, _, w') = run_sync env p cb w in
        (count w ≤ count w') × Accounts p (count w' - count w) e
  unfolding run_sync
  run_sync-Accounts cb w h =
      Accounts-from (attempt_sync env p) attempt_sync-Called p.max_attempts cb w h refl

  -- How an ending of `_run_async` and the number of calls of the function go together, for a policy
  -- that allows at least one attempt. A value was returned after 1 to `max_attempts` calls. The
  -- breaker's refusal left at least one attempt unused. A `TimeoutExceeded` was raised only when all
  -- attempts were used. An exception of the function was raised after 1 to `max_attempts` calls, and
  -- if it was after fewer than `max_attempts`, it was not retryable.
  pub run_async-Accounts :
      (cb : Option Circuit) (w : W)
      → 0 < p.max_attempts
      → let (e, _, w') = run_async env p cb w in
        (count w ≤ count w') × Accounts p (count w' - count w) e
  unfolding run_async
  run_async-Accounts cb w h =
      Accounts-from (attempt_async env p) attempt_async-Called p.max_attempts cb w h refl
