-- ===== src/Retry/Loop/Budget/Total.antt =====
-- The calls that an attempt loop makes within the budget of its circuit breaker.
use cubiczan_resilience.Base.{ℕ, zero, suc, ◌+◌, ◌≤◌, ◌<◌, ◌≡◌, refl, Option, none, some, arith}
use cubiczan_resilience.Circuit.{Circuit}
use cubiczan_resilience.Retry.{RetryPolicy}
use cubiczan_resilience.Retry.Loop.{
  Env, Failure, timeout_exceeded, own, Ending, returned, circuit_open, failed, exhausted,
  assertion_error, Round, finish, again, attempt_sync, attempt_async, rounds, run_sync, run_async,
}
use cubiczan_resilience.Retry.Loop.Count.{Counts}
use cubiczan_resilience.Retry.Loop.Calls.{Called, attempt_sync-Called, attempt_async-Called}
use cubiczan_resilience.Retry.Loop.Budget.{
  budget, IsRecent, RoundSpends, attempt_sync-spends, attempt_async-spends,
}

module _ {W A : Type 0} (env : Env W A) (p : RetryPolicy) (start d : ℕ)
    (short : (w : W) → (start ≤ (env.breaker_clock w).0) × ((env.breaker_clock w).0 < start + d))
    (count : W → ℕ) (counts : Counts env count) where
  module _ (body : ℕ → Option Circuit → W → Round A × Option Circuit × W)
      (called : (k : ℕ) (cb : Option Circuit) (w : W) → Called env p count counts k w (body k cb w))
      (spends : (k : ℕ) (c : Circuit) (w : W)
        → IsRecent start d c
        → let (r, cb', _) = body k (some c) w in RoundSpends start d c r cb') where
    rounds-again :
        (n k : ℕ) (last : Option Failure) (cb : Option Circuit) (w : W) {e : Failure}
        {cb' : Option Circuit} {w' : W}
        → body k cb w ≡ (again e, cb', w')
        → rounds env p body (suc n) k last cb w ≡ rounds env p body n (k + 1) (some e) cb' w'
    unfolding rounds
    rounds-again n k last cb w h = ground arith

    rounds-finish :
        (n k : ℕ) (last : Option Failure) (cb : Option Circuit) (w : W) {e : Ending A}
        {cb' : Option Circuit} {w' : W}
        → body k cb w ≡ (finish e, cb', w')
        → rounds env p body (suc n) k last cb w ≡ (e, cb', w')
    unfolding rounds
    rounds-finish n k last cb w h = ground arith

    abbrev Within : Circuit → W → Ending A × Option Circuit × W → Type 0
    Within c w (_, _, w') = count w' ≤ count w + budget c

    finish-Within :
        (k : ℕ) (c : Circuit) (w : W) (e : Ending A) (cb' : Option Circuit) (w' : W)
        → Called env p count counts k w (finish e, cb', w')
        → RoundSpends start d c (finish e) cb'
        → count w' ≤ count w + budget c
    finish-Within k c w (returned _) cb' w' called spends = omega (arith, called, spends)
    finish-Within k c w (circuit_open _) cb' w' called spends = omega (arith, called)
    finish-Within k c w (failed timeout_exceeded) cb' w' called spends =
        omega (arith, called, spends)
    finish-Within k c w (failed (own _)) cb' w' called spends = omega (arith, called, spends)
    finish-Within k c w (exhausted _ _) cb' w' called spends = absurd called.1
    finish-Within k c w assertion_error cb' w' called spends = absurd called.1

    rounds-step :
        (n k : ℕ) (last : Option Failure) (c : Circuit) (w : W) (r : Round A) (cb' : Option Circuit)
        (w' : W)
        → body k (some c) w ≡ (r, cb', w')
        → Called env p count counts k w (r, cb', w')
        → RoundSpends start d c r cb'
        → ((e : Failure) (c' : Circuit)
            → IsRecent start d c'
            → Within c' w' (rounds env p body n (k + 1) (some e) (some c') w'))
        → Within c w (rounds env p body (suc n) k last (some c) w)
    unfolding rounds
    rounds-step n k last c w (again e) none w' h called spends rest = absurd spends
    rounds-step n k last c w (again e) (some c') w' h called spends rest =
        rw (rounds-again n k last (some c) w h) (omega (arith, called, spends, rest e c' spends.0))
    rounds-step n k last c w (finish e) cb' w' h called spends rest =
        rw (rounds-finish n k last (some c) w h) (finish-Within k c w e cb' w' called spends)

    rounds-Within :
        (n k : ℕ) (last : Option Failure) (c : Circuit) (w : W)
        → IsRecent start d c
        → Within c w (rounds env p body n k last (some c) w)
    unfolding rounds
    rounds-Within zero k last c w r = omega arith
    rounds-Within (suc n) k last c w r =
        let (o, cb', w') = body k (some c) w in
        rounds-step n k last c w o cb' w' refl (called k (some c) w) (spends k c w r)
          (λ e c' r'. rounds-Within n (k + 1) (some e) c' w' r')

  -- If the readings of the breaker's clock during a run of `_run_sync` stay below `start + cooldown`,
  -- and a valid breaker that is open at the beginning opened at `start` or later, the run calls the
  -- function at most as often as the breaker's budget: for a closed breaker the failures that are
  -- missing to its threshold, for a half-open one once, for an open one never.
  pub run_sync-budget :
      (c : Circuit) (w : W)
      → IsRecent start d c
      → let (_, _, w') = run_sync env p (some c) w in count w' ≤ count w + budget c
  unfolding run_sync
  run_sync-budget c w r =
      rounds-Within (attempt_sync env p) (attempt_sync-Called env p count counts)
        (attempt_sync-spends env p start d short) p.max_attempts 0 none c w r

  -- If the readings of the breaker's clock during a run of `_run_async` stay below
  -- `start + cooldown`, and a valid breaker that is open at the beginning opened at `start` or
  -- later, the run calls the function at most as often as the breaker's budget: for a closed breaker
  -- the failures that are missing to its threshold, for a half-open one once, for an open one never.
  pub run_async-budget :
      (c : Circuit) (w : W)
      → IsRecent start d c
      → let (_, _, w') = run_async env p (some c) w in count w' ≤ count w + budget c
  unfolding run_async
  run_async-budget c w r =
      rounds-Within (attempt_async env p) (attempt_async-Called env p count counts)
        (attempt_async-spends env p start d short) p.max_attempts 0 none c w r
