-- ===== src/Retry/Loop/Ends.antt =====
-- How the attempt loops can end.
use cubiczan_resilience.Base.{ℕ, zero, suc, ◌+◌, ◌<◌, ◌≡◌, refl, false, Option, none, some, arith}
use cubiczan_resilience.Circuit.{Circuit}
use cubiczan_resilience.Retry.{RetryPolicy}
use cubiczan_resilience.Retry.Loop.{
  Env, Failure, timeout_exceeded, Ending, returned, circuit_open, failed, exhausted,
  assertion_error, Round, finish, again, is_last, attempt_sync, attempt_async, rounds, run_sync,
  run_async,
}

-- The endings that a loop may have: the function's value, the breaker's refusal where there is a
-- breaker, or the failure of an attempt.
abbrev pub IsProper : {A : Type 0} → Option Circuit → Ending A → Type 0
IsProper cb (returned _) = Unit
IsProper none (circuit_open _) = ⊥
IsProper (some _) (circuit_open _) = Unit
IsProper cb (failed _) = Unit
IsProper cb (exhausted _ _) = ⊥
IsProper cb assertion_error = ⊥

-- A round ends properly or goes on, not in the last attempt, and there is a breaker after it where
-- there was one before.
abbrev pub RoundFits : {A : Type 0} → RetryPolicy → ℕ → Option Circuit → Round A → Type 0
RoundFits p attempt cb (finish e) = IsProper cb e
RoundFits p attempt cb (again _) = is_last p attempt ≡ false

abbrev pub SameKind : Option Circuit → Option Circuit → Type 0
SameKind none none = Unit
SameKind (some _) (some _) = Unit
SameKind _ _ = ⊥

module _ {W A : Type 0} (env : Env W A) (p : RetryPolicy) where
  attempt_sync-RoundFits :
      (k : ℕ) (cb : Option Circuit) (w : W)
      → let (r, cb', _) = attempt_sync env p k cb w in RoundFits p k cb r × SameKind cb cb'
  unfolding attempt_sync
  attempt_sync-RoundFits k cb w = ground arith

  attempt_async-RoundFits :
      (k : ℕ) (cb : Option Circuit) (w : W)
      → let (r, cb', _) = attempt_async env p k cb w in RoundFits p k cb r × SameKind cb cb'
  unfolding attempt_async
  attempt_async-RoundFits k cb w = ground arith

  module _ (body : ℕ → Option Circuit → W → Round A × Option Circuit × W)
      (fits : (k : ℕ) (cb : Option Circuit) (w : W)
        → let (r, cb', _) = body k cb w in RoundFits p k cb r × SameKind cb cb') where
    rounds-IsProper :
        (n k : ℕ) (last : Option Failure) (cb : Option Circuit) (w : W)
        → k + suc n ≡ p.max_attempts
        → IsProper cb (rounds env p body (suc n) k last cb w).0
    unfolding rounds
    rounds-IsProper zero k last cb w e = ground (arith, fits k cb w)
    rounds-IsProper (suc n) k last cb w e =
        let (r, cb', w') = body k cb w in
        ground (arith, fits k cb w, rounds-IsProper n (k + 1) (some timeout_exceeded) cb' w')

    rounds-IsProper_pos :
        (n : ℕ) (cb : Option Circuit) (w : W)
        → 0 < n
        → n ≡ p.max_attempts
        → IsProper cb (rounds env p body n 0 none cb w).0
    rounds-IsProper_pos zero cb w h e = absurd (omega arith)
    rounds-IsProper_pos (suc n) cb w h e = rounds-IsProper n 0 none cb w (omega arith)

  -- With at least one attempt, as the policy's constructor demands, `_run_sync` ends by returning
  -- the function's value, by the breaker's refusal if there is a breaker, or by raising the failure
  -- of an attempt. It never reaches the code after its loop: neither the assertion error nor
  -- `RetriesExhausted` is raised.
  pub run_sync-IsProper :
      (cb : Option Circuit) (w : W) → 0 < p.max_attempts → IsProper cb (run_sync env p cb w).0
  unfolding run_sync
  run_sync-IsProper cb w h =
      rounds-IsProper_pos (attempt_sync env p) attempt_sync-RoundFits p.max_attempts cb w h refl

  -- With at least one attempt, as the policy's constructor demands, `_run_async` ends by returning
  -- the function's value, by the breaker's refusal if there is a breaker, or by raising the failure
  -- of an attempt. It never reaches the code after its loop: neither the assertion error nor
  -- `RetriesExhausted` is raised.
  pub run_async-IsProper :
      (cb : Option Circuit) (w : W) → 0 < p.max_attempts → IsProper cb (run_async env p cb w).0
  unfolding run_async
  run_async-IsProper cb w h =
      rounds-IsProper_pos (attempt_async env p) attempt_async-RoundFits p.max_attempts cb w h refl
