-- ===== src/Retry/Backoff.antt =====
-- The delays between the attempts, and what a policy that was built guarantees.
use cubiczan_resilience.Base.{ℕ, ◌*◌, ◌/◌, ◌^◌, ◌≤◌, ◌<◌, ◌≡◌, String, Option, List, arith}
use cubiczan_resilience.Base.Int.{ℤ}
use cubiczan_resilience.Retry.{RetryPolicy, built, build_policy}

pub record IsUsable (p : RetryPolicy) : Type 0 where
  pub positive_timeout : 0 < p.timeout
  pub positive_attempts : 0 < p.max_attempts
  pub growing : 1000 ≤ p.multiplier

-- A policy that the constructor accepts has a positive timeout, at least one attempt and a
-- multiplier of at least 1.
pub build_policy-IsUsable :
    (t a b d m : ℤ) (excs : Option (List String)) (status : List ℕ) {p : RetryPolicy}
    → build_policy t a b d m excs status ≡ built p
    → IsUsable p
unfolding build_policy
build_policy-IsUsable t a b d m excs status h = ground arith

-- The bound before it is cut off at the greatest delay.
abbrev raw : RetryPolicy → ℕ → ℕ
raw p k = p.base_delay * p.multiplier ^ k / 1000 ^ k
