-- ===== src/Onchain/Breaker.antt =====
-- The breaker of client.py, `CircuitBreaker`, which is another one than that of the package
-- cubiczan_resilience.
use cubiczan_resilience.Base.{
  ℕ, zero, suc, ◌+◌, ◌≤◌, ◌<◌, ◌≡◌, Bool, true, false, ◌&&◌, not, Option, none, some, arith, ltb,
  leb, if◌then◌else◌,
}
use cubiczan_resilience.Base.Int.{ℤ, is_below_one, magnitude}

pub record Breaker : Type 0 where
  pub threshold : ℕ
  pub cooldown : ℕ
  pub consecutive_failures : ℕ
  pub opened_at : Option ℕ

-- `none` is the error BAD_CONFIG. A cooldown that is not positive never ends, as 0 does.
pub make : ℤ → ℤ → Option Breaker
make threshold cooldown =
    if is_below_one threshold
    then none
    else some (record {
      threshold = magnitude threshold;
      cooldown = magnitude cooldown;
      consecutive_failures = 0;
      opened_at = none;
    })

unfoldable pub record_success : Breaker → Breaker
record_success b = record b { consecutive_failures = 0; opened_at = none }

module _ {W : Type 0} (now : W → ℕ × W) where
  -- `assert_closed`: true where it returns, false where it raises `CircuitOpenError`.
  unfoldable pub assert_closed : Breaker → W → Bool × W
  assert_closed b w = elim b.opened_at [
    | none ↦ (true, w)
    | some since ↦
        if ltb 0 b.cooldown
        then (let (t, w') = now w in (leb (since + b.cooldown) t, w'))
        else (false, w)
  ]

  unfoldable pub record_failure : Breaker → W → Breaker × W
  record_failure b w =
      let n = b.consecutive_failures + 1 in
      if leb b.threshold n
      then (let (t, w') = now w in (record b { consecutive_failures = n; opened_at = some t }, w'))
      else (record b { consecutive_failures = n }, w)

  pub is_open : Breaker → W → Bool × W
  unfolding assert_closed
  is_open b w = let (closed, w') = assert_closed b w in (not closed, w')

  -- `n` failures in a row.
  pub failures : ℕ → Breaker × W → Breaker × W
  failures zero s = s
  failures (suc n) (b, w) = failures n (record_failure b w)

-- At the time `t` the cooldown of an opened breaker is over.
abbrev pub is_cooled : Breaker → ℕ → Bool
is_cooled b t = elim b.opened_at [
  | none ↦ false
  | some since ↦ ltb 0 b.cooldown && leb (since + b.cooldown) t
]

-- A breaker that has never opened has fewer failures than its threshold, one that opened has at
-- least as many.
abbrev pub OpenFits : Option ℕ → Breaker → Type 0
OpenFits none b = b.consecutive_failures < b.threshold
OpenFits (some _) b = b.threshold ≤ b.consecutive_failures

pub record IsValid (b : Breaker) : Type 0 where
  pub positive : 0 < b.threshold
  pub fits : OpenFits b.opened_at b

-- The constructor makes a valid breaker.
pub make-IsValid : (t d : ℤ) (b : Breaker) → make t d ≡ some b → IsValid b
unfolding make
make-IsValid t d b h = ground arith

pub record_success-IsValid : (b : Breaker) → IsValid b → IsValid (record_success b)
unfolding record_success
record_success-IsValid b v = ground arith

module _ {W : Type 0} (now : W → ℕ × W) where
  pub record_failure-IsValid :
      (b : Breaker) (w : W) → IsValid b → IsValid (record_failure now b w).0
  unfolding record_failure
  record_failure-IsValid b w v = ground arith
