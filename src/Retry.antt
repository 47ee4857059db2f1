-- ===== src/Retry.antt =====
-- The exceptions, the retry policy and its back-off: python/src/cubiczan_resilience/retry.py. The
-- attempt loops are in `Loop`. Delays and the timeout are numbers of clock ticks, the multiplier
-- is in thousandths.
pub mod Backoff
pub mod Loop
pub mod Resilient
use cubiczan_resilience.Base.{
  ℕ, ◌*◌, ◌/◌, ◌^◌, min, String, str_eq, Bool, false, ◌||◌, Option, none, some, List, [], ◌∷◌, any,
  ltb, ◌==◌, if◌then◌else◌,
}
use cubiczan_resilience.Base.Int.{ℤ, is_negative, is_below_one, magnitude}

-- An exception as the loops look at it: the names of its class and of the classes that it derives
-- from, and what its attributes `response` and `status_code` hold. `response` is `none` where the
-- attribute is missing or None; within it and in `status_code`, `none` is no attribute or one that
-- is no int.
pub record Exc : Type 0 where
  pub mro : List String
  pub response : Option (Option ℕ)
  pub status_code : Option ℕ

-- `isinstance(exc, cls)`.
unfoldable pub is_instance : Exc → String → Bool
is_instance e cls = any (str_eq cls) e.mro

-- `_status_of`.
unfoldable pub status_of : Exc → Option ℕ
status_of e = elim e.response [
  | none ↦ e.status_code
  | some r ↦ elim r [ none ↦ e.status_code | some code ↦ some code ]
]

-- `DEFAULT_RETRYABLE_STATUS`.
abbrev pub default_retryable_status : List ℕ
default_retryable_status = 408 ∷ 425 ∷ 429 ∷ 500 ∷ 502 ∷ 503 ∷ 504 ∷ []

-- `RetryPolicy`, but for the breaker and the generator, which change and are passed along.
pub record RetryPolicy : Type 0 where
  pub timeout : ℕ
  pub max_attempts : ℕ
  pub base_delay : ℕ
  pub max_delay : ℕ
  pub multiplier : ℕ
  pub retryable_exceptions : List String
  pub retryable_status : List ℕ

-- The `ValueError`s of `__post_init__`, or the policy.
pub data Built : Type 0 where
  bad_timeout bad_attempts bad_delays bad_multiplier : Built
  built : RetryPolicy → Built

abbrev is_not_positive : ℤ → Bool
is_not_positive = is_below_one

abbrev is_below_thousand : ℤ → Bool
is_below_thousand m = is_negative m || ltb (magnitude m) 1000

-- The tuple of exception classes that `_build_policy` passes on.
abbrev classes_or_default : Option (List String) → List String
classes_or_default none = "Exception" ∷ []
classes_or_default (some cs) = cs

-- `RetryPolicy(...)` with its `__post_init__`.
abbrev pub post_init :
    (timeout max_attempts base_delay max_delay multiplier : ℤ) → List String → List ℕ → Built
post_init timeout max_attempts base_delay max_delay multiplier excs status =
    if is_not_positive timeout
    then bad_timeout
    else if is_below_one max_attempts
    then bad_attempts
    else if is_negative base_delay || is_negative max_delay
    then bad_delays
    else if is_below_thousand multiplier
    then bad_multiplier
    else built (record {
      timeout = magnitude timeout;
      max_attempts = magnitude max_attempts;
      base_delay = magnitude base_delay;
      max_delay = magnitude max_delay;
      multiplier = magnitude multiplier;
      retryable_exceptions = excs;
      retryable_status = status;
    })

-- `_build_policy`.
unfoldable pub build_policy :
    (timeout max_attempts base_delay max_delay multiplier : ℤ)
    → Option (List String)
    → List ℕ
    → Built
build_policy timeout max_attempts base_delay max_delay multiplier excs status =
    post_init timeout max_attempts base_delay max_delay multiplier (classes_or_default excs) status

-- `min(base_delay * multiplier ** attempt, max_delay)`.
unfoldable pub ceiling : RetryPolicy → ℕ → ℕ
ceiling p attempt = min (p.base_delay * p.multiplier ^ attempt / 1000 ^ attempt) p.max_delay

-- `RetryPolicy.is_retryable`.
unfoldable pub is_retryable : RetryPolicy → Exc → Bool
unfolding is_instance status_of
is_retryable p e = if is_instance e "CircuitOpenError" then false else elim (status_of e) [
  | some code ↦ any (λ s. s == code) p.retryable_status
  | none ↦ any (is_instance e) p.retryable_exceptions
]
