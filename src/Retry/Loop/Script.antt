-- ===== src/Retry/Loop/Script.antt =====
-- A scripted world for runs of the attempt loops.
use cubiczan_resilience.Base.{ℕ, ◌+◌, refl, none, some, List, [], ◌∷◌, arith, ltb, if◌then◌else◌}
use cubiczan_resilience.Retry.{Exc, RetryPolicy, default_retryable_status, is_retryable}
use cubiczan_resilience.Retry.Loop.{Env, Outcome, value, raises, sleep_sync}
use cubiczan_resilience.Retry.Loop.Live.{HitsSync, MissesSync, Flaky, responds, fails}
use cubiczan_resilience.Retry.Loop.Count.{Counts}

abbrev pub unavailable : Exc
unavailable = record {
  mro = "HTTPError" ∷ "Exception" ∷ "BaseException" ∷ [];
  response = some (some 503);
  status_code = none;
}

abbrev pub forbidden : Exc
forbidden = record unavailable { response = some (some 403) }

abbrev pub interrupt : Exc
interrupt = record {
  mro = "KeyboardInterrupt" ∷ "BaseException" ∷ [];
  response = none;
  status_code = none;
}

abbrev pub timeout_error : Exc
timeout_error = record {
  mro = "TimeoutError" ∷ "OSError" ∷ "Exception" ∷ "BaseException" ∷ [];
  response = none;
  status_code = none;
}

-- The calls to come, each with the time that it takes; the time; the calls made.
pub record World : Type 0 where
  pub script : List (ℕ × Outcome ℕ)
  pub time : ℕ
  pub calls : ℕ

abbrev pub next_call : List (ℕ × Outcome ℕ) → World → Outcome ℕ × World
next_call [] w = (value 0, record w { calls = w.calls + 1 })
next_call ((t, o) ∷ rest) w = (o, record { script = rest; time = w.time + t; calls = w.calls + 1 })

abbrev pub cut_off : ℕ → List (ℕ × Outcome ℕ) → World → Outcome ℕ × World
cut_off d [] w = next_call [] w
cut_off d ((t, o) ∷ rest) w =
    if ltb d t
    then (raises timeout_error, record { script = rest; time = w.time + d; calls = w.calls + 1 })
    else next_call ((t, o) ∷ rest) w

abbrev pub scripted : Env World ℕ
scripted = record {
  breaker_clock = λ w. (w.time, w);
  monotonic = λ w. (w.time, w);
  call = λ w. next_call w.script w;
  wait_for = λ d w. cut_off d w.script w;
  uniform = λ c w. (c, w);
  sleep = λ d w. record w { time = w.time + d };
}

-- The breaker's clock stands still.
abbrev pub still : Env World ℕ
still = record scripted { breaker_clock = λ w. (5, w) }

pub scripted-Counts : Counts scripted (λ w. w.calls)
scripted-Counts = record {
  at_call = λ w. ground arith;
  at_wait_for = λ d w. ground arith;
  at_breaker_clock = λ w. refl;
  at_monotonic = λ w. refl;
  at_uniform = λ c w. refl;
  at_sleep = λ d w. refl;
}

pub still-Counts : Counts still (λ w. w.calls)
still-Counts = record {
  at_call = λ w. ground arith;
  at_wait_for = λ d w. ground arith;
  at_breaker_clock = λ w. refl;
  at_monotonic = λ w. refl;
  at_uniform = λ c w. refl;
  at_sleep = λ d w. refl;
}

abbrev pub policy : RetryPolicy
policy = record {
  timeout = 10;
  max_attempts = 3;
  base_delay = 4;
  max_delay = 20;
  multiplier = 2000;
  retryable_exceptions = "Exception" ∷ [];
  retryable_status = default_retryable_status;
}

abbrev pub world : List (ℕ × Outcome ℕ) → World
world s = record { script = s; time = 100; calls = 0 }

-- Two failures, with sleeps of 4 and 8 ticks, then a value.
abbrev pub flaky : World
flaky = world ((1, raises unavailable) ∷ (15, value 1) ∷ (2, value 7) ∷ [])

abbrev pub denied : World
denied = world ((1, raises unavailable) ∷ (1, raises forbidden) ∷ (2, value 7) ∷ [])

abbrev pub down : World
down = world ((1, raises unavailable) ∷ (1, raises unavailable) ∷ (1, raises unavailable) ∷ [])

pub flaky-Flaky :
    Flaky
      (HitsSync scripted policy)
      (MissesSync scripted policy)
      (sleep_sync scripted policy)
      2
      0
      flaky
      7
unfolding sleep_sync is_retryable
flaky-Flaky =
    fails {k = 0}
      {w' = record { script = (15, value 1) ∷ (2, value 7) ∷ []; time = 101; calls = 1 }}
      (refl, refl)
      (fails {k = 1} {w' = record { script = (2, value 7) ∷ []; time = 120; calls = 2 }}
        (omega arith, refl) (responds (refl, omega arith)))
