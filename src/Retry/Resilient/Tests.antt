-- ===== src/Retry/Resilient/Tests.antt =====
-- Runs of decorated functions, and the theorems about them at concrete inputs.
use cubiczan_resilience.Base.{◌-◌, ◌≤◌, ◌≡◌, refl, true, false, none, some, [], ◌∷◌, arith}
use cubiczan_resilience.Base.Int.{pos}
use cubiczan_resilience.Circuit.{Circuit, fresh, opened}
use cubiczan_resilience.Circuit.Invariant.{IsValid}
use cubiczan_resilience.Retry.{build_policy, bad_attempts, default_retryable_status}
use cubiczan_resilience.Retry.Loop.{value}
use cubiczan_resilience.Retry.Loop.Calls.{Accounts}
use cubiczan_resilience.Retry.Loop.Guarded.{Leaves}
use cubiczan_resilience.Retry.Loop.Script.{
  World, scripted, scripted-Counts, flaky-Flaky, policy, world, flaky, denied,
}
use cubiczan_resilience.Retry.Loop.Live.Rounds.{Ended}
use cubiczan_resilience.Retry.Loop.Live.Recovery.{IsCooled}
use cubiczan_resilience.Retry.Resilient.{
  Settings, default_settings, wrapper, value_error, resilient, invoke,
}
use cubiczan_resilience.Retry.Resilient.Calls.{invoke-Accounts, invoke-Leaves}
use cubiczan_resilience.Retry.Resilient.Live.{invoke-succeeds, invoke-recovers}

abbrev settings : Settings
settings = record {
  timeout = pos 10;
  max_attempts = pos 3;
  base_delay = pos 4;
  max_delay = pos 20;
  multiplier = pos 2000;
  retryable_exceptions = none;
  retryable_status = default_retryable_status;
}

resilient-settings : resilient settings false ≡ wrapper policy false
unfolding resilient build_policy
resilient-settings = refl

resilient-no_attempts :
    resilient (record default_settings { max_attempts = pos 0 }) true ≡ value_error bad_attempts
unfolding resilient build_policy
resilient-no_attempts = refl

invoke-Accounts_example :
    let (e, _, w') = invoke scripted policy false none denied in
    (0 ≤ w'.calls) × Accounts policy (w'.calls - 0) e
invoke-Accounts_example =
    invoke-Accounts scripted settings policy (λ w. w.calls) scripted-Counts false none denied
      resilient-settings

abbrev breaker : Circuit
breaker = fresh 2 30 1

breaker-IsValid : IsValid breaker
breaker-IsValid = ground arith

invoke-Leaves_example :
    let (e, cb', _) = invoke scripted policy true (some breaker) flaky in Leaves e cb'
invoke-Leaves_example = invoke-Leaves scripted policy true (some breaker) flaky breaker-IsValid

-- A breaker that three failures open, so that the two of `flaky` do not.
abbrev patient : Circuit
patient = fresh 3 30 1

invoke-succeeds_example :
    Ended scripted policy 7 (some patient) (invoke scripted policy false (some patient) flaky)
invoke-succeeds_example =
    invoke-succeeds scripted policy false 2 (some patient) flaky 7 flaky-Flaky (refl, omega arith)
      (omega arith)

-- A breaker that opened at 60.
abbrev cooled : Circuit
cooled = record breaker { state = opened; failure_count = 2; opened_at = some 60 }

abbrev healthy : World
healthy = world ((2, value 7) ∷ [])

cooled-IsCooled : IsCooled 100 cooled
cooled-IsCooled = record {
  since = 60;
  is_open = refl;
  at_since = refl;
  over = omega arith;
  positive_calls = omega arith;
}

invoke-recovers_example :
    Ended scripted policy 7 (some cooled) (invoke scripted policy true (some cooled) healthy)
invoke-recovers_example =
    invoke-recovers scripted policy true cooled healthy 7 cooled-IsCooled refl (omega arith)
