-- ===== src/Retry/Loop/Tests.antt =====
-- Runs of the attempt loops.
use cubiczan_resilience.Base.{◌≡◌, refl, false, none, some, []}
use cubiczan_resilience.Circuit
use cubiczan_resilience.Circuit.{Circuit, fresh, closed, opened}
use cubiczan_resilience.Retry.{is_retryable}
use cubiczan_resilience.Retry.Loop.{returned, circuit_open, failed, own, run_sync, run_async}
use cubiczan_resilience.Retry.Loop.Script.{
  forbidden, interrupt, scripted, policy, flaky, denied, down,
}

run_sync-flaky :
    run_sync scripted policy none flaky
    ≡ (returned 7, none, record { script = []; time = 130; calls = 3 })
unfolding run_sync is_retryable
run_sync-flaky = refl

run_sync-denied : (run_sync scripted policy none denied).0 ≡ failed (own forbidden)
unfolding run_sync is_retryable
run_sync-denied = refl

run_async-flaky :
    run_async scripted policy none flaky
    ≡ (returned 7, none, record { script = []; time = 125; calls = 3 })
unfolding run_async is_retryable
run_async-flaky = refl

is_retryable-interrupt : is_retryable policy interrupt ≡ false
unfolding is_retryable
is_retryable-interrupt = refl

-- The breaker opens after two failures and refuses the third attempt.
run_sync-refused : (run_sync scripted policy (some (fresh 2 30 1)) down).0 ≡ circuit_open 22
unfolding run_sync is_retryable Circuit.guard Circuit.record_failure
run_sync-refused = refl
