-- ===== src/Circuit/Tests.antt =====
-- Runs of the breaker, and the theorems about it at concrete inputs. The clock is a list of
-- readings, then the last of them for ever.
use cubiczan_resilience.Base.{ℕ, ◌≤◌, ◌≡◌, refl, true, some, List, [], ◌∷◌, arith}
use cubiczan_resilience.Base.Int.{pos, negsuc}
use cubiczan_resilience.Circuit.{
  Circuit, opened, half_open, make, made, bad_cooldown, fresh, refused, allow, guard,
  record_success, record_failure,
}
use cubiczan_resilience.Circuit.Invariant.{IsValid}
use cubiczan_resilience.Circuit.Runs.{
  Op, allow_op, success_op, guard_op, failure_op, get_state_op, run, step, run-IsValid, step-Arrow,
  Arrow,
}
use cubiczan_resilience.Circuit.Machine.{
  counting, nothing, guarded, let_through, call, calls, performs,
}
use cubiczan_resilience.Circuit.Machine.Calls.{phase_of}
use cubiczan_resilience.Circuit.Machine.Refined.{calls-machine}
use cubiczan_resilience.Circuit.Trials.{ask, look, admissions, admissions-le-free}

abbrev readings : List ℕ → ℕ × List ℕ
readings [] = (1000, [])
readings (t ∷ ts) = (t, ts)

abbrev new : Circuit
new = fresh 2 30 1

abbrev tripped : Circuit
tripped = record new { state = opened; failure_count = 2; opened_at = some 10 }

abbrev trying : Circuit
trying = record tripped { state = half_open }

make-new : make (pos 2) (pos 30) (pos 1) ≡ made new
unfolding make
make-new = refl

make-negative : make (pos 2) (negsuc 0) (pos 1) ≡ bad_cooldown
unfolding make
make-negative = refl

run-trips :
    run readings (failure_op ∷ failure_op ∷ guard_op ∷ []) (new, 10 ∷ 15 ∷ 20 ∷ 25 ∷ [])
    ≡ (tripped, [])
unfolding run step guard record_failure
run-trips = refl

guard-waits : (guard readings tripped (15 ∷ 20 ∷ 25 ∷ [])).0 ≡ refused 15
unfolding guard
guard-waits = refl

new-IsValid : IsValid new
new-IsValid = ground arith

tripped-IsValid : IsValid tripped
tripped-IsValid = ground arith

run-IsValid_example :
    IsValid (run readings (failure_op ∷ failure_op ∷ get_state_op ∷ []) (new, 10 ∷ 50 ∷ [])).0
run-IsValid_example =
    run-IsValid readings (failure_op ∷ failure_op ∷ get_state_op ∷ []) (new, 10 ∷ 50 ∷ [])
      new-IsValid

step-Arrow_example :
    Arrow opened (step readings get_state_op (tripped, 50 ∷ [])).0.state get_state_op
step-Arrow_example = step-Arrow readings get_state_op (tripped, 50 ∷ [])

admissions-le-free_example : admissions readings (ask ∷ look ∷ ask ∷ []) tripped (50 ∷ []) ≤ 1
admissions-le-free_example =
    admissions-le-free readings (ask ∷ look ∷ ask ∷ []) tripped (50 ∷ []) tripped-IsValid
      (ground arith)

-- Two failures open the breaker, a call is refused, the trial call after the cooldown is let through,
-- and the next one is refused while it is under way.
abbrev day : List Op
day = failure_op ∷ failure_op ∷ guard_op ∷ allow_op ∷ guard_op ∷ success_op ∷ []

abbrev hours : List ℕ
hours = 15 ∷ 20 ∷ 25 ∷ 30 ∷ 50 ∷ 51 ∷ 52 ∷ []

day-answers :
    (calls readings day new hours).0
    ≡ nothing
      ∷ nothing
      ∷ guarded (refused 15)
      ∷ let_through true
      ∷ guarded (refused 0)
      ∷ nothing
      ∷ []
unfolding calls call allow guard record_failure record_success
day-answers = refl

calls-machine_example :
    let (answers, c, w) = calls readings day new hours in
    performs readings 2 30 1 day (counting 0) hours ≡ (answers, phase_of c, w)
calls-machine_example = calls-machine readings (pos 2) (pos 30) (pos 1) new make-new day hours
