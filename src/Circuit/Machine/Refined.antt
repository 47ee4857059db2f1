-- ===== src/Circuit/Machine/Refined.antt =====
-- The breaker is the machine, whatever methods are called.
use mathlib.Core.Path.{subst}
use cubiczan_resilience.Base.{
  ℕ, ◌≡◌, refl, ap, sym, ◌∙◌, Bool, true, false, List, [], ◌∷◌, arith, if◌then◌else◌,
}
use cubiczan_resilience.Base.Int.{ℤ}
use cubiczan_resilience.Circuit
use cubiczan_resilience.Circuit.{
  CircuitState, closed, opened, half_open, Circuit, Guard, pass, refused, Made, made, make,
}
use cubiczan_resilience.Circuit.Runs.{
  Op, get_state_op, allow_op, retry_after_op, guard_op, success_op, failure_op, reset_op,
}
use cubiczan_resilience.Circuit.Machine.{
  Phase, counting, Answer, let_through, seconds, guarded, guarded_by, call, calls, perform,
  performs,
}
use cubiczan_resilience.Circuit.Machine.Calls.{
  phase_of, Fits, Runs, Refines, by_fields, get_state-Refines, allow-Refines, retry_after-Refines,
  failure-Refines,
}

module _ {W : Type 0} (clock : W → ℕ × W) (t d m : ℕ) where
  abbrev is_through : Answer → Bool
  is_through (let_through b) = b
  is_through _ = false

  abbrev seconds_of : Answer → ℕ
  seconds_of (seconds n) = n
  seconds_of _ = 0

  -- `guard` of the machine and of the breaker, from the answers of `allow` and `retry_after`.
  abbrev joined : {S : Type 0} → (S → W → Answer × S × W) → Bool → S → W → Answer × S × W
  joined ask true s w = (guarded pass, s, w)
  joined ask false s w = let (a, s', w') = ask s w in (guarded (refused (seconds_of a)), s', w')

  perform-joined :
      (p : Phase) (w : W)
      → let (a, p', w') = perform clock t d m allow_op p w in
        perform clock t d m guard_op p w
        ≡ joined (perform clock t d m retry_after_op) (is_through a) p' w'
  unfolding perform
  perform-joined p w = go _ _ _
    where
      go :
          (b : Bool) (p : Phase) (w : W)
          → guarded_by clock t d m (b, p) w ≡ joined (perform clock t d m retry_after_op) b p w
      go true p w = refl
      go false p w = refl

  call-joined :
      (c : Circuit) (w : W)
      → let (a, c', w') = call clock allow_op c w in
        call clock guard_op c w ≡ joined (call clock retry_after_op) (is_through a) c' w'
  unfolding call Circuit.guard
  call-joined c w = let (b, c', w') = Circuit.allow clock c w in go b c' w'
    where
      go :
          (b : Bool) (c : Circuit) (w : W)
          → (let (g, c', w') =
                if◌then◌else◌ {A = Guard × Circuit × W} b
                  (pass, c, w)
                  (let (n, c₁, w₁) = Circuit.retry_after clock c w in (refused n, c₁, w₁)) in
              (guarded g, c', w'))
            ≡ joined (call clock retry_after_op) b c w
      go true c w = refl
      go false c w = refl

  joined-Refines :
      (b : Bool) (c : Circuit) (w : W)
      → Runs t d m c
      → let (a, c', w') = joined (call clock retry_after_op) b c w in
        (joined (perform clock t d m retry_after_op) b (phase_of c) w ≡ (a, phase_of c', w'))
        × Runs t d m c'
  joined-Refines true c w r = (refl, r)
  joined-Refines false c w r =
      let (same, r') =
        by_fields clock t d m retry_after_op (retry_after-Refines clock t d m) c w r in
      (ap (λ x. (guarded (refused (seconds_of x.0)), x.1, x.2)) same, r')

  guard-Refines : (c : Circuit) (w : W) → Runs t d m c → Refines clock t d m guard_op c w
  guard-Refines c w r =
      let (same, r') = by_fields clock t d m allow_op (allow-Refines clock t d m) c w r in
      let (a, c₁, w₁) = call clock allow_op c w in
      let (joins, r'') = joined-Refines (is_through a) c₁ w₁ r' in
      subst
        (λ x.
          (perform clock t d m guard_op (phase_of c) w ≡ (x.0, phase_of x.1, x.2)) × Runs t d m x.1)
        (sym (call-joined c w))
        (
          perform-joined (phase_of c) w
              ∙ ap (λ x. joined (perform clock t d m retry_after_op) (is_through x.0) x.1 x.2) same
              ∙ joins,
          r'',
        )

  pub call-Refines : (op : Op) (c : Circuit) (w : W) → Runs t d m c → Refines clock t d m op c w
  unfolding call perform Circuit.record_success Circuit.reset
  call-Refines get_state_op c w r =
      by_fields clock t d m get_state_op (get_state-Refines clock t d m) c w r
  call-Refines allow_op c w r = by_fields clock t d m allow_op (allow-Refines clock t d m) c w r
  call-Refines retry_after_op c w r =
      by_fields clock t d m retry_after_op (retry_after-Refines clock t d m) c w r
  call-Refines guard_op c w r = guard-Refines c w r
  call-Refines success_op c w r = (
    refl,
    record { threshold = r.threshold; cooldown = r.cooldown; max_calls = r.max_calls; fits = tt },
  )
  call-Refines failure_op c w r =
      by_fields clock t d m failure_op (failure-Refines clock t d m) c w r
  call-Refines reset_op c w r = (
    refl,
    record { threshold = r.threshold; cooldown = r.cooldown; max_calls = r.max_calls; fits = tt },
  )

  -- A breaker and the machine.
  pub calls-performs :
      (ops : List Op) (c : Circuit) (w : W)
      → Runs t d m c
      → let (answers, c', w') = calls clock ops c w in
        (performs clock t d m ops (phase_of c) w ≡ (answers, phase_of c', w')) × Runs t d m c'
  unfolding calls performs
  calls-performs [] c w r = (refl, r)
  calls-performs (op ∷ ops) c w r =
      let (a, c₁, w₁) = call clock op c w in
      let (same, r₁) = call-Refines op c w r in
      let (rest, r₂) = calls-performs ops c₁ w₁ r₁ in
      (
        ap (λ x. (let y = performs clock t d m ops x.1 x.2 in (x.0 ∷ y.0, y.1, y.2))) same
            ∙ ap (λ y. (a ∷ y.0, y.1, y.2)) rest,
        r₂,
      )

made-Runs :
    (threshold cooldown trials : ℤ) (c : Circuit)
    → make threshold cooldown trials ≡ made c
    → Runs c.failure_threshold c.cooldown c.half_open_max_calls c × (phase_of c ≡ counting 0)
unfolding make
made-Runs threshold cooldown trials c h =
    let closes : c.state ≡ closed = ground arith in
    let none_failed : c.failure_count ≡ 0 = ground arith in
    (
      record {
        threshold = refl;
        cooldown = refl;
        max_calls = refl;
        fits = subst (λ s. Fits c.failure_threshold s c.failure_count c.opened_at) (sym closes) tt;
      },
      rw (closes, none_failed) refl,
    )

-- A breaker that the constructor returns is the machine of its settings, whatever methods are called
-- in whatever order: both give the same answers, read the clock as often, and are in the same phase.
-- So nothing but one number counts in each state: the failures in a row while closed, the time of
-- the opening while open, and the trial calls while half open. A failure that is reported while the
-- breaker is open begins the cooldown anew.
pub calls-machine :
    {W : Type 0} (clock : W → ℕ × W) (threshold cooldown trials : ℤ) (c : Circuit)
    → make threshold cooldown trials ≡ made c
    → (ops : List Op) (w : W)
    → let (answers, c', w') = calls clock ops c w in
      performs clock c.failure_threshold c.cooldown c.half_open_max_calls ops (counting 0) w
      ≡ (answers, phase_of c', w')
calls-machine clock threshold cooldown trials c h ops w =
    let (runs, starts) = made-Runs threshold cooldown trials c h in
    ap (λ p. performs clock c.failure_threshold c.cooldown c.half_open_max_calls ops p w)
      (sym starts)
    ∙ (calls-performs clock c.failure_threshold c.cooldown c.half_open_max_calls ops c w runs).0
