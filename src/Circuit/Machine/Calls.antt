-- ===== src/Circuit/Machine/Calls.antt =====
-- One call of a method, on the breaker and on the machine.
use mathlib.Core.Path.{subst}
use cubiczan_resilience.Base.{
  Bool-cases, inl, inr, ℕ, ◌+◌, ◌≤◌, ◌≡◌, ◌≢◌, refl, sym, true, Option, none, some, leb, arith,
}
use cubiczan_resilience.Circuit
use cubiczan_resilience.Circuit.{
  CircuitState, closed, opened, half_open, Circuit, Guard, pass, refused, Made, made, make,
}
use cubiczan_resilience.Circuit.Runs.{Op, get_state_op, allow_op, retry_after_op, failure_op}
use cubiczan_resilience.Circuit.Machine.{Phase, counting, waiting, trying, call, perform}

-- The phase of a breaker, by its state.
abbrev pub phase_of : Circuit → Phase
phase_of c = elim c.state [
  | closed ↦ counting c.failure_count
  | opened ↦ elim c.opened_at [ none ↦ waiting 0 | some since ↦ waiting since ]
  | half_open ↦ trying c.half_open_calls
]

-- A breaker by its settings and its fields.
abbrev breaker : ℕ → ℕ → ℕ → CircuitState → ℕ → Option ℕ → ℕ → Circuit
breaker t d m s n since k = record {
  failure_threshold = t;
  cooldown = d;
  half_open_max_calls = m;
  state = s;
  failure_count = n;
  opened_at = since;
  half_open_calls = k;
}

-- What holds of a breaker with these settings: unless it is closed, it has failed often enough and
-- knows when it opened.
abbrev pub Fits : ℕ → CircuitState → ℕ → Option ℕ → Type 0
Fits t closed n since = Unit
Fits t opened n since = (t ≤ n) × (since ≢ none)
Fits t half_open n since = t ≤ n

pub record Runs (t d m : ℕ) (c : Circuit) : Type 0 where
  pub threshold : c.failure_threshold ≡ t
  pub cooldown : c.cooldown ≡ d
  pub max_calls : c.half_open_max_calls ≡ m
  pub fits : Fits t c.state c.failure_count c.opened_at

module _ {W : Type 0} (clock : W → ℕ × W) (t d m : ℕ) where
  -- One call: the same answer, the same phase, the same readings of the clock.
  abbrev pub Refines : Op → Circuit → W → Type 0
  Refines op c w =
      let (a, c', w') = call clock op c w in
      (perform clock t d m op (phase_of c) w ≡ (a, phase_of c', w')) × Runs t d m c'

  runs :
      (s : CircuitState) (n k : ℕ) (since : Option ℕ)
      → Fits t s n since
      → Runs t d m (breaker t d m s n since k)
  runs s n k since f = record { threshold = refl; cooldown = refl; max_calls = refl; fits = f }

  pub get_state-Refines :
      (s : CircuitState) (n k : ℕ) (since : Option ℕ) (w : W)
      → Fits t s n since
      → Refines get_state_op (breaker t d m s n since k) w
  unfolding call perform Circuit.get_state
  get_state-Refines closed n k since w f = (refl, runs closed n k since f)
  get_state-Refines opened n k none w f = absurd (f.1 refl)
  get_state-Refines opened n k (some since) w f =
      ground (arith, runs half_open n 0 (some since) f.0, runs opened n k (some since) f)
  get_state-Refines half_open n k since w f = (refl, runs half_open n k since f)

  pub allow-Refines :
      (s : CircuitState) (n k : ℕ) (since : Option ℕ) (w : W)
      → Fits t s n since
      → Refines allow_op (breaker t d m s n since k) w
  unfolding call perform Circuit.allow
  allow-Refines closed n k since w f = (refl, runs closed n k since f)
  allow-Refines opened n k none w f = absurd (f.1 refl)
  allow-Refines opened n k (some since) w f = elim (Bool-cases (leb (since + d) (clock w).0)) [
    | inl over ↦ rw over (elim (Bool-cases (leb m 0)) [
      | inl full ↦ rw full (refl, runs half_open n 0 (some since) f.0)
      | inr free ↦ rw free (refl, runs half_open n 1 (some since) f.0)
    ])
    | inr early ↦ rw early (refl, runs opened n k (some since) f)
  ]
  allow-Refines half_open n k since w f = elim (Bool-cases (leb m k)) [
    | inl full ↦ rw full (refl, runs half_open n k since f)
    | inr free ↦ rw free (refl, runs half_open n (k + 1) since f)
  ]

  pub retry_after-Refines :
      (s : CircuitState) (n k : ℕ) (since : Option ℕ) (w : W)
      → Fits t s n since
      → Refines retry_after_op (breaker t d m s n since k) w
  unfolding call perform Circuit.retry_after
  retry_after-Refines closed n k since w f = (refl, runs closed n k since f)
  retry_after-Refines opened n k none w f = absurd (f.1 refl)
  retry_after-Refines opened n k (some since) w f =
      ground (arith, runs half_open n 0 (some since) f.0, runs opened n k (some since) f)
  retry_after-Refines half_open n k since w f = (refl, runs half_open n k since f)

  -- A breaker with these settings, written by its fields.
  of_fields :
      (P : Circuit → Type 0) (c : Circuit)
      → Runs t d m c
      → P (breaker t d m c.state c.failure_count c.opened_at c.half_open_calls)
      → P c
  of_fields P c r h =
      subst
        (λ x. P (
          breaker x c.cooldown c.half_open_max_calls c.state c.failure_count c.opened_at
            c.half_open_calls))
        (sym r.threshold)
        (subst
          (λ x. P (
            breaker t x c.half_open_max_calls c.state c.failure_count c.opened_at
              c.half_open_calls))
          (sym r.cooldown)
          (subst (λ x. P (breaker t d x c.state c.failure_count c.opened_at c.half_open_calls))
            (sym r.max_calls) h))

  pub by_fields :
      (op : Op)
      → ((s : CircuitState) (n k : ℕ) (since : Option ℕ) (w : W)
          → Fits t s n since
          → Refines op (breaker t d m s n since k) w)
      → (c : Circuit) (w : W) → Runs t d m c
      → Refines op c w
  by_fields op refines c w r =
      of_fields (λ c. Refines op c w) c r
        (refines c.state c.failure_count c.half_open_calls c.opened_at w r.fits)

  pub failure-Refines :
      (s : CircuitState) (n k : ℕ) (since : Option ℕ) (w : W)
      → Fits t s n since
      → Refines failure_op (breaker t d m s n since k) w
  unfolding call perform Circuit.record_failure Circuit.trip_open
  failure-Refines closed n k since w f = ground (
    arith,
    runs closed (n + 1) k since tt,
    λ (h : t ≤ n + 1). runs opened (n + 1) 0 (some (clock w).0) (h, λ e. ground arith),
  )
  failure-Refines opened n k none w f = absurd (f.1 refl)
  failure-Refines opened n k (some since) w f =
      let enough : leb t (n + 1) ≡ true = ground (arith, f.0) in
      rw enough
        (refl, runs opened (n + 1) 0 (some (clock w).0) (omega (arith, f.0), λ e. ground arith))
  failure-Refines half_open n k since w f =
      (refl, runs opened n 0 (some (clock w).0) (f, λ e. ground arith))
