-- ===== src/Circuit/Trials.antt =====
-- The trial calls of a half-open breaker.
use cubiczan_resilience.Base.{
  ℕ, zero, suc, ◌+◌, ◌-◌, ◌≤◌, ◌≡◌, ◌≢◌, List, [], ◌∷◌, arith, if◌then◌else◌, min,
}
use cubiczan_resilience.Circuit.{closed, half_open, Circuit, get_state, allow, retry_after}
use cubiczan_resilience.Circuit.Invariant.{
  IsValid, get_state-IsValid, allow-IsValid, retry_after-IsValid,
}

-- The methods that report no outcome.
pub data Query : Type 0 where
  look wait ask : Query

-- The trial calls that are still free; an open breaker has none out.
abbrev pub free : Circuit → ℕ
free c = c.half_open_max_calls - c.half_open_calls

module _ {W : Type 0} (clock : W → ℕ × W) where
  -- How many calls a sequence of such methods lets through.
  pub admissions : List Query → Circuit → W → ℕ
  admissions [] c w = 0
  admissions (look ∷ qs) c w = let (_, c', w') = get_state clock c w in admissions qs c' w'
  admissions (wait ∷ qs) c w = let (_, c', w') = retry_after clock c w in admissions qs c' w'
  admissions (ask ∷ qs) c w =
      let (b, c', w') = allow clock c w in
      let rest = admissions qs c' w' in if b then rest + 1 else rest

  get_state-free :
      (c : Circuit) (w : W)
      → IsValid c
      → c.state ≢ closed
      → let (_, c', _) = get_state clock c w in (c'.state ≢ closed) × (free c' ≡ free c)
  unfolding get_state
  get_state-free c w v h = ground arith

  retry_after-free :
      (c : Circuit) (w : W)
      → IsValid c
      → c.state ≢ closed
      → let (_, c', _) = retry_after clock c w in (c'.state ≢ closed) × (free c' ≡ free c)
  unfolding retry_after
  retry_after-free c w v h = ground arith

  allow-free :
      (c : Circuit) (w : W)
      → IsValid c
      → c.state ≢ closed
      → let (b, c', _) = allow clock c w in
        (c'.state ≢ closed) × ((if b then 1 else 0) + free c' ≡ free c)
  unfolding allow
  allow-free c w v h = ground arith

  -- Once a valid breaker has opened, and until an outcome is reported or it is reset, no sequence
  -- of calls of `allow`, `state` and `retry_after` lets more calls through than it has trial calls
  -- free: `half_open_max_calls` if it is open, fewer by those under way if it is half open.
  pub admissions-le-free :
      (qs : List Query) (c : Circuit) (w : W)
      → IsValid c
      → c.state ≢ closed
      → admissions qs c w ≤ free c
  unfolding admissions
  admissions-le-free [] c w v h = omega arith
  admissions-le-free (look ∷ qs) c w v h =
      let (_, c', w') = get_state clock c w in
      let f = get_state-free c w v h in
      omega (arith, admissions-le-free qs c' w' (get_state-IsValid clock c w v) f.0)
  admissions-le-free (wait ∷ qs) c w v h =
      let (_, c', w') = retry_after clock c w in
      let f = retry_after-free c w v h in
      omega (arith, admissions-le-free qs c' w' (retry_after-IsValid clock c w v) f.0)
  admissions-le-free (ask ∷ qs) c w v h =
      let (b, c', w') = allow clock c w in
      let f = allow-free c w v h in
      let ih = admissions-le-free qs c' w' (allow-IsValid clock c w v) f.0 in ground arith

  -- `n` calls of `allow` in a row.
  pub asks : ℕ → Circuit → W → ℕ
  asks zero c w = 0
  asks (suc n) c w =
      let (b, c', w') = allow clock c w in let rest = asks n c' w' in if b then rest + 1 else rest

  allow-half_open :
      (c : Circuit) (w : W)
      → c.state ≡ half_open
      → let (b, c', _) = allow clock c w in
        (c'.state ≡ half_open) × ((if b then 1 else 0) ≡ min 1 (free c)) × (free c' ≡ free c - 1)
  unfolding allow
  allow-half_open c w h = ground arith

  -- Of `n` callers in a row a half-open breaker lets through as many as it has trial calls free,
  -- and no more.
  pub asks-half_open :
      (n : ℕ) (c : Circuit) (w : W) → c.state ≡ half_open → asks n c w ≡ min n (free c)
  unfolding asks
  asks-half_open zero c w h = omega arith
  asks-half_open (suc n) c w h =
      let (b, c', w') = allow clock c w in
      let f = allow-half_open c w h in let ih = asks-half_open n c' w' f.0 in ground arith
