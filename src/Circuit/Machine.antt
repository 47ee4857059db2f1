-- ===== src/Circuit/Machine.antt =====
-- What a caller may know of a breaker: a machine with one number in each of its states, and no other
-- field. Its settings are the threshold `t`, the cooldown `d` and the number `m` of trial calls.
pub mod Calls
pub mod Refined
use cubiczan_resilience.Base.{ℕ, ◌+◌, ◌-◌, Bool, true, false, List, [], ◌∷◌, leb, if◌then◌else◌}
use cubiczan_resilience.Circuit
use cubiczan_resilience.Circuit.{
  CircuitState, closed, opened, half_open, Circuit, Guard, pass, refused,
}
use cubiczan_resilience.Circuit.Runs.{
  Op, get_state_op, allow_op, retry_after_op, guard_op, success_op, failure_op, reset_op,
}

-- Closed after some failures in a row, open since a time, or half open after some trial calls.
pub data Phase : Type 0 where
  counting waiting trying : ℕ → Phase

-- What a method returns or raises.
pub data Answer : Type 0 where
  nothing : Answer
  state_is : CircuitState → Answer
  let_through : Bool → Answer
  seconds : ℕ → Answer
  guarded : Guard → Answer

module _ {W : Type 0} (clock : W → ℕ × W) where
  -- The answer of a method, with the breaker after it.
  unfoldable pub call : Op → Circuit → W → Answer × Circuit × W
  call get_state_op c w = let (s, c', w') = Circuit.get_state clock c w in (state_is s, c', w')
  call allow_op c w = let (b, c', w') = Circuit.allow clock c w in (let_through b, c', w')
  call retry_after_op c w = let (n, c', w') = Circuit.retry_after clock c w in (seconds n, c', w')
  call guard_op c w = let (g, c', w') = Circuit.guard clock c w in (guarded g, c', w')
  call success_op c w = (nothing, Circuit.record_success c, w)
  call failure_op c w = let (c', w') = Circuit.record_failure clock c w in (nothing, c', w')
  call reset_op c w = (nothing, Circuit.reset c, w)

  unfoldable pub calls : List Op → Circuit → W → List Answer × Circuit × W
  calls [] c w = ([], c, w)
  calls (op ∷ ops) c w =
      let (a, c₁, w₁) = call op c w in
      let (answers, c₂, w₂) = calls ops c₁ w₁ in (a ∷ answers, c₂, w₂)

  module _ (t d m : ℕ) where
    -- The cooldown may be over.
    abbrev wake : Phase → W → Phase × W
    wake (counting n) w = (counting n, w)
    wake (waiting since) w =
        let (now, w') = clock w in (if leb (since + d) now then trying 0 else waiting since, w')
    wake (trying k) w = (trying k, w)

    abbrev state_of : Phase → CircuitState
    state_of (counting _) = closed
    state_of (waiting _) = opened
    state_of (trying _) = half_open

    abbrev admitted : Phase → Bool × Phase
    admitted (counting n) = (true, counting n)
    admitted (waiting since) = (false, waiting since)
    admitted (trying k) = if leb m k then (false, trying k) else (true, trying (k + 1))

    abbrev time_left : Phase → W → ℕ × W
    time_left (waiting since) w = let (now, w') = clock w in (d + since - now, w')
    time_left _ w = (0, w)

    -- A failure counts while closed, and opens the machine, anew if it is open, in other states.
    abbrev after_failure : Phase → W → Phase × W
    after_failure (counting n) w =
        if leb t (n + 1)
        then (let (now, w') = clock w in (waiting now, w'))
        else (counting (n + 1), w)
    after_failure (waiting _) w = let (now, w') = clock w in (waiting now, w')
    after_failure (trying _) w = let (now, w') = clock w in (waiting now, w')

    -- `guard` asks for the time that is left when it refuses a call.
    abbrev pub guarded_by : Bool × Phase → W → Answer × Phase × W
    guarded_by (true, p) w = (guarded pass, p, w)
    guarded_by (false, p) w =
        let (p', w') = wake p w in let (n, w'') = time_left p' w' in (guarded (refused n), p', w'')

    unfoldable pub perform : Op → Phase → W → Answer × Phase × W
    perform get_state_op p w = let (p', w') = wake p w in (state_is (state_of p'), p', w')
    perform allow_op p w =
        let (p', w') = wake p w in let (b, p'') = admitted p' in (let_through b, p'', w')
    perform retry_after_op p w =
        let (p', w') = wake p w in let (n, w'') = time_left p' w' in (seconds n, p', w'')
    perform guard_op p w = let (p', w') = wake p w in guarded_by (admitted p') w'
    perform success_op p w = (nothing, counting 0, w)
    perform failure_op p w = let (p', w') = after_failure p w in (nothing, p', w')
    perform reset_op p w = (nothing, counting 0, w)

    unfoldable pub performs : List Op → Phase → W → List Answer × Phase × W
    unfolding perform
    performs [] p w = ([], p, w)
    performs (op ∷ ops) p w =
        let (a, p₁, w₁) = perform op p w in
        let (answers, p₂, w₂) = performs ops p₁ w₁ in (a ∷ answers, p₂, w₂)
