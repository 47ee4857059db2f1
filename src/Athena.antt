-- ===== src/Athena.antt =====
-- scope-core/src/scope_core/athena.py and the poller of scope-core/src/scope_core/utils.py: the
-- checks of identifiers, and the loops that wait for a query. The calls of boto3, the clock and the
-- sleep are parameters over a world `W`.
pub mod Identifiers
pub mod Polling
pub mod Waiting
pub mod Client
pub mod Script
mod Tests
use cubiczan_resilience.Base.{
  ℕ, zero, suc, ◌+◌, Bool, true, false, ◌&&◌, ◌||◌, Option, none, some, List, [], ◌∷◌, any, leb,
  ◌==◌, if◌then◌else◌,
}
use cubiczan_resilience.Text.{Text, codes, text_eq}

-- The letters and `_` that a part of an identifier begins with, and the characters after it.
abbrev pub is_start : ℕ → Bool
is_start c = (leb 65 c && leb c 90) || (c == 95) || (leb 97 c && leb c 122)

abbrev pub is_word : ℕ → Bool
is_word c = is_start c || (leb 48 c && leb c 57)

abbrev pub is_empty : Text → Bool
is_empty [] = true
is_empty (_ ∷ _) = false

-- `_IDENTIFIER_RE.match` from the beginning of a part, or from inside one. The anchor `$` matches at
-- the end, and before a newline at the end.
unfoldable pub matches : Bool → Text → Bool
matches inside [] = inside
matches inside (c ∷ s) =
    let more = matches true s in
    let next = matches false s in
    if inside
    then (if is_word c then more else if c == 46 then next else (c == 10) && is_empty s)
    else (if is_start c then more else false)

-- `validate_identifier` on a text: `none` is `IdentifierError`.
unfoldable pub validate_identifier : Text → Option Text
validate_identifier s = if matches false s then some s else none

-- `validate_in_allowlist` on texts.
unfoldable pub validate_in_allowlist : Text → List Text → Option Text
validate_in_allowlist s allowed = if any (text_eq s) allowed then some s else none

-- What a call returned, or the text of the exception that it raised.
pub data Attempt (A : Type 0) : Type 0 where
  value : A → Attempt A
  raises : Text → Attempt A

-- The `Status` of a query execution; `reason` is its `StateChangeReason`, if it has one.
pub record Status : Type 0 where
  pub state : Text
  pub reason : Option Text

-- How a wait ends: with a terminal state, by the timeout with the last state, by an exception of the
-- call, or the fuel is spent.
pub data Polled (S : Type 0) : Type 0 where
  terminal : S → Polled S
  timed_out : S → Polled S
  call_failed : Text → Polled S
  out_of_fuel : Polled S

-- What `wait` returns or raises.
pub data Waited : Type 0 where
  succeeded : Waited
  query_error : Status → Waited
  timeout_error : Waited
  api_error : Text → Waited
  no_fuel : Waited

abbrev pub terminal_states : List Text
terminal_states = codes "SUCCEEDED" ∷ codes "FAILED" ∷ codes "CANCELLED" ∷ []

-- What `wait` makes of the loop's end.
unfoldable pub judged : Polled Status → Waited
judged (terminal s) = if text_eq s.state (codes "SUCCEEDED") then succeeded else query_error s
judged (timed_out s) = timeout_error
judged (call_failed e) = api_error e
judged out_of_fuel = no_fuel

module _ {W : Type 0} (time_fn : W → ℕ × W) (sleep_fn : ℕ → W → W) where
  -- The loop of `poll_until_terminal`, where what is fetched is a state, and of `wait`, where it is
  -- a status that has a state.
  unfoldable pub poll :
      {S : Type 0} → (S → Text) → (W → Attempt S × W) → ℕ → List Text → ℕ → ℕ → W → Polled S × W
  poll state_of fetch_state zero states deadline interval w = (out_of_fuel, w)
  poll state_of fetch_state (suc fuel) states deadline interval w =
      let (fetched, w₁) = fetch_state w in
      let (now, w₂) = time_fn w₁ in
      let rest = poll state_of fetch_state fuel states deadline interval (sleep_fn interval w₂) in
      elim fetched [
        | raises e ↦ (call_failed e, w₁)
        | value s ↦
            if any (text_eq (state_of s)) states
            then (terminal s, w₁)
            else if leb deadline now
            then (timed_out s, w₂)
            else rest
      ]

  unfoldable pub poll_until_terminal :
      (W → Attempt Text × W) → ℕ → List Text → ℕ → ℕ → W → Polled Text × W
  poll_until_terminal fetch_state fuel states timeout interval w =
      let (now, w₁) = time_fn w in poll (λ s. s) fetch_state fuel states (now + timeout) interval w₁

  -- `SafeAthenaClient.wait`, where `fetch_status` asks for the status of the query.
  unfoldable pub wait : (W → Attempt Status × W) → ℕ → ℕ → ℕ → W → Waited × W
  wait fetch_status fuel max_wait step w =
      let (now, w₁) = time_fn w in
      let (p, w₂) =
        poll (λ s. s.state) fetch_status fuel terminal_states (now + max_wait) step w₁ in
      (judged p, w₂)
