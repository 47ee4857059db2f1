-- ===== src/Athena/Waiting.antt =====
-- The ends of `poll_until_terminal` and of `SafeAthenaClient.wait`.
use cubiczan_resilience.Base.{
  ℕ, ◌+◌, ◌≤◌, ◌<◌, ◌≡◌, ◌⊎◌, inl, inr, Bool, true, false, List, any, ◌||◌, Bool-cases, arith,
}
use cubiczan_resilience.Text.{Text, codes, text_eq, text_eq-true}
use cubiczan_resilience.Athena.{
  Attempt, value, raises, Status, Polled, terminal, timed_out, call_failed, out_of_fuel, Waited,
  succeeded, query_error, timeout_error, api_error, no_fuel, terminal_states, judged,
  poll_until_terminal, wait,
}
use cubiczan_resilience.Athena.Polling.{Lasts, Pending, Found, Answers, poll-Answers_timeout}

module _ {W : Type 0} (time_fn : W → ℕ × W) (sleep_fn : ℕ → W → W)
    (fetch_status : W → Attempt Status × W) where
  -- What `wait` reports, by the states that it fetched.
  abbrev pub Reports : ℕ → Waited → W → Type 0
  Reports deadline succeeded w =
      (s : Status) × ((fetch_status w).0 ≡ value s) × (s.state ≡ codes "SUCCEEDED")
  Reports deadline (query_error s) w =
      ((fetch_status w).0 ≡ value s) × ((s.state ≡ codes "FAILED") ⊎ (s.state ≡ codes "CANCELLED"))
  Reports deadline timeout_error w =
      (deadline ≤ (time_fn (fetch_status w).1).0)
      × ((s : Status) × ((fetch_status w).0 ≡ value s)
          × (any (text_eq s.state) terminal_states ≡ false))
  Reports deadline (api_error e) w = (fetch_status w).0 ≡ raises e
  Reports deadline no_fuel w = ⊥

  not_succeeded :
      (a b c : Bool) → a ≡ false → b ≡ false → (a || (b || (c || false))) ≡ true → c ≡ true
  not_succeeded a b c h k t = ground arith

  unsuccessful :
      (s : Text)
      → text_eq s (codes "SUCCEEDED") ≡ false
      → any (text_eq s) terminal_states ≡ true
      → (s ≡ codes "FAILED") ⊎ (s ≡ codes "CANCELLED")
  unsuccessful s n t = elim (Bool-cases (text_eq s (codes "FAILED"))) [
    | inl y ↦ inl (text_eq-true s (codes "FAILED") y)
    | inr m ↦ inr (
        text_eq-true s (codes "CANCELLED") (
          not_succeeded (text_eq s (codes "SUCCEEDED")) (text_eq s (codes "FAILED"))
            (text_eq s (codes "CANCELLED")) n m t))
  ]

  judged-Reports :
      (deadline : ℕ) (p : Polled Status) (w : W)
      → Found time_fn sleep_fn (λ s. s.state) fetch_status terminal_states deadline p w
      → Reports deadline (judged p) w
  unfolding judged
  judged-Reports deadline (terminal s) w (found, t) =
      elim (Bool-cases (text_eq s.state (codes "SUCCEEDED"))) [
        | inl y ↦ rw y (s, found, text_eq-true s.state (codes "SUCCEEDED") y)
        | inr n ↦ rw n (found, unsuccessful s.state n t)
      ]
  judged-Reports deadline (timed_out s) w (late, found, t) = (late, (s, found, t))
  judged-Reports deadline (call_failed e) w found = found
  judged-Reports deadline out_of_fuel w found = found

module _ {W : Type 0} (time_fn : W → ℕ × W) (sleep_fn : ℕ → W → W) (time : W → ℕ)
    (lasts : Lasts time_fn sleep_fn time) where
  -- On a clock that never runs back, with sleeps that last as long as they are asked to and a
  -- positive interval, `poll_until_terminal` ends within `timeout + 2` rounds, and after rounds that
  -- all found a state that is not terminal, before the deadline, the last round found what it
  -- reports, which is a terminal state, a state that is not terminal at a time from the deadline on,
  -- or an exception.
  pub poll_until_terminal-Answers :
      (fetch_state : W → Attempt Text × W)
      → ((w : W) → time w ≤ time (fetch_state w).1)
      → (states : List Text) (timeout interval : ℕ) (w : W) → 0 < interval
      → Answers time_fn sleep_fn
          (λ s. s)
          fetch_state
          states
          ((time_fn w).0 + timeout)
          interval
          (poll_until_terminal time_fn sleep_fn fetch_state
            (timeout + 2)
            states
            timeout
            interval
            w).0
          (time_fn w).1
  unfolding poll_until_terminal
  poll_until_terminal-Answers fetch_state fetch_lasts states timeout interval w h =
      poll-Answers_timeout time_fn sleep_fn (λ s. s) fetch_state time lasts fetch_lasts states
        timeout interval w h

  -- On a clock that never runs back, with sleeps that last as long as they are asked to and a
  -- positive interval, `wait` ends within `timeout + 2` rounds, and reports what the last one
  -- found, after rounds that all found a state that is not terminal, before the deadline: it
  -- returns only for SUCCEEDED, raises `AthenaQueryError` only for FAILED or CANCELLED, and
  -- `AthenaTimeoutError` only for a state that is not terminal at a time from the deadline on.
  pub wait-Reports :
      (fetch_status : W → Attempt Status × W)
      → ((w : W) → time w ≤ time (fetch_status w).1)
      → (timeout interval : ℕ) (w : W) → 0 < interval
      → (w' : W) × Pending time_fn sleep_fn
          (λ s. s.state)
          fetch_status
          terminal_states
          ((time_fn w).0 + timeout)
          interval
          (time_fn w).1
          w'
        × Reports time_fn sleep_fn fetch_status
            ((time_fn w).0 + timeout)
            (wait time_fn sleep_fn fetch_status (timeout + 2) timeout interval w).0
            w'
  unfolding wait
  wait-Reports fetch_status fetch_lasts timeout interval w h =
      let (w', pending, found) =
        poll-Answers_timeout time_fn sleep_fn (λ s. s.state) fetch_status time lasts fetch_lasts
          terminal_states timeout interval w h in
      (w', pending, judged-Reports time_fn sleep_fn fetch_status _ _ w' found)
