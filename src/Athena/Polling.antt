-- ===== src/Athena/Polling.antt =====
-- The loops that wait for a terminal state. The parameter `time` is the time that the clock shows;
-- the hypotheses are that it never runs back and that a sleep lasts as long as it is asked to.
use mathlib.Core.Path.{subst}
use cubiczan_resilience.Base.{
  ℕ, zero, suc, ◌+◌, ◌*◌, ◌≤◌, ◌<◌, ◌≡◌, refl, ◌⊎◌, inl, inr, Bool, true, false, List, any, leb,
  leb→le, Bool-cases, arith, if◌then◌else◌,
}
use cubiczan_resilience.Text.{Text, text_eq}
use cubiczan_resilience.Athena.{
  Attempt, value, raises, Polled, terminal, timed_out, call_failed, out_of_fuel, poll,
}

-- A clock that never runs back, with sleeps that last as long as they are asked to.
pub record Lasts {W : Type 0} (time_fn : W → ℕ × W) (sleep_fn : ℕ → W → W) (time : W → ℕ)
    : Type 0 where
  pub clock_shows : (w : W) → (time w ≤ (time_fn w).0) × ((time_fn w).0 ≤ time (time_fn w).1)
  pub sleep_lasts : (d : ℕ) (w : W) → time w + d ≤ time (sleep_fn d w)

Attempt-cases :
    {A : Type 0} (a : Attempt A) → ((e : Text) × (a ≡ raises e)) ⊎ ((x : A) × (a ≡ value x))
Attempt-cases (raises e) = inl (e, refl)
Attempt-cases (value x) = inr (x, refl)

module _ {W S : Type 0} (time_fn : W → ℕ × W) (sleep_fn : ℕ → W → W) (state_of : S → Text)
    (fetch_state : W → Attempt S × W) where
  -- The rounds of the loop that found a state that is not terminal, before the deadline.
  pub data Pending (states : List Text) (deadline interval : ℕ) : W → W → Type 0 where
    here : {w : W} → Pending states deadline interval w w
    round :
        {w w' : W} (s : S)
        → (fetch_state w).0 ≡ value s
        → any (text_eq (state_of s)) states ≡ false
        → (time_fn (fetch_state w).1).0 < deadline
        → Pending states deadline interval (sleep_fn interval (time_fn (fetch_state w).1).1) w'
        → Pending states deadline interval w w'

  -- What the last round of the loop found.
  abbrev pub Found : List Text → ℕ → Polled S → W → Type 0
  Found states deadline (terminal s) w =
      ((fetch_state w).0 ≡ value s) × (any (text_eq (state_of s)) states ≡ true)
  Found states deadline (timed_out s) w =
      (deadline ≤ (time_fn (fetch_state w).1).0)
      × ((fetch_state w).0 ≡ value s)
      × (any (text_eq (state_of s)) states ≡ false)
  Found states deadline (call_failed e) w = (fetch_state w).0 ≡ raises e
  Found states deadline out_of_fuel w = ⊥

  abbrev pub Answers : List Text → ℕ → ℕ → Polled S → W → Type 0
  Answers states deadline interval p w =
      (w' : W) × Pending states deadline interval w w' × Found states deadline p w'

  module _ (k : ℕ) (states : List Text) (deadline interval : ℕ) (w : W) where
    poll-failed :
        (e : Text)
        → (fetch_state w).0 ≡ raises e
        → (poll time_fn sleep_fn state_of fetch_state (suc k) states deadline interval w).0
          ≡ call_failed e
    unfolding poll
    poll-failed e h = rw (h, poll) refl

    poll-terminal :
        (s : S)
        → (fetch_state w).0 ≡ value s
        → any (text_eq (state_of s)) states ≡ true
        → (poll time_fn sleep_fn state_of fetch_state (suc k) states deadline interval w).0
          ≡ terminal s
    unfolding poll
    poll-terminal s h t = rw (h, poll, t) refl

    poll-pending :
        (s : S) (late : Bool)
        → (fetch_state w).0 ≡ value s
        → any (text_eq (state_of s)) states ≡ false
        → leb deadline (time_fn (fetch_state w).1).0 ≡ late
        → (poll time_fn sleep_fn state_of fetch_state (suc k) states deadline interval w).0 ≡ (
            if late
            then timed_out s
            else (poll time_fn sleep_fn state_of fetch_state k states deadline interval
                (sleep_fn interval (time_fn (fetch_state w).1).1)).0)
    unfolding poll
    poll-pending s true h t l = rw (h, poll, t, l) refl
    poll-pending s false h t l = rw (h, poll, t, l) refl

    -- One round, where the rounds after it are accounted for.
    poll-step :
        ((s : S)
          → (fetch_state w).0 ≡ value s
          → any (text_eq (state_of s)) states ≡ false
          → leb deadline (time_fn (fetch_state w).1).0 ≡ false
          → Answers states deadline interval
              (poll time_fn sleep_fn state_of fetch_state k states deadline interval
                (sleep_fn interval (time_fn (fetch_state w).1).1)).0
              w)
        → Answers states deadline interval
            (poll time_fn sleep_fn state_of fetch_state (suc k) states deadline interval w).0
            w
    poll-step later = elim (Attempt-cases (fetch_state w).0) [
      | inl (e, n) ↦ rw (poll-failed e n) (w, here, n)
      | inr (s, found) ↦ elim (Bool-cases (any (text_eq (state_of s)) states)) [
        | inl t ↦ rw (poll-terminal s found t) (w, here, (found, t))
        | inr t ↦ elim (Bool-cases (leb deadline (time_fn (fetch_state w).1).0)) [
          | inl late ↦ rw (poll-pending s true found t late) (w, here, (leb→le _ _ late, found, t))
          | inr early ↦ rw (poll-pending s false found t early) (later s found t early)
        ]
      ]
    ]

  module _ (time : W → ℕ) (lasts : Lasts time_fn sleep_fn time)
      (fetch_lasts : (w : W) → time w ≤ time (fetch_state w).1) where
    poll-Answers :
        (k : ℕ) (states : List Text) (deadline interval : ℕ) (w : W)
        → deadline < time w + k * interval
        → Answers states deadline interval
            (poll time_fn sleep_fn state_of fetch_state (suc k) states deadline interval w).0
            w
    poll-Answers zero states deadline interval w enough =
        poll-step zero states deadline interval w
          (λ s found t early. ground (arith, fetch_lasts w, lasts.clock_shows (fetch_state w).1))
    poll-Answers (suc j) states deadline interval w enough =
        poll-step (suc j) states deadline interval w (λ s found t early.
          let next = sleep_fn interval (time_fn (fetch_state w).1).1 in
          let sooner : deadline < time next + j * interval = ground (
            arith,
            fetch_lasts w,
            lasts.clock_shows (fetch_state w).1,
            lasts.sleep_lasts interval (time_fn (fetch_state w).1).1,
          ) in
          let (w', pending, found') = poll-Answers j states deadline interval next sooner in
          (w', round s found t (ground (arith, early)) pending, found'))

    le-mul : (n d : ℕ) → 0 < d → n ≤ n * d
    le-mul zero d h = omega arith
    le-mul (suc n) d h = omega (arith, le-mul n d h)

    -- `timeout + 2` rounds suffice from the time that the clock shows.
    pub poll-Answers_timeout :
        (states : List Text) (timeout interval : ℕ) (w : W)
        → 0 < interval
        → let (now, w₁) = time_fn w in
          Answers states
            (now + timeout)
            interval
            (poll time_fn sleep_fn state_of fetch_state
              (timeout + 2)
              states
              (now + timeout)
              interval
              w₁).0
            w₁
    poll-Answers_timeout states timeout interval w h =
        let (now, w₁) = time_fn w in
        subst
          (λ n.
            Answers states (now + timeout) interval
              (poll time_fn sleep_fn state_of fetch_state n states (now + timeout) interval w₁).0
              w₁)
          (the_rounds timeout)
          (poll-Answers (suc timeout) states (now + timeout) interval w₁
            (ground (arith, lasts.clock_shows w, le-mul (suc timeout) interval h)))
      where
        the_rounds : (n : ℕ) → suc (suc n) ≡ n + 2
        the_rounds n = omega arith
