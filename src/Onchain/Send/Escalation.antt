-- ===== src/Onchain/Send/Escalation.antt =====
-- The nonce and the fee of each replacement transaction.
use cubiczan_resilience.Base.{
  ℕ, zero, suc, ◌+◌, ◌≤◌, ◌<◌, ◌≡◌, ◌⊎◌, inl, inr, refl, Bool, false, Option, none, some, List, [],
  ◌∷◌, arith, ◌∙◌,
}
use cubiczan_resilience.Onchain.{
  NormalizedReceipt, FeeFields, initial_fee, is_legacy, is_nonce_too_low,
}
use cubiczan_resilience.Onchain.Fees.{
  FeeResult-cases, HasFee, Exceeds, initial_fee-Initial, bump_fee-Bumped,
}
use cubiczan_resilience.Onchain.Breaker.{Breaker}
use cubiczan_resilience.Onchain.Attempt.{
  TxContext, StateResult, Raised, tx_failed, other, Attempted, value, raises, SendOpts, Env, Pinned,
  Round, finish, again, timed_out,
}
use cubiczan_resilience.Onchain.Send.{
  awaited, submit_and_wait, with_timeout, fail_with, settle, attempt_once, rounds, started, start,
  is_submitted, closed_if, send_with_retry,
}
use cubiczan_resilience.Onchain.Send.Effects.{
  Logs, attempt_once-log, is_submitted-log, closed_if-log,
}
use cubiczan_resilience.Onchain.Send.Results.{Round-cases}

-- The log, the newest context first, below a transaction that is to be submitted next: the attempts
-- are numbered from 1 without a gap, all have one nonce, and every fee exceeds the one before.
abbrev pub Linked : Bool → ℕ → ℕ → FeeFields → List TxContext → Type 0
Linked legacy k nonce fees [] = k ≡ 1
Linked legacy k nonce fees (c ∷ cs) =
    (k ≡ c.attempt + 1)
    × (nonce ≡ c.nonce)
    × Exceeds legacy c.fee_fields fees
    × Linked legacy c.attempt c.nonce c.fee_fields cs

abbrev pub Escalates : Bool → List TxContext → Type 0
Escalates legacy [] = Unit
Escalates legacy (c ∷ cs) = Linked legacy c.attempt c.nonce c.fee_fields cs

-- No error about the nonce.
abbrev pub NoNonceError : {A : Type 0} → Attempted A → Type 0
NoNonceError (value _) = Unit
NoNonceError (raises (tx_failed _)) = Unit
NoNonceError (raises (other msg)) = is_nonce_too_low msg ≡ false

-- What a round leaves for the next one, if there is a next one.
abbrev Pins : SendOpts → ℕ → Pinned → Round → Type 0
Pins o k pin (finish _) = Unit
Pins o k pin (again pin' _) =
    HasFee (is_legacy o.fee_mode) pin'.fee_fields
    × ((o.max_attempts ≤ k)
        ⊎ ((pin'.nonce ≡ pin.nonce)
            × Exceeds (is_legacy o.fee_mode) pin.fee_fields pin'.fee_fields))

module _ {W : Type 0} (env : Env W) (o : SendOpts) (h : 1000000 < o.bump_factor)
    (quiet_send : (c : TxContext) (w : W) → NoNonceError (env.sign_send c w).0)
    (quiet_wait : (hash : ℕ) (w : W) → NoNonceError (env.wait hash w).0) where
  timed_out-quiet : NoNonceError {A = ℕ} (raises timed_out)
  unfolding is_nonce_too_low
  timed_out-quiet = refl

  awaited-quiet : (a : Attempted ℕ) (w : W) → NoNonceError a → NoNonceError (awaited env o a w).0
  unfolding awaited
  awaited-quiet (value hash) w q = quiet_wait hash w
  awaited-quiet (raises e) w q = q

  submit_and_wait-quiet : (c : TxContext) (w : W) → NoNonceError (submit_and_wait env o c w).0
  unfolding submit_and_wait
  submit_and_wait-quiet c w = let (a, w') = env.sign_send c w in awaited-quiet a w' (quiet_send c w)

  with_timeout-quiet : (c : TxContext) (w : W) → NoNonceError (with_timeout env o c w).0
  unfolding with_timeout
  with_timeout-quiet c w =
      ground (arith, submit_and_wait-quiet c (env.monotonic w).1, timed_out-quiet)

  fail_with-Pins :
      (k : ℕ) (pin : Pinned) (e : Raised) (b : Option Breaker) (w : W)
      → HasFee (is_legacy o.fee_mode) pin.fee_fields
      → Pins o k pin (fail_with env o k pin e b w).0
  unfolding fail_with
  fail_with-Pins k pin e b w has =
      ground (arith, bump_fee-Bumped o.fee_mode pin.fee_fields o.bump_factor h has)

  settle-Pins :
      (k : ℕ) (pin : Pinned) (r : Attempted NormalizedReceipt) (b : Option Breaker) (w : W)
      → NoNonceError r
      → HasFee (is_legacy o.fee_mode) pin.fee_fields
      → Pins o k pin (settle env o k pin r b w).0
  unfolding settle
  settle-Pins k pin (value receipt) b w q has = ground arith
  settle-Pins k pin (raises (tx_failed receipt)) b w q has = tt
  settle-Pins k pin (raises (other msg)) b w q has =
      rw (q, settle) (fail_with-Pins k pin (other msg) b w has)

  attempt_once-Pins :
      (k : ℕ) (pin : Pinned) (b : Option Breaker) (w : W)
      → HasFee (is_legacy o.fee_mode) pin.fee_fields
      → Pins o k pin (attempt_once env o k pin b w).0
  unfolding attempt_once
  attempt_once-Pins k pin b w has =
      let c : TxContext = record { nonce = pin.nonce; fee_fields = pin.fee_fields; attempt = k } in
      settle-Pins k pin (with_timeout env o c w).0 b (with_timeout env o c w).1
        (with_timeout-quiet c w) has

  module _ (log : W → List TxContext) (logs : Logs env log) where
    next_link :
        (n k : ℕ) (pin pin' : Pinned) (l l' : List TxContext)
        → k + suc n ≡ o.max_attempts + 1
        → (o.max_attempts ≤ k)
          ⊎ ((pin'.nonce ≡ pin.nonce)
              × Exceeds (is_legacy o.fee_mode) pin.fee_fields pin'.fee_fields)
        → Linked (is_legacy o.fee_mode) k pin.nonce pin.fee_fields l
        → l' ≡ record { nonce = pin.nonce; fee_fields = pin.fee_fields; attempt = k } ∷ l
        → (n ≡ 0) ⊎ Linked (is_legacy o.fee_mode) (k + 1) pin'.nonce pin'.fee_fields l'
    next_link n k pin pin' l l' e (inl last) link added = inl (omega arith)
    next_link n k pin pin' l l' e (inr (same, above)) link added =
        inr (rw added (refl, same, above, link))

    rounds-Escalates :
        (n k : ℕ) (pin : Pinned) (last : Option Raised) (b : Option Breaker) (w : W)
        → HasFee (is_legacy o.fee_mode) pin.fee_fields
        → k + n ≡ o.max_attempts + 1
        → Escalates (is_legacy o.fee_mode) (log w)
        → (n ≡ 0) ⊎ Linked (is_legacy o.fee_mode) k pin.nonce pin.fee_fields (log w)
        → Escalates (is_legacy o.fee_mode) (log (rounds env o n k pin last b w).2)
    unfolding rounds
    rounds-Escalates zero k pin last b w has e esc link = esc
    rounds-Escalates (suc n) k pin last b w has e esc (inl z) = absurd (omega arith)
    rounds-Escalates (suc n) k pin last b w has e esc (inr link) =
        let (r, b', w') = attempt_once env o k pin b w in
        let added = attempt_once-log env o log logs k pin b w in
        let pins : Pins o k pin r = attempt_once-Pins k pin b w has in
        let esc' : Escalates (is_legacy o.fee_mode) (log w') = rw added link in
        elim (Round-cases r) [
          | inl (s, x) ↦ rw (x, rounds) esc'
          | inr (pin', err, x) ↦
              let next : Pins o k pin (again pin' err) = rw x at pins in
              rw (x, rounds)
                (rounds-Escalates n (k + 1) pin' (some err) b' w' next.0 (omega arith) esc'
                  (next_link n k pin pin' (log w) (log w') e next.1 link added))
        ]

    started-Escalates :
        (s : Attempted StateResult) (b : Option Breaker) (w : W)
        → log w ≡ []
        → Escalates (is_legacy o.fee_mode) (log (started env o s b w).2)
    unfolding started
    started-Escalates (raises x) b w e = rw e tt
    started-Escalates (value state) b w e =
        elim (FeeResult-cases (initial_fee o.fee_mode state.fee_fields)) [
          | inl (f, x) ↦
              rw (x, started)
                (rounds-Escalates o.max_attempts 1 (record { nonce = state.nonce; fee_fields = f })
                  none b w (rw x at (initial_fee-Initial o.fee_mode state.fee_fields)) (omega arith)
                  (rw e tt) (inr (rw e refl)))
          | inr (err, x) ↦ rw (x, started) (rw e tt)
        ]

    -- With a bump factor above 1, and as long as neither `sign_send` nor the wait for a receipt
    -- raises an error about the nonce, all transactions of one call of `send_with_retry` are
    -- attempts of one nonce, numbered from 1, and each bids strictly more than the one before, in
    -- every fee of its mode. The log is empty before the call.
    pub send_with_retry-Escalates :
        (b : Option Breaker) (w : W)
        → log w ≡ []
        → Escalates (is_legacy o.fee_mode) (log (send_with_retry env o b w).2)
    unfolding send_with_retry start
    send_with_retry-Escalates b w e =
        let w₁ = (is_submitted env o w).1 in
        let e₁ : log w₁ ≡ [] = is_submitted-log env o log logs w ∙ e in
        let w₂ = (closed_if env o b w₁).1 in
        let e₂ : log w₂ ≡ [] = closed_if-log env o log logs b w₁ ∙ e₁ in
        let (s, w₃) = env.fetch_state w₂ in
        ground (arith, e, e₁, e₂, started-Escalates s b w₃ (logs.at_fetch_state w₂ ∙ e₂))
