-- ===== src/Retry/Loop/Live/Rounds.antt =====
-- The attempts of a function that fails first, and the loops over them.
use cubiczan_resilience.Base.{
  ℕ, zero, suc, ◌+◌, ◌≤◌, ◌<◌, ◌≡◌, ◌∙◌, refl, ap, Bool, false, ◌||◌, not, Bool-cases, inl, inr,
  Option, none, some, arith,
}
use cubiczan_resilience.Circuit.{Circuit}
use cubiczan_resilience.Retry.{RetryPolicy, is_instance, is_retryable}
use cubiczan_resilience.Retry.Loop.{
  Env, Outcome, value, raises, Failure, timeout_exceeded, own, Ending, returned, finish, again,
  Round, is_last, success_if, fail_with, sleep_sync, sleep_async, after_call_sync, attempt_sync,
  after_call_async, call_async, attempt_async, rounds, run_sync, run_async,
}
use cubiczan_resilience.Retry.Loop.Live.{
  Endures, one_more, one_more-Endures, guard_if-Endures, failure_if-Endures, success_if-one_more,
  HitsSync, Missed, MissesSync, HitsAsync, MissedAsync, MissesAsync, Flaky, responds, fails,
}

module _ {W A : Type 0} (env : Env W A) (p : RetryPolicy) where
  fail_with-again :
      (n : ℕ) (pause : ℕ → W → W) (ends : Bool) (x : Failure) (k : ℕ) (cb : Option Circuit)
      (w w' : W)
      → ends ≡ false
      → w' ≡ w
      → Endures (suc n) cb
      → fail_with env p pause ends x k cb w ≡ (again x, one_more cb, pause k w')
  unfolding fail_with
  fail_with-again n pause ends x k cb w w' f h e = rw (f, h, failure_if-Endures env p n cb w e) refl

  pub after_call_sync-hits :
      (start k : ℕ) (o : Outcome A) (cb : Option Circuit) (w : W) (v : A)
      → o ≡ value v
      → (env.monotonic w).0 ≤ start + p.timeout
      → let (r, cb', _) = after_call_sync env p start o k cb w in
        (r ≡ finish (returned v)) × (cb' ≡ success_if env p cb)
  unfolding after_call_sync
  after_call_sync-hits start k o cb w v h t = ground arith

  after_call_sync-misses :
      (n start k : ℕ) (o : Outcome A) (cb : Option Circuit) (w w' : W)
      → Missed env p start (o, w) w'
      → Endures (suc n) cb
      → is_last p k ≡ false
      → (x : Failure) × (after_call_sync env p start o k cb w
          ≡ (again x, one_more cb, sleep_sync env p k w'))
  unfolding after_call_sync
  after_call_sync-misses n start k (raises x) cb w w' m e l = (
    own x,
    fail_with-again n (sleep_sync env p) (not (is_retryable p x) || is_last p k) (own x) k cb w w'
        (ground (arith, m.0, l)) m.1 e,
  )
  after_call_sync-misses n start k (value a) cb w w' m e l = (
    timeout_exceeded,
    ground (
      arith,
      m.0,
      fail_with-again n (sleep_sync env p) (is_last p k) timeout_exceeded k cb (env.monotonic w).1
          w' l m.1 e,
    ),
  )

  after_call_async-misses :
      (n k : ℕ) (o : Outcome A) (cb : Option Circuit) (w w' : W)
      → MissedAsync env p (o, w) w'
      → Endures (suc n) cb
      → is_last p k ≡ false
      → (x : Failure) × (after_call_async env p o k cb w
          ≡ (again x, one_more cb, sleep_async env p k w'))
  unfolding after_call_async
  after_call_async-misses n k (raises x) cb w w' m e l =
      elim (Bool-cases (is_instance x "TimeoutError")) [
        | inl t ↦ (
          timeout_exceeded,
          rw (t) (
              fail_with-again n (sleep_async env p) (is_last p k) timeout_exceeded k cb w w' l m.1
                e),
        )
        | inr f ↦ (
          own x,
          rw (f) (
              fail_with-again n (sleep_async env p) (not (is_retryable p x) || is_last p k) (own x)
                k cb w w' (ground (arith, m.0, l, f)) m.1 e),
        )
      ]
  after_call_async-misses n k (value a) cb w w' m e l = absurd m

  attempt_sync-hits :
      (k : ℕ) (cb : Option Circuit) (w : W) (v : A)
      → HitsSync env p w v
      → Endures 0 cb
      → let (r, cb', _) = attempt_sync env p k cb w in
        (r ≡ finish (returned v)) × (cb' ≡ success_if env p cb)
  unfolding attempt_sync
  attempt_sync-hits k cb w v h e = rw (guard_if-Endures env p 0 cb w e) (
      let (start, w₁) = env.monotonic w in
      let (o, w₂) = env.call w₁ in after_call_sync-hits start k o cb w₂ v h.0 h.1)

  attempt_sync-misses :
      (n k : ℕ) (cb : Option Circuit) (w w' : W)
      → MissesSync env p w w'
      → Endures (suc n) cb
      → is_last p k ≡ false
      → (x : Failure) × (attempt_sync env p k cb w ≡ (again x, one_more cb, sleep_sync env p k w'))
  unfolding attempt_sync
  attempt_sync-misses n k cb w w' m e l = rw (guard_if-Endures env p (suc n) cb w e) (
      let (start, w₁) = env.monotonic w in
      let (o, w₂) = env.call w₁ in after_call_sync-misses n start k o cb w₂ w' m e l)

  attempt_async-hits :
      (k : ℕ) (cb : Option Circuit) (w : W) (v : A)
      → HitsAsync env p w v
      → Endures 0 cb
      → let (r, cb', _) = attempt_async env p k cb w in
        (r ≡ finish (returned v)) × (cb' ≡ success_if env p cb)
  unfolding attempt_async call_async
  attempt_async-hits k cb w v h e = rw (guard_if-Endures env p 0 cb w e, h) (refl, refl)

  attempt_async-misses :
      (n k : ℕ) (cb : Option Circuit) (w w' : W)
      → MissesAsync env p w w'
      → Endures (suc n) cb
      → is_last p k ≡ false
      → (x : Failure) × (attempt_async env p k cb w
          ≡ (again x, one_more cb, sleep_async env p k w'))
  unfolding attempt_async
  attempt_async-misses n k cb w w' m e l =
      rw (guard_if-Endures env p (suc n) cb w e)
        (let (o, w₁) = env.wait_for p.timeout w in after_call_async-misses n k o cb w₁ w' m e l)

  abbrev pub Ended : A → Option Circuit → Ending A × Option Circuit × W → Type 0
  Ended v cb (e, cb', _) = (e ≡ returned v) × (cb' ≡ success_if env p cb)

  Ended-one_more :
      (v : A) (cb : Option Circuit) (r : Ending A × Option Circuit × W)
      → Ended v (one_more cb) r
      → Ended v cb r
  Ended-one_more v cb (e, cb', w) h = (h.0, h.1 ∙ success_if-one_more env p cb)

  rounds-step :
      (body : ℕ → Option Circuit → W → Round A × Option Circuit × W) (m k : ℕ)
      (last : Option Failure) (cb cb' : Option Circuit) (w w' : W) (x : Failure)
      → body k cb w ≡ (again x, cb', w')
      → rounds env p body (suc m) k last cb w ≡ rounds env p body m (k + 1) (some x) cb' w'
  unfolding rounds
  rounds-step body m k last cb cb' w w' x e =
      ap
        (λ r. elim r.0 [
          | finish y ↦ (y, r.1, r.2)
          | again y ↦ rounds env p body m (k + 1) (some y) r.1 r.2
        ])
        e

  pub rounds-returns :
      (body : ℕ → Option Circuit → W → Round A × Option Circuit × W) (m k : ℕ)
      (last : Option Failure) (cb : Option Circuit) (w : W) (v : A)
      → let (r, cb', _) = body k cb w in
        (r ≡ finish (returned v)) × (cb' ≡ success_if env p cb)
        → Ended v cb (rounds env p body (suc m) k last cb w)
  unfolding rounds
  rounds-returns body m k last cb w v h = ground arith

  module _ (hits : W → A → Type 0) (misses : W → W → Type 0) (pause : ℕ → W → W)
      (body : ℕ → Option Circuit → W → Round A × Option Circuit × W)
      (body-hits : (k : ℕ) (cb : Option Circuit) (w : W) (v : A)
        → hits w v
        → Endures 0 cb
        → let (r, cb', _) = body k cb w in (r ≡ finish (returned v)) × (cb' ≡ success_if env p cb))
      (body-misses : (n k : ℕ) (cb : Option Circuit) (w w' : W)
        → misses w w'
        → Endures (suc n) cb
        → is_last p k ≡ false
        → (x : Failure) × (body k cb w ≡ (again x, one_more cb, pause k w'))) where
    rounds-Ended :
        (n k m : ℕ) (last : Option Failure) (cb : Option Circuit) (w : W) (v : A)
        → Flaky hits misses pause n k w v
        → Endures n cb
        → k + m ≡ p.max_attempts
        → n < m
        → Ended v cb (rounds env p body m k last cb w)
    rounds-Ended n k zero last cb w v f e s l = absurd (omega (arith, l))
    rounds-Ended zero k (suc m) last cb w v (responds h) e s l =
        rounds-returns body m k last cb w v (body-hits k cb w v h e)
    rounds-Ended (suc n) k (suc m) last cb w v (fails {w' = w'} x rest) e s l =
        let (y, eq) = body-misses n k cb w w' x e (ground arith) in
        let next = rounds env p body m (k + 1) (some y) (one_more cb) (pause k w') in
        rw (rounds-step body m k last cb (one_more cb) w (pause k w') y eq) (
          Ended-one_more v cb next (
            rounds-Ended n (k + 1) m (some y) (one_more cb) (pause k w') v rest
              (one_more-Endures n cb e) (omega (arith, s)) (omega (arith, l))))

  pub run_sync-Ended :
      (n : ℕ) (cb : Option Circuit) (w : W) (v : A)
      → Flaky (HitsSync env p) (MissesSync env p) (sleep_sync env p) n 0 w v
      → Endures n cb
      → n < p.max_attempts
      → Ended v cb (run_sync env p cb w)
  unfolding run_sync
  run_sync-Ended n cb w v f e l =
      rounds-Ended (HitsSync env p) (MissesSync env p) (sleep_sync env p) (attempt_sync env p)
        attempt_sync-hits attempt_sync-misses n 0 p.max_attempts none cb w v f e (omega arith) l

  pub run_async-Ended :
      (n : ℕ) (cb : Option Circuit) (w : W) (v : A)
      → Flaky (HitsAsync env p) (MissesAsync env p) (sleep_async env p) n 0 w v
      → Endures n cb
      → n < p.max_attempts
      → Ended v cb (run_async env p cb w)
  unfolding run_async
  run_async-Ended n cb w v f e l =
      rounds-Ended (HitsAsync env p) (MissesAsync env p) (sleep_async env p) (attempt_async env p)
        attempt_async-hits attempt_async-misses n 0 p.max_attempts none cb w v f e (omega arith) l
