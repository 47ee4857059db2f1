-- ===== src/Tiered/Badge.antt =====
-- What a badge shows.
use native.Mathlib.Numerals.{add-one}
use cubiczan_resilience.Base.{
  ℕ, zero, suc, ◌+◌, ◌-◌, ◌*◌, ◌/◌, ◌%◌, ◌≤◌, ◌<◌, ◌≡◌, refl, Bool, true, false, ◌&&◌, Option, none,
  some, [], ◌∷◌, ◌++◌, arith, ltb, Bool-cases, inl, inr, ap, ◌∙◌,
}
use cubiczan_resilience.Text.{Text, codes, starts_with}
use cubiczan_resilience.Tiered.{Tier, live, cache, mock, digits, show, human_age, badge_of}

-- The number that digits stand for, read after the number `k`.
abbrev pub value_from : ℕ → Text → ℕ
value_from k [] = k
value_from k (c ∷ s) = value_from (k * 10 + (c - 48)) s

value_from-digits :
    (f n : ℕ) (acc : Text) → n < f → value_from 0 (digits f n acc) ≡ value_from n acc
unfolding digits
value_from-digits zero n acc h = absurd (omega arith)
value_from-digits (suc f) n acc h =
    let last : ℕ = 48 + n % 10 in
    elim (Bool-cases (ltb n 10)) [
      | inl small ↦
          rw small (let e : 0 * 10 + (last - 48) ≡ n = ground arith in ap (λ k. value_from k acc) e)
      | inr large ↦ rw large (
          let e : (n / 10) * 10 + (last - 48) ≡ n = omega arith in
          value_from-digits f (n / 10) (last ∷ acc) (ground arith) ∙ ap (λ k. value_from k acc) e)
    ]

-- The decimal digits of a number in a badge are read back as the number: the fuel suffices.
pub value_from-show : (n : ℕ) → value_from 0 (show n) ≡ n
unfolding show
value_from-show n = value_from-digits (n + 1) n [] (omega arith)

abbrev StartsByDigit : Text → Type 0
StartsByDigit [] = ⊥
StartsByDigit (c ∷ _) = (48 ≤ c) × (c ≤ 57)

digits-StartsByDigit : (f n : ℕ) (acc : Text) → StartsByDigit acc → StartsByDigit (digits f n acc)
unfolding digits
digits-StartsByDigit zero n acc h = h
digits-StartsByDigit (suc f) n acc h =
    ground (arith, digits-StartsByDigit f (n / 10) ((48 + n % 10) ∷ acc) (omega arith))

digits-StartsByDigit_nil : (f n : ℕ) → StartsByDigit (digits (suc f) n [])
unfolding digits
digits-StartsByDigit_nil f n =
    ground (arith, digits-StartsByDigit f (n / 10) ((48 + n % 10) ∷ []) (omega arith))

show-StartsByDigit : (n : ℕ) → StartsByDigit (show n)
unfolding show
show-StartsByDigit n = rw add-one (digits-StartsByDigit_nil n n)

append-StartsByDigit : (s t : Text) → StartsByDigit s → StartsByDigit (s ++ t)
append-StartsByDigit [] t h = absurd h
append-StartsByDigit (c ∷ s) t h = h

human_age-StartsByDigit : (ms : ℕ) → StartsByDigit (human_age ms)
unfolding human_age
human_age-StartsByDigit ms = ground (
  arith,
  append-StartsByDigit (show ms) (codes "ms") (show-StartsByDigit ms),
  append-StartsByDigit (show (ms / 1000)) (codes "s") (show-StartsByDigit (ms / 1000)),
  append-StartsByDigit (show (ms / 60000)) (codes "m") (show-StartsByDigit (ms / 60000)),
  append-StartsByDigit (show (ms / 3600000)) (codes "h") (show-StartsByDigit (ms / 3600000)),
  append-StartsByDigit (show (ms / 86400000)) (codes "d") (show-StartsByDigit (ms / 86400000)),
)

abbrev pub is_live : Tier → Bool
is_live live = true
is_live cache = false
is_live mock = false

abbrev pub is_cache : Tier → Bool
is_cache live = false
is_cache cache = true
is_cache mock = false

abbrev pub is_mock : Tier → Bool
is_mock live = false
is_mock cache = false
is_mock mock = true

starts_with_digit : (s t : Text) → StartsByDigit s → starts_with (codes "stale") (s ++ t) ≡ false
starts_with_digit [] t h = absurd h
starts_with_digit (c ∷ s) t h = ground arith

-- The badge tells the tier, and a stale value of the cache from a fresh one: it begins with "live"
-- exactly for the live tier, with "mock" exactly for the mock tier, with "cache" exactly for the
-- cache, and with "cache (stale" exactly for a stale value of the cache.
pub badge_of-begins :
    (t : Tier) (stale : Bool) (age : Option ℕ)
    → (starts_with (codes "live") (badge_of t stale age) ≡ is_live t)
      × (starts_with (codes "mock") (badge_of t stale age) ≡ is_mock t)
      × (starts_with (codes "cache") (badge_of t stale age) ≡ is_cache t)
      × (starts_with (codes "cache (stale") (badge_of t stale age) ≡ is_cache t && stale)
unfolding badge_of
badge_of-begins live stale age = (refl, refl, refl, refl)
badge_of-begins mock stale age = (refl, refl, refl, refl)
badge_of-begins cache false none = (refl, refl, refl, refl)
badge_of-begins cache true none = (refl, refl, refl, refl)
badge_of-begins cache false (some a) =
    (refl, refl, refl, starts_with_digit (human_age a) (codes ")") (human_age-StartsByDigit a))
badge_of-begins cache true (some a) = (refl, refl, refl, refl)
