-- ===== src/Tiered.antt =====
-- The three-tier resolution of python/src/cubiczan_resilience/tiered.py. Times and ages are in
-- milliseconds. The callables are the parameter `tiers` over a world `W`.
pub mod Badge
pub mod Provenance
mod Tests
use cubiczan_resilience.Base.{
  ℕ, zero, suc, ◌+◌, ◌-◌, ◌/◌, ◌%◌, Bool, true, false, Option, none, some, List, [], ◌∷◌, ◌++◌, ltb,
  if◌then◌else◌,
}
use cubiczan_resilience.Text.{Text, codes}

-- `LIVE`, `CACHE` and `MOCK`.
pub data Tier : Type 0 where
  live cache mock : Tier

-- What a tier fails with: its own exception, "cache miss", or the hard limit on the age.
pub data TierError (E : Type 0) : Type 0 where
  own : E → TierError E
  cache_miss : TierError E
  too_old : ℕ → TierError E

pub record TierFailure (E : Type 0) : Type 0 where
  pub tier : Tier
  pub error : TierError E

pub record TieredResult (E T : Type 0) : Type 0 where
  pub value : T
  pub tier : Tier
  pub degraded : Bool
  pub stale : Bool
  pub age : Option ℕ
  pub failures : List (TierFailure E)
  pub badge : Text

-- How a callable ends: with a value, an `Exception`, or another `BaseException`, which no tier
-- catches.
pub data Called (E A : Type 0) : Type 0 where
  gives : A → Called E A
  raises : E → Called E A
  interrupts : E → Called E A

-- What the cache returns: the miss sentinel, a `Cached` with its time, or a bare value.
pub data Hit (T : Type 0) : Type 0 where
  miss : Hit T
  cached : T → ℕ → Hit T
  bare : T → Hit T

pub data Resolution (E T : Type 0) : Type 0 where
  resolved : TieredResult E T → Resolution E T
  all_tiers_failed : List (TierFailure E) → Resolution E T
  interrupted : E → Resolution E T

pub record Tiers (W E T : Type 0) : Type 0 where
  pub live_call : W → Called E T × W
  pub cache_call : Option (W → Called E (Hit T) × W)
  pub mock_call : Option (W → Called E T × W)
  pub clock : W → ℕ × W
  pub on_failure : Option (TierFailure E → W → W)

-- The decimal digits of a number, with the fuel `n + 1`.
pub digits : ℕ → ℕ → Text → Text
digits zero n acc = acc
digits (suc f) n acc =
    let acc' = (48 + n % 10) ∷ acc in
    let rest = digits f (n / 10) acc' in if ltb n 10 then acc' else rest

pub show : ℕ → Text
unfolding digits
show n = digits (n + 1) n []

-- `_human_age`.
pub human_age : ℕ → Text
unfolding show
human_age ms =
    if ltb ms 1000
    then show ms ++ codes "ms"
    else if ltb ms 60000
    then show (ms / 1000) ++ codes "s"
    else if ltb ms 3600000
    then show (ms / 60000) ++ codes "m"
    else if ltb ms 86400000
    then show (ms / 3600000) ++ codes "h"
    else show (ms / 86400000) ++ codes "d"

-- `_badge`.
pub badge_of : Tier → Bool → Option ℕ → Text
unfolding human_age
badge_of live stale age = codes "live"
badge_of mock stale age = codes "mock data — not real"
badge_of cache false none = codes "cache"
badge_of cache true none = codes "cache (stale)"
badge_of cache false (some a) = codes "cache (" ++ (human_age a ++ codes ")")
badge_of cache true (some a) = codes "cache (stale, " ++ (human_age a ++ codes ")")

-- The hard limit is set, the age is known, and it is above the limit.
abbrev pub is_too_old : Option ℕ → Option ℕ → Bool
is_too_old none age = false
is_too_old (some limit) none = false
is_too_old (some limit) (some a) = ltb limit a

abbrev pub is_stale : ℕ → Option ℕ → Bool
is_stale limit none = false
is_stale limit (some a) = ltb limit a

abbrev pub or_zero : Option ℕ → ℕ
or_zero none = 0
or_zero (some n) = n

module _ {W E T : Type 0} (tiers : Tiers W E T) (max_cache_age : ℕ)
    (max_cache_age_hard : Option ℕ) where
  -- The inner function `fail`; `on_failure` does not raise.
  pub fail : Tier → TierError E → List (TierFailure E) → W → List (TierFailure E) × W
  fail t e fs w =
      let failure : TierFailure E = record { tier = t; error = e } in
      (fs ++ failure ∷ [], elim tiers.on_failure [ none ↦ w | some notify ↦ notify failure w ])

  abbrev live_result : T → TieredResult E T
  live_result v = record {
    value = v;
    tier = live;
    degraded = false;
    stale = false;
    age = none;
    failures = [];
    badge = badge_of live false none;
  }

  abbrev cache_result : T → Option ℕ → List (TierFailure E) → TieredResult E T
  cache_result v age fs = record {
    value = v;
    tier = cache;
    degraded = true;
    stale = is_stale max_cache_age age;
    age = age;
    failures = fs;
    badge = badge_of cache (is_stale max_cache_age age) age;
  }

  abbrev mock_result : T → List (TierFailure E) → TieredResult E T
  mock_result v fs = record {
    value = v;
    tier = mock;
    degraded = true;
    stale = false;
    age = none;
    failures = fs;
    badge = badge_of mock false none;
  }

  -- The mock tier, and the exhaustion.
  pub after_mock : Called E T → List (TierFailure E) → W → Resolution E T × W
  unfolding fail
  after_mock (gives v) fs w = (resolved (mock_result v fs), w)
  after_mock (interrupts e) fs w = (interrupted e, w)
  after_mock (raises e) fs w = let (fs', w') = fail mock (own e) fs w in (all_tiers_failed fs', w')

  abbrev pub offer_mock :
      Option (W → Called E T × W) → List (TierFailure E) → W → Resolution E T × W
  offer_mock none fs w = (all_tiers_failed fs, w)
  offer_mock (some call) fs w = let (c, w') = call w in after_mock c fs w'

  pub try_mock : List (TierFailure E) → W → Resolution E T × W
  unfolding after_mock
  try_mock fs w = offer_mock tiers.mock_call fs w

  -- A hit with its age: it is refused by the hard limit, or returned.
  pub use_hit : T → Option ℕ → List (TierFailure E) → W → Resolution E T × W
  unfolding try_mock fail
  use_hit v age fs w =
      if is_too_old max_cache_age_hard age
      then (let (fs', w') = fail cache (too_old (or_zero age)) fs w in try_mock fs' w')
      else (resolved (cache_result v age fs), w)

  -- The age is `max(0.0, time.time() - cached_at)`, which the truncated difference is.
  pub after_cache : Called E (Hit T) → List (TierFailure E) → W → Resolution E T × W
  unfolding use_hit
  after_cache (interrupts e) fs w = (interrupted e, w)
  after_cache (raises e) fs w = let (fs', w') = fail cache (own e) fs w in try_mock fs' w'
  after_cache (gives miss) fs w = let (fs', w') = fail cache cache_miss fs w in try_mock fs' w'
  after_cache (gives (bare v)) fs w = use_hit v none fs w
  after_cache (gives (cached v at)) fs w =
      let (now, w') = tiers.clock w in use_hit v (some (now - at)) fs w'

  abbrev pub offer_cache :
      Option (W → Called E (Hit T) × W) → List (TierFailure E) → W → Resolution E T × W
  offer_cache none fs w = try_mock fs w
  offer_cache (some call) fs w = let (c, w') = call w in after_cache c fs w'

  pub try_cache : List (TierFailure E) → W → Resolution E T × W
  unfolding after_cache
  try_cache fs w = offer_cache tiers.cache_call fs w

  pub after_live : Called E T → W → Resolution E T × W
  unfolding try_cache fail
  after_live (gives v) w = (resolved (live_result v), w)
  after_live (interrupts e) w = (interrupted e, w)
  after_live (raises e) w = let (fs, w') = fail live (own e) [] w in try_cache fs w'

  pub resolve_tiered : W → Resolution E T × W
  unfolding after_live
  resolve_tiered w = let (c, w') = tiers.live_call w in after_live c w'
