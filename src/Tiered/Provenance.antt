-- ===== src/Tiered/Provenance.antt =====
-- Where a resolved value comes from, and what the failures tell.
use cubiczan_resilience.Base.{ℕ, ◌≡◌, ◌≢◌, true, false, Option, none, some, List, [], ◌∷◌, ◌++◌}
use cubiczan_resilience.Tiered.{
  Tier, live, cache, mock, TierFailure, TieredResult, Resolution, resolved, all_tiers_failed,
  interrupted, Tiers, badge_of, is_too_old, is_stale,
}

-- A tier that may be left out.
abbrev pub if_given {ℓ} : {A : Type ℓ} → Option A → Tier → List Tier
if_given none t = []
if_given (some _) t = t ∷ []

abbrev pub tiers_of : {E : Type 0} → List (TierFailure E) → List Tier
tiers_of [] = []
tiers_of (f ∷ fs) = f.tier ∷ tiers_of fs

module _ {W E T : Type 0} (tiers : Tiers W E T) (max_cache_age : ℕ)
    (max_cache_age_hard : Option ℕ) where
  -- What is said of a result whose value comes from the tier `t`.
  abbrev pub OfTier : Tier → TieredResult E T → Type 0
  OfTier live r = (r.degraded ≡ false) × (r.stale ≡ false) × (r.age ≡ none) × (r.failures ≡ [])
  OfTier cache r =
      (tiers.cache_call ≢ none)
      × (r.degraded ≡ true)
      × (r.stale ≡ is_stale max_cache_age r.age)
      × (is_too_old max_cache_age_hard r.age ≡ false)
      × (tiers_of r.failures ≡ live ∷ [])
  OfTier mock r =
      (tiers.mock_call ≢ none)
      × (r.degraded ≡ true)
      × (r.stale ≡ false)
      × (r.age ≡ none)
      × (tiers_of r.failures ≡ live ∷ if_given tiers.cache_call cache)

  abbrev pub IsHonest : Resolution E T → Type 0
  IsHonest (resolved r) = OfTier r.tier r × (r.badge ≡ badge_of r.tier r.stale r.age)
  IsHonest (all_tiers_failed fs) =
      tiers_of fs ≡ live ∷ (if_given tiers.cache_call cache ++ if_given tiers.mock_call mock)
  IsHonest (interrupted _) = Unit
