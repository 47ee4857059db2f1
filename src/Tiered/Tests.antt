-- ===== src/Tiered/Tests.antt =====
-- Resolutions of concrete tiers. The world is the number of notified failures.
use cubiczan_resilience.Base.{ℕ, ◌+◌, ◌≡◌, refl, true, none, some, [], ◌∷◌, String}
use cubiczan_resilience.Text.{codes}
use cubiczan_resilience.Tiered.{
  live, cache, own, too_old, cached, gives, raises, resolved, all_tiers_failed, Tiers, show,
  human_age, badge_of, resolve_tiered,
}
use cubiczan_resilience.Tiered.Badge.{value_from, value_from-show}

-- The live source fails at the time 100000; the cache holds a value of the time 60000.
abbrev tiers : Tiers ℕ String ℕ
tiers = record {
  live_call = λ w. (raises "timeout", w);
  cache_call = some (λ w. (gives (cached 7 60000), w));
  mock_call = none;
  clock = λ w. (100000, w);
  on_failure = some (λ f w. w + 1);
}

resolve_tiered-stale : resolve_tiered tiers 30000 none 0 ≡ (
  resolved (record {
    value = 7;
    tier = cache;
    degraded = true;
    stale = true;
    age = some 40000;
    failures = record { tier = live; error = own "timeout" } ∷ [];
    badge = codes "cache (stale, 40s)";
  }),
  1,
)
unfolding resolve_tiered badge_of
resolve_tiered-stale = refl

resolve_tiered-too_old : resolve_tiered tiers 30000 (some 35000) 0 ≡ (
  all_tiers_failed (
      record { tier = live; error = own "timeout" }
      ∷ record { tier = cache; error = too_old 40000 }
      ∷ []),
  2,
)
unfolding resolve_tiered
resolve_tiered-too_old = refl

human_age-hours : human_age 7300000 ≡ codes "2h"
unfolding human_age
human_age-hours = refl

value_from-show_example : value_from 0 (show 1234) ≡ 1234
value_from-show_example = value_from-show 1234
