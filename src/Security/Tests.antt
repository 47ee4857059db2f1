-- ===== src/Security/Tests.antt =====
-- Requests and settings at concrete inputs.
use cubiczan_resilience.Base.{◌≡◌, refl, true, none, some, [], ◌∷◌}
use cubiczan_resilience.Text.{codes}
use cubiczan_resilience.Security.{
  Credentials, admitted, unavailable, type_error, dependency, cors_allowlist,
}
use cubiczan_resilience.Security.Access.{Decides, dependency-Decides}

abbrev bearer : Credentials
bearer = record { scheme = codes "Bearer"; token = codes "s3cret" }

let_in : dependency (some (codes "s3cret")) (some bearer) ≡ admitted (codes "s3cret")
unfolding dependency
let_in = refl

not_configured : dependency (some []) (some bearer) ≡ unavailable
unfolding dependency
not_configured = refl

-- A token that is not ASCII makes the comparison raise.
not_ascii :
    dependency (some (codes "s3cret")) (some (record bearer { token = 233 ∷ [] })) ≡ type_error
unfolding dependency
not_ascii = refl

wildcard : cors_allowlist (codes "*" ∷ []) true none none ≡ none
unfolding cors_allowlist
wildcard = refl

dependency-Decides_example :
    Decides (some (codes "s3cret")) (some bearer) (dependency (some (codes "s3cret")) (some bearer))
dependency-Decides_example = dependency-Decides (some (codes "s3cret")) (some bearer)
