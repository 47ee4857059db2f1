-- ===== src/Security/Access.antt =====
-- Which requests are let in, and which settings are refused.
use mathlib.Core.Option.{some-injective}
use cubiczan_resilience.Base.{
  ℕ, ◌≡◌, ◌≢◌, refl, ap, sym, ◌∙◌, ◌⊎◌, inl, inr, true, false, ◌&&◌, Bool-cases, Option, none, some,
  [], ◌∷◌, arith,
}
use cubiczan_resilience.Text.{Text, codes, text_eq, text_eq_self, text_eq-true, lower}
use cubiczan_resilience.Security.{
  Credentials, Answer, admitted, unavailable, unauthorized, type_error, is_ascii, or_empty,
  compared, dependency,
}

-- The credentials are a bearer token, in any case of the word.
abbrev pub IsBearer : Credentials → Type 0
IsBearer c = lower c.scheme ≡ codes "bearer"

-- What each answer says of the request.
abbrev pub Decides : Option Text → Option Credentials → Answer → Type 0
Decides secret c unavailable = (secret ≡ none) ⊎ (secret ≡ some [])
Decides secret none (admitted t) = ⊥
Decides secret (some c) (admitted t) = (secret ≡ some t) × (t ≢ []) × (c.token ≡ t) × IsBearer c
Decides secret none unauthorized = or_empty secret ≢ []
Decides secret (some c) unauthorized =
    (or_empty secret ≢ []) × ((lower c.scheme ≢ codes "bearer") ⊎ (secret ≢ some c.token))
Decides secret none type_error = ⊥
Decides secret (some c) type_error =
    IsBearer c × ((is_ascii c.token && is_ascii (or_empty secret)) ≡ false)

not_equal : (s t : Text) → text_eq s t ≡ false → s ≢ t
not_equal s t h same =
    let equal : text_eq s t ≡ true = rw same (text_eq_self t) in ground (arith, h, equal)

not_empty : (c : ℕ) (s : Text) → c ∷ s ≢ []
not_empty c s h = ground arith

compared-Decides :
    (secret : Text) (c : Credentials)
    → secret ≢ []
    → IsBearer c
    → Decides (some secret) (some c) (compared c.token secret)
compared-Decides secret c given bearer = elim (Bool-cases (is_ascii c.token && is_ascii secret)) [
  | inr h ↦ rw h (bearer, h)
  | inl h ↦ elim (Bool-cases (text_eq c.token secret)) [
    | inl same ↦
        let equal = text_eq-true c.token secret same in
        rw (h, same) (ap some (sym equal), (λ e. given (sym equal ∙ e)), refl, bearer)
    | inr differs ↦
        rw (h, differs)
          (given, inr (λ e. not_equal c.token secret differs (sym (some-injective _ _ e))))
  ]
]

-- The dependency answers 503 only if the secret is not set or empty. It lets a request in only with
-- a bearer token that is the secret, which is then set and not empty. It answers 401 only if the secret is set and the request has no credentials, another scheme, or
-- another token, and raises `TypeError` only for a bearer token where a text is not ASCII.
pub dependency-Decides :
    (secret : Option Text) (c : Option Credentials) → Decides secret c (dependency secret c)
unfolding dependency
dependency-Decides none none = inl refl
dependency-Decides none (some c) = inl refl
dependency-Decides (some []) none = inr refl
dependency-Decides (some []) (some c) = inr refl
dependency-Decides (some (d ∷ e)) none = not_empty d e
dependency-Decides (some (d ∷ e)) (some c) =
    elim (Bool-cases (text_eq (lower c.scheme) (codes "bearer"))) [
      | inl bearer ↦
          rw bearer (compared-Decides (d ∷ e) c (not_empty d e) (text_eq-true _ _ bearer))
      | inr other ↦ rw other (not_empty d e, inl (not_equal _ _ other))
    ]
