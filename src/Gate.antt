-- ===== src/Gate.antt =====
-- The report gate of python/src/cubiczan_resilience/verification_gate.py.
pub mod Laws
mod Tests
use cubiczan_resilience.Base.{
  ℕ, ◌-◌, ◌*◌, max, String, str_eq, Bool, false, not, Option, none, some, List, [], ◌∷◌, ◌++◌, map,
  length, if◌then◌else◌,
}
use cubiczan_resilience.Dict.{Dict}
use cubiczan_resilience.Text.{Text, codes, is_blank}

-- `CLEAR`, `REQUIRES_HUMAN_VERIFICATION`, `PENALTY_PER_VIOLATION`, `CONFIDENCE_FLOOR` and
-- `SEVERITY_FLOOR`.
abbrev pub clear : String
clear = "CLEAR"

abbrev pub requires_human_verification : String
requires_human_verification = "REQUIRES_HUMAN_VERIFICATION"

abbrev pub penalty_per_violation : ℕ
penalty_per_violation = 12

abbrev pub confidence_floor : ℕ
confidence_floor = 50

abbrev pub severity_floor : String
severity_floor = "floor"

pub record VerificationGate : Type 0 where
  pub status : String
  pub confidence : ℕ
  pub violations : List Text

-- A value of the dict of a gate.
pub data Field : Type 0 where
  text : String → Field
  number : ℕ → Field
  texts : List Text → Field

pub to_dict : VerificationGate → Dict Field
to_dict g =
    ("status", text g.status)
    ∷ ("confidence", number g.confidence)
    ∷ ("violations", texts g.violations)
    ∷ []

pub is_clear : VerificationGate → Bool
is_clear g = str_eq g.status clear

pub blocking_issues_lines : VerificationGate → List Text
blocking_issues_lines g = map (λ item. codes "- " ++ item) g.violations

-- `[str(v) for v in violations if str(v).strip()]`.
pub clean : List Text → List Text
clean [] = []
clean (v ∷ vs) = let rest = clean vs in if is_blank v then rest else v ∷ rest

-- `severity_hint is not None and severity_hint != SEVERITY_FLOOR`.
pub is_unknown : Option String → Bool
is_unknown none = false
is_unknown (some hint) = not (str_eq hint severity_floor)

pub pins_floor : Option String → Bool
pins_floor none = false
pins_floor (some hint) = str_eq hint severity_floor

-- The difference is cut off at 0, which `max` with the floor does not see.
pub score : Option String → ℕ → ℕ
unfolding pins_floor
score hint n =
    if pins_floor hint
    then confidence_floor
    else max confidence_floor (100 - penalty_per_violation * n)

pub gate_of : Option String → List Text → VerificationGate
unfolding score
gate_of hint [] = record { status = clear; confidence = 100; violations = [] }
gate_of hint (v ∷ vs) = record {
  status = requires_human_verification;
  confidence = score hint (length (v ∷ vs));
  violations = v ∷ vs;
}

-- `build_gate`; `none` is its `ValueError`.
pub build_gate : List Text → Option String → Option VerificationGate
unfolding is_unknown gate_of
build_gate violations hint =
    if is_unknown hint then none else some (gate_of hint (clean violations))
