-- ===== src/Gate/Tests.antt =====
-- Gates at concrete violations.
use cubiczan_resilience.Base.{◌≤◌, ◌≡◌, refl, none, some, List, [], ◌∷◌}
use cubiczan_resilience.Text.{Text, codes}
use cubiczan_resilience.Gate.{
  VerificationGate, clear, requires_human_verification, severity_floor, build_gate, clean, to_dict,
  text, number, texts,
}
use cubiczan_resilience.Gate.Laws.{Agrees, build_gate-Agrees, confidence-build_gate-append}

abbrev found : List Text
found = codes "row 7" ∷ codes "  " ∷ codes "row 9" ∷ []

abbrev gate : VerificationGate
gate = record {
  status = requires_human_verification;
  confidence = 76;
  violations = codes "row 7" ∷ codes "row 9" ∷ [];
}

abbrev floored : VerificationGate
floored = record gate { confidence = 50 }

build_gate-found : build_gate found none ≡ some gate
unfolding build_gate clean
build_gate-found = refl

build_gate-floored : build_gate found (some severity_floor) ≡ some floored
unfolding build_gate clean
build_gate-floored = refl

build_gate-typo : build_gate found (some "flor") ≡ none
unfolding build_gate
build_gate-typo = refl

build_gate-blank :
    build_gate (codes "  " ∷ []) (some severity_floor)
    ≡ some (record { status = clear; confidence = 100; violations = [] })
unfolding build_gate clean
build_gate-blank = refl

build_gate-Agrees_example : Agrees found gate
build_gate-Agrees_example = build_gate-Agrees found none gate build_gate-found

confidence-build_gate-append_example : 50 ≤ 76
confidence-build_gate-append_example =
    confidence-build_gate-append found [] (some severity_floor) gate floored build_gate-found
      build_gate-floored

gate-dict :
    to_dict gate
    ≡ ("status", text "REQUIRES_HUMAN_VERIFICATION")
      ∷ ("confidence", number 76)
      ∷ ("violations", texts (codes "row 7" ∷ codes "row 9" ∷ []))
      ∷ []
unfolding to_dict
gate-dict = refl
