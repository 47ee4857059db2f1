-- ===== src/Gate/Laws.antt =====
-- What a gate says of the violations that it was built from.
use cubiczan_resilience.Base.{
  ◌≤◌, ◌≡◌, ◌↔◌, refl, String, true, Option, none, some, List, [], ◌∷◌, ◌++◌, length-append, arith,
  ap, ◌∙◌,
}
use cubiczan_resilience.Text.{Text}
use cubiczan_resilience.Gate.{
  VerificationGate, is_clear, blocking_issues_lines, clean, gate_of, build_gate,
}

-- The status, the confidence and the list of violations say the same.
pub record Agrees (violations : List Text) (g : VerificationGate) : Type 0 where
  pub listed : g.violations ≡ clean violations
  pub bounded : (50 ≤ g.confidence) × (g.confidence ≤ 100)
  pub full : (is_clear g ≡ true) ↔ (g.confidence ≡ 100)
  pub empty : (is_clear g ≡ true) ↔ (clean violations ≡ [])
  pub rendered : (is_clear g ≡ true) ↔ (blocking_issues_lines g ≡ [])

gate_of-Agrees :
    (hint : Option String) (violations : List Text) (vs : List Text)
    → clean violations ≡ vs
    → Agrees violations (gate_of hint vs)
unfolding gate_of is_clear blocking_issues_lines
gate_of-Agrees hint violations [] e = ground arith
gate_of-Agrees hint violations (v ∷ vs) e = ground arith

-- The gate that is built lists exactly the violations that are not blank, its confidence is from 50
-- to 100, and it is clear exactly when the confidence is 100, exactly when no such violation is
-- there, and exactly when it renders no blocking issue.
pub build_gate-Agrees :
    (violations : List Text) (hint : Option String) (g : VerificationGate)
    → build_gate violations hint ≡ some g
    → Agrees violations g
unfolding build_gate
build_gate-Agrees violations hint g h =
    ground (arith, gate_of-Agrees hint violations (clean violations) refl)

clean-clean : (vs : List Text) → clean (clean vs) ≡ clean vs
unfolding clean
clean-clean [] = refl
clean-clean (v ∷ vs) = ground (arith, clean-clean vs)

clean-append : (vs ws : List Text) → clean (vs ++ ws) ≡ clean vs ++ clean ws
unfolding clean
clean-append [] ws = refl
clean-append (v ∷ vs) ws = ground (arith, clean-append vs ws)

-- A gate that is built anew from the violations that it lists is the same gate.
pub build_gate-rebuilt :
    (violations : List Text) (hint : Option String) (g : VerificationGate)
    → build_gate violations hint ≡ some g
    → build_gate g.violations hint ≡ some g
unfolding build_gate
build_gate-rebuilt violations hint g h =
    let same : clean g.violations ≡ clean violations =
      ap clean (build_gate-Agrees violations hint g h).listed ∙ clean-clean violations in
    ground arith

confidence-gate_of-append :
    (hint : Option String) (vs ws : List Text)
    → (gate_of hint (vs ++ ws)).confidence ≤ (gate_of none vs).confidence
unfolding gate_of
confidence-gate_of-append hint [] [] = omega arith
confidence-gate_of-append hint [] (w ∷ ws) = ground arith
confidence-gate_of-append hint (v ∷ vs) ws = ground (arith, length-append vs ws)

-- More violations never raise the confidence, and the severity hint never does: the gate of a
-- longer list, with the hint or without, has at most the confidence of the gate of the shorter one
-- without a hint.
pub confidence-build_gate-append :
    (vs ws : List Text) (hint : Option String) (g g' : VerificationGate)
    → build_gate vs none ≡ some g
    → build_gate (vs ++ ws) hint ≡ some g'
    → g'.confidence ≤ g.confidence
unfolding build_gate
confidence-build_gate-append vs ws hint g g' h h' =
    ground (arith, clean-append vs ws, confidence-gate_of-append hint (clean vs) (clean ws))
