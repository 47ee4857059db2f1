-- ===== src/Athena/Identifiers.antt =====
-- The texts that `validate_identifier` lets through, against a grammar of dotted names.
use mathlib.Core.Path.{subst}
use cubiczan_resilience.Base.{
  ℕ, ◌≡◌, refl, ap, sym, ◌∙◌, ◌⊎◌, inl, inr, ◌↔◌, true, false, ◌&&◌, ◌==◌, some, [], ◌∷◌, ◌++◌, All,
  arith,
}
use cubiczan_resilience.Text.{Text}
use cubiczan_resilience.Athena.{is_start, is_word, is_empty, matches, validate_identifier}

abbrev pub IsPart : Text → Type 0
IsPart [] = ⊥
IsPart (c ∷ s) = (is_start c ≡ true) × All (λ d. is_word d ≡ true) s

-- Parts that dots join.
pub data Dotted : Text → Type 0 where
  one : (p : Text) → IsPart p → Dotted p
  dot : (p q : Text) → IsPart p → Dotted q → Dotted (p ++ 46 ∷ q)

-- A dotted name, or one with a newline at the end.
abbrev pub Accepted : Text → Type 0
Accepted s = Dotted s ⊎ ((t : Text) × Dotted t × (s ≡ t ++ 10 ∷ []))

append_nil : (s : Text) → s ≡ s ++ []
append_nil [] = refl
append_nil (c ∷ s) = ap (λ t. c ∷ t) (append_nil s)

append_assoc : (s t u : Text) → (s ++ t) ++ u ≡ s ++ (t ++ u)
append_assoc [] t u = refl
append_assoc (c ∷ s) t u = ap (λ x. c ∷ x) (append_assoc s t u)

All-snoc :
    (s : Text) (c : ℕ)
    → All (λ d. is_word d ≡ true) s
    → is_word c ≡ true
    → All (λ d. is_word d ≡ true) (s ++ c ∷ [])
All-snoc [] c h k = (k, tt)
All-snoc (d ∷ s) c (h, hs) k = (h, All-snoc s c hs k)

IsPart-snoc : (p : Text) (c : ℕ) → IsPart p → is_word c ≡ true → IsPart (p ++ c ∷ [])
IsPart-snoc [] c h k = absurd h
IsPart-snoc (d ∷ s) c (h, hs) k = (h, All-snoc s c hs k)

-- A part and a dot before an accepted text.
Accepted-dot : (p s : Text) → IsPart p → Accepted s → Accepted (p ++ 46 ∷ s)
Accepted-dot p s part (inl d) = inl (dot p s part d)
Accepted-dot p s part (inr (t, d, same)) = inr (
  p ++ 46 ∷ t,
  dot p t part d,
  ap (λ u. p ++ 46 ∷ u) same ∙ sym (append_assoc p (46 ∷ t) (10 ∷ [])),
)

ending : (c : ℕ) (s : Text) → ((c == 10) && is_empty s) ≡ true → c ∷ s ≡ 10 ∷ []
ending c [] h = ap (λ d. d ∷ []) (the_newline c h)
  where
    the_newline : (c : ℕ) → ((c == 10) && true) ≡ true → c ≡ 10
    the_newline c h = ground arith
ending c (d ∷ s) h = ground arith

sound :
    (s : Text)
    → (matches false s ≡ true → Accepted s)
      × ((p : Text) → IsPart p → matches true s ≡ true → Accepted (p ++ s))
unfolding matches
sound [] = ((λ h. ground arith), (λ p part h. subst Accepted (append_nil p) (inl (one p part))))
sound (c ∷ s) =
    let (start, within) = sound s in
    (
      (λ h.
          elim (is_start c) as (λ b. is_start c ≡ b → Accepted (c ∷ s)) [
            | true ↦ λ k. within (c ∷ []) (k, tt) (ground (arith, k, h))
            | false ↦ λ k. ground (arith, k, h)
          ]
            refl),
      (λ p part h.
          elim (is_word c) as (λ b. is_word c ≡ b → Accepted (p ++ c ∷ s)) [
            | true ↦ λ k.
                subst Accepted (append_assoc p (c ∷ []) s)
                  (within (p ++ c ∷ []) (IsPart-snoc p c part k) (ground (arith, k, h)))
            | false ↦ λ k.
                elim (c == 46) as (λ b. (c == 46) ≡ b → Accepted (p ++ c ∷ s)) [
                  | true ↦ λ m.
                      let is_dot : 46 ≡ c = ground (arith, m) in
                      subst (λ d. Accepted (p ++ d ∷ s)) is_dot
                        (Accepted-dot p s part (start (ground (arith, k, m, h))))
                  | false ↦ λ m.
                      inr (p, one p part, ap (λ t. p ++ t) (ending c s (ground (arith, k, m, h))))
                ]
                  refl
          ]
            refl),
    )

matches-word : (w r : Text) → All (λ d. is_word d ≡ true) w → matches true (w ++ r) ≡ matches true r
unfolding matches
matches-word [] r h = refl
matches-word (c ∷ w) r (h, hs) = rw h (matches-word w r hs)

matches-part : (p r : Text) → IsPart p → matches false (p ++ r) ≡ matches true r
unfolding matches
matches-part [] r h = absurd h
matches-part (c ∷ w) r (h, hs) = rw h (matches-word w r hs)

complete : (s r : Text) → Dotted s → matches true r ≡ true → matches false (s ++ r) ≡ true
unfolding matches
complete _ r (one p part) h = matches-part p r part ∙ h
complete _ r (dot p q part rest) h =
    rw (append_assoc p (46 ∷ q) r, matches-part p (46 ∷ (q ++ r)) part) (complete q r rest h)

accepted : (s : Text) → Accepted s → matches false s ≡ true
unfolding matches
accepted s (inl d) = subst (λ t. matches false t ≡ true) (sym (append_nil s)) (complete s [] d refl)
accepted s (inr (t, d, same)) = rw same (complete t (10 ∷ []) d refl)

-- `validate_identifier` returns a text exactly when it is a dotted name, of parts that begin with a
-- letter or `_` and go on with letters, digits and `_`, or such a name with one newline at its end.
pub validate_identifier-Accepted : (s : Text) → (validate_identifier s ≡ some s) ↔ Accepted s
unfolding validate_identifier
validate_identifier-Accepted s =
    ((λ h. (sound s).0 (ground (arith, h))), (λ a. rw (accepted s a) refl))
