-- ===== src/Audit/Lines.antt =====
-- The lines of a file that grows by a line.
use cubiczan_resilience.Base.{
  ◌≡◌, refl, ap, sym, ◌∙◌, ◌⊎◌, inl, inr, Bool, true, false, Option, none, some, ◌>>=◌, List, [],
  ◌∷◌, ◌++◌, All, arith, if◌then◌else◌,
}
use cubiczan_resilience.Text.{is_break, lines_from, splitlines, newline, Text, is_blank}
use cubiczan_resilience.Audit.Records.{Value}
use cubiczan_resilience.Audit.{parse_each, parse_lines}

-- The text is empty or its last line has its end.
abbrev pub IsEnded : Text → Type 0
IsEnded raw = (raw ≡ []) ⊎ ((s : Text) × (raw ≡ s ++ newline))

abbrev pub IsLine : Text → Type 0
IsLine = All (λ c. is_break c ≡ false)

append_nil : (s : Text) → s ≡ s ++ []
append_nil [] = refl
append_nil (c ∷ s) = ap (λ x. c ∷ x) (append_nil s)

pub append_assoc : (s t u : Text) → (s ++ t) ++ u ≡ s ++ (t ++ u)
append_assoc [] t u = refl
append_assoc (c ∷ s) t u = ap (λ x. c ∷ x) (append_assoc s t u)

lines_from-line : (line s : Text) → IsLine s → lines_from line (s ++ newline) ≡ (line ++ s) ∷ []
lines_from-line line [] h = ap (λ x. x ∷ []) (append_nil line)
lines_from-line line (c ∷ s) (h, hs) =
    rw (h, lines_from-line (line ++ c ∷ []) s hs, append_assoc line (c ∷ []) s) refl

lines_from-append :
    (line s t : Text)
    → lines_from line ((s ++ newline) ++ t) ≡ lines_from line (s ++ newline) ++ splitlines t
lines_from-append line [] t = refl
lines_from-append line (c ∷ s) t =
    ground (arith, lines_from-append [] s t, lines_from-append (line ++ c ∷ []) s t)

pub splitlines-append_ended :
    (raw rest : Text) → IsEnded raw → splitlines (raw ++ rest) ≡ splitlines raw ++ splitlines rest
splitlines-append_ended raw rest (inl same) = rw same refl
splitlines-append_ended raw rest (inr (s, same)) = rw same (lines_from-append [] s rest)

pub splitlines-append :
    (raw line : Text)
    → IsEnded raw
    → IsLine line
    → splitlines (raw ++ (line ++ newline)) ≡ splitlines raw ++ line ∷ []
splitlines-append raw line (inl same) h = rw same (lines_from-line [] line h)
splitlines-append raw line (inr (s, same)) h = rw same (
    lines_from-append [] s (line ++ newline)
    ∙ ap (λ x. splitlines (s ++ newline) ++ x) (lines_from-line [] line h))

pub IsEnded-append : (raw line : Text) → IsEnded (raw ++ (line ++ newline))
IsEnded-append raw line = inr (raw ++ line, sym (append_assoc raw line newline))

module _ {A : Type 0} (loads : Text → Option (Value A)) where
  abbrev added : Value A → List (Value A) → Option (List (Value A))
  added v vs = some (vs ++ v ∷ [])

  added-last :
      (v : Value A) (b : Bool) (o : Option (Value A)) (p : Option (List (Value A)))
      → (if b then p >>= added v else (do u ← o; us ← p >>= added v; some (u ∷ us)))
        ≡ ((if b then p else (do u ← o; us ← p; some (u ∷ us))) >>= added v)
  added-last v true o p = refl
  added-last v false none p = refl
  added-last v false (some u) none = refl
  added-last v false (some u) (some us) = refl

  parse_each-append :
      (lines : List Text) (line : Text) (v : Value A)
      → is_blank line ≡ false
      → loads line ≡ some v
      → parse_each loads (lines ++ line ∷ []) ≡ (parse_each loads lines >>= added v)
  parse_each-append [] line v nonblank loaded = rw (nonblank, loaded) refl
  parse_each-append (l ∷ lines) line v nonblank loaded =
      rw (parse_each-append lines line v nonblank loaded)
        (added-last v (is_blank l) (loads l) (parse_each loads lines))

  pub parse_lines-append :
      (raw line : Text) (vs : List (Value A)) (v : Value A)
      → IsEnded raw
      → IsLine line
      → parse_lines loads raw ≡ some vs
      → is_blank line ≡ false
      → loads line ≡ some v
      → parse_lines loads (raw ++ (line ++ newline)) ≡ some (vs ++ v ∷ [])
  unfolding parse_lines
  parse_lines-append raw line vs v e l h nonblank loaded =
      rw (splitlines-append raw line e l)
        (parse_each-append (splitlines raw) line v nonblank loaded ∙ ap (λ o. o >>= added v) h)
