-- ===== src/Audit/Shorter.antt =====
-- A ledger whose last lines are gone.
use mathlib.Core.Path.{subst}
use cubiczan_resilience.Base.{
  ℕ, ◌≤◌, ◌≡◌, refl, ap, sym, ◌∙◌, Bool, true, false, Option, none, some, ◌>>=◌, List, [], ◌∷◌,
  ◌++◌, length, length-append, arith, if◌then◌else◌,
}
use cubiczan_resilience.Text.{Text, splitlines, is_blank}
use cubiczan_resilience.Audit.Records.{Record, Value, object, no_object}
use cubiczan_resilience.Audit.{valid, verify_parsed, verify_ledger, parse_each, parse_lines}
use cubiczan_resilience.Audit.Lines.{IsEnded, splitlines-append_ended}
use cubiczan_resilience.Audit.Chain.{Chain, ends, link, Explains, verify_from-Explains}
use cubiczan_resilience.Audit.Append.{Chain-valid}

module _ {A : Type 0} (loads : Text → Option (Value A)) where
  -- The lines up to some place are read where all are, as the records up to some place.
  abbrev IsReadTo : List Text → List (Value A) → Type 0
  IsReadTo lines vs =
      (us : List (Value A)) × (ws : List (Value A)) × (parse_each loads lines ≡ some us)
      × (vs ≡ us ++ ws)

  IsReadTo-line :
      (line : Text) (lines : List Text) (vs : List (Value A)) (b : Bool) (o : Option (Value A))
      (rest : Option (List (Value A)))
      → is_blank line ≡ b
      → loads line ≡ o
      → ((us : List (Value A)) → rest ≡ some us → IsReadTo lines us)
      → (if b then rest else (do v ← o; us ← rest; some (v ∷ us))) ≡ some vs
      → IsReadTo (line ∷ lines) vs
  IsReadTo-line line lines vs true o rest blank loaded h read =
      let (us, ws, parsed, split) = h vs read in (us, ws, rw (blank, parsed) refl, split)
  IsReadTo-line line lines vs false none rest blank loaded h read = ground arith
  IsReadTo-line line lines vs false (some v) none blank loaded h read = ground arith
  IsReadTo-line line lines vs false (some v) (some all) blank loaded h read =
      let (us, ws, parsed, split) = h all refl in
      (v ∷ us, ws, rw (blank, loaded, parsed) refl, ground (arith, read) ∙ ap (λ x. v ∷ x) split)

  parse_each-IsReadTo :
      (lines more : List Text) (vs : List (Value A))
      → parse_each loads (lines ++ more) ≡ some vs
      → IsReadTo lines vs
  parse_each-IsReadTo [] more vs read = ([], vs, refl, refl)
  parse_each-IsReadTo (line ∷ lines) more vs read =
      IsReadTo-line line lines vs (is_blank line) (loads line) (parse_each loads (lines ++ more))
        refl refl (λ us h. parse_each-IsReadTo lines more us h) read

module _ {A : Type 0} (canonical : Record A → Option Text) (hmac_hex : Text → Text → Text)
    (loads : Text → Option (Value A)) (key : Text) where
  Chain-before :
      (p l : Text) (us ws : List (Value A))
      → Chain canonical hmac_hex key p (us ++ ws) l
      → (q : Text) × Chain canonical hmac_hex key p us q
  Chain-before p l [] ws chain = (p, ends)
  Chain-before p l (no_object ∷ us) ws chain = elim chain [ ]
  Chain-before p l (object r ∷ us) ws (link _ prev signed sig chain) =
      let (q, before) = Chain-before _ l us ws chain in (q, link r prev signed sig before)

  parsed-prefix :
      (n : ℕ) (lines more : List Text) (o : Option (List (Value A)))
      → parse_each loads (lines ++ more) ≡ o
      → verify_parsed canonical hmac_hex key o ≡ valid n
      → (m : ℕ) × (m ≤ n)
        × (verify_parsed canonical hmac_hex key (parse_each loads lines) ≡ valid m)
  parsed-prefix n lines more none read verified = ground arith
  parsed-prefix n lines more (some vs) read verified =
      let (us, ws, parsed, split) = parse_each-IsReadTo loads lines more vs read in
      let explained =
        subst (Explains canonical hmac_hex key [] 0 vs) verified
          (verify_from-Explains canonical hmac_hex key 0 [] vs) in
      let (counted, (l, chain)) = explained in
      let (q, before) =
        Chain-before [] l us ws (subst (λ x. Chain canonical hmac_hex key [] x l) split chain) in
      (
        length us,
        omega (arith, counted, ap length split, length-append us ws),
        ap (verify_parsed canonical hmac_hex key) parsed
            ∙ Chain-valid canonical hmac_hex key 0 [] q us before
            ∙ ap valid (omega arith),
      )

  -- Of a valid file, every beginning that ends at the end of a line is valid as well, with no more
  -- records: that the last records are gone, `verify` does not report.
  pub verify_ledger-append_shorter :
      (n : ℕ) (raw rest : Text)
      → IsEnded raw
      → verify_ledger canonical hmac_hex loads key (raw ++ rest) ≡ valid n
      → (m : ℕ) × (m ≤ n) × (verify_ledger canonical hmac_hex loads key raw ≡ valid m)
  unfolding verify_ledger parse_lines
  verify_ledger-append_shorter n raw rest ended verified =
      parsed-prefix n (splitlines raw) (splitlines rest) _
        (ap (parse_each loads) (sym (splitlines-append_ended raw rest ended))) verified
