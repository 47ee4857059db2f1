-- ===== src/Audit/Apart.antt =====
-- Two ledgers on one file, as two processes have them: each keeps the last signature that it has seen.
use mathlib.Core.Path.{subst}
use mathlib.Core.Option.{some-injective}
use cubiczan_resilience.Base.{
  ℕ, suc, ◌+◌, ◌≡◌, ◌≢◌, refl, ap, sym, ◌∙◌, false, inl, inr, Bool-cases, Option, none, some, List,
  [], ◌∷◌, ◌++◌, length, arith,
}
use cubiczan_resilience.Text.{Text, is_blank}
use cubiczan_resilience.Dict.{lookup, insert, lookup-insert}
use cubiczan_resilience.Audit.Records.{
  Json, text, Record, Value, object, Entry, entry_record, is_text,
}
use cubiczan_resilience.Audit.{
  Verdict, valid, tampered, prev_sig_mismatch, Ledger, message, sign, judge, verify_from,
  verify_parsed, verify_ledger, open_ledger, write_line, write_signed, append,
}
use cubiczan_resilience.Audit.Lines.{IsEnded, IsLine, parse_lines-append}
use cubiczan_resilience.Audit.Chain.{Chain, ends, link, is_text-of, is_text-true}
use cubiczan_resilience.Audit.Append.{count, Sound, append-Sound}
use cubiczan_resilience.Audit.Resume.{parsed-Sound}

module _ {A : Type 0} (canonical : Record A → Option Text) (hmac_hex : Text → Text → Text)
    (key : Text) where
  is_text-other : (o : Option (Json A)) (s : Text) → o ≢ some (text s) → is_text o s ≡ false
  is_text-other o s differs = elim (Bool-cases (is_text o s)) [
    | inl same ↦ absurd (differs (is_text-true o s same))
    | inr apart ↦ apart
  ]

  judge-mismatch :
      (i : ℕ) (p : Text) (r : Record A) (o : Option Text) (rest : Text → Verdict)
      → is_text (lookup "prev_sig" r) p ≡ false
      → judge i p r o rest ≡ tampered i prev_sig_mismatch
  judge-mismatch i p r none rest apart = rw apart refl
  judge-mismatch i p r (some q) rest apart = rw apart refl

  -- A record behind a chain that does not follow its end.
  Chain-mismatch :
      (i : ℕ) (p l : Text) (vs : List (Value A)) (r : Record A)
      → Chain canonical hmac_hex key p vs l
      → lookup "prev_sig" r ≢ some (text l)
      → verify_from canonical hmac_hex key i p (vs ++ object r ∷ [])
        ≡ tampered (i + length vs) prev_sig_mismatch
  unfolding verify_from
  Chain-mismatch i p _ _ r ends differs =
      judge-mismatch i p r _ _ (is_text-other _ p differs)
      ∙ ap (λ j. tampered j prev_sig_mismatch) (omega arith)
  Chain-mismatch i p l _ r (link s prev signed sig chain) differs =
      rw
        (
          signed,
          is_text-of _ _ prev,
          is_text-of _ _ sig,
          Chain-mismatch (suc i) _ l _ r chain differs,
        )
        (ap (λ j. tampered j prev_sig_mismatch) (omega arith))

module _ {A : Type 0} (canonical dumps : Record A → Option Text) (hmac_hex : Text → Text → Text)
    (loads : Text → Option (Value A))
    (read_back : (r : Record A) (line : Text)
      → dumps r ≡ some line
      → (is_blank line ≡ false)
        × IsLine line
        × ((s : Record A) × (loads line ≡ some (object s))
            × (message canonical hmac_hex s ≡ message canonical hmac_hex r)
            × (lookup "prev_sig" s ≡ lookup "prev_sig" r)
            × (lookup "sig" s ≡ lookup "sig" r)))
    (key : Text) where
  abbrev SoundAt : ℕ → Ledger A → Text → Type 0
  SoundAt = Sound canonical dumps hmac_hex loads read_back key

  -- A line behind the file of the ledger `l'`, of a record with another `prev_sig` than its last.
  write_line-mismatch :
      (n : ℕ) (l l' : Ledger A) (raw sig reply : Text) (r : Record A) (o : Option Text)
      → SoundAt n l' raw
      → dumps r ≡ o
      → lookup "prev_sig" r ≢ some l'.last_sig
      → let (reply?, _, raw') = write_line none l raw sig o in
        reply? ≡ some reply
        → verify_ledger canonical hmac_hex loads key raw' ≡ tampered n prev_sig_mismatch
  unfolding verify_ledger
  write_line-mismatch n l l' raw sig reply r none sound dumped differs wrote = ground arith
  write_line-mismatch n l l' raw sig reply r (some line)
        (same, ended, (vs, q, parsed, chain, last, counted)) dumped differs wrote =
      let (nonblank, one, (s, loaded, msg, prev, kept)) = read_back r line dumped in
      ap (verify_parsed canonical hmac_hex key)
        (parse_lines-append loads raw line vs (object s) ended one parsed nonblank loaded)
      ∙ Chain-mismatch canonical hmac_hex key 0 [] q vs s chain
          (λ follows. differs (sym prev ∙ follows ∙ ap some (sym last)))
      ∙ ap (λ j. tampered j prev_sig_mismatch) (omega (arith, counted))

  write_signed-mismatch :
      (n : ℕ) (l l' : Ledger A) (raw reply : Text) (r : Record A) (o : Option Text)
      → SoundAt n l' raw
      → lookup "prev_sig" r ≢ some l'.last_sig
      → let (reply?, _, raw') =
          write_signed none l raw o (λ sig. dumps (insert "sig" (text sig) r)) in
        reply? ≡ some reply
        → verify_ledger canonical hmac_hex loads key raw' ≡ tampered n prev_sig_mismatch
  write_signed-mismatch n l l' raw reply r none sound differs wrote = ground arith
  write_signed-mismatch n l l' raw reply r (some sig) sound differs wrote =
      write_line-mismatch n l l' raw sig reply (insert "sig" (text sig) r) _ sound refl
        (λ h. differs (sym (lookup-insert "sig" "prev_sig" (text sig) r) ∙ h)) wrote

  write_line-last :
      (l : Ledger A) (raw sig reply : Text) (o : Option Text)
      → let (reply?, l', _) = write_line none l raw sig o in
        reply? ≡ some reply → l'.last_sig ≡ text reply
  write_line-last l raw sig reply none wrote = ground arith
  write_line-last l raw sig reply (some line) wrote = ap text (some-injective _ _ wrote)

  write_signed-last :
      (l : Ledger A) (raw reply : Text) (o : Option Text) (line_of : Text → Option Text)
      → let (reply?, l', _) = write_signed none l raw o line_of in
        reply? ≡ some reply → l'.last_sig ≡ text reply
  write_signed-last l raw reply none line_of wrote = ground arith
  write_signed-last l raw reply (some sig) line_of wrote =
      write_line-last l raw sig reply (line_of sig) wrote

  -- A call of `append` at a time, of a ledger that knows nothing of others.
  abbrev pub appended : Text × Entry A → Ledger A → Text → Option Text × Ledger A × Text
  appended (now, e) l raw = append canonical hmac_hex dumps none now e l raw

  appended-last :
      (call : Text × Entry A) (l : Ledger A) (raw s : Text)
      → (appended call l raw).0 ≡ some s
      → (appended call l raw).1.last_sig ≡ text s
  unfolding append
  appended-last call l raw s wrote =
      let r = insert "prev_sig" l.last_sig (entry_record call.0 call.1) in
      write_signed-last l raw s (sign canonical hmac_hex l.key r)
        (λ sig. dumps (insert "sig" (text sig) r)) wrote

  first_Sound :
      (call : Text × Entry A) (n : ℕ) (raw s : Text) (l : Ledger A)
      → SoundAt n l raw
      → (appended call l raw).0 ≡ some s
      → SoundAt (suc n) (appended call l raw).1 (appended call l raw).2
  first_Sound call n raw s l sound wrote =
      subst (λ o. SoundAt (count o n) (appended call l raw).1 (appended call l raw).2) wrote
        (append-Sound canonical dumps hmac_hex loads read_back key n call.0 call.1 l raw sound)

  second_mismatch :
      (c d : Text × Entry A) (n : ℕ) (raw s t : Text) (l : Ledger A)
      → SoundAt n l raw
      → text s ≢ l.last_sig
      → (appended c l raw).0 ≡ some s
      → (appended d l (appended c l raw).2).0 ≡ some t
      → verify_ledger canonical hmac_hex loads key (appended d l (appended c l raw).2).2
        ≡ tampered (suc n) prev_sig_mismatch
  unfolding append
  second_mismatch c d n raw s t l sound moved wrote wrote' =
      let r = insert "prev_sig" l.last_sig (entry_record d.0 d.1) in
      let last : (appended c l raw).1.last_sig ≡ text s = appended-last c l raw s wrote in
      write_signed-mismatch (suc n) l (appended c l raw).1 (appended c l raw).2 t r _
        (first_Sound c n raw s l sound wrote)
        (λ h. moved (
          sym last
          ∙ sym (
              some-injective _ _
                (sym (lookup-insert "prev_sig" "prev_sig" l.last_sig (entry_record d.0 d.1)) ∙ h))))
        wrote'

  -- Two ledgers are opened on a valid file whose last line has its end. One appends a record, then
  -- the other does, and both return a signature; then `verify` reports the second record, at the
  -- index that is one more than the number of records in the file before both. It is assumed that the
  -- first signature is not the one that the file ended with, and that the line of a record of JSON
  -- values reads as a record with the same message to sign and signatures.
  pub append-append_apart :
      (c d : Text × Entry A) (n : ℕ) (raw s t : Text) (l : Ledger A)
      → IsEnded raw
      → verify_ledger canonical hmac_hex loads key raw ≡ valid n
      → open_ledger loads key raw ≡ some l
      → text s ≢ l.last_sig
      → (appended c l raw).0 ≡ some s
      → (appended d l (appended c l raw).2).0 ≡ some t
      → verify_ledger canonical hmac_hex loads key (appended d l (appended c l raw).2).2
        ≡ tampered (suc n) prev_sig_mismatch
  unfolding verify_ledger
  append-append_apart c d n raw s t l ended verified opens moved wrote wrote' =
      let (l', opens', sound) =
        parsed-Sound canonical dumps hmac_hex loads read_back key n raw _ ended refl verified in
      second_mismatch c d n raw s t l
        (subst (λ k. SoundAt n k raw) (some-injective _ _ (sym opens' ∙ opens)) sound) moved wrote
        wrote'
