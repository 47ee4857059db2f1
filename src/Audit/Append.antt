-- ===== src/Audit/Append.antt =====
-- Ledgers that are opened on a verified file and appended to.
use mathlib.Core.Path.{subst}
use cubiczan_resilience.Base.{
  ℕ, suc, ◌+◌, ◌≡◌, refl, ap, ◌∙◌, false, Option, none, some, ◌>>=◌, List, [], ◌∷◌, ◌++◌, length,
  length-append, arith,
}
use cubiczan_resilience.Text.{Text, is_blank}
use cubiczan_resilience.Dict.{lookup, insert, lookup-insert}
use cubiczan_resilience.Audit.Records.{
  Json, text, Record, Value, object, Entry, entry_record, signing_payload,
}
use cubiczan_resilience.Audit.{
  valid, Ledger, message, sign, verify_from, verify_parsed, verify_ledger, parse_lines, write_line,
  write_signed, append,
}
use cubiczan_resilience.Audit.Lines.{IsEnded, IsLine, IsEnded-append, parse_lines-append}
use cubiczan_resilience.Audit.Chain.{Chain, ends, link, is_text-of}

module _ {A : Type 0} (canonical : Record A → Option Text) (hmac_hex : Text → Text → Text) where
  message-insert_sig :
      (v : Json A) (r : Record A)
      → message canonical hmac_hex (insert "sig" v r) ≡ message canonical hmac_hex r
  unfolding message signing_payload
  message-insert_sig v r =
      rw
        (
          lookup-insert "sig" "ts" v r,
          lookup-insert "sig" "event" v r,
          lookup-insert "sig" "actor" v r,
          lookup-insert "sig" "inputs" v r,
          lookup-insert "sig" "sources" v r,
          lookup-insert "sig" "prev_sig" v r,
          lookup-insert "sig" "confidence" v r,
          lookup-insert "sig" "rationale" v r,
        )
        refl

  sign-message :
      (key : Text) (r s : Record A)
      → message canonical hmac_hex r ≡ message canonical hmac_hex s
      → sign canonical hmac_hex key r ≡ sign canonical hmac_hex key s
  unfolding sign
  sign-message key r s h = ap (λ o. o >>= (λ msg. some (hmac_hex key msg))) h

  module _ (key : Text) where
    Chain-append :
        (p q q' : Text) (vs : List (Value A)) (r : Record A)
        → Chain canonical hmac_hex key p vs q
        → lookup "prev_sig" r ≡ some (text q)
        → sign canonical hmac_hex key r ≡ some q'
        → lookup "sig" r ≡ some (text q')
        → Chain canonical hmac_hex key p (vs ++ object r ∷ []) q'
    Chain-append p q q' vs r ends prev signed sig = link r prev signed sig ends
    Chain-append p q q' vs r (link s prev' signed' sig' chain) prev signed sig =
        link s prev' signed' sig' (Chain-append _ q q' _ r chain prev signed sig)

    pub Chain-valid :
        (i : ℕ) (p l : Text) (vs : List (Value A))
        → Chain canonical hmac_hex key p vs l
        → verify_from canonical hmac_hex key i p vs ≡ valid (i + length vs)
    unfolding verify_from
    Chain-valid i p l vs ends = ap valid (omega arith)
    Chain-valid i p l vs (link r prev signed sig chain) =
        rw (signed, is_text-of _ _ prev, is_text-of _ _ sig, Chain-valid (suc i) _ l _ chain)
          (ap valid (omega arith))

-- The records of a file after an `append` with this reply.
abbrev pub count : Option Text → ℕ → ℕ
count none n = n
count (some _) n = suc n

-- The hypothesis `read_back` is that the line of a record of JSON values is one line, and that it
-- reads as a record with the same message to sign and the same signatures.
module _ {A : Type 0} (canonical dumps : Record A → Option Text) (hmac_hex : Text → Text → Text)
    (loads : Text → Option (Value A))
    (read_back : (r : Record A) (line : Text)
      → dumps r ≡ some line
      → (is_blank line ≡ false)
        × IsLine line
        × ((s : Record A) × (loads line ≡ some (object s))
            × (message canonical hmac_hex s ≡ message canonical hmac_hex r)
            × (lookup "prev_sig" s ≡ lookup "prev_sig" r)
            × (lookup "sig" s ≡ lookup "sig" r)))
    (key : Text) where
  -- The ledger is at the end of the chain of the `n` records in its file.
  abbrev pub Sound : ℕ → Ledger A → Text → Type 0
  Sound n l raw =
      (l.key ≡ key)
      × IsEnded raw
      × ((vs : List (Value A)) × (q : Text) × (parse_lines loads raw ≡ some vs)
          × Chain canonical hmac_hex key [] vs q
          × (l.last_sig ≡ text q)
          × (length vs ≡ n))

  pub Sound-valid :
      (n : ℕ) (l : Ledger A) (raw : Text)
      → Sound n l raw
      → verify_ledger canonical hmac_hex loads key raw ≡ valid n
  unfolding verify_ledger
  Sound-valid n l raw (same, ended, (vs, q, parsed, chain, last, count)) =
      ap (verify_parsed canonical hmac_hex key) parsed
      ∙ Chain-valid canonical hmac_hex key 0 [] q vs chain
      ∙ ap valid (omega (arith, count))

  write_line-Sound :
      (n : ℕ) (l : Ledger A) (raw sig : Text) (r : Record A) (o : Option Text)
      → Sound n l raw
      → lookup "prev_sig" r ≡ some l.last_sig
      → sign canonical hmac_hex key r ≡ some sig
      → lookup "sig" r ≡ some (text sig)
      → dumps r ≡ o
      → let (reply, l', raw') = write_line none l raw sig o in Sound (count reply n) l' raw'
  write_line-Sound n l raw sig r none sound prev signed kept dumped = sound
  write_line-Sound n l raw sig r (some line) (same, ended, (vs, q, parsed, chain, last, counted))
        prev signed kept dumped =
      let (nonblank, one, (s, loaded, msg, prev', kept')) = read_back r line dumped in
      (
        same,
        IsEnded-append raw line,
        (
          vs ++ object s ∷ [],
          sig,
          parse_lines-append loads raw line vs (object s) ended one parsed nonblank loaded,
          Chain-append canonical hmac_hex key [] q sig vs s chain (prev' ∙ prev ∙ ap some last)
              (sign-message canonical hmac_hex key s r msg ∙ signed) (kept' ∙ kept),
          refl,
          length-append vs (object s ∷ []) ∙ omega (arith, counted),
        ),
      )

  write_signed-Sound :
      (n : ℕ) (l : Ledger A) (raw : Text) (r : Record A) (o : Option Text)
      → Sound n l raw
      → lookup "prev_sig" r ≡ some l.last_sig
      → sign canonical hmac_hex l.key r ≡ o
      → let (reply, l', raw') =
          write_signed none l raw o (λ sig. dumps (insert "sig" (text sig) r)) in
        Sound (count reply n) l' raw'
  write_signed-Sound n l raw r none sound prev signed = sound
  write_signed-Sound n l raw r (some sig) sound prev signed =
      write_line-Sound n l raw sig (insert "sig" (text sig) r) _ sound
        (lookup-insert "sig" "prev_sig" (text sig) r ∙ prev)
        (sign-message canonical hmac_hex key _ _
            (message-insert_sig canonical hmac_hex (text sig) r)
          ∙ subst (λ k. sign canonical hmac_hex k r ≡ some sig) sound.0 signed)
        (lookup-insert "sig" "sig" (text sig) r) refl

  pub append-Sound :
      (n : ℕ) (now : Text) (e : Entry A) (l : Ledger A) (raw : Text)
      → Sound n l raw
      → let (reply, l', raw') = append canonical hmac_hex dumps none now e l raw in
        Sound (count reply n) l' raw'
  unfolding append
  append-Sound n now e l raw sound =
      write_signed-Sound n l raw (insert "prev_sig" l.last_sig (entry_record now e)) _ sound
        (lookup-insert "prev_sig" "prev_sig" l.last_sig (entry_record now e)) refl

  -- Calls of `append`, each at its time: how many return a signature, the ledger and the file.
  unfoldable pub appends : List (Text × Entry A) → ℕ → Ledger A → Text → ℕ × Ledger A × Text
  appends [] n l raw = (n, l, raw)
  appends ((now, e) ∷ calls) n l raw =
      let (reply, l', raw') = append canonical hmac_hex dumps none now e l raw in
      appends calls (count reply n) l' raw'

  pub appends-Sound :
      (calls : List (Text × Entry A)) (n : ℕ) (l : Ledger A) (raw : Text)
      → Sound n l raw
      → let (n', l', raw') = appends calls n l raw in Sound n' l' raw'
  unfolding appends
  appends-Sound [] n l raw sound = sound
  appends-Sound ((now, e) ∷ calls) n l raw sound =
      appends-Sound calls _ _ _ (append-Sound n now e l raw sound)
