-- ===== src/Audit/Torn.antt =====
-- An `append` whose write fails in the middle of its line, and the ledger after it.
use cubiczan_resilience.Base.{
  ℕ, zero, suc, ◌+◌, ◌≤◌, ◌<◌, ◌≡◌, refl, ap, sym, ◌∙◌, Bool, true, false, Option, none, some,
  ◌>>=◌, List, [], ◌∷◌, ◌++◌, length, length-append, take, arith, if◌then◌else◌,
}
use cubiczan_resilience.Text.{Text, newline, is_blank, splitlines}
use cubiczan_resilience.Audit.Records.{Record, Value, Entry}
use cubiczan_resilience.Audit.{
  raised, Ledger, parse_each, parse_lines, write_line, write_signed, verify_parsed, verify_ledger,
  append,
}
use cubiczan_resilience.Audit.Lines.{IsEnded, IsLine, splitlines-append, append_assoc}

take-IsLine : (k : ℕ) (s : Text) → IsLine s → IsLine (take k s)
take-IsLine zero s h = tt
take-IsLine (suc k) [] h = tt
take-IsLine (suc k) (c ∷ s) (h, hs) = (h, take-IsLine k s hs)

IsLine-append : (s t : Text) → IsLine s → IsLine t → IsLine (s ++ t)
IsLine-append [] t h k = k
IsLine-append (c ∷ s) t (h, hs) k = (h, IsLine-append s t hs k)

take-append : (k : ℕ) (s t : Text) → k ≤ length s → take k (s ++ t) ≡ take k s
take-append zero s t h = refl
take-append (suc k) [] t h = absurd (omega (arith, h))
take-append (suc k) (c ∷ s) t h = ap (λ x. c ∷ x) (take-append k s t (omega (arith, h)))

module _ {A : Type 0} (loads : Text → Option (Value A)) where
  parse_each-stops :
      (lines : List Text) (line : Text)
      → is_blank line ≡ false
      → loads line ≡ none
      → parse_each loads (lines ++ line ∷ []) ≡ none
  parse_each-stops [] line b h = rw (b, h) refl
  parse_each-stops (l ∷ lines) line b h =
      stopped (is_blank l) (loads l) _ (parse_each-stops lines line b h)
    where
      stopped :
          (b : Bool) (o : Option (Value A)) (p : Option (List (Value A)))
          → p ≡ none
          → (if b then p else (do v ← o; vs ← p; some (v ∷ vs))) ≡ none
      stopped true o p h = h
      stopped false none p h = refl
      stopped false (some v) p h = ap (λ q. q >>= (λ vs. some (v ∷ vs))) h

-- The hypothesis `glued` is that a line of `json.dumps` for an object is one line, and that a piece
-- from its beginning, before another such line, is no JSON and not blank.
module _ {A : Type 0} (canonical dumps : Record A → Option Text) (hmac_hex : Text → Text → Text)
    (loads : Text → Option (Value A))
    (one_line : (r : Record A) (line : Text) → dumps r ≡ some line → IsLine line)
    (glued : (r s : Record A) (line next : Text) (k : ℕ)
      → dumps r ≡ some line
      → dumps s ≡ some next
      → 0 < k
      → k ≤ length line
      → (is_blank (take k line ++ next) ≡ false) × (loads (take k line ++ next) ≡ none)) where
  torn-raised :
      (key raw : Text) (r s : Record A) (line next : Text) (k : ℕ)
      → IsEnded raw
      → dumps r ≡ some line
      → dumps s ≡ some next
      → 0 < k
      → k ≤ length line
      → verify_ledger canonical hmac_hex loads key
          ((raw ++ take k (line ++ newline)) ++ (next ++ newline))
        ≡ raised
  unfolding verify_ledger parse_lines
  torn-raised key raw r s line next k ended dr ds pos short =
      let whole : (raw ++ take k (line ++ newline)) ++ (next ++ newline)
          ≡ raw ++ ((take k line ++ next) ++ newline) =
        ap (λ x. (raw ++ x) ++ (next ++ newline)) (take-append k line newline short)
        ∙ append_assoc raw (take k line) (next ++ newline)
        ∙ ap (λ x. raw ++ x) (sym (append_assoc (take k line) next newline)) in
      let (nonblank, broken) = glued r s line next k dr ds pos short in
      let single =
        IsLine-append (take k line) next (take-IsLine k line (one_line r line dr))
          (one_line s next ds) in
      ap (λ x. verify_ledger canonical hmac_hex loads key x) whole
      ∙ ap (λ x. verify_parsed canonical hmac_hex key (parse_each loads x))
          (splitlines-append raw (take k line ++ next) ended single)
      ∙ ap (verify_parsed canonical hmac_hex key)
          (parse_each-stops loads (splitlines raw) (take k line ++ next) nonblank broken)

  write_line-Torn :
      (key raw sig' : Text) (r s : Record A) (o p : Option Text) (k : ℕ) (l l' : Ledger A)
      (sig reply : Text)
      → IsEnded raw
      → dumps r ≡ o
      → dumps s ≡ p
      → 0 < k
      → let good = write_line none l raw sig o in
        let torn = (write_line (some k) l raw sig o).2 in
        let after = write_line none l' torn sig' p in
        length raw + k < length good.2
        → after.0 ≡ some reply
        → verify_ledger canonical hmac_hex loads key after.2 ≡ raised
  write_line-Torn key raw sig' r s none p k l l' sig reply ended dr ds pos short wrote =
      absurd (omega (arith, short))
  write_line-Torn key raw sig' r s (some line) none k l l' sig reply ended dr ds pos short wrote =
      ground arith
  write_line-Torn key raw sig' r s (some line) (some next) k l l' sig reply ended dr ds pos short
        wrote =
      torn-raised key raw r s line next k ended dr ds pos
        (omega (arith, short, length-append raw (line ++ newline), length-append line newline))

  write_signed-Torn :
      (key raw : Text) (rec : Text → Record A) (rec' : Text → Record A) (o p : Option Text) (k : ℕ)
      (l l' : Ledger A) (sig' : Text)
      → IsEnded raw
      → 0 < k
      → let good = write_signed none l raw o (λ sig. dumps (rec sig)) in
        let torn = (write_signed (some k) l raw o (λ sig. dumps (rec sig))).2 in
        let after = write_signed none l' torn p (λ sig. dumps (rec' sig)) in
        length raw + k < length good.2
        → after.0 ≡ some sig'
        → verify_ledger canonical hmac_hex loads key after.2 ≡ raised
  write_signed-Torn key raw rec rec' none p k l l' sig' ended pos short wrote =
      absurd (omega (arith, short))
  write_signed-Torn key raw rec rec' (some sig) none k l l' sig' ended pos short wrote =
      ground arith
  write_signed-Torn key raw rec rec' (some sig) (some s) k l l' sig' ended pos short wrote =
      write_line-Torn key raw s (rec sig) (rec' s) _ _ k l l' sig sig' ended refl refl pos short
        wrote

  -- If the write of an `append` fails after a part of its line, at least one character and not the
  -- whole line, the file keeps that part. The next `append` that returns a signature, of this ledger
  -- or of another on the file, writes its record behind that part, and `verify` then raises, with any
  -- key. It is assumed that the file ended with an ended line before, that the text of an object is
  -- one line, and that a part from the beginning of one and a whole one are together no JSON.
  pub append-Torn :
      (key now now' : Text) (e e' : Entry A) (l l' : Ledger A) (raw : Text) (k : ℕ) (sig : Text)
      → IsEnded raw
      → 0 < k
      → length raw + k < length (append canonical hmac_hex dumps none now e l raw).2
      → let torn = (append canonical hmac_hex dumps (some k) now e l raw).2 in
        let (reply, _, raw') = append canonical hmac_hex dumps none now' e' l' torn in
        reply ≡ some sig → verify_ledger canonical hmac_hex loads key raw' ≡ raised
  unfolding append
  append-Torn key now now' e e' l l' raw k sig ended pos short wrote =
      write_signed-Torn key raw _ _ _ _ k l l' sig ended pos short wrote
