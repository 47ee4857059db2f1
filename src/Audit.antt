-- ===== src/Audit.antt =====
-- The ledger of python/src/cubiczan_resilience/audit_ledger.py, on the text of its file as
-- `read_text` gives it. Parameters stand for the `json` module and for HMAC-SHA256.
pub mod Records
pub mod Lines
pub mod Chain
pub mod Append
pub mod Resume
pub mod Commit
pub mod Paths
pub mod Torn
pub mod Apart
pub mod Shorter
mod Tests
use cubiczan_resilience.Base.{
  take, ℕ, suc, Bool, true, false, Option, none, some, ◌>>=◌, List, [], ◌∷◌, ◌++◌, if◌then◌else◌,
}
use cubiczan_resilience.Text.{Text, splitlines, newline, is_blank}
use cubiczan_resilience.Dict.{lookup, insert}
use cubiczan_resilience.Audit.Records.{
  Entry, Json, Record, Value, entry_record, is_text, no_object, object, signing_payload, text,
}

pub data Reason : Type 0 where
  prev_sig_mismatch signature_mismatch : Reason

-- `VerifyResult`, or an exception: a line is not JSON, a record no object, or a field is missing.
pub data Verdict : Type 0 where
  valid : ℕ → Verdict
  tampered : ℕ → Reason → Verdict
  raised : Verdict

-- `VerifyResult.__bool__`; there is no result where `verify` raises.
unfoldable pub is_ok : Verdict → Option Bool
is_ok (valid n) = some true
is_ok (tampered i r) = some false
is_ok raised = none

-- An `AuditLedger`: its key and the signature that the next record is chained to.
pub record Ledger (A : Type 0) : Type 0 where
  pub key : Text
  pub last_sig : Json A

module _ {A : Type 0} where
  -- `records[-1]["sig"]`, or `""` without records; `none` where it raises.
  unfoldable pub last_of : Json A → List (Value A) → Option (Json A)
  last_of sig [] = some sig
  last_of sig (no_object ∷ []) = none
  last_of sig (object r ∷ []) = lookup "sig" r
  last_of sig (_ ∷ v ∷ vs) = last_of sig (v ∷ vs)

  -- The end of `append`: the signature, or `none` where it raises, with the ledger and the file's
  -- text. The argument `fault` is how much of the line is written where the write fails.
  abbrev pub write_line :
      Option ℕ → Ledger A → Text → Text → Option Text → Option Text × Ledger A × Text
  write_line fault l raw sig none = (none, l, raw)
  write_line none l raw sig (some line) =
      (some sig, record l { last_sig = text sig }, raw ++ (line ++ newline))
  write_line (some n) l raw sig (some line) = (none, l, raw ++ take n (line ++ newline))

  abbrev pub write_signed :
      Option ℕ
      → Ledger A
      → Text
      → Option Text
      → (Text → Option Text)
      → Option Text × Ledger A × Text
  write_signed fault l raw none line_of = (none, l, raw)
  write_signed fault l raw (some sig) line_of = write_line fault l raw sig (line_of sig)

  -- `loads` is `json.loads`, `none` where it raises `JSONDecodeError`.
  module _ (loads : Text → Option (Value A)) where
    abbrev pub parse_each : List Text → Option (List (Value A))
    parse_each [] = some []
    parse_each (line ∷ lines) =
        let rest = parse_each lines in
        if is_blank line then rest else (do v ← loads line; vs ← rest; some (v ∷ vs))

    -- `_parse_lines`.
    unfoldable pub parse_lines : Text → Option (List (Value A))
    parse_lines raw = parse_each (splitlines raw)

    -- `AuditLedger.__init__`; a file that is not there is an empty text.
    unfoldable pub open_ledger : Text → Text → Option (Ledger A)
    open_ledger key raw = do
      vs ← parse_lines raw
      sig ← last_of (text []) vs
      some (record { key = key; last_sig = sig })

  -- The round `i` of the loop of `verify_ledger` on a record with the signature `expected`, or
  -- with none; `rest` is the verdict of the rounds after it.
  abbrev pub judge : ℕ → Text → Record A → Option Text → (Text → Verdict) → Verdict
  judge i prev_sig r none rest =
      if is_text (lookup "prev_sig" r) prev_sig then raised else tampered i prev_sig_mismatch
  judge i prev_sig r (some expected) rest =
      if is_text (lookup "prev_sig" r) prev_sig
      then (if is_text (lookup "sig" r) expected
          then rest expected
          else tampered i signature_mismatch)
      else tampered i prev_sig_mismatch

  -- `canonical` and `dumps` are `canonical_json` and `json.dumps`, `none` where they raise
  -- `TypeError`, and `hmac_hex` is the signature of a message by a key.
  module _ (canonical : Record A → Option Text) (hmac_hex : Text → Text → Text) where
    -- `canonical_json(_signing_payload(record))`.
    unfoldable pub message : Record A → Option Text
    unfolding signing_payload
    message r = do payload ← signing_payload r; canonical payload

    -- `_sign`.
    unfoldable pub sign : Text → Record A → Option Text
    sign key r = do msg ← message r; some (hmac_hex key msg)

    -- The loop of `verify_ledger` from its round `i`.
    unfoldable pub verify_from : Text → ℕ → Text → List (Value A) → Verdict
    verify_from key i prev_sig [] = valid i
    verify_from key i prev_sig (no_object ∷ vs) = raised
    verify_from key i prev_sig (object r ∷ vs) =
        judge i prev_sig r (sign key r) (λ sig. verify_from key (suc i) sig vs)

    -- `verify_ledger`, on the parsed file.
    abbrev pub verify_parsed : Text → Option (List (Value A)) → Verdict
    verify_parsed key none = raised
    verify_parsed key (some vs) = verify_from key 0 [] vs

    module _ (loads : Text → Option (Value A)) where
      unfoldable pub verify_ledger : Text → Text → Verdict
      verify_ledger key raw = verify_parsed key (parse_lines loads raw)

    module _ (dumps : Record A → Option Text) where
      unfoldable pub append :
          Option ℕ → Text → Entry A → Ledger A → Text → Option Text × Ledger A × Text
      append fault now e l raw =
          let r = insert "prev_sig" l.last_sig (entry_record now e) in
          write_signed fault l raw (sign l.key r) (λ sig. dumps (insert "sig" (text sig) r))
