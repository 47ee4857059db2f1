-- ===== src/Audit/Tests.antt =====
-- A ledger of the two records of Codec.
mod Codec
mod Files
use cubiczan_resilience.Base.{
  ℕ, ◌≤◌, inr, ◌≡◌, ◌⊎◌, inl, refl, none, some, List, [], ◌∷◌, Option, arith,
}
use cubiczan_resilience.Text.{Text, codes}
use cubiczan_resilience.Dict.{lookup, insert}
use cubiczan_resilience.Audit.Records.{null, text, Value, object, no_object, Entry, signing_payload}
use cubiczan_resilience.Audit.{
  valid, tampered, raised, prev_sig_mismatch, Ledger, message, sign, verify_from, verify_ledger,
  parse_lines, last_of, open_ledger, append,
}
use cubiczan_resilience.Audit.Chain.{Explains, verify_from-Explains}
use cubiczan_resilience.Audit.Append.{appends}
use cubiczan_resilience.Audit.Resume.{appends-valid}
use cubiczan_resilience.Audit.Apart.{appended, append-append_apart}
use cubiczan_resilience.Audit.Shorter.{verify_ledger-append_shorter}
use cubiczan_resilience.Audit.Commit.{Collision, SameLedger, verify_ledger-commits}
use cubiczan_resilience.Audit.Tests.Codec.{
  record_1, record_2, coded, loads_line, hmac_x, canonical, coded-Reads, canonical-injective,
}

abbrev call_1 : Text × Entry Unit
call_1 = (
  codes "t",
  record {
    event = codes "e";
    actor = codes "a";
    inputs = null;
    sources = null;
    confidence = none;
    rationale = none;
    ts = none;
  },
)

abbrev call_2 : Text × Entry Unit
call_2 = (codes "now", record (call_1.1) { confidence = some tt; ts = some (codes "u") })

abbrev two_lines : Text
two_lines = 49 ∷ 10 ∷ 50 ∷ 10 ∷ []

two_lines-valid : verify_ledger canonical hmac_x loads_line (codes "key") two_lines ≡ valid 2
unfolding verify_ledger parse_lines verify_from sign message signing_payload lookup insert
two_lines-valid = refl

swapped :
    verify_ledger canonical hmac_x loads_line (codes "key") (50 ∷ 10 ∷ 49 ∷ 10 ∷ [])
    ≡ tampered 0 prev_sig_mismatch
unfolding verify_ledger parse_lines verify_from sign message signing_payload lookup insert
swapped = refl

-- A line that is not JSON makes `verify` raise.
not_json : verify_ledger canonical hmac_x loads_line (codes "key") (49 ∷ 10 ∷ 51 ∷ 10 ∷ []) ≡ raised
unfolding verify_ledger parse_lines verify_from sign message signing_payload lookup insert
not_json = refl

both_appended :
    appends canonical
      (coded record_1 record_2)
      hmac_x
      loads_line
      coded-Reads
      (codes "key")
      (call_1 ∷ call_2 ∷ [])
      0
      (record { key = codes "key"; last_sig = text [] })
      []
    ≡ (2, record { key = codes "key"; last_sig = text (codes "x2") }, two_lines)
unfolding appends append sign message signing_payload lookup insert
both_appended = refl

verify_from-Explains_example :
    Explains canonical hmac_x
      (codes "key")
      []
      0
      (object record_1 ∷ no_object ∷ [])
      (verify_from canonical hmac_x (codes "key") 0 [] (object record_1 ∷ no_object ∷ []))
verify_from-Explains_example =
    verify_from-Explains canonical hmac_x (codes "key") 0 [] (object record_1 ∷ no_object ∷ [])

empty-valid : verify_ledger canonical hmac_x loads_line (codes "key") [] ≡ valid 0
unfolding verify_ledger parse_lines verify_from
empty-valid = refl

appends-valid_example :
    (l : Ledger Unit) × (open_ledger loads_line (codes "key") [] ≡ some l)
    × (let (n, _, raw) =
          appends canonical
            (coded record_1 record_2)
            hmac_x
            loads_line
            coded-Reads
            (codes "key")
            (call_1 ∷ call_2 ∷ [])
            0
            l
            [] in
        verify_ledger canonical hmac_x loads_line (codes "key") raw ≡ valid n)
appends-valid_example =
    appends-valid canonical (coded record_1 record_2) hmac_x loads_line coded-Reads (codes "key")
      (call_1 ∷ call_2 ∷ []) 0 [] (inl refl) empty-valid

abbrev at_end : Ledger Unit
at_end = record { key = codes "key"; last_sig = text (codes "x2") }

two_lines-opens : open_ledger loads_line (codes "key") two_lines ≡ some at_end
unfolding open_ledger parse_lines last_of lookup insert
two_lines-opens = refl

verify_ledger-commits_example :
    (vs : List (Value Unit)) × (ws : List (Value Unit)) × (parse_lines loads_line two_lines
      ≡ some vs)
    × (parse_lines loads_line two_lines ≡ some ws)
    × (Collision hmac_x (codes "key") ⊎ SameLedger vs ws)
verify_ledger-commits_example =
    verify_ledger-commits canonical hmac_x loads_line (codes "key") canonical-injective 2 two_lines
      two_lines at_end at_end two_lines-valid two_lines-valid two_lines-opens two_lines-opens refl

-- Two ledgers that are opened on an empty file, and both append the same event.
abbrev at_start : Ledger Unit
at_start = record { key = codes "key"; last_sig = text [] }

nothing-opens : open_ledger loads_line (codes "key") [] ≡ some at_start
unfolding open_ledger parse_lines last_of
nothing-opens = refl

abbrev append_1 : Text → Option Text × Ledger Unit × Text
append_1 raw =
    appended canonical (coded record_1 record_2) hmac_x loads_line coded-Reads (codes "key") call_1
      at_start raw

append_1-signs : (append_1 []).0 ≡ some (codes "x1")
unfolding append sign message signing_payload lookup insert
append_1-signs = refl

append_1-signs_again : (append_1 (append_1 []).2).0 ≡ some (codes "x1")
unfolding append sign message signing_payload lookup insert
append_1-signs_again = refl

append-append_apart_example :
    verify_ledger canonical hmac_x loads_line (codes "key") (append_1 (append_1 []).2).2
    ≡ tampered 1 prev_sig_mismatch
append-append_apart_example =
    append-append_apart canonical (coded record_1 record_2) hmac_x loads_line coded-Reads
      (codes "key") call_1 call_1 0 [] (codes "x1") (codes "x1") at_start (inl refl) empty-valid
      nothing-opens (λ h. ground arith) append_1-signs append_1-signs_again

-- The first of the two lines alone.
verify_ledger-append_shorter_example :
    (m : ℕ) × (m ≤ 2)
    × (verify_ledger canonical hmac_x loads_line (codes "key") (49 ∷ 10 ∷ []) ≡ valid m)
verify_ledger-append_shorter_example =
    verify_ledger-append_shorter canonical hmac_x loads_line (codes "key") 2 (49 ∷ 10 ∷ [])
      (50 ∷ 10 ∷ []) (inr (49 ∷ [], refl)) two_lines-valid
