-- ===== src/Audit/Records.antt =====
-- The records of python/src/cubiczan_resilience/audit_ledger.py: their JSON values, of which those
-- that are neither null nor a text are of a type `A`, and the part of a record that is signed.
use mathlib.Core.Option.{map as map_option}
use cubiczan_resilience.Base.{String, Bool, false, Option, none, some, ◌>>=◌, [], ◌∷◌}
use cubiczan_resilience.Text.{Text, text_eq}
use cubiczan_resilience.Dict.{Dict, lookup, insert}

pub data Json (A : Type 0) : Type 0 where
  null : Json A
  text : Text → Json A
  other : A → Json A

abbrev pub Record : Type 0 → Type 0
Record A = Dict (Json A)

-- What `json.loads` makes of a line.
pub data Value (A : Type 0) : Type 0 where
  object : Record A → Value A
  no_object : Value A

-- The arguments of `append`.
pub record Entry (A : Type 0) : Type 0 where
  pub event : Text
  pub actor : Text
  pub inputs : Json A
  pub sources : Json A
  pub confidence : Option A
  pub rationale : Option Text
  pub ts : Option Text

-- `ts or now`.
abbrev pub stamp : Text → Option Text → Text
stamp now none = now
stamp now (some []) = now
stamp now (some (c ∷ ts)) = c ∷ ts

module _ {A : Type 0} where
  -- `record.get(k) is not None`, with the value.
  abbrev pub present : Option (Json A) → Option (Json A)
  present none = none
  present (some null) = none
  present (some (text s)) = some (text s)
  present (some (other a)) = some (other a)

  -- `payload[k] = v`, where there is a value.
  abbrev pub with_optional : String → Option (Json A) → Record A → Record A
  with_optional k none r = r
  with_optional k (some v) r = insert k v r

  -- `record.get(k) == s` for a text `s`.
  abbrev pub is_text : Option (Json A) → Text → Bool
  is_text (some (text t)) s = text_eq t s
  is_text (some null) s = false
  is_text (some (other _)) s = false
  is_text none s = false

  -- The payload of the values that the fields of a record have.
  abbrev pub payload_of :
      Option (Json A)
      → Option (Json A)
      → Option (Json A)
      → Option (Json A)
      → Option (Json A)
      → Option (Json A)
      → Option (Json A)
      → Option (Json A)
      → Option (Record A)
  payload_of ts? event? actor? inputs? sources? prev_sig? confidence rationale = do
    ts ← ts?
    event ← event?
    actor ← actor?
    inputs ← inputs?
    sources ← sources?
    prev_sig ← prev_sig?
    let base =
        ("ts", ts)
        ∷ ("event", event)
        ∷ ("actor", actor)
        ∷ ("inputs", inputs)
        ∷ ("sources", sources)
        ∷ ("prev_sig", prev_sig)
        ∷ []
    some (
        with_optional "rationale" (present rationale)
          (with_optional "confidence" (present confidence) base))

  -- `none` is a `KeyError`.
  unfoldable pub signing_payload : Record A → Option (Record A)
  signing_payload r =
      payload_of (lookup "ts" r) (lookup "event" r) (lookup "actor" r) (lookup "inputs" r)
        (lookup "sources" r) (lookup "prev_sig" r) (lookup "confidence" r) (lookup "rationale" r)

  -- The record before it is chained: `ts or now`.
  abbrev pub entry_record : Text → Entry A → Record A
  entry_record now e = with_optional "rationale" (map_option text e.rationale) (
      with_optional "confidence" (map_option other e.confidence) (
        ("ts", text (stamp now e.ts))
        ∷ ("event", text e.event)
        ∷ ("actor", text e.actor)
        ∷ ("inputs", e.inputs)
        ∷ ("sources", e.sources)
        ∷ []))
