-- ===== src/Handlers/Ingestion.antt =====
-- `BaseIngestionHandler` of scope-core/src/scope_core/handlers.py, and the S3 writers and response
-- envelopes of scope-core/src/scope_core/utils.py. What a subclass supplies, S3 and `json.dumps` are
-- parameters.
pub mod Lines
pub mod Responses
use cubiczan_resilience.Base.{ℕ, Option, none, some, List, [], ◌∷◌, ◌++◌, length}
use cubiczan_resilience.Text.{Text, codes, newline}
use cubiczan_resilience.Athena.{Attempt, value, raises}

-- The arguments of `put_object`; `content_type` is `none` where the call has none.
pub record Put : Type 0 where
  pub bucket : Text
  pub key : Text
  pub body : Text
  pub content_type : Option Text

-- A body is a result of `ingest` or an error.
pub data Body : Type 0 where
  ingested : ℕ → Text → Body
  failed : Text → Body

-- `{"statusCode", "body"}`.
pub record Response : Type 0 where
  pub status_code : ℕ
  pub body : Text

-- `"\n".join(texts)`.
abbrev pub join_after : Text → List Text → Text
join_after t [] = t
join_after t (u ∷ us) = t ++ (newline ++ join_after u us)

unfoldable pub join_lines : List Text → Text
join_lines [] = []
join_lines (t ∷ ts) = join_after t ts

-- `if content_type`.
abbrev pub if_text : Option Text → Option Text
if_text none = none
if_text (some []) = none
if_text (some (c ∷ s)) = some (c ∷ s)

abbrev pub s3_uri : Text → Text → Text
s3_uri bucket key = codes "s3://" ++ (bucket ++ (codes "/" ++ key))

-- A text before the texts of the records after it, or the first exception.
abbrev pub cons_dump : Attempt Text → Attempt (List Text) → Attempt (List Text)
cons_dump (raises e) rest = raises e
cons_dump (value t) (raises e) = raises e
cons_dump (value t) (value ts) = value (t ∷ ts)

-- `json.dumps(r) for r in records`, up to the first that raises.
unfoldable pub dump_each : {R : Type 0} → (R → Attempt Text) → List R → Attempt (List Text)
dump_each dumps [] = value []
dump_each dumps (r ∷ rs) = cons_dump (dumps r) (dump_each dumps rs)

module _ {W R : Type 0} (put_object : Put → W → Attempt Unit × W) (dumps : R → Attempt Text) where
  abbrev pub written : Text → Text → Attempt Unit → Attempt Text
  written bucket key (raises e) = raises e
  written bucket key (value _) = value (s3_uri bucket key)

  unfoldable pub write_object_to_s3 : Text → Text → Text → Option Text → W → Attempt Text × W
  write_object_to_s3 bucket key body content_type w =
      let (r, w') =
        put_object
          (record { bucket = bucket; key = key; body = body; content_type = if_text content_type })
          w in
      (written bucket key r, w')

  unfoldable pub write_lines : Text → Text → Attempt (List Text) → W → Attempt Text × W
  unfolding write_object_to_s3 join_lines
  write_lines bucket key (raises e) w = (raises e, w)
  write_lines bucket key (value ts) w =
      write_object_to_s3 bucket key (join_lines ts) (some (codes "application/json")) w

  unfoldable pub write_jsonl_to_s3 : Text → Text → List R → W → Attempt Text × W
  unfolding write_lines
  write_jsonl_to_s3 bucket key records w = write_lines bucket key (dump_each dumps records) w

  -- `response_envelope` with the text of a body, `success_response` and `error_response`.
  module _ (dumps_body : Body → Text) where
    abbrev pub response_envelope : ℕ → Body → Response
    response_envelope code b = record { status_code = code; body = dumps_body b }

    abbrev pub success_response : Body → Response
    success_response b = response_envelope 200 b

    abbrev pub error_response : Text → Response
    error_response e = response_envelope 500 (failed e)

    module _ (bucket : Text) (fetch_records : W → Attempt (List R) × W)
        (build_s3_key : W → Attempt Text × W) where
      -- `s3_path` and what stands below it in `ingest`.
      abbrev pub stored : List R → Attempt Text → Attempt Body
      stored records (raises e) = raises e
      stored records (value path) = value (ingested (length records) path)

      abbrev pub write_at : List R → Attempt Text → W → Attempt Body × W
      write_at records (raises e) w = (raises e, w)
      write_at records (value key) w =
          let (r, w') = write_jsonl_to_s3 bucket key records w in (stored records r, w')

      abbrev pub store : Attempt (List R) → W → Attempt Body × W
      store (raises e) w = (raises e, w)
      store (value []) w = (value (ingested 0 []), w)
      store (value (r ∷ rs)) w = let (key, w') = build_s3_key w in write_at (r ∷ rs) key w'

      unfoldable pub ingest : W → Attempt Body × W
      unfolding write_jsonl_to_s3
      ingest w = let (records, w') = fetch_records w in store records w'

      -- The `try` statement of `handle`.
      abbrev pub enveloped : Attempt Body → Response
      enveloped (value b) = success_response b
      enveloped (raises e) = error_response e

      unfoldable pub handle : W → Response × W
      unfolding ingest
      handle w = let (r, w') = ingest w in (enveloped r, w')
