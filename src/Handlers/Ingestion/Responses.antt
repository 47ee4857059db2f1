-- ===== src/Handlers/Ingestion/Responses.antt =====
-- What the responses of `BaseIngestionHandler.handle` say of what was stored.
use cubiczan_resilience.Base.{
  ◌≡◌, refl, ap, ◌⊎◌, inl, inr, Option, some, List, [], ◌∷◌, length, arith,
}
use cubiczan_resilience.Text.{Text, codes}
use cubiczan_resilience.Athena.{Attempt, value, raises}
use cubiczan_resilience.Handlers.Ingestion.{
  Put, Body, ingested, failed, Response, join_lines, s3_uri, written, write_object_to_s3, cons_dump,
  dump_each, write_lines, write_jsonl_to_s3, stored, write_at, store, enveloped, handle,
}
use cubiczan_resilience.Handlers.Ingestion.Lines.{Codec, read_jsonl, read_jsonl-join_lines}

module _ {W R : Type 0} (put_object : Put → W → Attempt Unit × W) (dumps : R → Attempt Text)
    (loads : Text → Option R) (codec : Codec dumps loads) (dumps_body : Body → Text) (bucket : Text)
    (fetch_records : W → Attempt (List R) × W) (build_s3_key : W → Attempt Text × W) where
  -- The records are stored, from the world `w` on, and `w'` is the world after it: nothing is written
  -- for no records, and else one object whose lines read back as the records.
  abbrev pub Stored : List R → Text → W → W → Type 0
  Stored [] path w w' = (path ≡ []) × (w' ≡ w)
  Stored (r ∷ rs) path w w' =
      (key : Text) × (body : Text) × (w₁ : W) × (build_s3_key w ≡ (value key, w₁))
      × (put_object
            (record {
              bucket = bucket;
              key = key;
              body = body;
              content_type = some (codes "application/json");
            })
            w₁
          ≡ (value tt, w'))
      × (read_jsonl dumps loads body ≡ some (r ∷ rs))
      × (path ≡ s3_uri bucket key)

  -- Why nothing was stored: no records or no key, a record that is no JSON, or a refusal of S3, the
  -- only one after which `put_object` was called.
  pub data Failed (e : Text) (w w' : W) : Type 0 where
    no_records : fetch_records w ≡ (raises e, w') → Failed e w w'
    no_key : (w₁ : W) → build_s3_key w₁ ≡ (raises e, w') → Failed e w w'
    no_json :
        (r : R) (key : Text) (w₁ : W)
        → build_s3_key w₁ ≡ (value key, w')
        → dumps r ≡ raises e
        → Failed e w w'
    no_write : (put : Put) (w₁ : W) → put_object put w₁ ≡ (raises e, w') → Failed e w w'

  -- What the result of an ingestion says, where `w₁` is the world after the records were fetched.
  abbrev pub Says : Attempt Body → W → W → W → Type 0
  Says (value (ingested n path)) w w₁ w' =
      (rs : List R) × (fetch_records w ≡ (value rs, w₁)) × (n ≡ length rs) × Stored rs path w₁ w'
  Says (value (failed e)) w w₁ w' = ⊥
  Says (raises e) w w₁ w' = Failed e w w'

  cons_dump-raises :
      (a : Attempt Text) (b : Attempt (List Text)) (e : Text)
      → cons_dump a b ≡ raises e
      → (a ≡ raises e) ⊎ (b ≡ raises e)
  cons_dump-raises (raises x) b e h = inl (ground arith)
  cons_dump-raises (value t) (raises x) e h = inr (ground arith)
  cons_dump-raises (value t) (value ts) e h = ground arith

  dump_each-raises :
      (rs : List R) (e : Text) → dump_each dumps rs ≡ raises e → (r : R) × (dumps r ≡ raises e)
  unfolding dump_each
  dump_each-raises [] e h = ground arith
  dump_each-raises (r ∷ rs) e h = elim (cons_dump-raises (dumps r) (dump_each dumps rs) e h) [
    | inl here ↦ (r, here)
    | inr later ↦ dump_each-raises rs e later
  ]

  module _ (w w₁ : W) (r : R) (rs : List R) (fetched : fetch_records w ≡ (value (r ∷ rs), w₁)) where
    put-Says :
        (key : Text) (w₂ : W) (ts : List Text) (a : Attempt Unit) (w' : W)
        → build_s3_key w₁ ≡ (value key, w₂)
        → dump_each dumps (r ∷ rs) ≡ value ts
        → put_object
            (record {
              bucket = bucket;
              key = key;
              body = join_lines ts;
              content_type = some (codes "application/json");
            })
            w₂
          ≡ (a, w')
        → Says
            (stored put_object dumps dumps_body bucket fetch_records build_s3_key
              (r ∷ rs)
              (written put_object dumps bucket key a))
            w
            w₁
            w'
    put-Says key w₂ ts (raises e) w' hk hd hp = no_write _ w₂ hp
    put-Says key w₂ ts (value u) w' hk hd hp = (
      r ∷ rs,
      fetched,
      refl,
      (key, join_lines ts, w₂, hk, hp, read_jsonl-join_lines dumps loads r rs ts codec hd, refl),
    )

    dumped-Says :
        (key : Text) (w₂ : W) (d : Attempt (List Text))
        → build_s3_key w₁ ≡ (value key, w₂)
        → dump_each dumps (r ∷ rs) ≡ d
        → let (a, w') = write_lines put_object dumps bucket key d w₂ in
          Says
            (stored put_object dumps dumps_body bucket fetch_records build_s3_key (r ∷ rs) a)
            w
            w₁
            w'
    unfolding write_lines write_object_to_s3
    dumped-Says key w₂ (raises e) hk hd =
        let (x, h) = dump_each-raises (r ∷ rs) e hd in no_json x key w₁ hk h
    dumped-Says key w₂ (value ts) hk hd = put-Says key w₂ ts _ _ hk hd refl

    write_at-Says :
        (k : Attempt Text) (w₂ : W)
        → build_s3_key w₁ ≡ (k, w₂)
        → let (a, w') =
            write_at put_object dumps dumps_body bucket fetch_records build_s3_key (r ∷ rs) k w₂ in
          Says a w w₁ w'
    unfolding write_jsonl_to_s3
    write_at-Says (raises e) w₂ hk = no_key w₁ hk
    write_at-Says (value key) w₂ hk = dumped-Says key w₂ _ hk refl

  store-Says :
      (w w₁ : W) (rs : Attempt (List R))
      → fetch_records w ≡ (rs, w₁)
      → let (a, w') = store put_object dumps dumps_body bucket fetch_records build_s3_key rs w₁ in
        Says a w w₁ w'
  store-Says w w₁ (raises e) h = no_records h
  store-Says w w₁ (value []) h = ([], h, refl, (refl, refl))
  store-Says w w₁ (value (r ∷ rs)) h = write_at-Says w w₁ r rs h _ _ refl

  -- What a response says.
  abbrev pub Answers : Response → W → W → Type 0
  Answers x w w' =
      ((x.status_code ≡ 200)
        × ((rs : List R) × (path : Text) × ((fetch_records w).0 ≡ value rs)
            × Stored rs path (fetch_records w).1 w'
            × (x.body ≡ dumps_body (ingested (length rs) path))))
      ⊎ ((x.status_code ≡ 500) × ((e : Text) × Failed e w w' × (x.body ≡ dumps_body (failed e))))

  Says-Answers :
      (a : Attempt Body) (w w' : W)
      → Says a w (fetch_records w).1 w'
      → Answers (enveloped put_object dumps dumps_body bucket fetch_records build_s3_key a) w w'
  Says-Answers (value (ingested n path)) w w' (rs, fetched, count, stored) = inl (
    refl,
    (rs, path, ap (λ r. r.0) fetched, stored, ap (λ k. dumps_body (ingested k path)) count),
  )
  Says-Answers (value (failed e)) w w' h = absurd h
  Says-Answers (raises e) w w' h = inr (refl, (e, h, refl))

  -- `handle` turns every exception of the ingestion into a response, provided that `json.loads` reads
  -- the text of a record back and that text has no newline. With status 200, the records were
  -- fetched, the body tells how many they are, and there are none and nothing is written, or one
  -- object was put to S3 at the path that the body tells, and its lines read back as the records, in
  -- their order. With status 500 the body tells the exception: that of the fetch, of
  -- `build_s3_key`, of `json.dumps` for a record, all of which come before anything is written, or
  -- that of S3.
  pub handle-Answers :
      (w : W)
      → let (x, w') = handle put_object dumps dumps_body bucket fetch_records build_s3_key w in
        Answers x w w'
  unfolding handle
  handle-Answers w = Says-Answers _ w _ (store-Says w _ _ refl)
