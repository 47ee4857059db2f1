-- ===== src/Audit/Commit.antt =====
-- What a ledger's last signature says of all its records.
use mathlib.Core.Path.{subst}
use mathlib.Core.Option.{some-injective}
use cubiczan_resilience.Base.{
  ℕ, ◌≡◌, ◌≢◌, refl, ap, sym, ◌∙◌, ◌⊎◌, inl, inr, true, false, String, str_eq, Option, none, some,
  bind-some, List, [], ◌∷◌, length, arith,
}
use cubiczan_resilience.Text.{Text, text_eq, text_eq_self, text_eq-true}
use cubiczan_resilience.Dict.{lookup, lookup-insert}
use cubiczan_resilience.Audit.Records.{
  Json, null, text, other, Record, Value, object, with_optional, present, payload_of,
  signing_payload,
}
use cubiczan_resilience.Audit.{
  valid, Ledger, message, sign, verify_parsed, verify_ledger, parse_lines, open_ledger,
}
use cubiczan_resilience.Audit.Chain.{Chain, ends, link, Explains, verify_from-Explains}
use cubiczan_resilience.Audit.Resume.{last_of-Chain}

module _ (hmac_hex : Text → Text → Text) (key : Text) where
  -- Two messages of one signature.
  abbrev pub Collision : Type 0
  Collision = (m : Text) × (m' : Text) × (m ≢ m') × (hmac_hex key m ≡ hmac_hex key m')

  same_message : (m m' : Text) → hmac_hex key m ≡ hmac_hex key m' → Collision ⊎ (m ≡ m')
  same_message m m' h =
      elim (text_eq m m') as (λ b. text_eq m m' ≡ b → Collision ⊎ (m ≡ m')) [
        | true ↦ λ same. inr (text_eq-true m m' same)
        | false ↦ λ ne. inl (
          m,
          m',
          (λ same. ground (arith, subst (λ t. text_eq m t ≡ true) same (text_eq_self m))),
          h,
        )
      ]
        refl

module _ {A : Type 0} where
  abbrev text_of : Json A → Text
  text_of null = []
  text_of (text s) = s
  text_of (other _) = []

  text-injective : (s t : Text) → ◌≡◌ {A = Json A} (text s) (text t) → s ≡ t
  text-injective s t h = ap text_of h

  -- The signed fields of two records are the same.
  abbrev pub SameSigned : Record A → Record A → Type 0
  SameSigned r s =
      (p : Record A) × (p' : Record A) × (signing_payload r ≡ some p)
      × (signing_payload s ≡ some p')
      × ((k : String) → lookup k p ≡ lookup k p')

  abbrev pub SameLedger : List (Value A) → List (Value A) → Type 0
  SameLedger [] [] = Unit
  SameLedger (object r ∷ vs) (object s ∷ ws) = SameSigned r s × SameLedger vs ws
  SameLedger _ _ = ⊥

  lookup-with_optional :
      (k j : String) (v : Option (Json A)) (r : Record A)
      → str_eq k j ≡ false
      → lookup j (with_optional k v r) ≡ lookup j r
  lookup-with_optional k j none r h = refl
  lookup-with_optional k j (some v) r h = lookup-insert k j v r ∙ (rw h refl)

  lookup-payload_of :
      (ts event actor inputs sources prev_sig confidence rationale : Option (Json A)) (p : Record A)
      → payload_of ts event actor inputs sources prev_sig confidence rationale ≡ some p
      → lookup "prev_sig" p ≡ prev_sig
  unfolding lookup
  lookup-payload_of none _ _ _ _ _ _ _ p h = ground arith
  lookup-payload_of (some _) none _ _ _ _ _ _ p h = ground arith
  lookup-payload_of (some _) (some _) none _ _ _ _ _ p h = ground arith
  lookup-payload_of (some _) (some _) (some _) none _ _ _ _ p h = ground arith
  lookup-payload_of (some _) (some _) (some _) (some _) none _ _ _ p h = ground arith
  lookup-payload_of (some _) (some _) (some _) (some _) (some _) none _ _ p h = ground arith
  lookup-payload_of (some a) (some b) (some c) (some d) (some e) (some v) confidence rationale p h =
      let base : Record A =
        ("ts", a)
        ∷ ("event", b)
        ∷ ("actor", c)
        ∷ ("inputs", d)
        ∷ ("sources", e)
        ∷ ("prev_sig", v)
        ∷ [] in
      ap (lookup "prev_sig") (sym (some-injective _ _ h))
      ∙ lookup-with_optional "rationale" "prev_sig" (present rationale)
          (with_optional "confidence" (present confidence) base) refl
      ∙ lookup-with_optional "confidence" "prev_sig" (present confidence) base refl

  lookup-signing_payload :
      (r p : Record A) → signing_payload r ≡ some p → lookup "prev_sig" p ≡ lookup "prev_sig" r
  unfolding signing_payload
  lookup-signing_payload r p h =
      lookup-payload_of (lookup "ts" r) (lookup "event" r) (lookup "actor" r) (lookup "inputs" r)
        (lookup "sources" r) (lookup "prev_sig" r) (lookup "confidence" r) (lookup "rationale" r) p
        h

-- The hypothesis `canonical_injective` is that the canonical JSON of two records is the same only if
-- they have the same values of the same keys.
module _ {A : Type 0} (canonical : Record A → Option Text) (hmac_hex : Text → Text → Text)
    (loads : Text → Option (Value A)) (key : Text)
    (canonical_injective : (p p' : Record A) (m : Text)
      → canonical p ≡ some m
      → canonical p' ≡ some m
      → (k : String) → lookup k p ≡ lookup k p') where
  sign-signed :
      (r : Record A) (q : Text)
      → sign canonical hmac_hex key r ≡ some q
      → (p : Record A) × (m : Text) × (signing_payload r ≡ some p)
        × (canonical p ≡ some m)
        × (hmac_hex key m ≡ q)
  unfolding sign message
  sign-signed r q h =
      let (m, msg, signed) = bind-some _ _ _ h in
      let (p, payload, made) = bind-some _ _ _ msg in
      (p, m, payload, made, some-injective _ _ signed)

  -- Two records of one signature.
  same_signature :
      (r s : Record A) (q q' p p' : Text)
      → sign canonical hmac_hex key r ≡ some q
      → sign canonical hmac_hex key s ≡ some q'
      → lookup "prev_sig" r ≡ some (text p)
      → lookup "prev_sig" s ≡ some (text p')
      → q ≡ q'
      → Collision hmac_hex key ⊎ ((p ≡ p') × SameSigned r s)
  same_signature r s q q' p p' hr hs prev prev' same =
      let (pr, m, payload, made, signed) = sign-signed r q hr in
      let (ps, m', payload', made', signed') = sign-signed s q' hs in
      elim (same_message hmac_hex key m m' (signed ∙ same ∙ sym signed')) [
        | inl c ↦ inl c
        | inr eq ↦
            let agree = canonical_injective pr ps m made (made' ∙ ap some (sym eq)) in
            inr (
              text-injective p p' (
                  some-injective _ _ (
                    sym prev
                    ∙ sym (lookup-signing_payload r pr payload)
                    ∙ agree "prev_sig"
                    ∙ lookup-signing_payload s ps payload'
                    ∙ prev')),
              (pr, ps, payload, payload', agree),
            )
      ]

  Chain-commits :
      (p p' l l' : Text) (vs ws : List (Value A))
      → Chain canonical hmac_hex key p vs l
      → Chain canonical hmac_hex key p' ws l'
      → length vs ≡ length ws
      → l ≡ l'
      → Collision hmac_hex key ⊎ ((p ≡ p') × SameLedger vs ws)
  Chain-commits p p' l l' _ _ ends ends n same = inr (same, tt)
  Chain-commits p p' l l' _ _ ends (link s a b c chain) n same = ground arith
  Chain-commits p p' l l' _ _ (link s a b c chain) ends n same = ground arith
  Chain-commits p p' l l' _ _ (link r prev signed kept chain) (link s prev' signed' kept' chain') n
        same =
      elim (Chain-commits _ _ l l' _ _ chain chain' (omega (arith, n)) same) [
        | inl c ↦ inl c
        | inr (q_eq, rest) ↦ elim (same_signature r s _ _ p p' signed signed' prev prev' q_eq) [
          | inl c ↦ inl c
          | inr (p_eq, first) ↦ inr (p_eq, (first, rest))
        ]
      ]

  verified-Chain :
      (n : ℕ) (raw : Text) (l : Ledger A) (o : Option (List (Value A)))
      → parse_lines loads raw ≡ o
      → verify_parsed canonical hmac_hex key o ≡ valid n
      → open_ledger loads key raw ≡ some l
      → (vs : List (Value A)) × (q : Text) × (o ≡ some vs)
        × Chain canonical hmac_hex key [] vs q
        × (n ≡ length vs)
        × (l.last_sig ≡ text q)
  unfolding open_ledger
  verified-Chain n raw l none parsed verified opened = ground arith
  verified-Chain n raw l (some vs) parsed verified opened =
      let (counted, (q, chain)) =
        subst (Explains canonical hmac_hex key [] 0 vs) verified
          (verify_from-Explains canonical hmac_hex key 0 [] vs) in
      let opens : open_ledger loads key raw ≡ some (record { key = key; last_sig = text q }) =
        rw (parsed, last_of-Chain canonical hmac_hex key [] q vs chain) refl in
      (
        vs,
        q,
        refl,
        chain,
        omega (arith, counted),
        ap (λ m. m.last_sig) (sym (some-injective _ _ (sym opens ∙ opened))),
      )

  -- The last signature of a valid ledger commits to all its records: if two files are valid under
  -- one key with the same number of records, and the ledgers that are opened on them have the same
  -- last signature, then the files have, record by record, the same signed fields, or else two
  -- messages are found that the key gives one signature. It is assumed that canonical JSON is the
  -- same only for records of the same values.
  pub verify_ledger-commits :
      (n : ℕ) (raw raw' : Text) (l l' : Ledger A)
      → verify_ledger canonical hmac_hex loads key raw ≡ valid n
      → verify_ledger canonical hmac_hex loads key raw' ≡ valid n
      → open_ledger loads key raw ≡ some l
      → open_ledger loads key raw' ≡ some l'
      → l.last_sig ≡ l'.last_sig
      → (vs : List (Value A)) × (ws : List (Value A)) × (parse_lines loads raw ≡ some vs)
        × (parse_lines loads raw' ≡ some ws)
        × (Collision hmac_hex key ⊎ SameLedger vs ws)
  unfolding verify_ledger
  verify_ledger-commits n raw raw' l l' h h' opened opened' same =
      let (vs, q, parsed, chain, count, last) = verified-Chain n raw l _ refl h opened in
      let (ws, q', parsed', chain', count', last') = verified-Chain n raw' l' _ refl h' opened' in
      let last_eq = text-injective q q' (sym last ∙ same ∙ last') in
      (
        vs,
        ws,
        parsed,
        parsed',
        elim (Chain-commits [] [] q q' vs ws chain chain' (sym count ∙ count') last_eq) [
          | inl c ↦ inl c
          | inr (_, all) ↦ inr all
        ],
      )
