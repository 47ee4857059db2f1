-- ===== src/Audit/Chain.antt =====
-- The chain of signatures, and what each verdict of `verify_ledger` says about it.
use cubiczan_resilience.Base.{
  ℕ, suc, ◌+◌, ◌≡◌, ◌≢◌, refl, ap, true, false, Option, none, some, List, [], ◌∷◌, ◌++◌, length,
  arith,
}
use cubiczan_resilience.Text.{Text, text_eq_self, text_eq-true}
use cubiczan_resilience.Dict.{lookup}
use cubiczan_resilience.Audit.Records.{
  Json, null, text, other, Record, Value, object, no_object, is_text,
}
use cubiczan_resilience.Audit.{
  Reason, prev_sig_mismatch, signature_mismatch, Verdict, valid, tampered, raised, sign, judge,
  verify_from,
}

module _ {A : Type 0} where
  pub is_text-true : (o : Option (Json A)) (s : Text) → is_text o s ≡ true → o ≡ some (text s)
  is_text-true none s h = ground arith
  is_text-true (some null) s h = ground arith
  is_text-true (some (other a)) s h = ground arith
  is_text-true (some (text t)) s h = ap (λ x. some (text x)) (text_eq-true t s h)

  pub is_text-of : (o : Option (Json A)) (s : Text) → o ≡ some (text s) → is_text o s ≡ true
  is_text-of o s h = rw h (text_eq_self s)

  is_text-false : (o : Option (Json A)) (s : Text) → is_text o s ≡ false → o ≢ some (text s)
  is_text-false o s h same = ground (arith, is_text-of o s same)

  module _ (canonical : Record A → Option Text) (hmac_hex : Text → Text → Text) (key : Text) where
    abbrev pub signature : Record A → Option Text
    signature = sign canonical hmac_hex key

    -- Records that are chained from one signature to another: each has the signature before it as
    -- its `prev_sig`, and its own as its `sig`.
    pub data Chain : Text → List (Value A) → Text → Type 0 where
      ends : {s : Text} → Chain s [] s
      link :
          {p q l : Text} (r : Record A) {vs : List (Value A)}
          → lookup "prev_sig" r ≡ some (text p)
          → signature r ≡ some q
          → lookup "sig" r ≡ some (text q)
          → Chain q vs l
          → Chain p (object r ∷ vs) l

    -- The first of the records cannot follow the signature `l`.
    abbrev pub Breaks : Reason → Text → List (Value A) → Type 0
    Breaks _ l [] = ⊥
    Breaks _ l (no_object ∷ _) = ⊥
    Breaks prev_sig_mismatch l (object r ∷ _) = lookup "prev_sig" r ≢ some (text l)
    Breaks signature_mismatch l (object r ∷ _) =
        (lookup "prev_sig" r ≡ some (text l))
        × ((q : Text) × (signature r ≡ some q) × (lookup "sig" r ≢ some (text q)))

    -- The first of the records is no object, or has no message to sign.
    abbrev pub Fails : Text → List (Value A) → Type 0
    Fails l [] = ⊥
    Fails l (no_object ∷ _) = Unit
    Fails l (object r ∷ _) = (lookup "prev_sig" r ≡ some (text l)) × (signature r ≡ none)

    abbrev pub Explains : Text → ℕ → List (Value A) → Verdict → Type 0
    Explains p i vs (valid n) = (n ≡ i + length vs) × ((l : Text) × Chain p vs l)
    Explains p i vs (tampered j reason) =
        (good : List (Value A)) × (rest : List (Value A)) × (l : Text) × (vs ≡ good ++ rest)
        × (j ≡ i + length good)
        × Chain p good l
        × Breaks reason l rest
    Explains p i vs raised =
        (good : List (Value A)) × (rest : List (Value A)) × (l : Text) × (vs ≡ good ++ rest)
        × Chain p good l
        × Fails l rest

    -- A record that is chained before explained ones.
    Explains-link :
        (p q : Text) (i : ℕ) (r : Record A) (vs : List (Value A)) (v : Verdict)
        → lookup "prev_sig" r ≡ some (text p)
        → signature r ≡ some q
        → lookup "sig" r ≡ some (text q)
        → Explains q (suc i) vs v
        → Explains p i (object r ∷ vs) v
    Explains-link p q i r vs (valid n) prev signed sig (n_eq, (l, chain)) =
        (omega (arith, n_eq), (l, link r prev signed sig chain))
    Explains-link p q i r vs (tampered j reason) prev signed sig
          (good, rest, l, split, j_eq, chain, breaks) =
        (
          object r ∷ good,
          rest,
          l,
          ap (λ us. object r ∷ us) split,
          omega (arith, j_eq),
          link r prev signed sig chain,
          breaks,
        )
    Explains-link p q i r vs raised prev signed sig (good, rest, l, split, chain, fails) = (
      object r ∷ good,
      rest,
      l,
      ap (λ us. object r ∷ us) split,
      link r prev signed sig chain,
      fails,
    )

    judge-Explains :
        (i : ℕ) (p : Text) (r : Record A) (vs : List (Value A)) (o : Option Text)
        (rest : Text → Verdict)
        → signature r ≡ o
        → ((q : Text) → Explains q (suc i) vs (rest q))
        → Explains p i (object r ∷ vs) (judge i p r o rest)
    judge-Explains i p r vs o rest signed h =
        elim (is_text (lookup "prev_sig" r) p)
            as (λ b.
              is_text (lookup "prev_sig" r) p ≡ b
              → Explains p i (object r ∷ vs) (judge i p r o rest)) [
                | true ↦ λ same. chained (is_text-true _ _ same) same o signed
                | false ↦ λ differs.
                    let named : judge i p r o rest ≡ tampered i prev_sig_mismatch =
                      unchained differs o in
                    rw named
                      ([], object r ∷ vs, p, refl, omega arith, ends, is_text-false _ _ differs)
              ]
          refl
      where
        unchained :
            is_text (lookup "prev_sig" r) p ≡ false
            → (o : Option Text) → judge i p r o rest ≡ tampered i prev_sig_mismatch
        unchained differs none = rw differs refl
        unchained differs (some q) = rw differs refl

        chained :
            lookup "prev_sig" r ≡ some (text p)
            → is_text (lookup "prev_sig" r) p ≡ true
            → (o : Option Text) → signature r ≡ o
            → Explains p i (object r ∷ vs) (judge i p r o rest)
        chained prev same none signed = rw same ([], object r ∷ vs, p, refl, ends, (prev, signed))
        chained prev same (some q) signed =
            elim (is_text (lookup "sig" r) q)
                as (λ b.
                  is_text (lookup "sig" r) q ≡ b
                  → Explains p i (object r ∷ vs) (judge i p r (some q) rest)) [
                    | true ↦ λ kept.
                        rw (same, kept)
                          (Explains-link p q i r vs (rest q) prev signed (is_text-true _ _ kept)
                            (h q))
                    | false ↦ λ changed.
                        rw (same, changed)
                          (
                            [],
                            object r ∷ vs,
                            p,
                            refl,
                            omega arith,
                            ends,
                            (prev, (q, signed, is_text-false _ _ changed)),
                          )
                  ]
              refl

    -- What `verify_ledger` reports of a list of records. A valid ledger is a chain from the given
    -- signature, of as many records as it counts; with a tampered index, the records before it are
    -- a chain, and the record there has another `prev_sig` than the chain's end or another `sig`
    -- than its own content; and it raises only at a record that is no object or lacks a field.
    pub verify_from-Explains :
        (i : ℕ) (p : Text) (vs : List (Value A))
        → Explains p i vs (verify_from canonical hmac_hex key i p vs)
    unfolding verify_from
    verify_from-Explains i p [] = (omega arith, (p, ends))
    verify_from-Explains i p (no_object ∷ vs) = ([], no_object ∷ vs, p, refl, ends, tt)
    verify_from-Explains i p (object r ∷ vs) =
        judge-Explains i p r vs (signature r) _ refl (λ q. verify_from-Explains (suc i) q vs)
