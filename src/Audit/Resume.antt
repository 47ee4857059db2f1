-- ===== src/Audit/Resume.antt =====
-- Ledgers that are opened on a file, appended to and verified.
use mathlib.Core.Path.{subst}
use cubiczan_resilience.Base.{ℕ, ◌≡◌, refl, false, Option, none, some, List, [], ◌∷◌, arith}
use cubiczan_resilience.Text.{Text, is_blank}
use cubiczan_resilience.Dict.{lookup}
use cubiczan_resilience.Audit.Records.{Json, text, Record, Value, object, Entry}
use cubiczan_resilience.Audit.{
  valid, Ledger, message, verify_parsed, verify_ledger, parse_lines, last_of, open_ledger,
}
use cubiczan_resilience.Audit.Lines.{IsEnded, IsLine}
use cubiczan_resilience.Audit.Chain.{Chain, ends, link, Explains, verify_from-Explains}
use cubiczan_resilience.Audit.Append.{Sound, Sound-valid, appends, appends-Sound}

module _ {A : Type 0} (canonical : Record A → Option Text) (hmac_hex : Text → Text → Text)
    (key : Text) where
  last_of-link :
      (sig : Json A) (p q : Text) (r : Value A) (vs : List (Value A))
      → Chain canonical hmac_hex key p (r ∷ vs) q
      → last_of sig (r ∷ vs) ≡ some (text q)
  unfolding last_of
  last_of-link sig p q _ _ (link r prev signed kept ends) = kept
  last_of-link sig p q _ _ (link r prev signed kept (link s a b c chain)) =
      last_of-link sig _ q _ _ (link s a b c chain)

  pub last_of-Chain :
      (p q : Text) (vs : List (Value A))
      → Chain canonical hmac_hex key p vs q
      → last_of (text p) vs ≡ some (text q)
  unfolding last_of
  last_of-Chain p q _ ends = refl
  last_of-Chain p q _ (link r a b c chain) = last_of-link (text p) p q _ _ (link r a b c chain)

module _ {A : Type 0} (canonical dumps : Record A → Option Text) (hmac_hex : Text → Text → Text)
    (loads : Text → Option (Value A))
    (read_back : (r : Record A) (line : Text)
      → dumps r ≡ some line
      → (is_blank line ≡ false)
        × IsLine line
        × ((s : Record A) × (loads line ≡ some (object s))
            × (message canonical hmac_hex s ≡ message canonical hmac_hex r)
            × (lookup "prev_sig" s ≡ lookup "prev_sig" r)
            × (lookup "sig" s ≡ lookup "sig" r)))
    (key : Text) where
  pub parsed-Sound :
      (n : ℕ) (raw : Text) (o : Option (List (Value A)))
      → IsEnded raw
      → parse_lines loads raw ≡ o
      → verify_parsed canonical hmac_hex key o ≡ valid n
      → (l : Ledger A) × (open_ledger loads key raw ≡ some l)
        × Sound canonical dumps hmac_hex loads read_back key n l raw
  unfolding open_ledger
  parsed-Sound n raw none ended parsed verified = ground arith
  parsed-Sound n raw (some vs) ended parsed verified =
      let explained =
        subst (Explains canonical hmac_hex key [] 0 vs) verified
          (verify_from-Explains canonical hmac_hex key 0 [] vs) in
      let (counted, (q, chain)) = explained in
      (
        record { key = key; last_sig = text q },
        rw (parsed, last_of-Chain canonical hmac_hex key [] q vs chain) refl,
        (refl, ended, (vs, q, parsed, chain, refl, omega (arith, counted))),
      )

  -- A ledger can be opened on any file that is valid and whose last line has its end, and after any
  -- calls of `append` at any times, those that raise `TypeError` among them, the file is valid, with
  -- as many records as it had and as signatures were returned. It is assumed that the line of a
  -- record of JSON values reads as a record with the same message to sign and signatures.
  pub appends-valid :
      (calls : List (Text × Entry A)) (n : ℕ) (raw : Text)
      → IsEnded raw
      → verify_ledger canonical hmac_hex loads key raw ≡ valid n
      → (l : Ledger A) × (open_ledger loads key raw ≡ some l)
        × (let (n', _, raw') = appends canonical dumps hmac_hex loads read_back key calls n l raw in
            verify_ledger canonical hmac_hex loads key raw' ≡ valid n')
  unfolding verify_ledger
  appends-valid calls n raw ended verified =
      let (l, opens, sound) = parsed-Sound n raw (parse_lines loads raw) ended refl verified in
      (
        l,
        opens,
        Sound-valid canonical dumps hmac_hex loads read_back key _ _ _
            (appends-Sound canonical dumps hmac_hex loads read_back key calls n l raw sound),
      )
