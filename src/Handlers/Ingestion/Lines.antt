-- ===== src/Handlers/Ingestion/Lines.antt =====
-- JSON Lines read back, by a reader that splits a text at its newlines.
use cubiczan_resilience.Base.{
  ◌≡◌, refl, ap, sym, false, Option, some, List, [], ◌∷◌, ◌++◌, ◌==◌, All, ◌>>=◌, arith,
  if◌then◌else◌,
}
use cubiczan_resilience.Text.{Text, newline}
use cubiczan_resilience.Athena.{Attempt, value, raises}
use cubiczan_resilience.Handlers.Ingestion.{join_after, join_lines, cons_dump, dump_each}

-- `text.split("\n")`, with the part of a line that is read.
pub split_from : Text → Text → List Text
split_from line [] = line ∷ []
split_from line (c ∷ s) = if c == 10 then line ∷ split_from [] s else split_from (line ++ c ∷ []) s

abbrev pub NoNewline : Text → Type 0
NoNewline = All (λ c. (c == 10) ≡ false)

append_nil : (s : Text) → s ++ [] ≡ s
append_nil [] = refl
append_nil (c ∷ s) = ap (λ x. c ∷ x) (append_nil s)

append_assoc : (s t u : Text) → (s ++ t) ++ u ≡ s ++ (t ++ u)
append_assoc [] t u = refl
append_assoc (c ∷ s) t u = ap (λ x. c ∷ x) (append_assoc s t u)

split_from-line : (line t : Text) → NoNewline t → split_from line t ≡ (line ++ t) ∷ []
unfolding split_from
split_from-line line [] h = ap (λ x. x ∷ []) (sym (append_nil line))
split_from-line line (c ∷ s) (h, hs) =
    rw (h, split_from-line (line ++ c ∷ []) s hs, append_assoc line (c ∷ []) s) refl

split_from-append :
    (line t u : Text)
    → NoNewline t
    → split_from line (t ++ (newline ++ u)) ≡ (line ++ t) ∷ split_from [] u
unfolding split_from
split_from-append line [] u h = ap (λ x. x ∷ split_from [] u) (sym (append_nil line))
split_from-append line (c ∷ s) u (h, hs) =
    rw (h, split_from-append (line ++ c ∷ []) s u hs, append_assoc line (c ∷ []) s) refl

split_from-join_after :
    (t : Text) (ts : List Text)
    → NoNewline t
    → All NoNewline ts
    → split_from [] (join_after t ts) ≡ t ∷ ts
split_from-join_after t [] h hs = split_from-line [] t h
split_from-join_after t (u ∷ us) h (k, ks) =
    rw (split_from-append [] t (join_after u us) h, split_from-join_after u us k ks) refl

cons_dump-value :
    (a : Attempt Text) (b : Attempt (List Text)) (ts : List Text)
    → cons_dump a b ≡ value ts
    → (t : Text) × (us : List Text) × (a ≡ value t) × (b ≡ value us) × (ts ≡ t ∷ us)
cons_dump-value (raises e) b ts h = ground arith
cons_dump-value (value t) (raises e) ts h = ground arith
cons_dump-value (value t) (value us) ts h = (t, us, refl, refl, ground arith)

module _ {R : Type 0} (dumps : R → Attempt Text) (loads : Text → Option R) where
  -- `json.loads` reads the text of a record back, and the text has no newline, as without `indent`.
  abbrev pub Codec : Type 0
  Codec = (r : R) (t : Text) → dumps r ≡ value t → NoNewline t × (loads t ≡ some r)

  -- `[json.loads(line) for line in text.split("\n")]`.
  abbrev load_each : List Text → Option (List R)
  load_each [] = some []
  load_each (t ∷ ts) = loads t >>= (λ r. load_each ts >>= (λ rs. some (r ∷ rs)))

  pub read_jsonl : Text → Option (List R)
  read_jsonl body = load_each (split_from [] body)

  dump_each-texts :
      (rs : List R) (ts : List Text)
      → Codec
      → dump_each dumps rs ≡ value ts
      → All NoNewline ts × (load_each ts ≡ some rs)
  unfolding dump_each
  dump_each-texts [] [] codec h = (tt, refl)
  dump_each-texts [] (t ∷ ts) codec h = ground arith
  dump_each-texts (r ∷ rs) ts codec h =
      let (t, us, dumped, rest, same) = cons_dump-value (dumps r) (dump_each dumps rs) ts h in
      let (plain, loaded) = codec r t dumped in
      let (plains, loadeds) = dump_each-texts rs us codec rest in
      rw same ((plain, plains), rw (loaded, loadeds) refl)

  -- What `write_jsonl_to_s3` writes for records, of which there is at least one, is read back as the
  -- same records in the same order, by a reader that splits it at the newlines and loads each line,
  -- provided that `json.loads` reads the text of a record back and the text has no newline.
  pub read_jsonl-join_lines :
      (r : R) (rs : List R) (ts : List Text)
      → Codec
      → dump_each dumps (r ∷ rs) ≡ value ts
      → read_jsonl (join_lines ts) ≡ some (r ∷ rs)
  unfolding read_jsonl join_lines
  read_jsonl-join_lines r rs [] codec h = ground (arith, dump_each-texts (r ∷ rs) [] codec h)
  read_jsonl-join_lines r rs (t ∷ ts) codec h =
      let ((plain, plains), loaded) = dump_each-texts (r ∷ rs) (t ∷ ts) codec h in
      rw (split_from-join_after t ts plain plains) loaded
