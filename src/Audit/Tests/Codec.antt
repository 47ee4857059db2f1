-- ===== src/Audit/Tests/Codec.antt =====
-- A codec of two records alone, in place of `json`, and a signature that is the message after an
-- `x`.
use mathlib.Core.Path.{subst}
use mathlib.Core.Option.{some-injective}
use cubiczan_resilience.Base.{
  ◌≡◌, ◌⊎◌, inl, inr, refl, ap, sym, ◌∙◌, Bool, true, false, ◌&&◌, String, str_eq, eq_iff, Option,
  none, some, [], ◌∷◌, arith, if◌then◌else◌,
}
use cubiczan_resilience.Text.{Text, codes, text_eq, text_eq-true, is_blank}
use cubiczan_resilience.Dict.{lookup}
use cubiczan_resilience.Audit.Records.{Json, null, text, other, Record, Value, object}
use cubiczan_resilience.Audit.{message}
use cubiczan_resilience.Audit.Lines.{IsLine}

abbrev pub json_eq : Json Unit → Json Unit → Bool
json_eq null null = true
json_eq (text s) (text t) = text_eq s t
json_eq (other _) (other _) = true
json_eq _ _ = false

abbrev pub record_eq : Record Unit → Record Unit → Bool
record_eq [] [] = true
record_eq ((k, v) ∷ r) ((j, w) ∷ s) = str_eq k j && json_eq v w && record_eq r s
record_eq _ _ = false

json_eq-true : (v w : Json Unit) → json_eq v w ≡ true → v ≡ w
json_eq-true null null h = refl
json_eq-true null (text t) h = ground arith
json_eq-true null (other _) h = ground arith
json_eq-true (text s) null h = ground arith
json_eq-true (text s) (text t) h = ap text (text_eq-true s t h)
json_eq-true (text s) (other _) h = ground arith
json_eq-true (other _) null h = ground arith
json_eq-true (other _) (text t) h = ground arith
json_eq-true (other _) (other _) h = refl

record_eq-true : (r s : Record Unit) → record_eq r s ≡ true → r ≡ s
record_eq-true [] [] h = refl
record_eq-true [] (_ ∷ _) h = ground arith
record_eq-true (_ ∷ _) [] h = ground arith
record_eq-true ((k, v) ∷ r) ((j, w) ∷ s) h =
    ground (arith, eq_iff k j, json_eq-true v w, record_eq-true r s)

abbrev pub payload_1 : Record Unit
payload_1 =
    ("ts", text (codes "t"))
    ∷ ("event", text (codes "e"))
    ∷ ("actor", text (codes "a"))
    ∷ ("inputs", null)
    ∷ ("sources", null)
    ∷ ("prev_sig", text [])
    ∷ []

abbrev pub payload_2 : Record Unit
payload_2 =
    ("ts", text (codes "u"))
    ∷ ("event", text (codes "e"))
    ∷ ("actor", text (codes "a"))
    ∷ ("inputs", null)
    ∷ ("sources", null)
    ∷ ("prev_sig", text (codes "x1"))
    ∷ ("confidence", other tt)
    ∷ []

abbrev pub record_1 : Record Unit
record_1 =
    ("ts", text (codes "t"))
    ∷ ("event", text (codes "e"))
    ∷ ("actor", text (codes "a"))
    ∷ ("inputs", null)
    ∷ ("sources", null)
    ∷ ("prev_sig", text [])
    ∷ ("sig", text (codes "x1"))
    ∷ []

abbrev pub record_2 : Record Unit
record_2 =
    ("ts", text (codes "u"))
    ∷ ("event", text (codes "e"))
    ∷ ("actor", text (codes "a"))
    ∷ ("inputs", null)
    ∷ ("sources", null)
    ∷ ("confidence", other tt)
    ∷ ("prev_sig", text (codes "x1"))
    ∷ ("sig", text (codes "x2"))
    ∷ []

-- Of two records the first and second of a pair, the text `1` and `2`.
abbrev pub coded : Record Unit → Record Unit → Record Unit → Option Text
coded one two r =
    if record_eq r one then some (codes "1") else if record_eq r two then some (codes "2") else none

abbrev pub loads_line : Text → Option (Value Unit)
loads_line line =
    if text_eq line (codes "1")
    then some (object record_1)
    else if text_eq line (codes "2")
    then some (object record_2)
    else none

abbrev pub hmac_x : Text → Text → Text
hmac_x key msg = 120 ∷ msg

pick :
    (b c : Bool) (m : Text)
    → (if b then some (codes "1") else if c then some (codes "2") else none) ≡ some m
    → ((b ≡ true) × (m ≡ codes "1")) ⊎ ((c ≡ true) × (m ≡ codes "2"))
pick true c m h = inl (refl, sym (some-injective _ _ h))
pick false true m h = inr (refl, sym (some-injective _ _ h))
pick false false m h = ground arith

coded-cases :
    (one two r : Record Unit) (m : Text)
    → coded one two r ≡ some m
    → ((r ≡ one) × (m ≡ codes "1")) ⊎ ((r ≡ two) × (m ≡ codes "2"))
coded-cases one two r m h = elim (pick (record_eq r one) (record_eq r two) m h) [
  | inl (is_one, same) ↦ inl (record_eq-true r one is_one, same)
  | inr (is_two, same) ↦ inr (record_eq-true r two is_two, same)
]

abbrev pub canonical : Record Unit → Option Text
canonical = coded payload_1 payload_2

abbrev pub Reads : Record Unit → Text → Type 0
Reads r line =
    (is_blank line ≡ false)
    × IsLine line
    × ((s : Record Unit) × (loads_line line ≡ some (object s))
        × (message canonical hmac_x s ≡ message canonical hmac_x r)
        × (lookup "prev_sig" s ≡ lookup "prev_sig" r)
        × (lookup "sig" s ≡ lookup "sig" r))

pub coded-Reads :
    (r : Record Unit) (line : Text) → coded record_1 record_2 r ≡ some line → Reads r line
coded-Reads r line h = elim (coded-cases record_1 record_2 r line h) [
  | inl (is_one, same) ↦
      subst (λ x. Reads x line) (sym is_one)
        (subst (Reads record_1) (sym same) (refl, (refl, tt), (record_1, refl, refl, refl, refl)))
  | inr (is_two, same) ↦
      subst (λ x. Reads x line) (sym is_two)
        (subst (Reads record_2) (sym same) (refl, (refl, tt), (record_2, refl, refl, refl, refl)))
]

pub canonical-injective :
    (p p' : Record Unit) (m : Text)
    → canonical p ≡ some m
    → canonical p' ≡ some m
    → (k : String) → lookup k p ≡ lookup k p'
canonical-injective p p' m h h' k = elim (coded-cases payload_1 payload_2 p m h) [
  | inl (one, same) ↦ elim (coded-cases payload_1 payload_2 p' m h') [
    | inl (one', _) ↦ ap (lookup k) (one ∙ sym one')
    | inr (_, same') ↦ ground arith
  ]
  | inr (two, same) ↦ elim (coded-cases payload_1 payload_2 p' m h') [
    | inl (_, same') ↦ ground arith
    | inr (two', _) ↦ ap (lookup k) (two ∙ sym two')
  ]
]
