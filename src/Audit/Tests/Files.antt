-- ===== src/Audit/Tests/Files.antt =====
-- Torn lines and confined paths at concrete inputs.
use mathlib.Core.Path.{subst}
use mathlib.Core.Option.{some-injective}
use cubiczan_resilience.Base.{
  str_eq, ℕ, zero, suc, ◌+◌, ◌≤◌, ◌<◌, ◌≡◌, refl, inl, false, Option, none, some, [], ◌∷◌, ◌++◌,
  take, length, arith, if◌then◌else◌,
}
use cubiczan_resilience.Text.{Text, codes, text_eq, is_blank}
use cubiczan_resilience.Dict.{lookup, insert}
use cubiczan_resilience.Audit.Records.{null, text, Record, Value, object, Entry, signing_payload}
use cubiczan_resilience.Audit.{raised, Ledger, message, sign, verify_ledger, append}
use cubiczan_resilience.Audit.Lines.{IsLine}
use cubiczan_resilience.Audit.Torn.{append-Torn}
use cubiczan_resilience.Audit.Paths.{
  Parts, RawPath, resolve_key, Place, confine_path, open_at, verify_at,
}
use cubiczan_resilience.Audit.Paths.Confined.{verify_at-open_at}

abbrev braces : Text
braces = codes "{}"

-- A JSON without content, and a signature that is always the same.
abbrev dump_empty : Record Unit → Option Text
dump_empty r = some braces

abbrev load_empty : Text → Option (Value Unit)
load_empty t = if text_eq t braces then some (object []) else none

abbrev sign_x : Text → Text → Text
sign_x key msg = codes "x"

dump_empty-IsLine : (r : Record Unit) (line : Text) → dump_empty r ≡ some line → IsLine line
dump_empty-IsLine r line h = subst IsLine (some-injective _ _ h) (refl, (refl, tt))

braces-glued :
    (k : ℕ)
    → 0 < k
    → k ≤ length braces
    → (is_blank (take k braces ++ braces) ≡ false) × (load_empty (take k braces ++ braces) ≡ none)
braces-glued zero pos short = absurd (omega (arith, pos))
braces-glued (suc zero) pos short = (refl, refl)
braces-glued (suc (suc zero)) pos short = (refl, refl)
braces-glued (suc (suc (suc k))) pos short = absurd (omega (arith, short))

dump_empty-glued :
    (r s : Record Unit) (line next : Text) (k : ℕ)
    → dump_empty r ≡ some line
    → dump_empty s ≡ some next
    → 0 < k
    → k ≤ length line
    → (is_blank (take k line ++ next) ≡ false) × (load_empty (take k line ++ next) ≡ none)
dump_empty-glued r s line next k hr hs =
    subst
      (λ n.
        0 < k
        → k ≤ length line
        → (is_blank (take k line ++ n) ≡ false) × (load_empty (take k line ++ n) ≡ none))
      (some-injective _ _ hs)
      (subst
        (λ l.
          0 < k
          → k ≤ length l
          → (is_blank (take k l ++ braces) ≡ false) × (load_empty (take k l ++ braces) ≡ none))
        (some-injective _ _ hr) (braces-glued k))

abbrev started : Entry Unit
started = record {
  event = codes "start";
  actor = codes "a";
  inputs = null;
  sources = null;
  confidence = none;
  rationale = none;
  ts = none;
}

abbrev at_start : Ledger Unit
at_start = record { key = codes "key"; last_sig = text [] }

torn_length :
    0 + 1 < length (append dump_empty sign_x dump_empty none (codes "t") started at_start []).2
unfolding append sign message signing_payload lookup insert
torn_length = omega arith

torn_reply :
    (append dump_empty sign_x dump_empty none
      (codes "t")
      started
      at_start
      (append dump_empty sign_x dump_empty (some 1) (codes "t") started at_start []).2).0
    ≡ some (codes "x")
unfolding append sign message signing_payload lookup insert
torn_reply = refl

append-Torn_example :
    verify_ledger dump_empty sign_x load_empty
      (codes "key")
      (append dump_empty sign_x dump_empty none
        (codes "t")
        started
        at_start
        (append dump_empty sign_x dump_empty (some 1) (codes "t") started at_start []).2).2
    ≡ raised
append-Torn_example =
    append-Torn dump_empty dump_empty sign_x load_empty dump_empty-IsLine dump_empty-glued
      (codes "key") (codes "t") (codes "t") started started at_start at_start [] 1 (codes "x")
      (inl refl) (omega arith) torn_length torn_reply

-- A resolution without symbolic links, in which `..` drops the part before it.
abbrev parent : Parts → Parts
parent [] = []
parent (k ∷ []) = []
parent (k ∷ j ∷ ks) = k ∷ parent (j ∷ ks)

abbrev without_dots : Parts → Parts → Parts
without_dots done [] = done
without_dots done (k ∷ ks) =
    let up = without_dots (parent done) ks in
    let down = without_dots (done ++ k ∷ []) ks in if str_eq k ".." then up else down

abbrev relative : Parts → RawPath
relative ks = record { is_absolute = false; parts = ks }

abbrev home : Parts
home = "srv" ∷ "app" ∷ []

confine_path-escapes :
    confine_path (without_dots []) home (relative (".." ∷ ".." ∷ "etc" ∷ "passwd" ∷ [])) none ≡ none
unfolding confine_path
confine_path-escapes = refl

confine_path-inside :
    confine_path (without_dots []) home (relative ("log" ∷ ".." ∷ "a.jsonl" ∷ [])) none
    ≡ some ("srv" ∷ "app" ∷ "a.jsonl" ∷ [])
unfolding confine_path
confine_path-inside = refl

resolve_key-default : resolve_key none none ≡ codes "cubiczan-resilience-insecure-default-key"
unfolding resolve_key
resolve_key-default = refl

abbrev kept : Place
kept = record { path = "srv" ∷ "app" ∷ "log" ∷ []; base_dir = home }

log-opens : open_at (λ p. p) home (relative ("log" ∷ [])) none ≡ some kept
unfolding open_at confine_path
log-opens = refl

verify_at-open_at_example :
    (verify_at (λ p. p) home kept ≡ some ("srv" ∷ "app" ∷ "log" ∷ []))
    × ((rest : Parts) × (◌≡◌ {A = Parts} ("srv" ∷ "app" ∷ "log" ∷ []) ("srv" ∷ "app" ∷ rest)))
verify_at-open_at_example =
    verify_at-open_at (λ p. p) home (λ p. refl) (relative ("log" ∷ [])) none kept log-opens
