-- ===== src/Idempotency/Tests/Codec.antt =====
-- A small codec in place of `json` and UTF-8, a directory and its failures, for the tests of the
-- file store.
use mathlib.Core.Path.{subst}
use mathlib.Core.Option.{map as map_option}
use cubiczan_resilience.Base.{
  ℕ, ◌≡◌, refl, String, true, false, if◌then◌else◌, str_eq, eq_iff, Option, none, some, [], ◌∷◌,
  arith,
}
use cubiczan_resilience.Text.{Text, is_blank}
use cubiczan_resilience.Dict.{Dict, lookup}
use cubiczan_resilience.Atomic.{Files, Faults, gone}
use cubiczan_resilience.Idempotency.{Loaded, object, other, invalid}

-- The text of a dict of the key `k` alone is 34 and its number; no other dict has one here.
abbrev pub dumps_one : Dict ℕ → Option Text
dumps_one [] = none
dumps_one ((k, n) ∷ []) = if str_eq k "k" then some (34 ∷ n ∷ []) else none
dumps_one (_ ∷ _ ∷ _) = none

abbrev pub loads_one : Text → Loaded ℕ
loads_one [] = invalid
loads_one (_ ∷ []) = other
loads_one (_ ∷ n ∷ _) = object (("k", n) ∷ [])

abbrev pub Reads : Dict ℕ → Text → Type 0
Reads d t =
    (is_blank t ≡ false)
    × (some t ≡ some t)
    × ((e : Dict ℕ) × (loads_one t ≡ object e)
        × ((k : String) → lookup k e ≡ map_option (λ n. n) (lookup k d)))

map-id : (o : Option ℕ) → o ≡ map_option (λ n. n) o
map-id none = refl
map-id (some n) = refl

key-Reads : (n : ℕ) → Reads (("k", n) ∷ []) (34 ∷ n ∷ [])
key-Reads n = (refl, refl, (("k", n) ∷ [], refl, λ j. map-id (lookup j (("k", n) ∷ []))))

pub one-Reads : (d : Dict ℕ) (t : Text) → dumps_one d ≡ some t → Reads d t
one-Reads [] t h = ground arith
one-Reads ((k, n) ∷ []) t h =
    elim (str_eq k "k") as (λ b. (str_eq k "k" ≡ b) → Reads ((k, n) ∷ []) t) [
      | true ↦ λ same.
          let named : "k" ≡ k = ground (arith, eq_iff k "k") in
          let text : 34 ∷ n ∷ [] ≡ t = ground (arith) in
          subst (λ j. Reads ((j, n) ∷ []) t) named
            (subst (Reads (("k", n) ∷ [])) text (key-Reads n))
      | false ↦ λ ne. ground arith
    ]
      refl
one-Reads (_ ∷ _ ∷ _) t h = ground arith

abbrev pub store_files : Files
store_files = ("notes", 1 ∷ []) ∷ []

abbrev pub no_fault : Faults
no_fault = record {
  mkdir = false;
  encode = false;
  mkstemp = false;
  write = false;
  written = 0;
  fsync = false;
  chmod = false;
  replace = false;
  unlink = gone;
}

abbrev pub read_only : Faults
read_only = record no_fault { mkstemp = true }
