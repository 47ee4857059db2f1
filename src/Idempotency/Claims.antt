-- ===== src/Idempotency/Claims.antt =====
-- Sequences of `mark_done` calls on an in-memory store, retries and duplicates among them.
use cubiczan_resilience.Base.{
  ℕ, ◌+◌, ◌≡◌, refl, ap, ◌∙◌, String, str_eq, eq_iff, Bool, false, ◌||◌, Option, none, some, List,
  [], ◌∷◌, arith, if◌then◌else◌,
}
use cubiczan_resilience.Dict.{Dict, lookup, contains, lookup-insert}
use cubiczan_resilience.Idempotency.{already_done, get_result, mark_done}

module _ {V : Type 0} where
  -- The store after the calls.
  unfoldable pub marks : List (String × V) → Dict V → Dict V
  marks [] d = d
  marks ((k, v) ∷ calls) d = let (_, d') = mark_done k v d in marks calls d'

  -- How many of the calls for a key return `True`.
  unfoldable pub wins : String → List (String × V) → Dict V → ℕ
  wins key [] d = 0
  wins key ((k, v) ∷ calls) d =
      let (won, d') = mark_done k v d in
      let rest = wins key calls d' in
      if won then (if str_eq k key then 1 + rest else rest) else rest

  abbrev pub first_call : String → List (String × V) → Option V
  first_call key [] = none
  first_call key ((k, v) ∷ calls) = if str_eq k key then some v else first_call key calls

  abbrev pub or_else : Option V → Option V → Option V
  or_else (some v) _ = some v
  or_else none o = o

  abbrev pub is_called : String → List (String × V) → Bool
  is_called key [] = false
  is_called key ((k, v) ∷ calls) = str_eq k key || is_called key calls

  or_else-none : (o : Option V) → o ≡ or_else o none
  or_else-none none = refl
  or_else-none (some v) = refl

  or_else-call :
      (b : Bool) (v : V) (o p : Option V)
      → or_else (or_else o (if b then some v else none)) p ≡ or_else o (if b then some v else p)
  or_else-call b v none p = ground arith
  or_else-call b v (some w) p = refl

  lookup-mark_done :
      (key k : String) (v : V) (d : Dict V)
      → lookup key (mark_done k v d).1
        ≡ or_else (lookup key d) (if str_eq k key then some v else none)
  unfolding mark_done contains
  lookup-mark_done key k v d = ground (arith, lookup-insert k key v d, eq_iff k key)

  -- After any sequence of calls, a key has the result that it had before them, or else that of the
  -- first call for it: a later call never overwrites a result.
  pub marks-first :
      (key : String) (calls : List (String × V)) (d : Dict V)
      → get_result key (marks calls d) ≡ or_else (get_result key d) (first_call key calls)
  unfolding marks get_result
  marks-first key [] d = or_else-none (get_result key d)
  marks-first key ((k, v) ∷ calls) d =
      marks-first key calls (mark_done k v d).1
      ∙ ap (λ o. or_else o (first_call key calls)) (lookup-mark_done key k v d)
      ∙ or_else-call (str_eq k key) v (lookup key d) (first_call key calls)

  -- Of all the calls for a key, exactly one returns `True` when the key is not done before, and none
  -- when it is.
  pub wins-once :
      (key : String) (calls : List (String × V)) (d : Dict V)
      → wins key calls d ≡ (if already_done key d then 0 else if is_called key calls then 1 else 0)
  unfolding wins mark_done already_done contains
  wins-once key [] d = ground arith
  wins-once key ((k, v) ∷ calls) d =
      ground
        (arith, wins-once key calls (mark_done k v d).1, lookup-mark_done key k v d, eq_iff k key)
