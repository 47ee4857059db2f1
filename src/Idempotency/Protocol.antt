-- ===== src/Idempotency/Protocol.antt =====
-- The protocol `IdempotencyStore` of python/src/cubiczan_resilience/idempotency.py, what its
-- docstrings promise, and its two implementations. A store's state is of a type `S`.
pub mod Stores
use cubiczan_resilience.Base.{
  ◌≡◌, ◌∙◌, refl, ap, sym, arith, String, str_eq, Bool, not, ◌||◌, Option, some, List, [], ◌∷◌,
  if◌then◌else◌,
}

pub record IdempotencyStore (S V : Type 0) : Type 0 where
  pub already_done : String → S → Bool
  pub get_result : String → S → Option V
  pub mark_done : String → V → S → Bool × S

-- `mark_done` tells whether this call recorded the key, and records it if it was not done; nothing
-- else is recorded, and a result is not overwritten.
pub record IsStore {S V : Type 0} (st : IdempotencyStore S V) : Type 0 where
  pub wins : (k : String) (v : V) (s : S) → (st.mark_done k v s).0 ≡ not (st.already_done k s)
  pub marks :
      (j k : String) (v : V) (s : S)
      → st.already_done j (st.mark_done k v s).1 ≡ (str_eq k j || st.already_done j s)
  pub keeps :
      (j k : String) (v : V) (s : S)
      → st.get_result j (st.mark_done k v s).1 ≡ (
          if st.already_done k s
          then st.get_result j s
          else if str_eq k j
          then some v
          else st.get_result j s)

-- A call of a method, and its answer.
pub data Call (V : Type 0) : Type 0 where
  ask_done ask_result : String → Call V
  mark : String → V → Call V

pub data Answer (V : Type 0) : Type 0 where
  flag : Bool → Answer V
  result : Option V → Answer V

module _ {S V : Type 0} (st : IdempotencyStore S V) where
  abbrev pub call : Call V → S → Answer V × S
  call (ask_done k) s = (flag (st.already_done k s), s)
  call (ask_result k) s = (result (st.get_result k s), s)
  call (mark k v) s = let (b, s') = st.mark_done k v s in (flag b, s')

  pub answers : List (Call V) → S → List (Answer V)
  answers [] s = []
  answers (c ∷ cs) s = let (a, s') = call c s in a ∷ answers cs s'

-- Two stores that show the same.
abbrev pub Agree : {S T V : Type 0} → IdempotencyStore S V → IdempotencyStore T V → S → T → Type 0
Agree st su s t =
    (k : String)
    → (st.already_done k s ≡ su.already_done k t) × (st.get_result k s ≡ su.get_result k t)

module _ {S T V : Type 0} (st : IdempotencyStore S V) (su : IdempotencyStore T V)
    (lawful : IsStore st) (lawful' : IsStore su) where
  mark-Agree :
      (k : String) (v : V) (s : S) (t : T)
      → Agree st su s t
      → Agree st su (st.mark_done k v s).1 (su.mark_done k v t).1
  mark-Agree k v s t agree j = (
    lawful.marks j k v s ∙ ap (λ b. str_eq k j || b) (agree j).0 ∙ sym (lawful'.marks j k v t),
    ground (arith, lawful.keeps j k v s, lawful'.keeps j k v t, (agree k).0, (agree j).1),
  )

  -- Two stores that keep the promises of the protocol, and that show the same for every key, give the
  -- same answers to any calls: which store it is, a caller cannot tell.
  pub answers-Agree :
      (cs : List (Call V)) (s : S) (t : T) → Agree st su s t → answers st cs s ≡ answers su cs t
  unfolding answers
  answers-Agree [] s t agree = refl
  answers-Agree (ask_done k ∷ cs) s t agree = rw ((agree k).0, answers-Agree cs s t agree) refl
  answers-Agree (ask_result k ∷ cs) s t agree = rw ((agree k).1, answers-Agree cs s t agree) refl
  answers-Agree (mark k v ∷ cs) s t agree =
      let same : (st.mark_done k v s).0 ≡ (su.mark_done k v t).0 =
        lawful.wins k v s ∙ ap not (agree k).0 ∙ sym (lawful'.wins k v t) in
      rw (same, answers-Agree cs _ _ (mark-Agree k v s t agree)) refl
