-- ===== src/Idempotency/Protocol/Stores.antt =====
-- The in-memory store and the file store of python/src/cubiczan_resilience/idempotency.py as
-- implementations of the protocol.
use cubiczan_resilience.Base.{
  ◌≡◌, refl, ap, ◌∙◌, arith, String, eq_iff, Bool, true, false, Option, some, List,
}
use cubiczan_resilience.Text.{Text}
use cubiczan_resilience.Dict.{Dict, insert, contains, lookup-insert}
use cubiczan_resilience.Atomic.{Bytes, Files, Faults, done, atomic_write}
use cubiczan_resilience.Idempotency.{
  Loaded, is_win, reply_of, already_done, get_result, mark_done, write_text, flush, mark_done_file,
}
use cubiczan_resilience.Idempotency.Protocol.{
  IdempotencyStore, IsStore, Call, answers, answers-Agree,
}

abbrev pub memory : {V : Type 0} → IdempotencyStore (Dict V) V
memory = record { already_done = already_done; get_result = get_result; mark_done = mark_done }

memory-IsStore : {V : Type 0} → IsStore (memory {V = V})
unfolding mark_done already_done get_result contains
memory-IsStore = record {
  wins = λ k v d. ground arith;
  marks = λ j k v d. ground (arith, lookup-insert k j v d, eq_iff k j);
  keeps = λ j k v d. ground (arith, lookup-insert k j v d);
}

-- The file store, by its `_data` and the files. The hypotheses are that `json.dumps` has a text for
-- every dict, and that `atomic_write` does not raise.
module _ {V : Type 0} (dumps : Dict V → Option Text) (loads : Text → Loaded V)
    (encode : Text → Bytes) (decode : Bytes → Option Text) (faults : Faults) (tmp path : String)
    (dumps_total : (d : Dict V) → (t : Text) × (dumps d ≡ some t))
    (writes : (bs : Bytes) (fs : Files)
      → (atomic_write faults true false tmp path bs fs).result ≡ done) where
  abbrev mark_done_at : String → V → Dict V × Files → Bool × (Dict V × Files)
  mark_done_at k v (d, fs) =
      let (reply, d', fs', _) = mark_done_file dumps loads encode decode faults tmp path k v d fs in
      (is_win reply, (d', fs'))

  abbrev pub file : IdempotencyStore (Dict V × Files) V
  file = record {
    already_done = λ k s. already_done k s.0;
    get_result = λ k s. get_result k s.0;
    mark_done = mark_done_at;
  }

  flush-wins :
      (d : Dict V) (fs : Files)
      → is_win (flush dumps loads encode decode faults tmp path d fs).0 ≡ true
  unfolding flush write_text
  flush-wins d fs =
      let (t, text) = dumps_total d in
      ap (λ o. is_win (write_text dumps loads encode decode faults tmp path o fs).0) text
      ∙ ap (λ r. is_win (reply_of r)) (writes (encode t) fs)

  -- A `mark_done` of the file store is one of the in-memory store.
  mark_done_at-mark_done :
      (k : String) (v : V) (d : Dict V) (fs : Files)
      → ((mark_done_at k v (d, fs)).0 ≡ (mark_done k v d).0)
        × ((mark_done_at k v (d, fs)).1.0 ≡ (mark_done k v d).1)
  unfolding mark_done mark_done_file
  mark_done_at-mark_done k v d fs = ground (arith, flush-wins (insert k v d) fs)

  file-IsStore : IsStore file
  file-IsStore = record {
    wins = λ k v s. (mark_done_at-mark_done k v s.0 s.1).0 ∙ memory-IsStore.wins k v s.0;
    marks = λ j k v s.
        ap (already_done j) (mark_done_at-mark_done k v s.0 s.1).1 ∙ memory-IsStore.marks j k v s.0;
    keeps = λ j k v s.
        ap (get_result j) (mark_done_at-mark_done k v s.0 s.1).1 ∙ memory-IsStore.keeps j k v s.0;
  }

  -- A file store that holds a dict, whatever is in its files, answers any calls as the in-memory
  -- store that holds the same dict. It is assumed that `json.dumps` has a text for every dict and
  -- that no write raises.
  pub file-memory :
      (calls : List (Call V)) (d : Dict V) (fs : Files)
      → answers file calls (d, fs) ≡ answers memory calls d
  file-memory calls d fs =
      answers-Agree file memory file-IsStore memory-IsStore calls (d, fs) d (λ k. (refl, refl))
