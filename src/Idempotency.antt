-- ===== src/Idempotency.antt =====
-- The stores of python/src/cubiczan_resilience/idempotency.py. The lock of a store makes each
-- method one step, so that what threads do to a store is a sequence of calls.
pub mod Claims
pub mod Durable
pub mod Restarts
pub mod Protocol
mod Tests
use cubiczan_resilience.Base.{
  String, Bool, true, false, Option, none, some, List, [], ◌∷◌, if◌then◌else◌,
}
use cubiczan_resilience.Text.{Text, is_blank}
use cubiczan_resilience.Dict.{Dict, lookup, insert, contains}
use cubiczan_resilience.Atomic.{Bytes, Files, Faults, Step, Result, done, raised, atomic_write}

-- What `json.loads` makes of a text: an object, another value, or `JSONDecodeError`.
pub data Loaded (V : Type 0) : Type 0 where
  object : Dict V → Loaded V
  other : Loaded V
  invalid : Loaded V

-- What `mark_done` of a file store did: it returned, `json.dumps` raised `TypeError`, or
-- `atomic_write` raised.
pub data Reply : Type 0 where
  returned : Bool → Reply
  not_json : Reply
  not_written : Step → Reply

-- The call of `mark_done` returned `True`.
abbrev pub is_win : Reply → Bool
is_win (returned b) = b
is_win not_json = false
is_win (not_written _) = false

-- What `mark_done` does after `atomic_write`.
abbrev pub reply_of : Result → Reply
reply_of done = returned true
reply_of (raised e) = not_written e

module _ {V : Type 0} where
  -- The methods of `InMemoryIdempotencyStore` on its `_data`; the first two are those of
  -- `FileIdempotencyStore` as well.
  unfoldable pub already_done : String → Dict V → Bool
  already_done key d = contains key d

  unfoldable pub get_result : String → Dict V → Option V
  get_result key d = lookup key d

  unfoldable pub mark_done : String → V → Dict V → Bool × Dict V
  mark_done key result d = if contains key d then (false, d) else (true, insert key result d)

  unfoldable pub clear : Dict V → Dict V
  clear d = []

  -- `FileIdempotencyStore`, by its `_data`; `encode` and `decode` stand for UTF-8, the rest for
  -- the `json` module. The argument `failing` says that `read_text` raises `OSError`.
  module _ (dumps : Dict V → Option Text) (loads : Text → Loaded V) (encode : Text → Bytes)
      (decode : Bytes → Option Text) where
    unfoldable pub parsed : Text → Dict V
    parsed raw =
        if is_blank raw then [] else elim (loads raw) [ object d ↦ d | other ↦ [] | invalid ↦ [] ]

    -- `_load`, on the bytes of the file if there is one: `none` is the `UnicodeDecodeError` that no
    -- handler catches.
    unfoldable pub read : Bool → Option Bytes → Option (Dict V)
    unfolding parsed
    read failing none = some []
    read failing (some bs) =
        if failing then some [] else elim (decode bs) [ none ↦ none | some raw ↦ some (parsed raw) ]

    unfoldable pub load : Bool → String → Files → Option (Dict V)
    unfolding read
    load failing path fs = read failing (lookup path fs)

    -- `_flush` is the call of `json.dumps` and then of `atomic_write`. The result has the files at
    -- its end and those that a crash before it would leave.
    unfoldable pub write_text :
        Faults → String → String → Option Text → Files → Reply × Files × List Files
    write_text faults tmp path none fs = (not_json, fs, fs ∷ [])
    write_text faults tmp path (some t) fs =
        let r = atomic_write faults true false tmp path (encode t) fs in
        (reply_of r.result, r.files, r.trace)

    unfoldable pub flush : Faults → String → String → Dict V → Files → Reply × Files × List Files
    unfolding write_text
    flush faults tmp path d fs = write_text faults tmp path (dumps d) fs

    unfoldable pub mark_done_file :
        Faults → String → String → String → V → Dict V → Files → Reply × Dict V × Files × List Files
    unfolding flush
    mark_done_file faults tmp path key result d fs =
        let d' = insert key result d in
        let (reply, fs', trace) = flush faults tmp path d' fs in
        if contains key d then (returned false, d, fs, fs ∷ []) else (reply, d', fs', trace)
