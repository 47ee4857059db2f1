-- ===== src/Idempotency/Durable.antt =====
-- What a file store leaves in its file, for a store that is opened there later.
use mathlib.Core.Option.{map as map_option}
use cubiczan_resilience.Base.{
  ◌≡◌, ◌≢◌, ◌⊎◌, inl, inr, refl, ap, ◌∙◌, String, str_eq, Bool, true, false, Option, none, some,
  List, [], ◌∷◌, All, if◌then◌else◌,
}
use cubiczan_resilience.Text.{Text, is_blank}
use cubiczan_resilience.Dict.{Dict, lookup, insert, contains, contains-insert_self}
use cubiczan_resilience.Atomic.{Bytes, Files, Faults, Result, done, raised, atomic_write}
use cubiczan_resilience.Atomic.Crash.{IsIntact, Ends, atomic_write-Safe}
use cubiczan_resilience.Idempotency.{
  Loaded, object, Reply, returned, not_json, not_written, reply_of, parsed, read, load, write_text,
  flush, mark_done_file,
}

-- The `json` module and UTF-8. The hypothesis `read_back` is that the text of a dict is not blank,
-- that its bytes are decoded to it, and that it is parsed as a dict with the same keys; `reload` is
-- what a value becomes on the way, as a tuple becomes a list.
module _ {V : Type 0} (dumps : Dict V → Option Text) (loads : Text → Loaded V)
    (encode : Text → Bytes) (decode : Bytes → Option Text) (reload : V → V)
    (read_back : (d : Dict V) (t : Text)
      → dumps d ≡ some t
      → (is_blank t ≡ false)
        × (decode (encode t) ≡ some t)
        × ((e : Dict V) × (loads t ≡ object e)
            × ((k : String) → lookup k e ≡ map_option reload (lookup k d))))
    (path tmp : String) (apart : str_eq tmp path ≡ false) where
  -- A store opened on the file has the keys of `d`, with their results.
  abbrev pub Holds : Dict V → Files → Type 0
  Holds d gs =
      (e : Dict V) × (load dumps loads encode decode false path gs ≡ some e)
      × ((k : String) → lookup k e ≡ map_option reload (lookup k d))

  -- A store opened on the file is as one opened on it before.
  abbrev pub IsLost : Files → Files → Type 0
  IsLost fs gs =
      load dumps loads encode decode false path gs ≡ load dumps loads encode decode false path fs

  abbrev pub Leaves : Dict V → Files → Reply → Files → Type 0
  Leaves d fs (returned true) gs = Holds d gs
  Leaves d fs (returned false) gs = ⊥
  Leaves d fs not_json gs = IsLost fs gs
  Leaves d fs (not_written _) gs = IsLost fs gs

  load-same : (fs gs : Files) → lookup path gs ≡ lookup path fs → IsLost fs gs
  unfolding load
  load-same fs gs h = ap (read dumps loads encode decode false) h

  load-written :
      (d : Dict V) (t : Text) (gs : Files)
      → dumps d ≡ some t
      → lookup path gs ≡ some (encode t)
      → Holds d gs
  unfolding load read parsed
  load-written d t gs h l =
      let (nonblank, decoded, (e, loaded, agrees)) = read_back d t h in
      (
        e,
        ap (read dumps loads encode decode false) l ∙ (rw (decoded, nonblank, loaded) refl),
        agrees,
      )

  module _ (d : Dict V) (fs : Files) where
    abbrev Kept : Reply × Files × List Files → Type 0
    Kept (reply, gs, trace) = Leaves d fs reply gs × All (λ hs. IsLost fs hs ⊎ Holds d hs) trace

    ended-Leaves :
        (t : Text) (result : Result) (gs : Files)
        → dumps d ≡ some t
        → Ends tmp path (encode t) fs apart result gs
        → Leaves d fs (reply_of result) gs
    ended-Leaves t done gs h (there, _) = load-written d t gs h there
    ended-Leaves t (raised _) gs h same = load-same fs gs (same path apart)

    trace-Kept :
        (t : Text) (trace : List Files)
        → dumps d ≡ some t
        → All (IsIntact tmp path (encode t) fs) trace
        → All (λ hs. IsLost fs hs ⊎ Holds d hs) trace
    trace-Kept t [] h all = tt
    trace-Kept t (hs ∷ trace) h ((inl same, _), all) =
        (inl (load-same fs hs same), trace-Kept t trace h all)
    trace-Kept t (hs ∷ trace) h ((inr there, _), all) =
        (inr (load-written d t hs h there), trace-Kept t trace h all)

    write_text-Kept :
        (faults : Faults) (o : Option Text)
        → dumps d ≡ o
        → Kept (write_text dumps loads encode decode faults tmp path o fs)
    unfolding write_text
    write_text-Kept faults none h = (refl, (inl refl, tt))
    write_text-Kept faults (some t) h =
        let r = atomic_write faults true false tmp path (encode t) fs in
        let (ends, intact) = atomic_write-Safe tmp path (encode t) fs apart faults true false in
        (ended-Leaves t r.result r.files h ends, trace-Kept t r.trace h intact)

    flush-Kept : (faults : Faults) → Kept (flush dumps loads encode decode faults tmp path d fs)
    unfolding flush
    flush-Kept faults = write_text-Kept faults (dumps d) refl

  -- What is said of a call to `mark_done`: the replies, the store, the file, and the file after a
  -- crash.
  abbrev pub Marked : String → V → Dict V → Files → Reply × Dict V × Files × List Files → Type 0
  Marked key v d fs (reply, d', gs, trace) =
      (if contains key d
        then (reply ≡ returned false) × (d' ≡ d) × (gs ≡ fs)
        else (d' ≡ insert key v d) × Leaves d' fs reply gs)
      × All (λ hs. IsLost fs hs ⊎ Holds d' hs) trace

  branch-Marked :
      (key : String) (v : V) (d : Dict V) (fs : Files) (b : Bool)
      (kept : Reply × Files × List Files)
      → contains key d ≡ b
      → Kept (insert key v d) fs kept
      → Marked key v d fs
          (if b then (returned false, d, fs, fs ∷ []) else (kept.0, insert key v d, kept.1, kept.2))
  branch-Marked key v d fs true kept h k = (rw h (refl, refl, refl), (inl refl, tt))
  branch-Marked key v d fs false kept h k = (rw h (refl, k.0), k.1)

  -- A call of `mark_done` for a key that is done returns `False` and changes nothing. For another
  -- key the store gets the result, and if the call returns `True`, a store that is opened on the
  -- file has the keys of this one with their results, while if it raises, a store that is opened on
  -- the file is as one opened before the call. So is one that is opened after a crash during the
  -- call, or else it has this store's keys and results. It is assumed that the `json` module reads
  -- its own text of a dict back, with the same keys, and that the temporary file is another one.
  pub mark_done_file-Marked :
      (faults : Faults) (key : String) (v : V) (d : Dict V) (fs : Files)
      → Marked key v d fs (mark_done_file dumps loads encode decode faults tmp path key v d fs)
  unfolding mark_done_file
  mark_done_file-Marked faults key v d fs =
      branch-Marked key v d fs (contains key d)
        (flush dumps loads encode decode faults tmp path (insert key v d) fs) refl
        (flush-Kept (insert key v d) fs faults)

  Leaves-IsLost :
      (d : Dict V) (fs gs : Files) (reply : Reply)
      → Leaves d fs reply gs
      → reply ≢ returned true
      → IsLost fs gs
  Leaves-IsLost d fs gs (returned true) l ne = absurd (ne refl)
  Leaves-IsLost d fs gs (returned false) l ne = absurd l
  Leaves-IsLost d fs gs not_json l ne = l
  Leaves-IsLost d fs gs (not_written _) l ne = l

  mark_done_file-again :
      (faults : Faults) (tmp' key : String) (v : V) (d : Dict V) (gs : Files)
      → contains key d ≡ true
      → mark_done_file dumps loads encode decode faults tmp' path key v d gs
        ≡ (returned false, d, gs, gs ∷ [])
  unfolding mark_done_file
  mark_done_file-again faults tmp' key v d gs h = rw h refl

  mark_done_file-new :
      (faults : Faults) (key : String) (v : V) (d : Dict V) (fs : Files)
      → contains key d ≡ false
      → let (reply, gs, trace) =
          flush dumps loads encode decode faults tmp path (insert key v d) fs in
        mark_done_file dumps loads encode decode faults tmp path key v d fs
        ≡ (reply, insert key v d, gs, trace)
  unfolding mark_done_file
  mark_done_file-new faults key v d fs h = rw h refl

  -- If the call for a new key raises, a retry on this store returns `False` without a write, as
  -- though the work was done, and a store that is opened on the file is as one opened before the
  -- call. It is assumed that the `json` module reads its own text of a dict back, with the same
  -- keys, and that the temporary file is another one.
  pub mark_done_file-IsLost :
      (faults faults' : Faults) (tmp' key : String) (v v' : V) (d : Dict V) (fs : Files)
      → contains key d ≡ false
      → let (reply, d', gs, _) =
          mark_done_file dumps loads encode decode faults tmp path key v d fs in
        reply ≢ returned true
        → (mark_done_file dumps loads encode decode faults' tmp' path key v' d' gs
            ≡ (returned false, d', gs, gs ∷ []))
          × IsLost fs gs
  mark_done_file-IsLost faults faults' tmp' key v v' d fs h =
      rw (mark_done_file-new faults key v d fs h) (λ raised. (
        mark_done_file-again faults' tmp' key v' (insert key v d) _ (contains-insert_self key v d),
        Leaves-IsLost (insert key v d) fs _ _ (flush-Kept (insert key v d) fs faults).0 raised,
      ))
