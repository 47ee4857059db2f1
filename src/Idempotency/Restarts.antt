-- ===== src/Idempotency/Restarts.antt =====
-- A file store through failures and restarts.
use mathlib.Core.Option.{map as map_option}
use cubiczan_resilience.Base.{
  ℕ, ◌+◌, ◌≤◌, ◌≡◌, refl, ap, sym, ◌∙◌, inl, inr, String, str_eq, eq_iff, Bool, true, false, ◌&&◌,
  Bool-cases, Option, none, some, List, [], ◌∷◌, arith, if◌then◌else◌,
}
use cubiczan_resilience.Text.{Text, is_blank}
use cubiczan_resilience.Dict.{Dict, lookup, insert, contains, contains-insert_self, lookup-insert}
use cubiczan_resilience.Atomic.{Bytes, Files, Faults}
use cubiczan_resilience.Idempotency.{
  Loaded, object, Reply, returned, not_json, not_written, is_win, load, mark_done_file,
}
use cubiczan_resilience.Idempotency.Durable.{Holds, Leaves, mark_done_file-Marked}

-- What happens to a store: a call of `mark_done`, of which any system call may fail, or the process
-- ends and another opens the store.
pub data Event (V : Type 0) (path : String) : Type 0 where
  call : Faults → (tmp : String) → str_eq tmp path ≡ false → String → V → Event V path
  restart : Event V path

module _ {V : Type 0} (dumps : Dict V → Option Text) (loads : Text → Loaded V)
    (encode : Text → Bytes) (decode : Bytes → Option Text) (reload : V → V)
    (read_back : (d : Dict V) (t : Text)
      → dumps d ≡ some t
      → (is_blank t ≡ false)
        × (decode (encode t) ≡ some t)
        × ((e : Dict V) × (loads t ≡ object e)
            × ((k : String) → lookup k e ≡ map_option reload (lookup k d))))
    (path : String) where
  -- How many of the calls for a key return `True`; a store that cannot be opened has no more calls.
  unfoldable pub wins_file : String → List (Event V path) → Dict V → Files → ℕ
  wins_file key [] d fs = 0
  wins_file key (restart ∷ events) d fs = elim (load dumps loads encode decode false path fs) [
    | none ↦ 0
    | some e ↦ wins_file key events e fs
  ]
  wins_file key (call faults tmp apart k v ∷ events) d fs =
      let (reply, d', gs, _) = mark_done_file dumps loads encode decode faults tmp path k v d fs in
      let rest = wins_file key events d' gs in
      if is_win reply then (if str_eq k key then rest + 1 else rest) else rest

  -- The store has the key, and so has its file.
  abbrev Has : String → Dict V → Files → Type 0
  Has key d fs =
      (contains key d ≡ true)
      × ((e : Dict V) × (load dumps loads encode decode false path fs ≡ some e)
          × (contains key e ≡ true))

  contains-reload :
      (o p : Option V)
      → o ≡ map_option reload p
      → elim p [ none ↦ false | some _ ↦ true ] ≡ true
      → elim o [ none ↦ false | some _ ↦ true ] ≡ true
  contains-reload none none h c = c
  contains-reload none (some v) h c = ground arith
  contains-reload (some v) p h c = refl

  contains-insert :
      (key k : String) (v : V) (d : Dict V)
      → contains key d ≡ true
      → contains key (insert k v d) ≡ true
  unfolding contains
  contains-insert key k v d h = ground (arith, lookup-insert k key v d)

  Holds-contains :
      (tmp : String) (apart : str_eq tmp path ≡ false) (key : String) (d : Dict V) (gs : Files)
      → Holds dumps loads encode decode reload read_back path tmp apart d gs
      → contains key d ≡ true
      → Has key d gs
  unfolding contains
  Holds-contains tmp apart key d gs (e, loaded, agrees) c =
      (c, (e, loaded, contains-reload (lookup key e) (lookup key d) (agrees key) c))

  module _ (tmp : String) (apart : str_eq tmp path ≡ false) where
    written-Has :
        (key : String) (d : Dict V) (fs gs : Files) (reply : Reply)
        → Leaves dumps loads encode decode reload read_back path tmp apart d fs reply gs
        → contains key d ≡ true
        → (e : Dict V) → load dumps loads encode decode false path fs ≡ some e
        → contains key e ≡ true
        → Has key d gs
    written-Has key d fs gs (returned true) l c e loaded h = Holds-contains tmp apart key d gs l c
    written-Has key d fs gs (returned false) l c e loaded h = absurd l
    written-Has key d fs gs not_json l c e loaded h = (c, (e, l ∙ loaded, h))
    written-Has key d fs gs (not_written _) l c e loaded h = (c, (e, l ∙ loaded, h))

    branch-Has :
        (key k : String) (v : V) (d d' : Dict V) (fs gs : Files) (reply : Reply) (b : Bool)
        → contains k d ≡ b
        → (if b
            then (reply ≡ returned false) × (d' ≡ d) × (gs ≡ fs)
            else (d' ≡ insert k v d)
              × Leaves dumps loads encode decode reload read_back path tmp apart d' fs reply gs)
        → Has key d fs
        → Has key d' gs × ((is_win reply && str_eq k key) ≡ false)
    branch-Has key k v d d' fs gs reply true done (lost, same, still) (c, (e, loaded, h)) = (
      (
        ap (contains key) same ∙ c,
        (e, ap (load dumps loads encode decode false path) still ∙ loaded, h),
      ),
      ground (arith, lost),
    )
    branch-Has key k v d d' fs gs reply false new (inserted, left) (c, (e, loaded, h)) = (
      written-Has key d' fs gs reply left (ap (contains key) inserted ∙ contains-insert key k v d c)
          e loaded h,
      other_key (is_win reply) new c,
    )
      where
        other_key :
            (w : Bool) → contains k d ≡ false → contains key d ≡ true → (w && str_eq k key) ≡ false
        other_key w n c = ground (arith, eq_iff k key)

    won-Has :
        (key k : String) (v : V) (d d' : Dict V) (fs gs : Files) (reply : Reply) (b : Bool)
        → (if b
            then (reply ≡ returned false) × (d' ≡ d) × (gs ≡ fs)
            else (d' ≡ insert k v d)
              × Leaves dumps loads encode decode reload read_back path tmp apart d' fs reply gs)
        → is_win reply ≡ true
        → str_eq k key ≡ true
        → Has key d' gs
    won-Has key k v d d' fs gs reply true (lost, _, _) won same = ground (arith, lost)
    won-Has key k v d d' fs gs (returned true) false (inserted, left) won same =
        Holds-contains tmp apart key d' gs left (
          ap (contains key) inserted
          ∙ ap (λ j. contains j (insert k v d)) (sym ((eq_iff k key).0 same))
          ∙ contains-insert_self k v d)
    won-Has key k v d d' fs gs (returned false) false (inserted, left) won same = absurd left
    won-Has key k v d d' fs gs not_json false m won same = ground arith
    won-Has key k v d d' fs gs (not_written _) false m won same = ground arith

  call-Has :
      (faults : Faults) (tmp : String) (apart : str_eq tmp path ≡ false) (key k : String) (v : V)
      (d : Dict V) (fs : Files)
      → Has key d fs
      → let (reply, d', gs, _) =
          mark_done_file dumps loads encode decode faults tmp path k v d fs in
        Has key d' gs × ((is_win reply && str_eq k key) ≡ false)
  call-Has faults tmp apart key k v d fs has =
      branch-Has tmp apart key k v d _ fs _ _ (contains k d) refl
        (mark_done_file-Marked dumps loads encode decode reload read_back path tmp apart faults k v
          d fs).0
        has

  Has-wins :
      (key : String) (events : List (Event V path)) (d : Dict V) (fs : Files)
      → Has key d fs
      → wins_file key events d fs ≡ 0
  unfolding wins_file
  Has-wins key [] d fs has = refl
  Has-wins key (restart ∷ events) d fs (c, (e, loaded, h)) =
      ap (λ o. elim o [ none ↦ 0 | some e' ↦ wins_file key events e' fs ]) loaded
      ∙ Has-wins key events e fs (h, (e, loaded, h))
  Has-wins key (call faults tmp apart k v ∷ events) d fs has =
      let (has', lost) = call-Has faults tmp apart key k v d fs has in
      let rest = Has-wins key events _ _ has' in ground (arith, lost, rest)

  call-won :
      (faults : Faults) (tmp : String) (apart : str_eq tmp path ≡ false) (key k : String) (v : V)
      (d : Dict V) (fs : Files)
      → let (reply, d', gs, _) =
          mark_done_file dumps loads encode decode faults tmp path k v d fs in
        is_win reply ≡ true → str_eq k key ≡ true → Has key d' gs
  call-won faults tmp apart key k v d fs =
      won-Has tmp apart key k v d _ fs _ _ (contains k d)
        (mark_done_file-Marked dumps loads encode decode reload read_back path tmp apart faults k v
          d fs).0

  reopened-wins :
      (key : String) (events : List (Event V path)) (fs : Files) (o : Option (Dict V))
      → ((e : Dict V) → wins_file key events e fs ≤ 1)
      → elim o [ none ↦ 0 | some e ↦ wins_file key events e fs ] ≤ 1
  reopened-wins key events fs none h = omega arith
  reopened-wins key events fs (some e) h = h e

  -- However often the process ends and the store is opened anew, and whichever system calls fail, at
  -- most one call of `mark_done` for a key returns `True`, from any store and files on. It is assumed
  -- that the file can be read when the store is opened, that the `json` module reads its own text of
  -- a dict back, with the same keys, and that the temporary files are others.
  pub wins_file-once :
      (key : String) (events : List (Event V path)) (d : Dict V) (fs : Files)
      → wins_file key events d fs ≤ 1
  unfolding wins_file
  wins_file-once key [] d fs = omega arith
  wins_file-once key (restart ∷ events) d fs =
      reopened-wins key events fs (load dumps loads encode decode false path fs)
        (λ e. wins_file-once key events e fs)
  wins_file-once key (call faults tmp apart k v ∷ events) d fs =
      let (reply, d', gs, _) = mark_done_file dumps loads encode decode faults tmp path k v d fs in
      elim (Bool-cases (is_win reply && str_eq k key)) [
        | inl won ↦
            let has =
              call-won faults tmp apart key k v d fs (ground (arith, won)) (ground (arith, won)) in
            ground (arith, won, Has-wins key events d' gs has)
        | inr lost ↦ ground (arith, lost, wins_file-once key events d' gs)
      ]
