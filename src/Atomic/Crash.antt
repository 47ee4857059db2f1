-- ===== src/Atomic/Crash.antt =====
-- What a reader finds after `atomic_write`, and after a crash in the midst of it.
use cubiczan_resilience.Base.{
  take, ◌≡◌, ◌⊎◌, inl, inr, refl, String, str_eq, eq_iff, Bool, true, false, none, some, List, [],
  ◌∷◌, All, arith, if◌then◌else◌,
}
use cubiczan_resilience.Dict.{lookup, insert, erase, lookup-insert, lookup-erase}
use cubiczan_resilience.Atomic.{
  Bytes, Files, Unlink, gone, missing, forbidden, Faults, Step, Result, done, raised, Run,
  at_replace, at_chmod, at_fsync, at_write, unlinked, cleanup, finish, set_mode, sync, fill,
  atomic_write,
}

module _ (tmp dest : String) (payload : Bytes) (fs : Files) where
  -- The destination holds what it held before or the whole payload, and the other files, but for
  -- the temporary one, are as before.
  abbrev pub IsIntact : Files → Type 0
  IsIntact gs =
      ((lookup dest gs ≡ lookup dest fs) ⊎ (lookup dest gs ≡ some payload))
      × ((p : String) → str_eq tmp p ≡ false → str_eq dest p ≡ false → lookup p gs ≡ lookup p fs)

  -- The destination and the other files are as before.
  abbrev pub IsUntouched : Files → Type 0
  IsUntouched gs = (p : String) → str_eq tmp p ≡ false → lookup p gs ≡ lookup p fs

  module _ (apart : str_eq tmp dest ≡ false) where
    IsUntouched-insert : (gs : Files) (bs : Bytes) → IsUntouched gs → IsUntouched (insert tmp bs gs)
    IsUntouched-insert gs bs h p ne = rw (lookup-insert tmp p bs gs, ne) (h p ne)

    IsUntouched-erase : (gs : Files) → IsUntouched gs → IsUntouched (erase tmp gs)
    IsUntouched-erase gs h p ne = rw (lookup-erase tmp p gs, ne) (h p ne)

    IsIntact-untouched : (gs : Files) → IsUntouched gs → IsIntact gs
    IsIntact-untouched gs h = (inl (h dest apart), λ p ne _. h p ne)

    -- What is said of a run: it is done, the payload is in place and the temporary file gone; or it
    -- raised, and everything but the temporary file is as before.
    abbrev pub Ends : Result → Files → Type 0
    Ends done gs = (lookup dest gs ≡ some payload) × (lookup tmp gs ≡ none)
    Ends (raised _) gs = IsUntouched gs

    abbrev pub Safe : Run → Type 0
    Safe r = Ends r.result r.files × All IsIntact r.trace

    if-Safe : (b : Bool) (x y : Run) → Safe x → Safe y → Safe (if b then x else y)
    if-Safe true x y hx hy = hx
    if-Safe false x y hx hy = hy

    unlinked-Safe :
        (u : Unlink) (e : Step) (gs : Files) (trace : List Files)
        → IsUntouched gs
        → All IsIntact trace
        → Safe (unlinked u tmp e gs trace)
    unfolding unlinked
    unlinked-Safe gone e gs trace h t =
        let h' = IsUntouched-erase gs h in (h', (IsIntact-untouched (erase tmp gs) h', t))
    unlinked-Safe missing e gs trace h t = (h, t)
    unlinked-Safe forbidden e gs trace h t = (h, t)

    cleanup-Safe :
        (faults : Faults) (e : Step) (gs : Files) (trace : List Files)
        → IsUntouched gs
        → All IsIntact trace
        → Safe (cleanup faults tmp e gs trace)
    unfolding cleanup
    cleanup-Safe faults e gs trace h t = unlinked-Safe faults.unlink e gs trace h t

    -- The state that `os.replace` makes.
    replaced-IsIntact :
        (gs : Files) → IsUntouched gs → IsIntact (insert dest payload (erase tmp gs))
    replaced-IsIntact gs h = (inr replaced-dest, others)
      where
        replaced-dest : lookup dest (insert dest payload (erase tmp gs)) ≡ some payload
        replaced-dest =
            ground (arith, lookup-insert dest dest payload (erase tmp gs), eq_iff dest dest)

        others :
            (p : String)
            → str_eq tmp p ≡ false
            → str_eq dest p ≡ false
            → lookup p (insert dest payload (erase tmp gs)) ≡ lookup p fs
        others p ne ne' =
            ground (arith, lookup-insert dest p payload (erase tmp gs), IsUntouched-erase gs h p ne)

    replaced-Ends : (gs : Files) → Ends done (insert dest payload (erase tmp gs))
    replaced-Ends gs = (
      ground (arith, lookup-insert dest dest payload (erase tmp gs), eq_iff dest dest),
      ground (
        arith,
        lookup-insert dest tmp payload (erase tmp gs),
        lookup-erase tmp tmp gs,
        eq_iff dest tmp,
        eq_iff tmp dest,
        eq_iff tmp tmp,
      ),
    )

    module _ (faults : Faults) (gs : Files) (trace : List Files) (h : IsUntouched gs)
        (t : All IsIntact trace) where
      finish-Safe : Safe (finish faults tmp dest payload gs trace)
      unfolding finish
      finish-Safe =
          if-Safe faults.replace _ _ (cleanup-Safe faults at_replace gs trace h t)
            (replaced-Ends gs, (replaced-IsIntact gs h, t))

      set_mode-Safe : (has_mode : Bool) → Safe (set_mode faults has_mode tmp dest payload gs trace)
      unfolding set_mode
      set_mode-Safe has_mode =
          if-Safe has_mode _ _
            (if-Safe faults.chmod _ _ (cleanup-Safe faults at_chmod gs trace h t) finish-Safe)
            finish-Safe

      sync-Safe :
          (fsync has_mode : Bool) → Safe (sync faults fsync has_mode tmp dest payload gs trace)
      unfolding sync
      sync-Safe fsync has_mode =
          if-Safe fsync _ _
            (if-Safe faults.fsync _ _ (cleanup-Safe faults at_fsync gs trace h t)
              (set_mode-Safe has_mode))
            (set_mode-Safe has_mode)

    fill-Safe :
        (faults : Faults) (fsync has_mode : Bool) (gs : Files) (trace : List Files)
        → IsUntouched gs
        → All IsIntact trace
        → Safe (fill faults fsync has_mode tmp dest payload gs trace)
    unfolding fill
    fill-Safe faults fsync has_mode gs trace h t =
        let partial = insert tmp (take faults.written payload) gs in
        let full = insert tmp payload gs in
        let hp = IsUntouched-insert gs (take faults.written payload) h in
        let hf = IsUntouched-insert gs payload h in
        let tp : All IsIntact (partial ∷ trace) = (IsIntact-untouched partial hp, t) in
        if-Safe faults.write _ _ (cleanup-Safe faults at_write partial (partial ∷ trace) hp tp) (
          sync-Safe faults full (full ∷ partial ∷ trace) hf (IsIntact-untouched full hf, tp) fsync
            has_mode)

    -- Whichever calls fail, `atomic_write` keeps its promise, provided that `mkstemp` has made a
    -- name other than the destination's. If it returns, the destination holds the whole payload and
    -- the temporary file is gone; if it raises, the destination and all other files hold what they
    -- held before. At every moment between its system calls, and so after a crash, the destination
    -- holds what it held before or the whole payload, and every file but these two is as before.
    pub atomic_write-Safe :
        (faults : Faults) (fsync has_mode : Bool)
        → Safe (atomic_write faults fsync has_mode tmp dest payload fs)
    unfolding atomic_write
    atomic_write-Safe faults fsync has_mode =
        let same : IsUntouched fs = λ p ne. refl in
        let intact : IsIntact fs = IsIntact-untouched fs same in
        let started = IsUntouched-insert fs [] same in
        if-Safe faults.mkdir _ _ (same, (intact, tt))
          (if-Safe faults.encode _ _ (same, (intact, tt))
            (if-Safe faults.mkstemp _ _ (same, (intact, tt))
              (fill-Safe faults fsync has_mode (insert tmp [] fs) (insert tmp [] fs ∷ fs ∷ [])
                started (IsIntact-untouched (insert tmp [] fs) started, (intact, tt)))))
