-- ===== src/Audit/Paths/Confined.antt =====
-- What the confinement of a ledger's path accepts.
use mathlib.Core.Path.{subst}
use mathlib.Core.Option.{some-injective}
use cubiczan_resilience.Base.{
  ◌≡◌, ◌↔◌, refl, sym, ap, ◌∙◌, eq_iff, true, Bool-cases, Option, none, some, bind-some, [], ◌∷◌,
  ◌++◌, inl, inr, arith, if◌then◌else◌,
}
use cubiczan_resilience.Audit.Paths.{
  Parts, RawPath, is_relative_to, Place, below, base_of, confine_path, resolved_path, open_at,
  verify_at,
}

is_relative_to-parts :
    (p base : Parts) → is_relative_to p base ≡ true → (rest : Parts) × (p ≡ base ++ rest)
unfolding is_relative_to
is_relative_to-parts p [] h = (p, refl)
is_relative_to-parts [] (b ∷ base) h = ground arith
is_relative_to-parts (k ∷ p) (b ∷ base) h =
    let (rest, same) = is_relative_to-parts p base (ground arith) in
    (rest, ground (arith, eq_iff k b, h))

is_relative_to-append : (base rest : Parts) → is_relative_to (base ++ rest) base ≡ true
unfolding is_relative_to
is_relative_to-append [] rest = refl
is_relative_to-append (b ∷ base) rest = ground (arith, eq_iff b b, is_relative_to-append base rest)

confined :
    (found base p : Parts)
    → ((if is_relative_to found base then some found else none) ≡ some p)
      ↔ ((p ≡ found) × ((rest : Parts) × (p ≡ base ++ rest)))
confined found base p = (inside, λ (same, (rest, below)). accepted rest same below)
  where
    inside :
        (if is_relative_to found base then some found else none) ≡ some p
        → (p ≡ found) × ((rest : Parts) × (p ≡ base ++ rest))
    inside h = elim (Bool-cases (is_relative_to found base)) [
      | inl t ↦
          let (rest, below) = is_relative_to-parts found base t in
          let same : p ≡ found = ground (arith, h, t) in (same, (rest, same ∙ below))
      | inr f ↦ ground (arith, h, f)
    ]

    accepted :
        (rest : Parts)
        → p ≡ found
        → p ≡ base ++ rest
        → (if is_relative_to found base then some found else none) ≡ some p
    accepted rest same below =
        rw (ap (λ x. is_relative_to x base) (sym same ∙ below) ∙ is_relative_to-append base rest)
          (ap some (sym same))

module _ (resolve : Parts → Parts) (cwd : Parts) where
  -- `_confine_path` accepts exactly the paths that resolve, against the resolved base directory or
  -- on their own if they are absolute, to a path whose parts begin with those of that directory, and
  -- returns the resolved path. It raises `ValueError` for all others.
  pub confine_path-Inside :
      (path : RawPath) (base_dir : Option RawPath) (p : Parts)
      → let base = base_of resolve cwd base_dir in
        (confine_path resolve cwd path base_dir ≡ some p)
        ↔ ((p ≡ resolve (below resolve cwd base path)) × ((rest : Parts) × (p ≡ base ++ rest)))
  unfolding confine_path
  confine_path-Inside path base_dir p =
      let base = base_of resolve cwd base_dir in
      confined (resolve (below resolve cwd base path)) base p

  base_of-resolved :
      ((p : Parts) → resolve (resolve p) ≡ resolve p)
      → (base_dir : Option RawPath)
      → resolve (base_of resolve cwd base_dir) ≡ base_of resolve cwd base_dir
  base_of-resolved again none = again cwd
  base_of-resolved again (some b) = again (below resolve cwd cwd b)

  -- A path inside of a resolved base directory is read again.
  verify_at-inside :
      ((p : Parts) → resolve (resolve p) ≡ resolve p)
      → (p base from rest : Parts) → resolve base ≡ base
      → p ≡ resolve from
      → p ≡ resolve base ++ rest
      → verify_at resolve cwd (record { path = p; base_dir = base }) ≡ some p
  unfolding verify_at
  verify_at-inside again p base from rest fixed same inside =
      (confine_path-Inside (resolved_path resolve cwd p) (some (resolved_path resolve cwd base))
          p).1
        (same ∙ sym (again from) ∙ ap resolve (sym same), (rest, inside))

  -- If `Path.resolve` leaves a resolved path as it is, a ledger that was opened, at a path and a base
  -- directory of any kind, keeps a path inside of its base directory, and `verify` reads this path
  -- and does not refuse it.
  pub verify_at-open_at :
      ((p : Parts) → resolve (resolve p) ≡ resolve p)
      → (path : RawPath) (base_dir : Option RawPath) (l : Place)
      → open_at resolve cwd path base_dir ≡ some l
      → (verify_at resolve cwd l ≡ some l.path)
        × ((rest : Parts) × (l.path ≡ base_of resolve cwd base_dir ++ rest))
  unfolding open_at
  verify_at-open_at again path base_dir l h =
      let base = base_of resolve cwd base_dir in
      let (p, opened, placed) =
        bind-some (confine_path resolve cwd path (some (resolved_path resolve cwd base))) _ l h in
      let (same, (rest, inside)) =
        (confine_path-Inside path (some (resolved_path resolve cwd base)) p).0 opened in
      let fixed = base_of-resolved again base_dir in
      subst
        (λ l.
          (verify_at resolve cwd l ≡ some l.path)
          × ((rest : Parts) × (l.path ≡ base_of resolve cwd base_dir ++ rest)))
        (some-injective _ _ placed)
        (
          verify_at-inside again p base _ rest fixed same inside,
          (rest, inside ∙ ap (λ b. b ++ rest) fixed),
        )
