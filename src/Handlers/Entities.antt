-- ===== src/Handlers/Entities.antt =====
-- The queries that an analysis runs, and the entries that it returns.
use cubiczan_resilience.Base.{◌≡◌, refl, inl, inr, true, Bool-cases, List, [], ◌∷◌, any, All}
use cubiczan_resilience.Text.{Text, text_eq}
use cubiczan_resilience.Athena.{Attempt, value, raises, validate_in_allowlist}
use cubiczan_resilience.Athena.Client.{Executed}
use cubiczan_resilience.Handlers.{
  Query, Entry, completed, error, entry_of, run_query, isolated, analyze_entity, analyze,
}

module _ {W : Type 0} (allowlist : List Text) (disallowed : Text → Text)
    (build_query : Text → Attempt Query) (execute : Query → W → Attempt Executed × W) where
  -- `execute`, with a log of the queries it was called with.
  abbrev pub logged : Query → W × List Query → Attempt Executed × (W × List Query)
  logged q (w, qs) = let (r, w') = execute q w in (r, (w', q ∷ qs))

  -- The query was built for an entity of the allowlist.
  abbrev pub IsAllowed : Query → Type 0
  IsAllowed q =
      (entity : Text) × (any (text_eq entity) allowlist ≡ true) × (build_query entity ≡ value q)

  -- An entry for an entity: completed only if the allowlist has the entity.
  abbrev pub Fits : Text → Entry → Type 0
  Fits entity (completed e _ _) = (e ≡ entity) × (any (text_eq entity) allowlist ≡ true)
  Fits entity (error e _) = e ≡ entity

  abbrev pub FitsAll : List Text → List Entry → Type 0
  FitsAll [] [] = Unit
  FitsAll (entity ∷ entities) (entry ∷ entries) = Fits entity entry × FitsAll entities entries
  FitsAll _ _ = ⊥

  run_query-Fits :
      (entity : Text) (a : Attempt Query) (w : W) (qs : List Query)
      → any (text_eq entity) allowlist ≡ true
      → build_query entity ≡ a
      → All IsAllowed qs
      → let (r, (_, qs')) = run_query allowlist disallowed build_query logged entity a (w, qs) in
        Fits entity (isolated allowlist disallowed build_query logged entity r) × All IsAllowed qs'
  run_query-Fits entity (raises e) w qs allowed built h = (refl, h)
  run_query-Fits entity (value q) w qs allowed built h =
      (returned (execute q w).0, ((entity, allowed, built), h))
    where
      returned :
          (r : Attempt Executed)
          → Fits entity (
              isolated allowlist disallowed build_query logged entity
                (entry_of allowlist disallowed build_query logged entity r))
      returned (raises e) = refl
      returned (value r) = (refl, allowed)

  analyze_entity-Fits :
      (entity : Text) (w : W) (qs : List Query)
      → All IsAllowed qs
      → let (r, (_, qs')) = analyze_entity allowlist disallowed build_query logged entity (w, qs) in
        Fits entity (isolated allowlist disallowed build_query logged entity r) × All IsAllowed qs'
  unfolding analyze_entity validate_in_allowlist
  analyze_entity-Fits entity w qs h = elim (Bool-cases (any (text_eq entity) allowlist)) [
    | inl allowed ↦ rw allowed (run_query-Fits entity (build_query entity) w qs allowed refl h)
    | inr refused ↦ rw refused (refl, h)
  ]

  -- Whatever the queries do, `analyze` returns one entry for each entity, in their order, one that
  -- is completed only for an entity of the allowlist, and it runs a query only if the query was built
  -- for an entity of the allowlist.
  pub analyze-FitsAll :
      (entities : List Text) (w : W) (qs : List Query)
      → All IsAllowed qs
      → let (entries, (_, qs')) =
          analyze allowlist disallowed build_query logged entities (w, qs) in
        FitsAll entities entries × All IsAllowed qs'
  unfolding analyze
  analyze-FitsAll [] w qs h = (tt, h)
  analyze-FitsAll (entity ∷ entities) w qs h =
      let (r, (w', qs')) = analyze_entity allowlist disallowed build_query logged entity (w, qs) in
      let (fits, h') = analyze_entity-Fits entity w qs h in
      let (rest, h'') = analyze-FitsAll entities w' qs' h' in ((fits, rest), h'')
