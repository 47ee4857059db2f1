-- ===== src/Handlers/Requests.antt =====
-- What an analysis asks Athena to start.
use cubiczan_resilience.Base.{◌≡◌, refl, inl, inr, Bool-cases, none, some, List, [], ◌∷◌, any}
use cubiczan_resilience.Text.{Text, text_eq}
use cubiczan_resilience.Athena.{Attempt, value, raises, validate_in_allowlist}
use cubiczan_resilience.Athena.Client.{Api, Client, Request, request}
use cubiczan_resilience.Athena.Client.Keeps.{Keeps, execute-Inv}
use cubiczan_resilience.Handlers.{Query, run_query, analyze_entity, analyze}
use cubiczan_resilience.Handlers.Analysis.{query_options, run, IsMember}

module _ {W : Type 0} (api : Api W) (c : Client) (allowlist : List Text) (disallowed : Text → Text)
    (build_query : Text → Attempt Query) where
  -- The request is for a query that was built for an entity of the allowlist: its SQL is the query
  -- string as it is, and its parameters are bound apart from it.
  abbrev pub IsAllowed : Request → Type 0
  IsAllowed r =
      (entity : Text) × (q : Query) × IsMember api c allowlist disallowed build_query entity
      × (build_query entity ≡ value q)
      × (r ≡ request c q.sql none (some q.parameters))

  module _ (Inv : W → Type 0) (keeps : Keeps api IsAllowed Inv) where
    run-Inv :
        (entity : Text) (q : Query) (w : W)
        → IsMember api c allowlist disallowed build_query entity
        → build_query entity ≡ value q
        → Inv w
        → Inv (run api c q w).1
    unfolding run
    run-Inv entity q w member built h =
        execute-Inv api c IsAllowed Inv keeps (query_options q) q.sql w
          (entity, q, member, built, refl) h

    run_query-Inv :
        (entity : Text) (a : Attempt Query) (w : W)
        → IsMember api c allowlist disallowed build_query entity
        → build_query entity ≡ a
        → Inv w
        → Inv (run_query allowlist disallowed build_query (run api c) entity a w).1
    run_query-Inv entity (raises e) w member built h = h
    run_query-Inv entity (value q) w member built h = run-Inv entity q w member built h

    analyze_entity-Inv :
        (entity : Text) (w : W)
        → Inv w
        → Inv (analyze_entity allowlist disallowed build_query (run api c) entity w).1
    unfolding analyze_entity validate_in_allowlist
    analyze_entity-Inv entity w h = elim (Bool-cases (any (text_eq entity) allowlist)) [
      | inl member ↦ rw member (run_query-Inv entity (build_query entity) w member refl h)
      | inr stranger ↦ rw stranger h
    ]

    -- Whatever holds of the world and is kept by every call of the client but a start, and by a start
    -- whose request was built for an entity of the allowlist, holds after an analysis of any
    -- entities. So an analysis starts no other request: the SQL is that of `build_query` for a member
    -- of the allowlist, unchanged, and the parameters are bound apart from it.
    pub analyze-Inv :
        (entities : List Text) (w : W)
        → Inv w
        → Inv (analyze allowlist disallowed build_query (run api c) entities w).1
    unfolding analyze
    analyze-Inv [] w h = h
    analyze-Inv (entity ∷ entities) w h =
        let (_, w') = analyze_entity allowlist disallowed build_query (run api c) entity w in
        analyze-Inv entities w' (analyze_entity-Inv entity w h)
