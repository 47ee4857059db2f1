-- ===== src/Handlers/Analysis.antt =====
-- An analysis whose queries run by `SafeAthenaClient.execute`: what its entries say, and what it asks
-- Athena to start.
use cubiczan_resilience.Base.{
  ℕ, ◌≡◌, ◌<◌, ◌≤◌, refl, ◌⊎◌, inl, inr, true, false, Bool-cases, Option, none, some, List, [], ◌∷◌,
  any,
}
use cubiczan_resilience.Text.{Text, text_eq}
use cubiczan_resilience.Athena.{Attempt, value, raises, validate_in_allowlist}
use cubiczan_resilience.Athena.Polling.{Lasts}
use cubiczan_resilience.Athena.Client.{Api, Client, Options, default_options, Executed, execute}
use cubiczan_resilience.Athena.Client.Execution.{Executes, execute-Executes}
use cubiczan_resilience.Handlers.{
  Query, Entry, completed, error, entry_of, run_query, isolated, analyze_entity, analyze,
}

-- The options of `self.client.execute(query, parameters=parameters)`.
abbrev pub query_options : Query → Options
query_options q = record default_options { parameters = some q.parameters }

-- Fuel is never spent, by the theorems below, so that the text that stands for it is never seen.
abbrev unspent : Option (Attempt Executed) → Attempt Executed
unspent none = raises []
unspent (some a) = a

-- The client's `execute` for a query of the handler.
unfoldable pub run : {W : Type 0} → Api W → Client → Query → W → Attempt Executed × W
run api c q w = let (r, w') = execute api c q.sql (query_options q) w in (unspent r, w')

module _ {W : Type 0} (api : Api W) (c : Client) (allowlist : List Text) (disallowed : Text → Text)
    (build_query : Text → Attempt Query) where
  abbrev pub IsMember : Text → Type 0
  IsMember entity = any (text_eq entity) allowlist ≡ true

  -- The query of the entity ran from some world on, and its `execute` returned or raised `r`.
  abbrev pub Ran : Text → Attempt Executed → Type 0
  Ran entity r =
      (q : Query) × (w : W) × (build_query entity ≡ value q)
      × Executes api c q.sql (query_options q) w (some r)

  -- What an entry for `entity` says: it is completed with what the query of an entity of the allowlist
  -- returned, or tells the exception that ended it.
  abbrev pub Tells : Text → Entry → Type 0
  Tells entity (completed e qid rows) =
      (e ≡ entity)
      × IsMember entity
      × ((x : Executed) × Ran entity (value x) × (qid ≡ x.query_execution_id) × (rows ≡ x.rows))
  Tells entity (error e t) =
      (e ≡ entity)
      × (((any (text_eq entity) allowlist ≡ false) × (t ≡ disallowed entity))
          ⊎ (IsMember entity × ((build_query entity ≡ raises t) ⊎ Ran entity (raises t))))

  abbrev pub TellsAll : List Text → List Entry → Type 0
  TellsAll [] [] = Unit
  TellsAll (entity ∷ entities) (entry ∷ entries) = Tells entity entry × TellsAll entities entries
  TellsAll _ _ = ⊥

  module _ (time : W → ℕ) (lasts : Lasts api.monotonic api.sleep time)
      (fetch_lasts : (qid : Text) (w : W) → time w ≤ time (api.get_query_execution qid w).1)
      (positive : 0 < c.poll_interval) where
    run-Tells :
        (entity : Text) (q : Query) (w : W)
        → IsMember entity
        → build_query entity ≡ value q
        → let (r, _) = run api c q w in
          Tells entity (
            isolated allowlist disallowed build_query
              (run api c)
              entity
              (entry_of allowlist disallowed build_query (run api c) entity r))
    unfolding run
    run-Tells entity q w member built =
        told (execute api c q.sql (query_options q) w).0
          (execute-Executes api c q.sql (query_options q) w time lasts fetch_lasts positive)
      where
        told :
            (r : Option (Attempt Executed))
            → Executes api c q.sql (query_options q) w r
            → Tells entity (
                isolated allowlist disallowed build_query
                  (run api c)
                  entity
                  (entry_of allowlist disallowed build_query (run api c) entity (unspent r)))
        told none h = absurd h
        told (some (raises e)) h = (refl, inr (member, inr (q, w, built, h)))
        told (some (value x)) h = (refl, member, (x, (q, w, built, h), refl, refl))

    run_query-Tells :
        (entity : Text) (a : Attempt Query) (w : W)
        → IsMember entity
        → build_query entity ≡ a
        → let (r, _) = run_query allowlist disallowed build_query (run api c) entity a w in
          Tells entity (isolated allowlist disallowed build_query (run api c) entity r)
    run_query-Tells entity (raises e) w member built = (refl, inr (member, inl built))
    run_query-Tells entity (value q) w member built = run-Tells entity q w member built

    analyze_entity-Tells :
        (entity : Text) (w : W)
        → let (r, _) = analyze_entity allowlist disallowed build_query (run api c) entity w in
          Tells entity (isolated allowlist disallowed build_query (run api c) entity r)
    unfolding analyze_entity validate_in_allowlist
    analyze_entity-Tells entity w = elim (Bool-cases (any (text_eq entity) allowlist)) [
      | inl member ↦ rw member (run_query-Tells entity (build_query entity) w member refl)
      | inr stranger ↦ rw stranger (refl, inl (stranger, refl))
    ]

    -- On a clock that never runs back, with sleeps that last as long as they are asked to, and a
    -- positive interval between the polls, an analysis ends and returns one entry for each entity, in
    -- their order. An entry is completed only for an entity of the allowlist whose query was started
    -- and SUCCEEDED, and it has that query's id and rows. Any other entry tells the exception that
    -- ended it: the refusal of an entity that is not in the allowlist, what `build_query` raised, or
    -- why the query failed. No failure keeps the entities after it from being analyzed.
    pub analyze-Tells :
        (entities : List Text) (w : W)
        → let (entries, _) = analyze allowlist disallowed build_query (run api c) entities w in
          TellsAll entities entries
    unfolding analyze
    analyze-Tells [] w = tt
    analyze-Tells (entity ∷ entities) w =
        let (_, w') = analyze_entity allowlist disallowed build_query (run api c) entity w in
        (analyze_entity-Tells entity w, analyze-Tells entities w')
