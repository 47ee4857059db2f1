-- ===== src/Handlers.antt =====
-- `BaseAnalysisHandler` of scope-core/src/scope_core/handlers.py. What a subclass and the client
-- supply, `build_query` and `execute`, are parameters over a world `W`.
pub mod Entities
pub mod Analysis
pub mod Requests
pub mod Ingestion
mod Tests
use cubiczan_resilience.Base.{Option, none, some, List, [], ◌∷◌}
use cubiczan_resilience.Text.{Text}
use cubiczan_resilience.Athena.{Attempt, value, raises, validate_in_allowlist}
use cubiczan_resilience.Athena.Client.{Executed, Row}

pub record Query : Type 0 where
  pub sql : Text
  pub parameters : List Text

-- An entry of the results.
pub data Entry : Type 0 where
  completed : Text → Text → Option (List Row) → Entry
  error : Text → Text → Entry

-- `disallowed` is the text of the `IdentifierError` for an entity, in which its `repr` stands.
module _ {W : Type 0} (allowlist : List Text) (disallowed : Text → Text)
    (build_query : Text → Attempt Query) (execute : Query → W → Attempt Executed × W) where
  abbrev pub entry_of : Text → Attempt Executed → Attempt Entry
  entry_of entity (raises e) = raises e
  entry_of entity (value r) = value (completed entity r.query_execution_id r.rows)

  abbrev pub run_query : Text → Attempt Query → W → Attempt Entry × W
  run_query entity (raises e) w = (raises e, w)
  run_query entity (value q) w = let (r, w') = execute q w in (entry_of entity r, w')

  abbrev pub query_validated : Text → Option Text → W → Attempt Entry × W
  query_validated entity none w = (raises (disallowed entity), w)
  query_validated entity (some _) w = run_query entity (build_query entity) w

  unfoldable pub analyze_entity : Text → W → Attempt Entry × W
  analyze_entity entity w = query_validated entity (validate_in_allowlist entity allowlist) w

  -- The `try` statement of `analyze`.
  abbrev pub isolated : Text → Attempt Entry → Entry
  isolated entity (value entry) = entry
  isolated entity (raises e) = error entity e

  unfoldable pub analyze : List Text → W → List Entry × W
  analyze [] w = ([], w)
  analyze (entity ∷ entities) w =
      let (a, w₁) = analyze_entity entity w in
      let (entries, w₂) = analyze entities w₁ in (isolated entity a ∷ entries, w₂)
