-- ===== src/Handlers/Tests.antt =====
-- Analyses and ingestions at concrete inputs.
use mathlib.Core.Path.{subst}
use cubiczan_resilience.Base.{
  ◌≡◌, refl, ap, Bool, true, false, Option, none, some, List, [], ◌∷◌, ◌++◌, All, arith,
  if◌then◌else◌,
}
use cubiczan_resilience.Text.{Text, codes, text_eq}
use cubiczan_resilience.Athena.{
  Attempt, value, raises, Status, validate_in_allowlist, wait, poll, judged,
}
use cubiczan_resilience.Athena.Client.{execute, start, request}
use cubiczan_resilience.Athena.Client.Keeps.{Keeps}
use cubiczan_resilience.Athena.Script.{
  World, scripted, client, world, next_status, scripted-Lasts, get_query_execution-lasts,
}
use cubiczan_resilience.Handlers.{Query, analyze_entity, analyze}
use cubiczan_resilience.Handlers.Analysis.{run, TellsAll, analyze-Tells}
use cubiczan_resilience.Handlers.Requests.{IsAllowed, analyze-Inv}
use cubiczan_resilience.Handlers.Ingestion.{
  Put, Body, ingested, failed, handle, ingest, write_lines, write_jsonl_to_s3, write_object_to_s3,
  dump_each, join_lines,
}
use cubiczan_resilience.Handlers.Ingestion.Lines.{
  Codec, NoNewline, read_jsonl, read_jsonl-join_lines,
}
use cubiczan_resilience.Handlers.Ingestion.Responses.{Answers, handle-Answers}

abbrev metals : List Text
metals = codes "CU" ∷ codes "NI" ∷ []

abbrev refusal : Text → Text
refusal entity = codes "Disallowed metal: '" ++ entity ++ codes "'"

abbrev price_query : Text → Attempt Query
price_query entity = value (record { sql = codes "SELECT price FROM t"; parameters = entity ∷ [] })

abbrev asked : List Text
asked = codes "X'; --" ∷ codes "CU" ∷ []

abbrev succeeding : World
succeeding = world (codes "SUCCEEDED" ∷ [])

analyze-started :
    (analyze metals refusal price_query (run scripted client) asked succeeding).1.started
    ≡ record {
      query_string = codes "SELECT price FROM t";
      database = codes "metals";
      output_location = codes "s3://out/";
      execution_parameters = some (codes "CU" ∷ []);
    }
      ∷ []
unfolding analyze analyze_entity validate_in_allowlist run execute start request wait poll judged
analyze-started = refl

analyze-Tells_example :
    TellsAll scripted client metals refusal price_query asked
      (analyze metals refusal price_query (run scripted client) asked succeeding).0
analyze-Tells_example =
    analyze-Tells scripted client metals refusal price_query (λ w. w.time) scripted-Lasts
      get_query_execution-lasts (omega arith) asked succeeding

-- The log of the requests has allowed ones only.
abbrev AreAllowed : World → Type 0
AreAllowed w = All (IsAllowed scripted client metals refusal price_query) w.started

next_status-AreAllowed :
    (ss : List Status) (w : World) → AreAllowed w → AreAllowed (next_status ss w).1
next_status-AreAllowed [] w h = h
next_status-AreAllowed (s ∷ ss) w h = h

scripted-Keeps : Keeps scripted (IsAllowed scripted client metals refusal price_query) AreAllowed
scripted-Keeps = record {
  at_start = λ r w ok h. (ok, h);
  at_status = λ qid w h. next_status-AreAllowed w.statuses w h;
  at_results = λ qid n w h. h;
  at_monotonic = λ w h. h;
  at_sleep = λ d w h. h;
}

analyze-Inv_example :
    AreAllowed (analyze metals refusal price_query (run scripted client) asked succeeding).1
analyze-Inv_example =
    analyze-Inv scripted client metals refusal price_query AreAllowed scripted-Keeps asked
      succeeding tt

-- Records that are flags, and a store that keeps what is put.
abbrev dump_flag : Bool → Attempt Text
dump_flag true = value (codes "true")
dump_flag false = value (codes "false")

abbrev load_flag : Text → Option Bool
load_flag t =
    if text_eq t (codes "true")
    then some true
    else if text_eq t (codes "false")
    then some false
    else none

text_or_empty : Attempt Text → Text
text_or_empty (raises e) = []
text_or_empty (value t) = t

dump_flag-Codec : Codec dump_flag load_flag
unfolding text_or_empty
dump_flag-Codec true t h =
    subst (λ t. NoNewline t × (load_flag t ≡ some true)) (ap text_or_empty h)
      ((refl, (refl, (refl, (refl, tt)))), refl)
dump_flag-Codec false t h =
    subst (λ t. NoNewline t × (load_flag t ≡ some false)) (ap text_or_empty h)
      ((refl, (refl, (refl, (refl, (refl, tt))))), refl)

abbrev keep : Put → List Put → Attempt Unit × List Put
keep p ps = (value tt, p ∷ ps)

abbrev body_text : Body → Text
body_text (ingested n path) = path
body_text (failed e) = e

abbrev fetch_flags : List Put → Attempt (List Bool) × List Put
fetch_flags ps = (value (true ∷ false ∷ []), ps)

abbrev same_key : List Put → Attempt Text × List Put
same_key ps = (value (codes "k"), ps)

handle-puts : handle keep dump_flag body_text (codes "b") fetch_flags same_key [] ≡ (
  record { status_code = 200; body = codes "s3://b/k" },
  record {
    bucket = codes "b";
    key = codes "k";
    body = codes "true" ++ 10 ∷ codes "false";
    content_type = some (codes "application/json");
  }
      ∷ [],
)
unfolding handle ingest write_lines write_jsonl_to_s3 write_object_to_s3 dump_each join_lines
handle-puts = refl

read_jsonl-join_lines_example :
    read_jsonl dump_flag load_flag (join_lines (codes "true" ∷ codes "false" ∷ []))
    ≡ some (true ∷ false ∷ [])
unfolding dump_each
read_jsonl-join_lines_example =
    read_jsonl-join_lines dump_flag load_flag true (false ∷ []) (codes "true" ∷ codes "false" ∷ [])
      dump_flag-Codec refl

handle-Answers_example :
    (let (x, ps) = handle keep dump_flag body_text (codes "b") fetch_flags same_key [] in
      Answers keep dump_flag load_flag dump_flag-Codec body_text
        (codes "b")
        fetch_flags
        same_key
        x
        []
        ps)
handle-Answers_example =
    handle-Answers keep dump_flag load_flag dump_flag-Codec body_text (codes "b") fetch_flags
      same_key []
