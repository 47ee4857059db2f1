-- ===== src/Athena/Tests.antt =====
-- Identifiers and waits at concrete inputs.
use cubiczan_resilience.Base.{◌+◌, ◌≡◌, ◌↔◌, refl, none, some, [], ◌∷◌, ◌++◌, arith}
use cubiczan_resilience.Text.{Text, codes}
use cubiczan_resilience.Athena.{
  matches, validate_identifier, validate_in_allowlist, raises, succeeded, timeout_error,
  terminal_states, judged, poll, wait,
}
use cubiczan_resilience.Athena.Identifiers.{Accepted, validate_identifier-Accepted}
use cubiczan_resilience.Dict.{insert}
use cubiczan_resilience.Athena.Polling.{Pending}
use cubiczan_resilience.Athena.Waiting.{Reports, wait-Reports}
use cubiczan_resilience.Athena.Client.{
  Options, default_options, header_of, zip_into, row_of, rows_of, start, execute,
}
use cubiczan_resilience.Athena.Client.Rows.{Tabulates, rows_of-Tabulates}
use cubiczan_resilience.Athena.Script.{
  World, scripted, client, world, running, never, heading, priced, scripted-Lasts,
  get_query_execution-lasts,
}

dotted : validate_identifier (codes "db.t_1") ≡ some (codes "db.t_1")
unfolding validate_identifier matches
dotted = refl

quoted : validate_identifier (codes "t'; --") ≡ none
unfolding validate_identifier matches
quoted = refl

newline_accepted : validate_identifier (codes "t" ++ 10 ∷ []) ≡ some (codes "t" ++ 10 ∷ [])
unfolding validate_identifier matches
newline_accepted = refl

unknown_refused : validate_in_allowlist (codes "GOLD") (codes "CU" ∷ codes "NI" ∷ []) ≡ none
unfolding validate_in_allowlist
unknown_refused = refl

validate_identifier-Accepted_example :
    (validate_identifier (codes "db.t") ≡ some (codes "db.t")) ↔ Accepted (codes "db.t")
validate_identifier-Accepted_example = validate_identifier-Accepted (codes "db.t")

waited :
    (wait scripted.monotonic scripted.sleep
      (scripted.get_query_execution (codes "q"))
      7
      5
      2
      running).0
    ≡ succeeded
unfolding wait poll judged
waited = refl

waited_in_vain :
    (wait scripted.monotonic scripted.sleep
      (scripted.get_query_execution (codes "q"))
      5
      3
      2
      never).0
    ≡ timeout_error
unfolding wait poll judged
waited_in_vain = refl

wait-Reports_example :
    (w : World) × Pending scripted.monotonic scripted.sleep
      (λ s. s.state)
      (scripted.get_query_execution (codes "q"))
      terminal_states
      105
      2
      running
      w
    × Reports scripted.monotonic scripted.sleep
        (scripted.get_query_execution (codes "q"))
        105
        (wait scripted.monotonic scripted.sleep
          (scripted.get_query_execution (codes "q"))
          (5 + 2)
          5
          2
          running).0
        w
wait-Reports_example =
    wait-Reports scripted.monotonic scripted.sleep (λ w. w.time) scripted-Lasts
      (scripted.get_query_execution (codes "q")) (get_query_execution-lasts (codes "q")) 5 2 running
      (omega arith)

abbrev prices : Text
prices = codes "SELECT metal, price FROM prices WHERE metal = ?"

abbrev bound : Options
bound = record default_options { parameters = some (codes "CU" ∷ []) }

rows_of-priced :
    rows_of (heading ∷ priced)
    ≡ ((("metal", some "CU") ∷ ("price", some "9000") ∷ []) ∷ (("metal", some "NI") ∷ []) ∷ [])
unfolding rows_of row_of zip_into insert
rows_of-priced = refl

execute-failed :
    (execute scripted client prices bound (world (codes "FAILED" ∷ []))).0
    ≡ some (raises (codes "Athena query q FAILED: no reason given"))
unfolding execute start wait poll judged
execute-failed = refl

rows_of-Tabulates_example : Tabulates (header_of heading) priced (rows_of (heading ∷ priced))
rows_of-Tabulates_example = rows_of-Tabulates heading priced (refl, (refl, tt))
