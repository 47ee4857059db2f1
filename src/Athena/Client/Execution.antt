-- ===== src/Athena/Client/Execution.antt =====
-- What `execute` returns and raises, by what the calls of the boto3 client answered.
use cubiczan_resilience.Base.{
  ℕ, ◌≤◌, ◌<◌, ◌≡◌, refl, sym, ◌⊎◌, Bool, true, false, Option, none, some, List, any,
}
use cubiczan_resilience.Text.{Text, codes, text_eq}
use cubiczan_resilience.Athena.{
  Attempt, value, raises, Status, Waited, succeeded, query_error, timeout_error, api_error, no_fuel,
  terminal_states,
}
use cubiczan_resilience.Athena.Polling.{Lasts}
use cubiczan_resilience.Athena.Waiting.{Reports, wait-Reports}
use cubiczan_resilience.Athena.Client.{
  Api, Client, Options, Executed, ResultSet, Row, raw_rows_of, rows_of, start, fetch_rows, max_wait,
  query_error_text, timeout_text, tabulated, executed, rows_if, after_wait, after_start, execute,
}

module _ {W : Type 0} (api : Api W) (c : Client) (query : Text) (o : Options) (w : W) where
  -- Athena gave the query this id.
  abbrev pub IsId : Text → Type 0
  IsId qid = (start api c query o.output_location o.parameters w).0 ≡ value qid

  -- Why `execute` raises an exception with the text `e`.
  pub data Cause (e : Text) : Type 0 where
    not_started : (start api c query o.output_location o.parameters w).0 ≡ raises e → Cause e
    unsuccessful :
        {qid : Text} {s : Status} (w' : W)
        → IsId qid
        → (api.get_query_execution qid w').0 ≡ value s
        → (s.state ≡ codes "FAILED") ⊎ (s.state ≡ codes "CANCELLED")
        → e ≡ query_error_text api c qid s
        → Cause e
    too_late :
        {qid : Text} {s : Status} (w' : W)
        → IsId qid
        → (api.get_query_execution qid w').0 ≡ value s
        → any (text_eq s.state) terminal_states ≡ false
        → e ≡ timeout_text api c qid (max_wait api c o)
        → Cause e
    status_raised :
        {qid : Text} (w' : W) → IsId qid → (api.get_query_execution qid w').0 ≡ raises e → Cause e
    rows_raised :
        {qid : Text} (w' : W)
        → IsId qid
        → o.fetch ≡ true
        → (api.get_query_results qid o.max_results w').0 ≡ raises e
        → Cause e

  -- The rows of a result: none if none are asked for, or those of the query's results.
  abbrev pub HasRows : Text → Option (List Row) → Type 0
  HasRows qid none = o.fetch ≡ false
  HasRows qid (some rows) =
      (o.fetch ≡ true)
      × ((w' : W) × (r : Option ResultSet) × ((api.get_query_results qid o.max_results w').0
            ≡ value r)
          × (rows ≡ rows_of (raw_rows_of r)))

  abbrev pub Executes : Option (Attempt Executed) → Type 0
  Executes none = ⊥
  Executes (some (raises e)) = Cause e
  Executes (some (value x)) =
      IsId x.query_execution_id
      × ((w' : W) × (s : Status) × ((api.get_query_execution x.query_execution_id w').0 ≡ value s)
          × (s.state ≡ codes "SUCCEEDED")
          × (x.state ≡ s.state))
      × HasRows x.query_execution_id x.rows

  fetched-Executes :
      (qid : Text) (w' w'' : W) (s : Status) (r : Attempt (Option ResultSet))
      → IsId qid
      → (api.get_query_execution qid w').0 ≡ value s
      → s.state ≡ codes "SUCCEEDED"
      → o.fetch ≡ true
      → (api.get_query_results qid o.max_results w'').0 ≡ r
      → Executes (some (executed api c qid (tabulated api c r)))
  fetched-Executes qid w' w'' s (raises e) id found state f h = rows_raised w'' id f h
  fetched-Executes qid w' w'' s (value r) id found state f h =
      (id, (w', s, found, state, sym state), (f, (w'', r, h, refl)))

  rows_if-Executes :
      (qid : Text) (w' w'' : W) (s : Status) (f : Bool)
      → IsId qid
      → (api.get_query_execution qid w').0 ≡ value s
      → s.state ≡ codes "SUCCEEDED"
      → o.fetch ≡ f
      → Executes (rows_if api c o qid f w'').0
  unfolding fetch_rows
  rows_if-Executes qid w' w'' s true id found state h =
      fetched-Executes qid w' w'' s _ id found state h refl
  rows_if-Executes qid w' w'' s false id found state h = (id, (w', s, found, state, sym state), h)

  after_wait-Executes :
      (qid : Text) (deadline : ℕ) (waited : Waited) (w' w'' : W)
      → IsId qid
      → Reports api.monotonic api.sleep (api.get_query_execution qid) deadline waited w'
      → Executes (after_wait api c o qid waited w'').0
  after_wait-Executes qid d succeeded w' w'' id (s, found, state) =
      rows_if-Executes qid w' w'' s o.fetch id found state refl
  after_wait-Executes qid d (query_error s) w' w'' id (found, state) =
      unsuccessful w' id found state refl
  after_wait-Executes qid d timeout_error w' w'' id (late, (s, found, t)) =
      too_late w' id found t refl
  after_wait-Executes qid d (api_error e) w' w'' id found = status_raised w' id found
  after_wait-Executes qid d no_fuel w' w'' id found = absurd found

  after_start-Executes :
      (time : W → ℕ)
      → Lasts api.monotonic api.sleep time
      → ((qid : Text) (w' : W) → time w' ≤ time (api.get_query_execution qid w').1)
      → 0 < c.poll_interval
      → (r : Attempt Text) (w' : W) → (start api c query o.output_location o.parameters w).0 ≡ r
      → Executes (after_start api c o r w').0
  after_start-Executes time lasts fetch_lasts h (raises e) w' started = not_started started
  after_start-Executes time lasts fetch_lasts h (value qid) w' started =
      let (w'', _, report) =
        wait-Reports api.monotonic api.sleep time lasts (api.get_query_execution qid)
          (fetch_lasts qid) (max_wait api c o) c.poll_interval w' h in
      after_wait-Executes qid _ _ w'' _ started report

  pub execute-Executes :
      (time : W → ℕ)
      → Lasts api.monotonic api.sleep time
      → ((qid : Text) (w' : W) → time w' ≤ time (api.get_query_execution qid w').1)
      → 0 < c.poll_interval
      → Executes (execute api c query o w).0
  unfolding execute
  execute-Executes time lasts fetch_lasts h = after_start-Executes time lasts fetch_lasts h _ _ refl
