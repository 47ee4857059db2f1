-- ===== src/Athena/Client/Keeps.antt =====
-- What stays true of the world while `execute` runs, as the calls of the boto3 client keep it.
use cubiczan_resilience.Base.{ℕ, zero, suc, ◌+◌, Bool, true, false, List, arith}
use cubiczan_resilience.Text.{Text}
use cubiczan_resilience.Athena.{
  Attempt, value, raises, Waited, succeeded, query_error, timeout_error, api_error, no_fuel,
  terminal_states, poll, wait,
}
use cubiczan_resilience.Athena.Client.{
  Api, Client, Options, Request, request, start, fetch_rows, max_wait, rows_if, after_wait,
  after_start, execute,
}

module _ {W S : Type 0} (time_fn : W → ℕ × W) (sleep_fn : ℕ → W → W) (state_of : S → Text)
    (fetch_state : W → Attempt S × W) (Inv : W → Type 0)
    (time-Inv : (w : W) → Inv w → Inv (time_fn w).1)
    (sleep-Inv : (d : ℕ) (w : W) → Inv w → Inv (sleep_fn d w))
    (fetch-Inv : (w : W) → Inv w → Inv (fetch_state w).1) where
  pub poll-Inv :
      (fuel : ℕ) (states : List Text) (deadline interval : ℕ) (w : W)
      → Inv w
      → Inv (poll time_fn sleep_fn state_of fetch_state fuel states deadline interval w).1
  unfolding poll
  poll-Inv zero states deadline interval w h = h
  poll-Inv (suc fuel) states deadline interval w h =
      let fetched = fetch-Inv w h in
      let timed = time-Inv _ fetched in
      let rest = poll-Inv fuel states deadline interval _ (sleep-Inv interval _ timed) in
      ground (arith, fetched, timed, rest)

-- `Inv` holds of the world after each call but a start that `Ok` does not allow.
pub record Keeps {W : Type 0} (api : Api W) (Ok : Request → Type 0) (Inv : W → Type 0)
    : Type 0 where
  pub at_start : (r : Request) (w : W) → Ok r → Inv w → Inv (api.start_query_execution r w).1
  pub at_status : (qid : Text) (w : W) → Inv w → Inv (api.get_query_execution qid w).1
  pub at_results : (qid : Text) (n : ℕ) (w : W) → Inv w → Inv (api.get_query_results qid n w).1
  pub at_monotonic : (w : W) → Inv w → Inv (api.monotonic w).1
  pub at_sleep : (d : ℕ) (w : W) → Inv w → Inv (api.sleep d w)

module _ {W : Type 0} (api : Api W) (c : Client) (Ok : Request → Type 0) (Inv : W → Type 0)
    (keeps : Keeps api Ok Inv) (o : Options) where
  rows_if-Inv : (qid : Text) (f : Bool) (w : W) → Inv w → Inv (rows_if api c o qid f w).1
  unfolding fetch_rows
  rows_if-Inv qid true w h = keeps.at_results qid o.max_results w h
  rows_if-Inv qid false w h = h

  after_wait-Inv :
      (qid : Text) (waited : Waited) (w : W) → Inv w → Inv (after_wait api c o qid waited w).1
  after_wait-Inv qid succeeded w h = rows_if-Inv qid o.fetch w h
  after_wait-Inv qid (query_error s) w h = h
  after_wait-Inv qid timeout_error w h = h
  after_wait-Inv qid (api_error e) w h = h
  after_wait-Inv qid no_fuel w h = h

  after_start-Inv : (r : Attempt Text) (w : W) → Inv w → Inv (after_start api c o r w).1
  unfolding wait
  after_start-Inv (raises e) w h = h
  after_start-Inv (value qid) w h = after_wait-Inv qid _ _ (
      poll-Inv api.monotonic api.sleep (λ s. s.state) (api.get_query_execution qid) Inv
        keeps.at_monotonic keeps.at_sleep (keeps.at_status qid) (max_wait api c o + 2)
        terminal_states _ c.poll_interval _ (keeps.at_monotonic w h))

  -- What `execute` asks Athena to start is the one request for its query; an invariant that all other
  -- calls keep, and that this request keeps, holds after it.
  pub execute-Inv :
      (query : Text) (w : W)
      → Ok (request c query o.output_location o.parameters)
      → Inv w
      → Inv (execute api c query o w).1
  unfolding execute start
  execute-Inv query w ok h = after_start-Inv _ _ (keeps.at_start _ w ok h)
