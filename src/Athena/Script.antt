-- ===== src/Athena/Script.antt =====
-- A scripted Athena for runs of the client.
use cubiczan_resilience.Base.{ℕ, ◌+◌, ◌≤◌, String, Option, none, some, List, [], ◌∷◌, arith}
use cubiczan_resilience.Text.{Text, codes}
use cubiczan_resilience.Athena.{Attempt, value, raises, Status}
use cubiczan_resilience.Athena.Polling.{Lasts}
use cubiczan_resilience.Athena.Client.{Request, RawRow, Api, Client}

-- The time, the statuses to come, and the requests that were started, the last one first.
pub record World : Type 0 where
  pub time : ℕ
  pub statuses : List Status
  pub started : List Request

abbrev pub next_status : List Status → World → Attempt Status × World
next_status [] w = (raises (codes "throttled"), w)
next_status (s ∷ ss) w = (value s, record w { statuses = ss })

abbrev pub raw : List (Option String) → RawRow
raw cells = record { cells = some cells }

abbrev pub heading : RawRow
heading = raw (some "metal" ∷ some "price" ∷ [])

-- The second row has no cell for its price.
abbrev pub priced : List RawRow
priced = raw (some "CU" ∷ some "9000" ∷ []) ∷ raw (some "NI" ∷ []) ∷ []

abbrev pub scripted : Api World
scripted = record {
  start_query_execution = λ r w. (value (codes "q"), record w { started = r ∷ w.started });
  get_query_execution = λ qid w. next_status w.statuses w;
  get_query_results = λ qid n w. (value (some (record { rows = some (heading ∷ priced) })), w);
  monotonic = λ w. (w.time, w);
  sleep = λ d w. record w { time = w.time + d };
  show_seconds = λ t. codes "5.0";
}

abbrev pub client : Client
client = record {
  database = codes "metals";
  output_location = codes "s3://out/";
  poll_timeout = 5;
  poll_interval = 2;
}

abbrev pub status : Text → Status
status s = record { state = s; reason = none }

next_status-lasts : (ss : List Status) (w : World) → w.time ≤ (next_status ss w).1.time
next_status-lasts [] w = omega arith
next_status-lasts (s ∷ ss) w = omega arith

pub get_query_execution-lasts :
    (qid : Text) (w : World) → w.time ≤ (scripted.get_query_execution qid w).1.time
get_query_execution-lasts qid w = next_status-lasts w.statuses w

pub scripted-Lasts : Lasts scripted.monotonic scripted.sleep (λ w. w.time)
scripted-Lasts = record {
  clock_shows = λ w. (omega arith, omega arith);
  sleep_lasts = λ d w. omega arith;
}

abbrev pub world : List Text → World
world [] = record { time = 100; statuses = []; started = [] }
world (s ∷ ss) = let w = world ss in record w { statuses = status s ∷ w.statuses }

abbrev pub running : World
running = world (codes "QUEUED" ∷ codes "RUNNING" ∷ codes "SUCCEEDED" ∷ [])

abbrev pub never : World
never = world (codes "QUEUED" ∷ codes "QUEUED" ∷ codes "QUEUED" ∷ codes "QUEUED" ∷ [])
