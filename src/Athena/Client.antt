-- ===== src/Athena/Client.antt =====
-- `SafeAthenaClient` of scope-core/src/scope_core/athena.py: `start`, `fetch_rows` and `execute`. The
-- calls of the boto3 client, the clock and the sleep are an `Api` over a world `W`.
pub mod Rows
pub mod Execution
pub mod Keeps
use cubiczan_resilience.Base.{
  ℕ, ◌+◌, String, Bool, true, false, Option, none, some, List, [], ◌∷◌, ◌++◌, map,
}
use cubiczan_resilience.Text.{Text, codes}
use cubiczan_resilience.Dict.{Dict, insert}
use cubiczan_resilience.Athena.{
  Attempt, value, raises, Status, Waited, succeeded, query_error, timeout_error, api_error, no_fuel,
  wait,
}

-- The arguments of `start_query_execution`; `execution_parameters` is `none` where the call has none.
pub record Request : Type 0 where
  pub query_string : Text
  pub database : Text
  pub output_location : Text
  pub execution_parameters : Option (List Text)

-- A row of `get_query_results`: the `VarCharValue`s of its `Data`. What is `none` is a missing key.
pub record RawRow : Type 0 where
  pub cells : Option (List (Option String))

pub record ResultSet : Type 0 where
  pub rows : Option (List RawRow)

-- A row of a result, a dict from the names of the columns to their values.
abbrev pub Row : Type 0
Row = Dict (Option String)

-- The boto3 client, the clock and the sleep; `show_seconds` is how a message writes a time.
pub record Api (W : Type 0) : Type 0 where
  pub start_query_execution : Request → W → Attempt Text × W
  pub get_query_execution : Text → W → Attempt Status × W
  pub get_query_results : Text → ℕ → W → Attempt (Option ResultSet) × W
  pub monotonic : W → ℕ × W
  pub sleep : ℕ → W → W
  pub show_seconds : ℕ → Text

pub record Client : Type 0 where
  pub database : Text
  pub output_location : Text
  pub poll_timeout : ℕ
  pub poll_interval : ℕ

-- The keyword arguments of `execute`.
pub record Options : Type 0 where
  pub parameters : Option (List Text)
  pub output_location : Option Text
  pub fetch : Bool
  pub timeout : Option ℕ
  pub max_results : ℕ

abbrev pub default_options : Options
default_options = record {
  parameters = none;
  output_location = none;
  fetch = true;
  timeout = none;
  max_results = 1000;
}

pub record Executed : Type 0 where
  pub query_execution_id : Text
  pub state : Text
  pub rows : Option (List Row)

-- `given or default`, where an empty text is no text.
abbrev pub or_default : Option Text → Text → Text
or_default none d = d
or_default (some []) d = d
or_default (some (c ∷ s)) d = c ∷ s

-- `if parameters`.
abbrev pub if_any : Option (List Text) → Option (List Text)
if_any none = none
if_any (some []) = none
if_any (some (p ∷ ps)) = some (p ∷ ps)

-- The keyword arguments that `start` builds.
unfoldable pub request : Client → Text → Option Text → Option (List Text) → Request
request c query output_location parameters = record {
  query_string = query;
  database = c.database;
  output_location = or_default output_location c.output_location;
  execution_parameters = if_any parameters;
}

abbrev pub or_no_list {ℓ} : {A : Type ℓ} → Option (List A) → List A
or_no_list none = []
or_no_list (some xs) = xs

-- `result.get("ResultSet", {}).get("Rows", [])`.
abbrev pub raw_rows_of : Option ResultSet → List RawRow
raw_rows_of none = []
raw_rows_of (some s) = or_no_list s.rows

abbrev or_empty : Option String → String
or_empty none = ""
or_empty (some s) = s

abbrev pub header_of : RawRow → List String
header_of raw = map or_empty (or_no_list raw.cells)

-- `dict(zip(header, cells))`, on top of the pairs before.
unfoldable pub zip_into : Row → List String → List (Option String) → Row
zip_into d [] cells = d
zip_into d (k ∷ ks) [] = d
zip_into d (k ∷ ks) (v ∷ vs) = zip_into (insert k v d) ks vs

unfoldable pub row_of : List String → RawRow → Row
row_of header raw = zip_into [] header (or_no_list raw.cells)

-- What `fetch_rows` makes of the raw rows.
unfoldable pub rows_of : List RawRow → List Row
rows_of [] = []
rows_of (head ∷ raws) = map (row_of (header_of head)) raws

abbrev pub or_no_reason : Option Text → Text
or_no_reason none = codes "no reason given"
or_no_reason (some r) = r

module _ {W : Type 0} (api : Api W) (c : Client) where
  unfoldable pub start : Text → Option Text → Option (List Text) → W → Attempt Text × W
  start query output_location parameters w =
      api.start_query_execution (request c query output_location parameters) w

  abbrev pub tabulated : Attempt (Option ResultSet) → Attempt (List Row)
  tabulated (raises e) = raises e
  tabulated (value r) = value (rows_of (raw_rows_of r))

  unfoldable pub fetch_rows : Text → ℕ → W → Attempt (List Row) × W
  fetch_rows qid max_results w =
      let (r, w') = api.get_query_results qid max_results w in (tabulated r, w')

  abbrev pub max_wait : Options → ℕ
  max_wait o = elim o.timeout [ none ↦ c.poll_timeout | some t ↦ t ]

  abbrev pub query_error_text : Text → Status → Text
  query_error_text qid s =
      codes "Athena query "
      ++ (qid ++ (codes " " ++ (s.state ++ (codes ": " ++ or_no_reason s.reason))))

  abbrev pub timeout_text : Text → ℕ → Text
  timeout_text qid t =
      codes "Athena query "
      ++ (qid ++ (codes " did not finish within " ++ (api.show_seconds t ++ codes "s")))

  abbrev pub executed : Text → Attempt (List Row) → Attempt Executed
  executed qid (raises e) = raises e
  executed qid (value rows) =
      value (record { query_execution_id = qid; state = codes "SUCCEEDED"; rows = some rows })

  -- `self.fetch_rows(...) if fetch else None`, and the result.
  abbrev pub rows_if : Options → Text → Bool → W → Option (Attempt Executed) × W
  rows_if o qid true w =
      let (rows, w') = fetch_rows qid o.max_results w in (some (executed qid rows), w')
  rows_if o qid false w = (
    some (value (record { query_execution_id = qid; state = codes "SUCCEEDED"; rows = none })),
    w,
  )

  -- What stands below the wait in `execute`; `none` is a wait whose fuel is spent.
  abbrev pub after_wait : Options → Text → Waited → W → Option (Attempt Executed) × W
  after_wait o qid succeeded w = rows_if o qid o.fetch w
  after_wait o qid (query_error s) w = (some (raises (query_error_text qid s)), w)
  after_wait o qid timeout_error w = (some (raises (timeout_text qid (max_wait o))), w)
  after_wait o qid (api_error e) w = (some (raises e), w)
  after_wait o qid no_fuel w = (none, w)

  -- What stands below the start in `execute`.
  abbrev pub after_start : Options → Attempt Text → W → Option (Attempt Executed) × W
  after_start o (raises e) w = (some (raises e), w)
  after_start o (value qid) w =
      let (waited, w') =
        wait api.monotonic api.sleep (api.get_query_execution qid) (max_wait o + 2) (max_wait o)
          c.poll_interval w in
      after_wait o qid waited w'

  unfoldable pub execute : Text → Options → W → Option (Attempt Executed) × W
  unfolding start fetch_rows
  execute query o w =
      let (r, w') = start query o.output_location o.parameters w in after_start o r w'
