-- ===== src/Sinks/Adx.antt =====
-- mysql-internal/collector/sinks/adx.py: `AdxSink`, over an ingestion client that answers each
-- request, and that may look at those it was called with before.
pub mod Delivery
use azure_mysql_monitoring.Prelude.{
  Bool, if◌then◌else◌, ℕ, String, true, false, Option, none, some, List, [], ◌∷◌, ◌++◌, map, ◌<>◌,
}
use azure_mysql_monitoring.Prelude.Result.{Result, ok, err}
use azure_mysql_monitoring.Prelude.Text.{is_blank}
use azure_mysql_monitoring.Spool.Codec.{Row}
use azure_mysql_monitoring.Spool.Step.{then}
use azure_mysql_monitoring.Spool.Write.{max_rows, chunks}
use azure_mysql_monitoring.Upload.RoundTrip.{packed}

pub record IngestRequest : Type 0 where
  pub database : String
  pub table : String
  pub mapping : String
  -- the tag of `ingest_by_tags` and `ingest_if_not_exists`, with the reports of both outcomes
  pub tag : Option String
  pub rows : List Row

-- `ingest_from_stream`: the source id, if the result has one, or the text of the exception.
abbrev pub IngestClient : Type 0
IngestClient = List IngestRequest → IngestRequest → Result String (Option String)

pub record AdxSink : Type 0 where
  pub streaming : Bool
  pub database : String
  pub last_error : Option String
  pub last_source_ids : List String
  -- what the client was called with
  pub sent : List IngestRequest

pub data IngestionOutcome : Type 0 where
  failure success : IngestionOutcome

-- `AdxSink.__init__`
abbrev pub adx_sink : Bool → String → AdxSink
adx_sink streaming database = record {
  streaming = streaming;
  database = database;
  last_error = none;
  last_source_ids = [];
  sent = [];
}

-- The URI that the client is made of: streaming goes to the engine.
abbrev pub endpoint : Bool → String → String → (String → String) → String
endpoint true ingest_uri cluster_uri without_ingest =
    if is_blank cluster_uri then without_ingest ingest_uri else cluster_uri
endpoint false ingest_uri cluster_uri without_ingest = ingest_uri

-- `if not self.streaming and ingestion_tag`
ingestion_tag_of : Bool → Option String → Option String
ingestion_tag_of true tag = none
ingestion_tag_of false none = none
ingestion_tag_of false (some tag) = if is_blank tag then none else some tag

-- The request of a chunk.
unfoldable pub request : AdxSink → String → String → Option String → List Row → IngestRequest
unfolding ingestion_tag_of
request s table mapping tag rows = record {
  database = s.database;
  table = table;
  mapping = mapping;
  tag = ingestion_tag_of s.streaming tag;
  rows = rows;
}

with_id : List String → Option String → List String
with_id ids none = ids
with_id ids (some id) = ids ++ (id ∷ [])

-- The list of a message, where it is not empty.
message_of : Result String (List String) → List String
message_of (ok ids) = []
message_of (err message) = if is_blank message then [] else message ∷ []

-- `"; ".join(errors) if errors else None`
join_errors : List String → Option String
join_errors [] = none
join_errors (message ∷ []) = some message
join_errors (message ∷ next ∷ rest) = elim (join_errors (next ∷ rest)) [
  | none ↦ some message
  | some joined ↦ some (message <> "; " <> joined)
]

-- The last lines of `write_raw_rows`.
keep_result : Result String (List String) → AdxSink → List String × AdxSink
keep_result (ok ids) s = (ids, record s { last_error = none; last_source_ids = ids })
keep_result (err message) s = ([], record s { last_error = some message; last_source_ids = [] })

module _ (client : IngestClient) where
  -- The loop over the chunks, with the source ids and the requests that there are.
  ingest_parts :
      (List Row → IngestRequest)
      → List (List Row)
      → List String
      → List IngestRequest
      → Result String (List String) × List IngestRequest
  unfolding with_id
  ingest_parts make [] ids sent = (ok ids, sent)
  ingest_parts make (part ∷ parts) ids sent = elim (client sent (make part)) [
    | err message ↦ (err message, sent ++ (make part ∷ []))
    | ok id ↦ ingest_parts make parts (with_id ids id) (sent ++ (make part ∷ []))
  ]

  -- `_ingest`: a pair `(None, ids)` is `ok ids`, and `(str(exc), [])` is `err`.
  unfoldable pub ingest :
      List Row → String → String → Option String → AdxSink → Result String (List String) × AdxSink
  unfolding ingest_parts request chunks
  ingest [] table mapping tag s = (ok [], s)
  ingest (row ∷ rows) table mapping tag s =
      let (result, sent) =
        ingest_parts (request s table mapping tag) (chunks max_rows (row ∷ rows)) [] s.sent in
      (result, record s { sent = sent })

  -- `write_raw_rows`
  unfoldable pub write_raw_rows :
      List Row → String → String → Option String → AdxSink → List String × AdxSink
  unfolding ingest keep_result
  write_raw_rows rows table mapping tag s =
      let (result, after) = ingest rows table mapping tag s in keep_result result after

  -- `write_metrics`
  abbrev pub write_metrics : List Row → AdxSink → AdxSink
  write_metrics rows s = (write_raw_rows rows "MysqlMetrics" "MysqlMetricsMapping" none s).1

  -- `write_events`
  abbrev pub write_events : List Row → AdxSink → AdxSink
  write_events rows s = (write_raw_rows rows "MysqlEvents" "MysqlEventsMapping" none s).1

  -- `write_points`, for the packed rows and the rows of the series.
  unfoldable pub write_both : List Row → List Row → AdxSink → AdxSink
  unfolding ingest message_of join_errors
  write_both packed series s =
      let (first, s₁) = ingest packed "MysqlTelemetry" "MysqlTelemetryMapping" none s in
      let (second, s₂) = ingest series "MysqlMetricSeries" "MysqlMetricSeriesMapping" none s₁ in
      record s₂ { last_error = join_errors (message_of first ++ message_of second) }

-- `pop_ingestion_statuses`, over what the two queues answer to `pop`.
module _ {Message : Type 0} (failures successes : ℕ → Result String (List Message)) where
  poll_failed : String → AdxSink → List (IngestionOutcome × Message) × AdxSink
  poll_failed message s =
      ([], record s { last_error = some ("queued ingestion status poll failed: " <> message) })

  unfoldable pub pop_ingestion_statuses : ℕ → AdxSink → List (IngestionOutcome × Message) × AdxSink
  unfolding poll_failed
  pop_ingestion_statuses limit s = if s.streaming then ([], s) else elim (failures limit) [
    | err message ↦ poll_failed message s
    | ok failed ↦ elim (successes limit) [
      | err message ↦ poll_failed message s
      | ok succeeded ↦ (map (λ m. (failure, m)) failed ++ map (λ m. (success, m)) succeeded, s)
    ]
  ]
