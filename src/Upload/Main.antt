-- ===== src/Upload/Main.antt =====
-- upload_jsonl.py: `main`, after its arguments are parsed. That the sink is closed is taken not to
-- fail.
use azure_mysql_monitoring.Prelude.{
  Bool, if◌then◌else◌, length, ℕ, String, true, false, not, ◌&&◌, Option, none, some, List,
}
use azure_mysql_monitoring.Prelude.Result.{Result, ok, err}
use azure_mysql_monitoring.Prelude.Text.{is_blank}
use azure_mysql_monitoring.Settings.{ConfigError, Environ}
use azure_mysql_monitoring.Settings.PlanSink.{plan_sink_config, require_plan_adx}
use azure_mysql_monitoring.Sinks.Adx.{IngestClient, AdxSink, adx_sink, write_raw_rows}
use azure_mysql_monitoring.Spool.Codec.{Row}
use azure_mysql_monitoring.Telemetry.Catalog.{MetricCatalog, SeriesRow}
use azure_mysql_monitoring.Upload.{LoadError, Reading}
use azure_mysql_monitoring.Upload.Load.{load_rows}
use azure_mysql_monitoring.Upload.RoundTrip.{packed}

pub data UploadError : Type 0 where
  bad_config : ConfigError → UploadError
  -- an `OSError` of the archive or of the marker
  unreadable unwritable : UploadError
  bad_archive : LoadError → UploadError
  -- the constructor of the sink raised
  no_sink : UploadError
  -- the `RuntimeError` of a `last_error`
  ingestion_error : String → UploadError

-- What `main` finds outside.
pub record Outside : Type 0 where
  pub marker_exists : Bool
  pub environ : Environ
  -- the lines of the archive, if it can be read
  pub archive : Option (List String)
  pub makes_sink : Bool
  pub client : IngestClient
  pub writes_marker : Bool

-- How `main` ends: what it returns or raises, the numbers that the marker got if one was written,
-- and the sink if one was made.
pub record UploadRun : Type 0 where
  pub result : Result UploadError ℕ
  pub marked : Option (ℕ × ℕ)
  pub sink : Option AdxSink
  pub closed : Bool

abbrev pub ends : Result UploadError ℕ → UploadRun
ends result = record { result = result; marked = none; sink = none; closed = false }

-- The sink is closed however the writes end.
abbrev fails : UploadError → AdxSink → UploadRun
fails e s = record { result = err e; marked = none; sink = some s; closed = true }

-- `if sink.last_error: raise RuntimeError(sink.last_error)`
unfoldable pub error_of : Option String → Option String
error_of none = none
error_of (some message) = if is_blank message then none else some message

-- What comes after a write, unless its `last_error` is raised.
unfoldable pub if_accepted : AdxSink → (AdxSink → UploadRun) → UploadRun
unfolding error_of
if_accepted s continue = elim (error_of s.last_error) [
  | some message ↦ fails (ingestion_error message) s
  | none ↦ continue s
]

module _ (out : Outside) where
  unfoldable pub mark : List Row → List Row → AdxSink → UploadRun
  mark packed series s =
      if out.writes_marker
      then record {
        result = ok 0;
        marked = some (length packed, length series);
        sink = some s;
        closed = true;
      }
      else fails unwritable s

  -- `sink.write_raw_rows` of one of the tables.
  abbrev pub write_packed : List Row → AdxSink → AdxSink
  write_packed rows s =
      (write_raw_rows out.client rows "MysqlTelemetry" "MysqlTelemetryMapping" none s).1

  abbrev pub write_series : List Row → AdxSink → AdxSink
  write_series rows s =
      (write_raw_rows out.client rows "MysqlMetricSeries" "MysqlMetricSeriesMapping" none s).1

  -- The two writes, and the marker.
  unfoldable pub upload_rows : List Row → List Row → AdxSink → UploadRun
  unfolding write_raw_rows if_accepted mark
  upload_rows packed series s =
      if_accepted (write_packed packed s)
        λ s₁. if_accepted (write_series series s₁) (mark packed series)

  module _ (reading : Reading) (catalog : MetricCatalog) (project : SeriesRow → Row) where
    -- `load_rows` with the archive opened.
    unfoldable pub load_archive : Result UploadError (List Row × List Row)
    unfolding load_rows
    load_archive = elim out.archive [
      | none ↦ err unreadable
      | some lines ↦ elim (load_rows reading catalog project lines) [
        | err e ↦ err (bad_archive e)
        | ok loaded ↦ ok loaded
      ]
    ]

    -- The rows that are to be uploaded, once the settings are there.
    unfoldable pub rows_to_upload : Result UploadError (List Row × List Row)
    unfolding require_plan_adx plan_sink_config load_archive
    rows_to_upload = elim (require_plan_adx (plan_sink_config out.environ)) [
      | err e ↦ err (bad_config e)
      | ok _ ↦ load_archive
    ]

    -- `main`
    unfoldable pub main : Bool → UploadRun
    unfolding rows_to_upload upload_rows plan_sink_config
    main force = if out.marker_exists && not force then ends (ok 0) else elim rows_to_upload [
      | err e ↦ ends (err e)
      | ok (packed, series) ↦
          if out.makes_sink
          then upload_rows packed series (adx_sink true (plan_sink_config out.environ).adx_database)
          else ends (err no_sink)
    ]
