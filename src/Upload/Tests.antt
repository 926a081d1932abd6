-- ===== src/Upload/Tests.antt =====
-- An archive of one point, its upload, and the theorems about both at it.
use azure_mysql_monitoring.Prelude.{
  if◌then◌else◌, length, String, ◌≡◌, refl, true, false, none, some, List, [], ◌∷◌, ◌++◌, map, ◌==◌,
  ℕ,
}
use azure_mysql_monitoring.Plan.Document.{Value, str}
use azure_mysql_monitoring.Prelude.Int.{pos}
use azure_mysql_monitoring.Prelude.Result.{ok, err}
use azure_mysql_monitoring.Prelude.Text.{strip}
use azure_mysql_monitoring.Settings.PlanSink.{plan_sink_config}
use azure_mysql_monitoring.Sinks.Adx.{IngestClient, AdxSink}
use azure_mysql_monitoring.Sinks.Jsonl.{Handle, write_rows}
use azure_mysql_monitoring.Spool.Codec.{Row}
use azure_mysql_monitoring.Telemetry.Catalog.{MetricCatalog, validate, SeriesRow, series_rows}
use azure_mysql_monitoring.Telemetry.Point.{
  integer, counter, int_type, MeasurementSpec, TelemetryPoint, telemetry_context, telemetry_point,
}
use azure_mysql_monitoring.Telemetry.Rows.{object, packed_row, series_row, fields_of}
use azure_mysql_monitoring.Upload.{not_json, invalid_row, Reading, replace_z}
use azure_mysql_monitoring.Upload.Archive.{load_rows-archive_points}
use azure_mysql_monitoring.Upload.Load.{load_rows}
use azure_mysql_monitoring.Upload.Main.{Outside, rows_to_upload, main}
use azure_mysql_monitoring.Upload.Marking.{IsUploaded, main-IsUploaded}
use azure_mysql_monitoring.Upload.RoundTrip.{IsArchived}

abbrev small_spec : MeasurementSpec
small_spec = record {
  name = "mysql.file_io";
  fields =
      (
        "reads",
        record {
          kind = counter;
          unit = "1";
          value_type = int_type;
          series = true;
          required = true;
        },
      )
      ∷ [];
  tags = "file" ∷ [];
}

abbrev small_catalog : MetricCatalog
small_catalog = ("mysql.file_io", small_spec) ∷ []

abbrev small_point : TelemetryPoint
small_point = record {
  observed_at = "2026-01-01T00:00:00.000000Z";
  context = record {
    run_id = "run";
    target_id = "a";
    host = "db";
    tier = "premium-ssd-v2";
    azure_resource_id = "";
    collector_id = "c";
  };
  measurement = "mysql.file_io";
  fields = ("reads", integer (pos 7)) ∷ [];
  tags = ("file", "ibdata1") ∷ [];
}

abbrev small_series : List SeriesRow
small_series =
    record {
      point = small_point;
      field_name = "reads";
      value = (pos 7, 0);
      kind = counter;
      unit = "1";
    }
    ∷ []

abbrev encoded_text : Value → String
encoded_text _ = "{}"

abbrev hexdigest : String → String
hexdigest _ = "0123456789abcdef0123456789abcdef"

abbrev dumps : Row → String
dumps _ = "{}"

abbrev str_of : Value → String
str_of (str s) = s
str_of _ = ""

abbrev small_reading : Reading
small_reading = record {
  loads = λ line.
      if line == "{}" then some (object (packed_row encoded_text hexdigest small_point)) else none;
  text_of = str_of;
  parse_time = λ time.
      if time == "2026-01-01T00:00:00.000000+00:00"
      then some (some "2026-01-01T00:00:00.000000Z")
      else none;
}

small_point-IsArchived :
    IsArchived small_reading dumps
      (packed_row encoded_text hexdigest)
      small_catalog
      small_point
      small_series
unfolding replace_z telemetry_context telemetry_point validate series_rows strip
small_point-IsArchived = record {
  loaded = refl;
  not_blank = refl;
  time = refl;
  context_made = refl;
  made = refl;
  valid = refl;
  projected = refl;
}

abbrev plain_handle : Handle
plain_handle = record { write_line = λ held line. none; flush = λ held. none }

load_rows-archive_points_example :
    load_rows small_reading small_catalog (series_row encoded_text hexdigest) ("{}" ∷ [])
    ≡ ok (
      packed_row encoded_text hexdigest small_point ∷ [],
      map (series_row encoded_text hexdigest) small_series ++ [],
    )
unfolding write_rows
load_rows-archive_points_example =
    load_rows-archive_points plain_handle small_reading dumps encoded_text hexdigest small_catalog
      (series_row encoded_text hexdigest) (λ s. refl) (small_point, small_series) []
      (small_point-IsArchived, tt) refl

-- A line that is no JSON is reported with its number; blank lines count.
bad_line :
    load_rows small_reading small_catalog
      (series_row encoded_text hexdigest)
      ("{}" ∷ " " ∷ "{" ∷ [])
    ≡ err (invalid_row 3 not_json)
unfolding load_rows fields_of packed_row
bad_line = refl

abbrev good_client : IngestClient
good_client before made = ok none

abbrev outside : Outside
outside = record {
  marker_exists = true;
  environ = ("ADX_INGEST_URI", "https://ingest-c") ∷ ("ADX_DATABASE", "monitoring") ∷ [];
  archive = some ("{}" ∷ []);
  makes_sink = true;
  client = good_client;
  writes_marker = true;
}

forced :
    (main outside small_reading small_catalog (series_row encoded_text hexdigest) true).marked
    ≡ some (1, 1)
unfolding main fields_of packed_row
forced = refl

abbrev counts : ℕ × ℕ
counts = (1, 1)

main-IsUploaded_example :
    (packed : List Row) × (series : List Row) × (s : AdxSink) × (rows_to_upload outside
        small_reading small_catalog
        (series_row encoded_text hexdigest)
      ≡ ok (packed, series))
    × ((main outside small_reading small_catalog (series_row encoded_text hexdigest) true).sink
        ≡ some s)
    × (counts ≡ (length packed, length series))
    × IsUploaded outside.client (plan_sink_config outside.environ).adx_database packed series s
main-IsUploaded_example =
    main-IsUploaded outside small_reading small_catalog (series_row encoded_text hexdigest) true
      counts (λ before made h. cc h) forced

-- An exception without a text counts as a success, and nothing was ingested.
silent_exception :
    (main
      (record outside { client = λ before made. err "" })
      small_reading
      small_catalog
      (series_row encoded_text hexdigest)
      true).marked
    ≡ some (1, 1)
unfolding main fields_of packed_row
silent_exception = refl

-- The marker spares a second upload.
already_uploaded :
    (main outside small_reading small_catalog (series_row encoded_text hexdigest) false).sink ≡ none
unfolding main fields_of packed_row
already_uploaded = refl
