-- ===== src/Telemetry/Tests.antt =====
-- A catalog of one measurement, a point of it, and the theorems about the contract at them.
use mathlib.Core.List.{Permᴰ}
use azure_mysql_monitoring.Prelude.{
  any, All, ◌≡◌, refl, ◌↔◌, true, false, some, List, [], ◌∷◌, Memᴰ, ◌==◌, String,
}
use azure_mysql_monitoring.Plan.Document.{Value, obj, end, field}
use azure_mysql_monitoring.Prelude.Dict.{lookup}
use azure_mysql_monitoring.Prelude.Int.{pos}
use azure_mysql_monitoring.Prelude.Result.{ok}
use azure_mysql_monitoring.Telemetry.Catalog.{MetricCatalog, validate, SeriesRow, series_rows}
use azure_mysql_monitoring.Telemetry.Catalog.Conformance.{Conforms, validate_iff}
use azure_mysql_monitoring.Telemetry.Catalog.Series.{IsRow, series_rows-IsRow, series_rows_complete}
use azure_mysql_monitoring.Telemetry.Point.{
  integer, text, counter, state, int_type, str_type, FieldSpec, MeasurementSpec, TelemetryContext,
  TelemetryPoint, is_number,
}
use azure_mysql_monitoring.Telemetry.Rows.{series_key, text_le}
use azure_mysql_monitoring.Telemetry.Rows.Order.{series_key-perm}

abbrev spec : MeasurementSpec
spec = record {
  name = "mysql.file_io";
  fields =
      (
        "reads",
        record {
          kind = counter;
          unit = "1";
          value_type = int_type;
          series = true;
          required = true;
        },
      )
      ∷ (
        "note",
        record { kind = state; unit = ""; value_type = str_type; series = true; required = false },
      )
      ∷ [];
  tags = "file" ∷ [];
}

abbrev catalog : MetricCatalog
catalog = ("mysql.file_io", spec) ∷ []

abbrev context : TelemetryContext
context = record {
  run_id = "run";
  target_id = "a";
  host = "db";
  tier = "premium-ssd-v2";
  azure_resource_id = "";
  collector_id = "c";
}

abbrev point : TelemetryPoint
point = record {
  observed_at = "2026-01-01T00:00:00.000Z";
  context = context;
  measurement = "mysql.file_io";
  fields = ("reads", integer (pos 7)) ∷ ("note", text "cold") ∷ [];
  tags = ("file", "ibdata1") ∷ [];
}

accepted_point : validate catalog point ≡ ok point
unfolding validate
accepted_point = refl

validate_iff_example :
    (validate catalog point ≡ ok point)
    ↔ ((s : MeasurementSpec) × (lookup "mysql.file_io" catalog ≡ some s) × Conforms s point)
validate_iff_example = validate_iff catalog point

series_rows-IsRow_example :
    (rows : List SeriesRow) × (series_rows catalog point ≡ ok rows) × All (IsRow spec point) rows
unfolding lookup
series_rows-IsRow_example = series_rows-IsRow catalog point spec refl accepted_point

abbrev reads_spec : FieldSpec
reads_spec = record {
  kind = counter;
  unit = "1";
  value_type = int_type;
  series = true;
  required = true;
}

abbrev rows : List SeriesRow
rows =
    record { point = point; field_name = "reads"; value = (pos 7, 0); kind = counter; unit = "1" }
    ∷ []

series_rows_complete_example : any (λ r. r.field_name == "reads") rows ≡ true
unfolding lookup series_rows validate is_number
series_rows_complete_example =
    series_rows_complete catalog point spec rows "reads" (integer (pos 7)) reads_spec refl refl
      (Memᴰ.head refl) refl refl refl

abbrev two_tags : TelemetryPoint
two_tags = record point { tags = ("file", "ibdata1") ∷ ("event", "read") ∷ [] }

abbrev tags_swapped : TelemetryPoint
tags_swapped = record point { tags = ("event", "read") ∷ ("file", "ibdata1") ∷ [] }

abbrev plain_digest : String → String
plain_digest s = s

abbrev first_tag : Value → String
first_tag (obj (field t target (field m name (field n (obj (field tag value more)) end)))) = tag
first_tag _ = ""

series_key-perm_example :
    series_key first_tag plain_digest two_tags ≡ series_key first_tag plain_digest tags_swapped
series_key-perm_example =
    series_key-perm first_tag plain_digest two_tags tags_swapped refl refl
      (((λ h. cc h), tt), (tt, tt)) (Permᴰ.swap refl refl)

sorted_first : series_key first_tag plain_digest two_tags ≡ "event"
unfolding series_key text_le
sorted_first = refl
