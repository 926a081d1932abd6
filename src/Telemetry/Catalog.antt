-- ===== src/Telemetry/Catalog.antt =====
-- mysql-internal/collector/telemetry.py: `MetricCatalog`, which checks points against their
-- measurements, and the rows that are projected from them.
pub mod Conformance
pub mod Series
use azure_mysql_monitoring.Prelude.{
  eqb, if◌then◌else◌, length, is_empty, ℕ, String, not, ◌&&◌, Option, none, some, List, [], ◌∷◌,
  ◌++◌,
}
use azure_mysql_monitoring.Prelude.Dict.{Dict, keys, lookup, get_or, insert, has}
use azure_mysql_monitoring.Prelude.Int.{ℤ}
use azure_mysql_monitoring.Prelude.Result.{ok, err, ◌>>=◌, ◌>>◌, raise_if, or_raise}
use azure_mysql_monitoring.Prelude.Text.{contains}
use azure_mysql_monitoring.Spool.Step.{then}
use azure_mysql_monitoring.Telemetry.Point.{
  FieldValue, integer, real, flag, text, FieldKind, Problem, unknown_fields, missing_fields,
  unknown_tags, missing_tags, duplicate_measurements, unknown_measurement, invalid, tagged,
  key_error, Checked, FieldSpec, MeasurementSpec, TelemetryPoint, validate_field,
}

-- `set(names) - set(known)`
unfoldable pub difference : List String → List String → List String
difference [] known = []
difference (name ∷ names) known =
    if contains known name then difference names known else name ∷ difference names known

required_missing : Dict FieldSpec → Dict FieldValue → List String
unfolding lookup
required_missing [] fields = []
required_missing ((name, spec) ∷ rest) fields =
    if spec.required && not (has name fields)
    then name ∷ required_missing rest fields
    else required_missing rest fields

abbrev problem : (List String → Problem) → List String → List Problem
problem make [] = []
problem make (name ∷ names) = make (name ∷ names) ∷ []

-- The four sets of `validate`, those of them that are not empty.
problems : MeasurementSpec → TelemetryPoint → List Problem
unfolding difference required_missing
problems spec point =
    problem unknown_fields (difference (keys point.fields) (keys spec.fields))
    ++ (problem missing_fields (required_missing spec.fields point.fields)
        ++ (problem unknown_tags (difference (keys point.tags) spec.tags)
            ++ problem missing_tags (difference spec.tags (keys point.tags))))

abbrev pub MetricCatalog : Type 0
MetricCatalog = Dict MeasurementSpec

by_name : List MeasurementSpec → MetricCatalog → MetricCatalog
unfolding insert
by_name [] catalog = catalog
by_name (spec ∷ specs) catalog = by_name specs (insert spec.name spec catalog)

-- `MetricCatalog.__init__`
unfoldable pub metric_catalog : List MeasurementSpec → Checked MetricCatalog
unfolding by_name
metric_catalog specs = do
  raise_if (not (eqb (length (by_name specs [])) (length specs))) duplicate_measurements
  ok (by_name specs [])

-- `MetricCatalog.measurement`
measurement : MetricCatalog → String → Checked MeasurementSpec
unfolding lookup
measurement catalog name = or_raise (lookup name catalog) (unknown_measurement name)

-- The last loop of `validate`: a field without a specification was refused before it.
validate_fields : MeasurementSpec → Dict FieldValue → Checked (Unit {0})
unfolding lookup validate_field
validate_fields spec [] = ok tt
validate_fields spec ((name, value) ∷ rest) = elim (lookup name spec.fields) [
  | none ↦ err key_error
  | some field_spec ↦ validate_field field_spec spec.name name value >> validate_fields spec rest
]

-- `MetricCatalog.validate`
unfoldable pub validate : MetricCatalog → TelemetryPoint → Checked TelemetryPoint
unfolding measurement problems validate_fields
validate catalog point = do
  spec ← measurement catalog point.measurement
  raise_if (not (is_empty (problems spec point))) (invalid point.measurement (problems spec point))
  validate_fields spec point.fields
  ok point

-- `float(value)` of a number, without its rounding: the mantissa and the scale.
pub number_of : FieldValue → Option (ℤ × ℕ)
number_of (integer z) = some (z, 0)
number_of (real m s) = some (m, s)
number_of (flag b) = none
number_of (text s) = none

-- A row of `series_rows`, with the point that its common columns are of.
pub record SeriesRow : Type 0 where
  pub point : TelemetryPoint
  pub field_name : String
  pub value : ℤ × ℕ
  pub kind : FieldKind
  pub unit : String

series_of : MeasurementSpec → TelemetryPoint → Dict FieldValue → List SeriesRow
unfolding lookup number_of
series_of spec point [] = []
series_of spec point ((name, value) ∷ rest) = elim (lookup name spec.fields) [
  | none ↦ series_of spec point rest
  | some field_spec ↦ elim (number_of value) [
    | none ↦ series_of spec point rest
    | some number ↦
        let others = series_of spec point rest in
        if field_spec.series
        then record {
          point = point;
          field_name = name;
          value = number;
          kind = field_spec.kind;
          unit = field_spec.unit;
        }
          ∷ others
        else others
  ]
]

-- `MetricCatalog.series_rows`
unfoldable pub series_rows : MetricCatalog → TelemetryPoint → Checked (List SeriesRow)
unfolding measurement series_of
series_rows catalog point = do
  spec ← measurement catalog point.measurement
  valid ← validate catalog point
  ok (series_of spec point point.fields)

-- A row of the table of version 1.
pub record LegacyRow : Type 0 where
  pub ts : String
  pub run_id : String
  pub host : String
  pub tier : String
  pub source : String
  pub metric : String
  pub value : ℤ × ℕ

legacy_of : TelemetryPoint → String → Dict String → Dict FieldValue → List LegacyRow
unfolding number_of lookup
legacy_of point source names [] = []
legacy_of point source names ((name, value) ∷ rest) = elim (number_of value) [
  | none ↦ legacy_of point source names rest
  | some number ↦
      record {
        ts = point.observed_at;
        run_id = point.context.run_id;
        host = point.context.host;
        tier = point.context.tier;
        source = source;
        metric = get_or name names name;
        value = number;
      }
      ∷ legacy_of point source names rest
]

-- `legacy_metric_rows`
unfoldable pub legacy_metric_rows :
    TelemetryPoint → MetricCatalog → String → Dict String → Checked (List LegacyRow)
unfolding legacy_of
legacy_metric_rows point catalog source names = do
  raise_if (not (is_empty point.tags)) (tagged point.measurement)
  valid ← validate catalog point
  ok (legacy_of point source names point.fields)
