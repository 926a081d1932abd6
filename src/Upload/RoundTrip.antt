-- ===== src/Upload/RoundTrip.antt =====
-- The archive that jsonl.py writes of points, read back by upload_jsonl.py.
use mathlib.Core.List.{append-nil, append_assoc}
use azure_mysql_monitoring.Prelude.{
  String, ◌≡◌, refl, ap, false, some, List, [], ◌∷◌, All, ℕ, suc, ◌∙◌, ◌++◌, map,
}
use azure_mysql_monitoring.Groups.Rows.{present}
use azure_mysql_monitoring.Plan.Document.{Value, str, entries}
use azure_mysql_monitoring.Prelude.Dict.{Dict, lookup}
use azure_mysql_monitoring.Prelude.Result.{ok}
use azure_mysql_monitoring.Prelude.Text.{is_blank, strip}
use azure_mysql_monitoring.Spool.Codec.{Row}
use azure_mysql_monitoring.Telemetry.Catalog.{MetricCatalog, validate, SeriesRow, series_rows}
use azure_mysql_monitoring.Telemetry.Point.{
  FieldValue, integer, real, flag, text, TelemetryPoint, telemetry_context, telemetry_point,
}
use azure_mysql_monitoring.Telemetry.Rows.{fields_of, object, tag_values, field_values, packed_row}
use azure_mysql_monitoring.Upload.{
  Reading, replace_z, fields_of_values, tags_of_values, refused_by, context_from_row,
  point_from_row,
}
use azure_mysql_monitoring.Upload.Load.{read_line, read_rows, row_of_line, load_rows}

entries-fields_of : (d : Dict Value) → entries (fields_of d) ≡ d
unfolding entries fields_of
entries-fields_of [] = refl
entries-fields_of ((name, value) ∷ rest) = ap (λ d. (name, value) ∷ d) (entries-fields_of rest)

fields_of_values-field_values :
    (fields : Dict FieldValue) → fields_of_values (field_values fields) ≡ some fields
unfolding fields_of_values field_values
fields_of_values-field_values [] = refl
fields_of_values-field_values ((name, integer z) ∷ rest) =
    rw (fields_of_values-field_values rest) refl
fields_of_values-field_values ((name, real m s) ∷ rest) =
    rw (fields_of_values-field_values rest) refl
fields_of_values-field_values ((name, flag b) ∷ rest) = rw (fields_of_values-field_values rest) refl
fields_of_values-field_values ((name, text s) ∷ rest) = rw (fields_of_values-field_values rest) refl

-- `str` of a text is the text.
abbrev pub KeepsTexts : Reading → Type 0
KeepsTexts reading = (s : String) → reading.text_of (str s) ≡ s

-- A point that its constructors and the catalog accepted, with the rows of its series, whose row and
-- time the standard library reads back as they were written, from a line that is not blank.
pub record IsArchived (reading : Reading) (dumps : Row → String) (packed : TelemetryPoint → Row)
    (catalog : MetricCatalog) (point : TelemetryPoint) (rows : List SeriesRow) : Type 0 where
  pub loaded : reading.loads (dumps (packed point)) ≡ some (object (packed point))
  pub not_blank : is_blank (strip (dumps (packed point))) ≡ false
  pub time : reading.parse_time (replace_z point.observed_at) ≡ some (some point.observed_at)
  pub context_made : telemetry_context point.context ≡ ok point.context
  pub made :
      telemetry_point
        (some point.observed_at)
        point.context
        point.measurement
        point.fields
        (present point.tags)
      ≡ ok point
  pub valid : validate catalog point ≡ ok point
  pub projected : series_rows catalog point ≡ ok rows

module _ (reading : Reading) (dumps : Row → String) (texts : KeepsTexts reading) where
  tags_of_values-tag_values : (tags : Dict String) → tags_of_values reading (tag_values tags) ≡ tags
  unfolding tags_of_values tag_values
  tags_of_values-tag_values [] = refl
  tags_of_values-tag_values ((name, value) ∷ rest) =
      λ i. (name, texts value i) ∷ tags_of_values-tag_values rest i

  module _ (encode : Value → String) (hexdigest : String → String) (catalog : MetricCatalog) where
    abbrev pub packed : TelemetryPoint → Row
    packed = packed_row encode hexdigest

    context_from_row-packed_row :
        (point : TelemetryPoint)
        → telemetry_context point.context ≡ ok point.context
        → context_from_row reading (packed point) ≡ ok point.context
    unfolding context_from_row packed_row lookup
    context_from_row-packed_row point accepted =
        let c = point.context in
        rw
          (
            texts c.run_id,
            texts c.target_id,
            texts c.host,
            texts c.tier,
            texts c.azure_resource_id,
            texts c.collector_id,
          )
          (ap refused_by accepted)

    point_from_row-packed_row :
        (point : TelemetryPoint) (rows : List SeriesRow)
        → IsArchived reading dumps packed catalog point rows
        → point_from_row reading (packed point) ≡ ok point
    unfolding point_from_row packed_row lookup
    point_from_row-packed_row point rows a =
        rw (texts point.observed_at, texts point.measurement, a.time)
          (rw (context_from_row-packed_row point a.context_made) (
            rw
              (
                entries-fields_of (tag_values point.tags),
                entries-fields_of (field_values point.fields),
                fields_of_values-field_values point.fields,
                tags_of_values-tag_values point.tags,
              )
              (ap refused_by a.made)))

    module _ (project : SeriesRow → Row) where
      abbrev pub Archived : TelemetryPoint × List SeriesRow → Type 0
      Archived (point, rows) = IsArchived reading dumps packed catalog point rows

      abbrev pub archive_lines : List (TelemetryPoint × List SeriesRow) → List String
      archive_lines points = map (λ e. dumps (packed e.0)) points

      abbrev pub packed_rows : List (TelemetryPoint × List SeriesRow) → List Row
      packed_rows points = map (λ e. packed e.0) points

      abbrev pub series_of_all : List (TelemetryPoint × List SeriesRow) → List Row
      series_of_all [] = []
      series_of_all ((point, rows) ∷ points) = map project rows ++ series_of_all points

      row_of_line-dumps :
          (point : TelemetryPoint) (rows : List SeriesRow)
          → IsArchived reading dumps packed catalog point rows
          → row_of_line reading catalog project (dumps (packed point)) ≡ ok (packed point)
      unfolding row_of_line
      row_of_line-dumps point rows a =
          rw (a.loaded, row_of_line) (ap ok (entries-fields_of (packed point)))

      read_line-dumps :
          (point : TelemetryPoint) (rows : List SeriesRow)
          → IsArchived reading dumps packed catalog point rows
          → read_line reading catalog project (dumps (packed point))
            ≡ ok (packed point, map project rows)
      unfolding read_line row_of_line refused_by
      read_line-dumps point rows a =
          rw
            (
              row_of_line-dumps point rows a,
              point_from_row-packed_row point rows a,
              a.valid,
              a.projected,
            )
            refl

      read_rows-dumps :
          (points : List (TelemetryPoint × List SeriesRow)) (number : ℕ) (done more : List Row)
          → All Archived points
          → read_rows reading catalog project number (archive_lines points) done more
            ≡ ok (done ++ packed_rows points, more ++ series_of_all points)
      unfolding read_rows
      read_rows-dumps [] number done more h = rw (append-nil done, append-nil more) refl
      read_rows-dumps ((point, rows) ∷ points) number done more h =
          rw (h.0.not_blank, read_line-dumps point rows h.0)
            (read_rows-dumps points (suc number) (done ++ (packed point ∷ []))
                (more ++ map project rows) h.1
              ∙ λ i. ok (
                append_assoc done (packed point ∷ []) (packed_rows points) i,
                append_assoc more (map project rows) (series_of_all points) i,
              ))

      -- An archive of points, one at least, is loaded whole: the rows that
      -- were written, in their order, and the rows of the series of all points.
      pub load_rows-archive_lines :
          (first : TelemetryPoint × List SeriesRow)
          (points : List (TelemetryPoint × List SeriesRow))
          → All Archived (first ∷ points)
          → load_rows reading catalog project (archive_lines (first ∷ points))
            ≡ ok (packed_rows (first ∷ points), series_of_all (first ∷ points))
      unfolding load_rows
      load_rows-archive_lines first points h = rw (read_rows-dumps (first ∷ points) 1 [] [] h) refl
