-- ===== src/Upload/Archive.antt =====
-- jsonl.py and upload_jsonl.py together: points that were archived, read back.
use azure_mysql_monitoring.Prelude.{All, String, ◌≡◌, refl, ap, ◌∙◌, none, some, List, [], ◌∷◌, map}
use azure_mysql_monitoring.Plan.Document.{Value}
use azure_mysql_monitoring.Prelude.Result.{ok}
use azure_mysql_monitoring.Sinks.Jsonl.{
  Handle, JsonlSink, jsonl_sink, write_rows, write_rows_appends,
}
use azure_mysql_monitoring.Spool.Codec.{Row}
use azure_mysql_monitoring.Telemetry.Catalog.{MetricCatalog, SeriesRow}
use azure_mysql_monitoring.Telemetry.Point.{TelemetryPoint}
use azure_mysql_monitoring.Telemetry.Rows.{packed_row}
use azure_mysql_monitoring.Upload.{Reading}
use azure_mysql_monitoring.Upload.Load.{load_rows}
use azure_mysql_monitoring.Upload.RoundTrip.{
  KeepsTexts, IsArchived, series_of_all, load_rows-archive_lines,
}

module _ (handle : Handle) (reading : Reading) (dumps : Row → String) (encode : Value → String)
    (hexdigest : String → String) (catalog : MetricCatalog) (project : SeriesRow → Row) where
  -- `JsonlSink.write_points`
  abbrev pub archive_points : List (TelemetryPoint × List SeriesRow) → JsonlSink → JsonlSink
  archive_points points s =
      write_rows handle dumps (map (λ e. packed_row encode hexdigest e.0) points) s

  lines_of :
      (points : List (TelemetryPoint × List SeriesRow))
      → map dumps (map (λ e. packed_row encode hexdigest e.0) points)
        ≡ map (λ e. dumps (packed_row encode hexdigest e.0)) points
  lines_of [] = refl
  lines_of (e ∷ points) = ap (λ l. dumps (packed_row encode hexdigest e.0) ∷ l) (lines_of points)

  -- Points that the archive's sink wrote to a new file without an error are loaded whole by the upload:
  -- their rows in their order, and the rows of the series of all of them. The standard library is
  -- taken to read back the rows and the times that it wrote.
  pub load_rows-archive_points :
      (texts : KeepsTexts reading) (first : TelemetryPoint × List SeriesRow)
      (points : List (TelemetryPoint × List SeriesRow))
      → All
          (λ e. IsArchived reading dumps (packed_row encode hexdigest) catalog e.0 e.1)
          (first ∷ points)
      → (archive_points (first ∷ points) (jsonl_sink (some []))).last_error ≡ none
      → load_rows reading catalog project
          (archive_points (first ∷ points) (jsonl_sink (some []))).lines
        ≡ ok (
          map (λ e. packed_row encode hexdigest e.0) (first ∷ points),
          series_of_all reading dumps texts encode hexdigest catalog project (first ∷ points),
        )
  load_rows-archive_points texts first points archived h =
      let s : JsonlSink = jsonl_sink (some []) in
      let rows = map (λ e. packed_row encode hexdigest e.0) points in
      ap (load_rows reading catalog project) (
        write_rows_appends handle dumps (packed_row encode hexdigest first.0) rows s h
        ∙ lines_of (first ∷ points))
      ∙ load_rows-archive_lines reading dumps texts encode hexdigest catalog project first points
          archived
