-- ===== src/Upload/Load.antt =====
-- upload_jsonl.py: `load_rows`, over the lines of the archive.
use azure_mysql_monitoring.Prelude.{
  if◌then◌else◌, is_empty, ℕ, suc, String, none, some, List, [], ◌∷◌, ◌++◌, map,
}
use azure_mysql_monitoring.Groups.Rows.{point}
use azure_mysql_monitoring.Plan.Document.{obj, entries}
use azure_mysql_monitoring.Prelude.Result.{Result, ok, err, ◌>>=◌, ◌>>◌, raise_if}
use azure_mysql_monitoring.Prelude.Text.{is_blank, strip}
use azure_mysql_monitoring.Spool.Codec.{Row}
use azure_mysql_monitoring.Telemetry.Catalog.{MetricCatalog, validate, SeriesRow, series_rows}
use azure_mysql_monitoring.Upload.{
  RowError, not_json, not_an_object, LoadError, invalid_row, no_rows, Reading, refused_by,
  point_from_row,
}

module _ (reading : Reading) (catalog : MetricCatalog) (project : SeriesRow → Row) where
  -- `json.loads(line)`, as the row that `row["ts"]` needs.
  unfoldable pub row_of_line : String → Result RowError Row
  unfolding entries
  row_of_line line = elim (reading.loads line) [
    | none ↦ err not_json
    | some (obj d) ↦ ok (entries d)
    | some _ ↦ err not_an_object
  ]

  -- What a line adds: its row, and the rows of its point's series.
  unfoldable pub read_line : String → Result RowError (Row × List Row)
  unfolding row_of_line point_from_row validate series_rows refused_by
  read_line line = do
    row ← row_of_line line
    made ← point_from_row reading row
    point ← refused_by (validate catalog made)
    series ← refused_by (series_rows catalog point)
    ok (row, map project series)

  -- The loop over the lines, from a line number on.
  unfoldable pub read_rows :
      ℕ → List String → List Row → List Row → Result LoadError (List Row × List Row)
  unfolding read_line strip
  read_rows number [] packed series = ok (packed, series)
  read_rows number (line ∷ lines) packed series =
      if is_blank (strip line)
      then read_rows (suc number) lines packed series
      else elim (read_line line) [
        | err e ↦ err (invalid_row number e)
        | ok (row, more) ↦ read_rows (suc number) lines (packed ++ (row ∷ [])) (series ++ more)
      ]

  -- `load_rows`
  unfoldable pub load_rows : List String → Result LoadError (List Row × List Row)
  unfolding read_rows
  load_rows lines = do
    loaded ← read_rows 1 lines [] []
    raise_if (is_empty loaded.0) no_rows
    ok loaded
