-- ===== src/Groups/Storage.antt =====
-- groups.py: the collectors of files, schemas, tables and indexes.
use azure_mysql_monitoring.Prelude.{drop, ℕ, String, List, [], ◌∷◌, ◌++◌}
use azure_mysql_monitoring.Groups.Rows.{
  Raising, Python, Param, text_param, limit, Literal, whole, decimal, dict, point, top_k_or,
  each_row, Collector, rows_of, unpack, column, int_or_zero, milliseconds, Tried, cell_at,
}
use azure_mysql_monitoring.Prelude.Dict.{Dict}
use azure_mysql_monitoring.Prelude.Int.{ℤ, pos}
use azure_mysql_monitoring.Prelude.Result.{ok, ◌>>=◌, ◌>>◌}
use azure_mysql_monitoring.Secrets.{values}
use azure_mysql_monitoring.Telemetry.Point.{TelemetryContext, TelemetryPoint}

abbrev system_schemas : List Param
system_schemas =
    text_param "mysql"
    ∷ text_param "information_schema"
    ∷ text_param "performance_schema"
    ∷ text_param "sys"
    ∷ []

module _ {Cell : Type 0} (python : Python Cell) where
  abbrev pub file_io_fields : Cell → Tried ℤ → Cell → Dict Literal
  file_io_fields operations byte_count wait_ps =
      ("operations_total", whole (int_or_zero python operations))
      ∷ ("bytes_total", whole byte_count)
      ∷ ("wait_ms_total", decimal (milliseconds python wait_ps))
      ∷ []

  -- One of the three modes of a row of file_io.sql, whose byte count may be the constant 0.
  unfoldable pub file_io_point :
      TelemetryContext → String → Cell → String → Cell → Tried ℤ → Cell → Raising TelemetryPoint
  unfolding dict point int_or_zero milliseconds
  file_io_point context observed_at event mode operations byte_count wait_ps = do
    fields ← dict (file_io_fields operations byte_count wait_ps)
    point context observed_at "mysql.file_io" fields
        (("event", python.to_str event) ∷ ("mode", mode) ∷ [])

  unfoldable pub file_io_row : TelemetryContext → String → List Cell → Raising (List TelemetryPoint)
  unfolding unpack file_io_point int_or_zero
  file_io_row context observed_at row = do
    unpack python 9 row
    event ← column python 0 row
    read_count ← column python 1 row
    read_bytes ← column python 2 row
    read_wait ← column python 3 row
    write_count ← column python 4 row
    write_bytes ← column python 5 row
    write_wait ← column python 6 row
    misc_count ← column python 7 row
    misc_wait ← column python 8 row
    reads ←
        file_io_point context observed_at event "read" read_count (int_or_zero python read_bytes)
          read_wait
    writes ←
        file_io_point context observed_at event "write" write_count (int_or_zero python write_bytes)
          write_wait
    others ← file_io_point context observed_at event "misc" misc_count (ok (pos 0)) misc_wait
    ok (reads ∷ writes ∷ others ∷ [])

  unfoldable pub collect_file_io : Collector Cell
  unfolding file_io_row rows_of each_row top_k_or
  collect_file_io conn context plan observed_at = do
    rows ← rows_of python conn "file_io.sql" (limit (top_k_or 100 plan) ∷ [])
    each_row (file_io_row context observed_at) rows

  abbrev pub schema_size_fields : Cell → Cell → Cell → Cell → Dict Literal
  schema_size_fields rows data_bytes index_bytes free_bytes =
      ("rows_estimate", whole (int_or_zero python rows))
      ∷ ("data_bytes", whole (int_or_zero python data_bytes))
      ∷ ("index_bytes", whole (int_or_zero python index_bytes))
      ∷ ("free_bytes", whole (int_or_zero python free_bytes))
      ∷ []

  unfoldable pub schema_size_row :
      TelemetryContext → String → List Cell → Raising (List TelemetryPoint)
  unfolding unpack dict point int_or_zero
  schema_size_row context observed_at row = do
    unpack python 7 row
    schema ← column python 0 row
    table ← column python 1 row
    engine ← column python 2 row
    rows ← column python 3 row
    data_bytes ← column python 4 row
    index_bytes ← column python 5 row
    free_bytes ← column python 6 row
    fields ← dict (schema_size_fields rows data_bytes index_bytes free_bytes)
    made ← point context observed_at "mysql.schema_size" fields (
        ("schema", python.to_str schema)
        ∷ ("table", python.to_str table)
        ∷ ("engine", python.to_str engine)
        ∷ [])
    ok (made ∷ [])

  unfoldable pub collect_schema_size : Collector Cell
  unfolding schema_size_row rows_of each_row top_k_or
  collect_schema_size conn context plan observed_at = do
    rows ←
        rows_of python conn "schema_size.sql" (system_schemas ++ (limit (top_k_or 500 plan) ∷ []))
    each_row (schema_size_row context observed_at) rows

  -- `int(values[n] or 0)` and `float(values[n] or 0) / PICOSECONDS_PER_MS`
  pub int_at : List Cell → ℕ → Literal
  unfolding int_or_zero
  int_at values n = whole (cell_at python n values >>= int_or_zero python)

  pub milliseconds_at : List Cell → ℕ → Literal
  unfolding milliseconds
  milliseconds_at values n = decimal (cell_at python n values >>= milliseconds python)

  abbrev pub table_io_fields : List Cell → Dict Literal
  table_io_fields values =
      ("fetch_total", int_at values 0)
      ∷ ("fetch_wait_ms_total", milliseconds_at values 1)
      ∷ ("insert_total", int_at values 2)
      ∷ ("insert_wait_ms_total", milliseconds_at values 3)
      ∷ ("update_total", int_at values 4)
      ∷ ("update_wait_ms_total", milliseconds_at values 5)
      ∷ ("delete_total", int_at values 6)
      ∷ ("delete_wait_ms_total", milliseconds_at values 7)
      ∷ []

  unfoldable pub table_io_row :
      TelemetryContext → String → List Cell → Raising (List TelemetryPoint)
  unfolding dict point int_at milliseconds_at
  table_io_row context observed_at row = do
    schema ← column python 0 row
    table ← column python 1 row
    let values = drop 2 row in
        (do
          fields ← dict (table_io_fields values)
          made ←
              point context observed_at "mysql.table_io" fields
                (("schema", python.to_str schema) ∷ ("table", python.to_str table) ∷ [])
          ok (made ∷ []))

  unfoldable pub collect_table_io : Collector Cell
  unfolding table_io_row rows_of each_row top_k_or
  collect_table_io conn context plan observed_at = do
    rows ← rows_of python conn "table_io.sql" (system_schemas ++ (limit (top_k_or 100 plan) ∷ []))
    each_row (table_io_row context observed_at) rows

  abbrev pub index_io_fields : Cell → Cell → Dict Literal
  index_io_fields fetches wait_ps =
      ("fetch_total", whole (int_or_zero python fetches))
      ∷ ("fetch_wait_ms_total", decimal (milliseconds python wait_ps))
      ∷ []

  unfoldable pub index_io_row :
      TelemetryContext → String → List Cell → Raising (List TelemetryPoint)
  unfolding unpack dict point int_or_zero milliseconds
  index_io_row context observed_at row = do
    unpack python 5 row
    schema ← column python 0 row
    table ← column python 1 row
    index ← column python 2 row
    fetches ← column python 3 row
    wait_ps ← column python 4 row
    fields ← dict (index_io_fields fetches wait_ps)
    made ← point context observed_at "mysql.index_io" fields (
        ("schema", python.to_str schema)
        ∷ ("table", python.to_str table)
        ∷ ("index", python.to_str index)
        ∷ [])
    ok (made ∷ [])

  unfoldable pub collect_index_io : Collector Cell
  unfolding index_io_row rows_of each_row top_k_or
  collect_index_io conn context plan observed_at = do
    rows ← rows_of python conn "index_io.sql" (system_schemas ++ (limit (top_k_or 100 plan) ∷ []))
    each_row (index_io_row context observed_at) rows
