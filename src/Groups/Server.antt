-- ===== src/Groups/Server.antt =====
-- groups.py: the collectors of the server and its statements.
use azure_mysql_monitoring.Prelude.{if◌then◌else◌, String, ◌||◌, none, some, List, [], ◌∷◌, map}
use azure_mysql_monitoring.Groups.Rows.{
  Raising, Python, text_param, limit, Literal, whole, decimal, word, dict, point, top_k_or, rows_of,
  unpack, column, int_of, int_or_zero, float_or_zero, milliseconds, str_or, each_row, Collector,
}
use azure_mysql_monitoring.Prelude.Dict.{Dict, insert}
use azure_mysql_monitoring.Prelude.Result.{ok, ◌>>=◌, ◌>>◌}
use azure_mysql_monitoring.Telemetry.Measurements.Status.{global_status_names}
use azure_mysql_monitoring.Telemetry.Point.{FieldValue, real, TelemetryContext, TelemetryPoint}

module _ {Cell : Type 0} (python : Python Cell) where
  -- The fields of the rows whose value is a number.
  unfoldable pub status_fields : List (List Cell) → Dict FieldValue → Raising (Dict FieldValue)
  unfolding unpack insert
  status_fields [] fields = ok fields
  status_fields (row ∷ rows) fields = do
    unpack python 2 row
    name ← column python 0 row
    raw ← column python 1 row
    elim (python.to_float raw) [
      | none ↦ status_fields rows fields
      | some (mantissa, scale) ↦
          status_fields rows (insert (python.to_str name) (real mantissa scale) fields)
    ]

  unfoldable pub status_points :
      TelemetryContext → String → Dict FieldValue → Raising (List TelemetryPoint)
  unfolding point
  status_points context observed_at [] = ok []
  status_points context observed_at (entry ∷ fields) = do
    made ← point context observed_at "mysql.global_status" (entry ∷ fields) []
    ok (made ∷ [])

  unfoldable pub collect_global_status : Collector Cell
  unfolding status_fields status_points rows_of
  collect_global_status conn context plan observed_at = do
    rows ← rows_of python conn "global_status_v2.sql" (map text_param global_status_names)
    fields ← status_fields rows []
    status_points context observed_at fields

  abbrev pub statement_digest_fields :
      Cell
      → Cell
      → Cell
      → Cell
      → Cell
      → Cell
      → Cell
      → Cell
      → Cell
      → Cell
      → Cell
      → Cell
      → Dict Literal
  statement_digest_fields executions latency lock_time rows_examined rows_sent errors warnings
        tmp_tables tmp_disk_tables no_index p95 p99 =
      ("executions_total", whole (int_or_zero python executions))
      ∷ ("latency_ms_total", decimal (milliseconds python latency))
      ∷ ("lock_ms_total", decimal (milliseconds python lock_time))
      ∷ ("rows_examined_total", whole (int_or_zero python rows_examined))
      ∷ ("rows_sent_total", whole (int_or_zero python rows_sent))
      ∷ ("errors_total", whole (int_or_zero python errors))
      ∷ ("warnings_total", whole (int_or_zero python warnings))
      ∷ ("tmp_tables_total", whole (int_or_zero python tmp_tables))
      ∷ ("tmp_disk_tables_total", whole (int_or_zero python tmp_disk_tables))
      ∷ ("no_index_used_total", whole (int_or_zero python no_index))
      ∷ ("latency_p95_ms", decimal (milliseconds python p95))
      ∷ ("latency_p99_ms", decimal (milliseconds python p99))
      ∷ []

  unfoldable pub statement_digest_row :
      TelemetryContext → String → List Cell → Raising (List TelemetryPoint)
  unfolding unpack dict point int_or_zero milliseconds str_or
  statement_digest_row context observed_at row = do
    unpack python 14 row
    schema ← column python 0 row
    digest ← column python 1 row
    executions ← column python 2 row
    latency ← column python 3 row
    lock_time ← column python 4 row
    rows_examined ← column python 5 row
    rows_sent ← column python 6 row
    errors ← column python 7 row
    warnings ← column python 8 row
    tmp_tables ← column python 9 row
    tmp_disk_tables ← column python 10 row
    no_index ← column python 11 row
    p95 ← column python 12 row
    p99 ← column python 13 row
    fields ← dict (
        statement_digest_fields executions latency lock_time rows_examined rows_sent errors warnings
          tmp_tables tmp_disk_tables no_index p95 p99)
    made ←
        point context observed_at "mysql.statement_digest" fields
          (("schema", str_or python "(none)" schema) ∷ ("digest", python.to_str digest) ∷ [])
    ok (made ∷ [])

  unfoldable pub collect_statement_digests : Collector Cell
  unfolding statement_digest_row rows_of each_row top_k_or
  collect_statement_digests conn context plan observed_at = do
    rows ← rows_of python conn "statement_digests_v2.sql" (limit (top_k_or 50 plan) ∷ [])
    each_row (statement_digest_row context observed_at) rows

  -- The one field of a metric, a counter or a gauge.
  unfoldable pub innodb_field : Cell → Cell → List (String × Literal)
  unfolding int_or_zero float_or_zero
  innodb_field metric_type cell =
      if python.equals metric_type "counter" || python.equals metric_type "status_counter"
      then ("counter_value", whole (int_or_zero python cell)) ∷ []
      else ("gauge_value", decimal (float_or_zero python cell)) ∷ []

  unfoldable pub innodb_metric_row :
      TelemetryContext → String → List Cell → Raising (List TelemetryPoint)
  unfolding unpack dict point innodb_field
  innodb_metric_row context observed_at row = do
    unpack python 4 row
    name ← column python 0 row
    subsystem ← column python 1 row
    metric_type ← column python 2 row
    cell ← column python 3 row
    fields ← dict (innodb_field metric_type cell)
    made ← point context observed_at "mysql.innodb_metric" fields (
        ("name", python.to_str name)
        ∷ ("subsystem", python.to_str subsystem)
        ∷ ("metric_type", python.to_str metric_type)
        ∷ [])
    ok (made ∷ [])

  unfoldable pub collect_innodb_metrics : Collector Cell
  unfolding innodb_metric_row rows_of each_row
  collect_innodb_metrics conn context plan observed_at = do
    rows ← rows_of python conn "innodb_metrics.sql" []
    each_row (innodb_metric_row context observed_at) rows

  unfoldable pub variable_fields : Cell → List (String × Literal)
  variable_fields raw = elim (python.to_float raw) [
    | none ↦ ("text_value", word (python.to_str raw)) ∷ []
    | some number ↦ ("numeric_value", decimal (ok number)) ∷ []
  ]

  unfoldable pub global_variable_row :
      TelemetryContext → String → List Cell → Raising (List TelemetryPoint)
  unfolding unpack dict point variable_fields
  global_variable_row context observed_at row = do
    unpack python 2 row
    name ← column python 0 row
    raw ← column python 1 row
    fields ← dict (variable_fields raw)
    made ←
        point context observed_at "mysql.global_variable" fields (("name", python.to_str name) ∷ [])
    ok (made ∷ [])

  unfoldable pub collect_global_variables : Collector Cell
  unfolding global_variable_row rows_of each_row
  collect_global_variables conn context plan observed_at = do
    rows ← rows_of python conn "global_variables.sql" []
    each_row (global_variable_row context observed_at) rows

  abbrev pub process_state_fields : Cell → Cell → Dict Literal
  process_state_fields sessions oldest =
      ("sessions", whole (int_of python sessions))
      ∷ ("oldest_seconds", whole (int_or_zero python oldest))
      ∷ []

  unfoldable pub process_state_row :
      TelemetryContext → String → List Cell → Raising (List TelemetryPoint)
  unfolding unpack dict point int_of int_or_zero str_or
  process_state_row context observed_at row = do
    unpack python 4 row
    command ← column python 0 row
    status ← column python 1 row
    sessions ← column python 2 row
    oldest ← column python 3 row
    fields ← dict (process_state_fields sessions oldest)
    made ← point context observed_at "mysql.process_state" fields (
        ("command", str_or python "(none)" command) ∷ ("state", str_or python "(none)" status) ∷ [])
    ok (made ∷ [])

  unfoldable pub collect_process_states : Collector Cell
  unfolding process_state_row rows_of each_row
  collect_process_states conn context plan observed_at = do
    rows ← rows_of python conn "process_states.sql" []
    each_row (process_state_row context observed_at) rows
