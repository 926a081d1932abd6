-- ===== src/Telemetry/Measurements.antt =====
-- mysql-internal/collector/catalog.py: `CATALOG`, the measurements of the repository. Their
-- descriptions and cardinalities, which no operation reads, are left out.
pub mod Status
use azure_mysql_monitoring.Prelude.{true, false, List, [], ◌∷◌}
use azure_mysql_monitoring.Telemetry.Catalog.{MetricCatalog, metric_catalog}
use azure_mysql_monitoring.Telemetry.Measurements.Status.{
  field_spec, global_status_names, named_fields,
}
use azure_mysql_monitoring.Telemetry.Point.{
  counter, gauge, state, int_type, float_type, str_type, Checked, MeasurementSpec,
}

abbrev collector_health : MeasurementSpec
collector_health = record {
  name = "collector.health";
  fields =
      ("heartbeat", field_spec gauge "state" float_type true true)
      ∷ ("mysql_reachable", field_spec gauge "state" float_type true true)
      ∷ ("cycle_duration_ms", field_spec gauge "ms" float_type true false)
      ∷ [];
  tags = [];
}

unfoldable pub mysql_global_status : MeasurementSpec
unfolding named_fields
mysql_global_status = record {
  name = "mysql.global_status";
  fields = named_fields global_status_names;
  tags = [];
}

abbrev pub mysql_file_io : MeasurementSpec
mysql_file_io = record {
  name = "mysql.file_io";
  fields =
      ("operations_total", field_spec counter "operations" int_type true true)
      ∷ ("bytes_total", field_spec counter "bytes" int_type true true)
      ∷ ("wait_ms_total", field_spec counter "ms" float_type true true)
      ∷ [];
  tags = "event" ∷ "mode" ∷ [];
}

abbrev pub mysql_statement_digest : MeasurementSpec
mysql_statement_digest = record {
  name = "mysql.statement_digest";
  fields =
      ("executions_total", field_spec counter "executions" int_type true true)
      ∷ ("latency_ms_total", field_spec counter "ms" float_type true true)
      ∷ ("lock_ms_total", field_spec counter "ms" float_type true true)
      ∷ ("rows_examined_total", field_spec counter "rows" int_type true true)
      ∷ ("rows_sent_total", field_spec counter "rows" int_type true true)
      ∷ ("errors_total", field_spec counter "errors" int_type true true)
      ∷ ("warnings_total", field_spec counter "warnings" int_type true true)
      ∷ ("tmp_tables_total", field_spec counter "tables" int_type true true)
      ∷ ("tmp_disk_tables_total", field_spec counter "tables" int_type true true)
      ∷ ("no_index_used_total", field_spec counter "executions" int_type true true)
      ∷ ("latency_p95_ms", field_spec gauge "ms" float_type true true)
      ∷ ("latency_p99_ms", field_spec gauge "ms" float_type true true)
      ∷ [];
  tags = "schema" ∷ "digest" ∷ [];
}

abbrev pub mysql_innodb_metric : MeasurementSpec
mysql_innodb_metric = record {
  name = "mysql.innodb_metric";
  fields =
      ("counter_value", field_spec counter "value" int_type true false)
      ∷ ("gauge_value", field_spec gauge "value" float_type true false)
      ∷ [];
  tags = "name" ∷ "subsystem" ∷ "metric_type" ∷ [];
}

abbrev pub mysql_global_variable : MeasurementSpec
mysql_global_variable = record {
  name = "mysql.global_variable";
  fields =
      ("numeric_value", field_spec gauge "value" float_type true false)
      ∷ ("text_value", field_spec state "text" str_type false false)
      ∷ [];
  tags = "name" ∷ [];
}

abbrev pub mysql_process_state : MeasurementSpec
mysql_process_state = record {
  name = "mysql.process_state";
  fields =
      ("sessions", field_spec gauge "sessions" int_type true true)
      ∷ ("oldest_seconds", field_spec gauge "s" int_type true true)
      ∷ [];
  tags = "command" ∷ "state" ∷ [];
}

abbrev pub mysql_schema_size : MeasurementSpec
mysql_schema_size = record {
  name = "mysql.schema_size";
  fields =
      ("rows_estimate", field_spec gauge "rows" int_type true true)
      ∷ ("data_bytes", field_spec gauge "bytes" int_type true true)
      ∷ ("index_bytes", field_spec gauge "bytes" int_type true true)
      ∷ ("free_bytes", field_spec gauge "bytes" int_type true true)
      ∷ [];
  tags = "schema" ∷ "table" ∷ "engine" ∷ [];
}

abbrev pub mysql_table_io : MeasurementSpec
mysql_table_io = record {
  name = "mysql.table_io";
  fields =
      ("fetch_total", field_spec counter "operations" int_type true true)
      ∷ ("fetch_wait_ms_total", field_spec counter "ms" float_type true true)
      ∷ ("insert_total", field_spec counter "operations" int_type true true)
      ∷ ("insert_wait_ms_total", field_spec counter "ms" float_type true true)
      ∷ ("update_total", field_spec counter "operations" int_type true true)
      ∷ ("update_wait_ms_total", field_spec counter "ms" float_type true true)
      ∷ ("delete_total", field_spec counter "operations" int_type true true)
      ∷ ("delete_wait_ms_total", field_spec counter "ms" float_type true true)
      ∷ [];
  tags = "schema" ∷ "table" ∷ [];
}

abbrev pub mysql_index_io : MeasurementSpec
mysql_index_io = record {
  name = "mysql.index_io";
  fields =
      ("fetch_total", field_spec counter "operations" int_type true true)
      ∷ ("fetch_wait_ms_total", field_spec counter "ms" float_type true true)
      ∷ [];
  tags = "schema" ∷ "table" ∷ "index" ∷ [];
}

abbrev measurements : List MeasurementSpec
measurements =
    collector_health ∷ mysql_global_status ∷ mysql_file_io ∷ mysql_statement_digest
    ∷ mysql_innodb_metric ∷ mysql_global_variable ∷ mysql_process_state ∷ mysql_schema_size
    ∷ mysql_table_io ∷ mysql_index_io ∷ []

-- `CATALOG`
unfoldable pub repository_catalog : Checked MetricCatalog
unfolding metric_catalog mysql_global_status
repository_catalog = metric_catalog measurements
