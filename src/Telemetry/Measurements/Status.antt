-- ===== src/Telemetry/Measurements/Status.antt =====
-- mysql-internal/collector/catalog.py: `_global_status_field`, the specification of each status
-- variable.
use Prim.Native.Char.{code}
use text.Mathlib.Text.{starts_with}
use azure_mysql_monitoring.Prelude.{
  leb, eqb, if◌then◌else◌, ℕ, ◌+◌, String, Bool, true, false, ◌&&◌, ◌||◌, List, [], ◌∷◌, ◌==◌,
}
use azure_mysql_monitoring.Prelude.Dict.{Dict}
use azure_mysql_monitoring.Prelude.Text.{contains}
use azure_mysql_monitoring.Telemetry.Point.{
  FieldKind, counter, gauge, ValueType, float_type, FieldSpec,
}

abbrev pub field_spec : FieldKind → String → ValueType → Bool → Bool → FieldSpec
field_spec kind unit value_type series required = record {
  kind = kind;
  unit = unit;
  value_type = value_type;
  series = series;
  required = required;
}

abbrev pub global_status_names : List String
global_status_names =
    "Innodb_data_reads" ∷ "Innodb_data_writes" ∷ "Innodb_data_read" ∷ "Innodb_data_written"
    ∷ "Innodb_data_fsyncs" ∷ "Innodb_data_pending_reads" ∷ "Innodb_data_pending_writes"
    ∷ "Innodb_data_pending_fsyncs" ∷ "Innodb_pages_read" ∷ "Innodb_pages_written"
    ∷ "Innodb_pages_created" ∷ "Innodb_os_log_written" ∷ "Innodb_os_log_fsyncs"
    ∷ "Innodb_os_log_pending_fsyncs" ∷ "Innodb_os_log_pending_writes" ∷ "Innodb_log_writes"
    ∷ "Innodb_log_write_requests" ∷ "Innodb_log_waits" ∷ "Innodb_buffer_pool_read_requests"
    ∷ "Innodb_buffer_pool_reads" ∷ "Innodb_buffer_pool_write_requests"
    ∷ "Innodb_buffer_pool_pages_total" ∷ "Innodb_buffer_pool_pages_free"
    ∷ "Innodb_buffer_pool_pages_dirty" ∷ "Innodb_buffer_pool_pages_data"
    ∷ "Innodb_buffer_pool_bytes_dirty" ∷ "Innodb_buffer_pool_wait_free" ∷ "Innodb_rows_read"
    ∷ "Innodb_rows_inserted" ∷ "Innodb_rows_updated" ∷ "Innodb_rows_deleted"
    ∷ "Innodb_row_lock_waits" ∷ "Innodb_row_lock_time" ∷ "Innodb_row_lock_time_avg"
    ∷ "Innodb_row_lock_current_waits" ∷ "Threads_connected" ∷ "Threads_running" ∷ "Threads_created"
    ∷ "Threads_cached" ∷ "Connections" ∷ "Aborted_connects" ∷ "Aborted_clients"
    ∷ "Max_used_connections" ∷ "Queries" ∷ "Questions" ∷ "Slow_queries" ∷ "Com_select"
    ∷ "Com_insert" ∷ "Com_update" ∷ "Com_delete" ∷ "Com_commit" ∷ "Com_rollback" ∷ "Com_begin"
    ∷ "Prepared_stmt_count" ∷ "Bytes_received" ∷ "Bytes_sent" ∷ "Handler_read_first"
    ∷ "Handler_read_key" ∷ "Handler_read_next" ∷ "Handler_read_rnd" ∷ "Handler_read_rnd_next"
    ∷ "Handler_write" ∷ "Handler_update" ∷ "Handler_delete" ∷ "Handler_commit" ∷ "Handler_rollback"
    ∷ "Created_tmp_tables" ∷ "Created_tmp_disk_tables" ∷ "Created_tmp_files" ∷ "Select_scan"
    ∷ "Select_full_join" ∷ "Select_range" ∷ "Sort_merge_passes" ∷ "Sort_rows" ∷ "Sort_scan"
    ∷ "Table_locks_waited" ∷ "Table_locks_immediate" ∷ "Table_open_cache_hits"
    ∷ "Table_open_cache_misses" ∷ "Open_tables" ∷ "Opened_tables" ∷ "Binlog_cache_use"
    ∷ "Binlog_cache_disk_use" ∷ "Ssl_accepts" ∷ "Ssl_finished_accepts" ∷ "Uptime" ∷ []

abbrev pub gauges : List String
gauges =
    "Innodb_data_pending_reads" ∷ "Innodb_data_pending_writes" ∷ "Innodb_data_pending_fsyncs"
    ∷ "Innodb_os_log_pending_fsyncs" ∷ "Innodb_os_log_pending_writes"
    ∷ "Innodb_buffer_pool_pages_total" ∷ "Innodb_buffer_pool_pages_free"
    ∷ "Innodb_buffer_pool_pages_dirty" ∷ "Innodb_buffer_pool_pages_data"
    ∷ "Innodb_buffer_pool_bytes_dirty" ∷ "Innodb_row_lock_current_waits"
    ∷ "Innodb_row_lock_time_avg" ∷ "Threads_connected" ∷ "Threads_running" ∷ "Threads_cached"
    ∷ "Max_used_connections" ∷ "Prepared_stmt_count" ∷ "Open_tables" ∷ "Uptime" ∷ []

abbrev pub byte_fields : List String
byte_fields =
    "Innodb_data_read" ∷ "Innodb_data_written" ∷ "Innodb_os_log_written"
    ∷ "Innodb_buffer_pool_bytes_dirty" ∷ "Bytes_received" ∷ "Bytes_sent" ∷ []

abbrev pub millisecond_fields : List String
millisecond_fields = "Innodb_row_lock_time" ∷ "Innodb_row_lock_time_avg" ∷ []

-- The code of an ASCII character in lower case.
abbrev pub lower : ℕ → ℕ
lower c = if leb 65 c && leb c 90 then c + 32 else c

-- Does the lowered text begin with, or contain, a pattern.
unfoldable pub begins_lower : String → String → Bool
begins_lower String.[] name = true
begins_lower (String.◌∷◌ p pattern') String.[] = false
begins_lower (String.◌∷◌ p pattern') (String.◌∷◌ c name) =
    eqb (code p) (lower (code c)) && begins_lower pattern' name

unfoldable pub contains_lower : String → String → Bool
unfolding begins_lower
contains_lower pattern' String.[] = begins_lower pattern' String.[]
contains_lower pattern' (String.◌∷◌ c name) =
    begins_lower pattern' (String.◌∷◌ c name) || contains_lower pattern' name

unfoldable pub unit_of : String → String
unfolding contains_lower
unit_of name =
    if contains byte_fields name
    then "bytes"
    else if contains millisecond_fields name
    then "ms"
    else if contains_lower "pages" name
    then "pages"
    else if starts_with name "Threads_"
    then "threads"
    else if name == "Uptime"
    then "s"
    else "operations"

-- `_global_status_field`
unfoldable pub global_status_field : String → FieldSpec
unfolding unit_of
global_status_field name =
    field_spec (if contains gauges name then gauge else counter) (unit_of name) float_type true
      false

unfoldable pub named_fields : List String → Dict FieldSpec
unfolding global_status_field
named_fields [] = []
named_fields (name ∷ names) = (name, global_status_field name) ∷ named_fields names
