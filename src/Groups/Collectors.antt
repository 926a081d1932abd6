-- ===== src/Groups/Collectors.antt =====
-- groups.py: the table of the collectors.
use azure_mysql_monitoring.Prelude.{[], ◌∷◌}
use azure_mysql_monitoring.Groups.Rows.{Python, Collector}
use azure_mysql_monitoring.Groups.Server.{
  collect_global_status, collect_statement_digests, collect_innodb_metrics,
  collect_global_variables, collect_process_states,
}
use azure_mysql_monitoring.Groups.Storage.{
  collect_file_io, collect_schema_size, collect_table_io, collect_index_io,
}
use azure_mysql_monitoring.Prelude.Dict.{Dict}

module _ {Cell : Type 0} (python : Python Cell) where
  -- `GROUP_COLLECTORS`
  unfoldable pub group_collectors : Dict (Collector Cell)
  unfolding collect_global_status collect_innodb_metrics collect_global_variables collect_file_io
      collect_process_states collect_statement_digests collect_schema_size collect_table_io
      collect_index_io
  group_collectors =
      ("global-status", collect_global_status python)
      ∷ ("innodb-metrics", collect_innodb_metrics python)
      ∷ ("global-variables", collect_global_variables python)
      ∷ ("file-io", collect_file_io python)
      ∷ ("process-states", collect_process_states python)
      ∷ ("statement-digests", collect_statement_digests python)
      ∷ ("schema-size", collect_schema_size python)
      ∷ ("table-io", collect_table_io python)
      ∷ ("index-io", collect_index_io python)
      ∷ []
