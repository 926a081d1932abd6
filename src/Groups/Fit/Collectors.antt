-- ===== src/Groups/Fit/Collectors.antt =====
-- All collectors of the table: what they return, the catalog accepts.
use azure_mysql_monitoring.Prelude.{All, String, ◌≡◌, true, some, List, map, refl, Option, none, []}
use azure_mysql_monitoring.Groups.Collectors.{group_collectors}
use azure_mysql_monitoring.Groups.Fit.{Fits, IsAccepted, >>=-Fits, each_row-Fits, rows_of-Fits}
use azure_mysql_monitoring.Groups.Fit.Rows.{
  statement_digest_row-Made, process_state_row-Made, schema_size_row-Made, table_io_row-Made,
  index_io_row-Made, file_io_row-Made, innodb_metric_row-Made, global_variable_row-Made,
}
use azure_mysql_monitoring.Groups.Fit.Status.{is_named, status_fields-Fits, status_points-Fits}
use azure_mysql_monitoring.Groups.Rows.{
  Raising, Python, Param, text_param, Connection, each_row, Collector, rows_of, query_failed,
  trouble,
}
use azure_mysql_monitoring.Groups.Server.{
  collect_global_status, collect_statement_digests, collect_innodb_metrics,
  collect_global_variables, collect_process_states, status_fields, status_points,
}
use azure_mysql_monitoring.Groups.Storage.{
  collect_file_io, collect_schema_size, collect_table_io, collect_index_io,
}
use azure_mysql_monitoring.Plan.Group.{GroupPlan}
use azure_mysql_monitoring.Prelude.Dict.{lookup, Values, Values-lookup}
use azure_mysql_monitoring.Prelude.Result.{◌>>=◌, or_raise}
use azure_mysql_monitoring.Telemetry.Measurements.Status.{global_status_names}
use azure_mysql_monitoring.Telemetry.Point.{TelemetryContext, TelemetryPoint}

module _ {Cell : Type 0} (python : Python Cell) (conn : Connection Cell) where
  abbrev IsFit : Collector Cell → Type 0
  IsFit collector =
      (context : TelemetryContext) (plan : GroupPlan) (observed_at : String)
      → Fits (All IsAccepted) (collector conn context plan observed_at)

  -- A collector that is a loop over the rows of a query.
  over_rows :
      (query : String) (params : List Param) (make : List Cell → Raising (List TelemetryPoint))
      → ((row : List Cell) → Fits (All IsAccepted) (make row))
      → Fits (All IsAccepted) (rows_of python conn query params >>= each_row make)
  over_rows query params make h =
      >>=-Fits _ (rows_of python conn query params) _ (rows_of-Fits python conn query params)
        λ rows _. each_row-Fits make rows h

  -- What the server answers for the status variables.
  answered :
      (answer : Option (List (List Cell))) (context : TelemetryContext) (observed_at : String)
      → ((rows : List (List Cell))
          → answer ≡ some rows
          → All (λ row. is_named python row ≡ true) rows)
      → Fits (All IsAccepted) (
          or_raise answer (trouble query_failed) >>= λ rows.
          status_fields python rows [] >>= λ fields.
          status_points python context observed_at fields)
  unfolding Fits
  answered none context observed_at named = tt
  answered (some rows) context observed_at named =
      >>=-Fits _ (status_fields python rows []) _
        (status_fields-Fits python rows [] (named rows refl) tt)
        λ fields h. status_points-Fits python context observed_at fields h

  global_status-IsFit :
      ((rows : List (List Cell))
        → conn "global_status_v2.sql" (map text_param global_status_names) ≡ some rows
        → All (λ row. is_named python row ≡ true) rows)
      → IsFit (collect_global_status python)
  unfolding collect_global_status rows_of
  global_status-IsFit named context plan observed_at =
      answered (conn "global_status_v2.sql" (map text_param global_status_names)) context
        observed_at named

  collectors-IsFit : IsFit (collect_global_status python) → Values IsFit (group_collectors python)
  unfolding group_collectors collect_innodb_metrics collect_global_variables collect_file_io
      collect_process_states collect_statement_digests collect_schema_size collect_table_io
      collect_index_io
  collectors-IsFit status = (
    status,
    (
      λ context plan at. over_rows _ _ _ (innodb_metric_row-Made python conn context plan at),
      (
        λ context plan at. over_rows _ _ _ (global_variable_row-Made python conn context plan at),
        (
          λ context plan at. over_rows _ _ _ (file_io_row-Made python conn context plan at),
          (
            λ context plan at. over_rows _ _ _ (process_state_row-Made python conn context plan at),
            (
              λ context plan at.
                  over_rows _ _ _ (statement_digest_row-Made python conn context plan at),
              (
                λ context plan at.
                    over_rows _ _ _ (schema_size_row-Made python conn context plan at),
                (
                  λ context plan at.
                      over_rows _ _ _ (table_io_row-Made python conn context plan at),
                  (
                    λ context plan at.
                        over_rows _ _ _ (index_io_row-Made python conn context plan at),
                    tt,
                  ),
                ),
              ),
            ),
          ),
        ),
      ),
    ),
  )

  -- If the server answers the query for status variables with variables that it was asked for, then
  -- whatever the rows hold, no collector of the table raises a contract error, and each point that
  -- it returns is one that the repository's catalog accepts.
  pub collector-Fits :
      (name : String) (collector : Collector Cell) (context : TelemetryContext) (plan : GroupPlan)
      (observed_at : String)
      → lookup name (group_collectors python) ≡ some collector
      → ((rows : List (List Cell))
          → conn "global_status_v2.sql" (map text_param global_status_names) ≡ some rows
          → All (λ row. is_named python row ≡ true) rows)
      → Fits (All IsAccepted) (collector conn context plan observed_at)
  collector-Fits name collector context plan observed_at found named =
      Values-lookup IsFit name (group_collectors python)
        (collectors-IsFit (global_status-IsFit named)) found context plan observed_at
