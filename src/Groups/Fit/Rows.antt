-- ===== src/Groups/Fit/Rows.antt =====
-- The points of each collector are accepted, or it raises something else than a contract error.
use azure_mysql_monitoring.Prelude.{
  All, ℕ, String, ◌≡◌, refl, true, false, List, [], ◌∷◌, drop, Bool-cases, Option-cases, inl, inr,
  ◌||◌,
}
use azure_mysql_monitoring.Groups.Fit.{Fits, IsAccepted, >>=-Fits, unpack-Fits, column-Fits}
use azure_mysql_monitoring.Groups.Fit.Literals.{suits, literals-Fits}
use azure_mysql_monitoring.Groups.Fit.Points.{IsMeasured}
use azure_mysql_monitoring.Groups.Rows.{
  Raising, Python, Connection, Literal, dict, point, unpack, column, str_or, Tried, int_or_zero,
}
use azure_mysql_monitoring.Groups.Server.{
  process_state_row, statement_digest_fields, statement_digest_row, process_state_fields,
  innodb_field, innodb_metric_row, variable_fields, global_variable_row,
}
use azure_mysql_monitoring.Groups.Storage.{
  schema_size_fields, schema_size_row, table_io_fields, table_io_row, index_io_fields, index_io_row,
  file_io_fields, file_io_point, file_io_row,
}
use azure_mysql_monitoring.Plan.Group.{GroupPlan}
use azure_mysql_monitoring.Prelude.Dict.{Dict, keys}
use azure_mysql_monitoring.Prelude.Int.{ℤ, pos}
use azure_mysql_monitoring.Prelude.Result.{ok, ◌>>=◌, ◌>>◌}
use azure_mysql_monitoring.Prelude.Text.{is_blank}
use azure_mysql_monitoring.Telemetry.Measurements.{
  mysql_process_state, repository_catalog, mysql_statement_digest, mysql_schema_size,
  mysql_table_io, mysql_index_io, mysql_file_io, mysql_innodb_metric, mysql_global_variable,
}
use azure_mysql_monitoring.Telemetry.Point.{MeasurementSpec, TelemetryContext, TelemetryPoint}

module _ {Cell : Type 0} (python : Python Cell) (conn : Connection Cell)
    (context : TelemetryContext) (plan : GroupPlan) (observed_at : String) where
  abbrev Made : Raising (List TelemetryPoint) → Type 0
  Made = Fits (All IsAccepted)

  -- A column is read, and the rest fits whatever it is.
  with_column :
      (n : ℕ) (row : List Cell) (k : Cell → Raising (List TelemetryPoint))
      → ((cell : Cell) → Made (k cell))
      → Made (column python n row >>= k)
  with_column n row k h =
      >>=-Fits _ (column python n row) k (column-Fits python n row) λ cell _. h cell

  unpacked :
      (n : ℕ) (row : List Cell) (k : Raising (List TelemetryPoint))
      → Made k
      → Made (unpack python n row >> k)
  unpacked n row k h = >>=-Fits _ (unpack python n row) _ (unpack-Fits python n row) λ _ _. h

  -- The one point of a row.
  one_point :
      (name : String) (spec : MeasurementSpec) (literals : Dict Literal) (tags : Dict String)
      → is_blank name ≡ false
      → IsMeasured name spec
      → suits spec literals (keys tags) ≡ true
      → Made (
          dict literals >>= λ fields.
          point context observed_at name fields tags >>= λ made. ok (made ∷ []))
  unfolding Fits
  one_point name spec literals tags named measured suited =
      literals-Fits _ context observed_at name spec literals tags _ named measured suited
        λ fields accepted.
          >>=-Fits _ (point context observed_at name fields tags) _ accepted λ made h. (h, tt)

  pub statement_digest_row-Made :
      (row : List Cell) → Made (statement_digest_row python context observed_at row)
  unfolding statement_digest_row suits repository_catalog
  statement_digest_row-Made row = unpacked 14 row _ (
      with_column 0 row _ λ schema. with_column 1 row _ λ digest. with_column 2 row _ λ executions.
        with_column 3 row _ λ latency. with_column 4 row _ λ lock_time.
          with_column 5 row _ λ rows_examined. with_column 6 row _ λ rows_sent.
            with_column 7 row _ λ errors. with_column 8 row _ λ warnings.
              with_column 9 row _ λ tmp_tables. with_column 10 row _ λ tmp_disk_tables.
                with_column 11 row _ λ no_index. with_column 12 row _ λ p95.
                  with_column 13 row _ λ p99.
                    one_point "mysql.statement_digest" mysql_statement_digest
                      (statement_digest_fields python executions latency lock_time rows_examined
                        rows_sent errors warnings tmp_tables tmp_disk_tables no_index p95 p99)
                      (("schema", str_or python "(none)" schema)
                        ∷ ("digest", python.to_str digest)
                        ∷ [])
                      refl (_, refl, refl) refl)

  pub process_state_row-Made :
      (row : List Cell) → Made (process_state_row python context observed_at row)
  unfolding process_state_row suits repository_catalog
  process_state_row-Made row = unpacked 4 row _ (
      with_column 0 row _ λ command. with_column 1 row _ λ status. with_column 2 row _ λ sessions.
        with_column 3 row _ λ oldest.
          one_point "mysql.process_state" mysql_process_state
            (process_state_fields python sessions oldest)
            (("command", str_or python "(none)" command)
              ∷ ("state", str_or python "(none)" status)
              ∷ [])
            refl (_, refl, refl) refl)

  pub schema_size_row-Made :
      (row : List Cell) → Made (schema_size_row python context observed_at row)
  unfolding schema_size_row suits repository_catalog
  schema_size_row-Made row = unpacked 7 row _ (
      with_column 0 row _ λ schema. with_column 1 row _ λ table. with_column 2 row _ λ engine.
        with_column 3 row _ λ rows. with_column 4 row _ λ data_bytes.
          with_column 5 row _ λ index_bytes. with_column 6 row _ λ free_bytes.
            one_point "mysql.schema_size" mysql_schema_size
              (schema_size_fields python rows data_bytes index_bytes free_bytes)
              (("schema", python.to_str schema)
                ∷ ("table", python.to_str table)
                ∷ ("engine", python.to_str engine)
                ∷ [])
              refl (_, refl, refl) refl)

  pub table_io_row-Made : (row : List Cell) → Made (table_io_row python context observed_at row)
  unfolding table_io_row suits repository_catalog
  table_io_row-Made row =
      (with_column 0 row _ λ schema. with_column 1 row _ λ table.
        one_point "mysql.table_io" mysql_table_io (table_io_fields python (drop 2 row))
          (("schema", python.to_str schema) ∷ ("table", python.to_str table) ∷ []) refl
          (_, refl, refl) refl)

  pub index_io_row-Made : (row : List Cell) → Made (index_io_row python context observed_at row)
  unfolding index_io_row suits repository_catalog
  index_io_row-Made row = unpacked 5 row _ (
      with_column 0 row _ λ schema. with_column 1 row _ λ table. with_column 2 row _ λ index.
        with_column 3 row _ λ fetches. with_column 4 row _ λ wait_ps.
          one_point "mysql.index_io" mysql_index_io (index_io_fields python fetches wait_ps)
            (("schema", python.to_str schema)
              ∷ ("table", python.to_str table)
              ∷ ("index", python.to_str index)
              ∷ [])
            refl (_, refl, refl) refl)

  file_io_point-Fits :
      (event : Cell) (mode : String) (operations : Cell) (byte_count : Tried ℤ) (wait_ps : Cell)
      → Fits IsAccepted
          (file_io_point python context observed_at event mode operations byte_count wait_ps)
  unfolding file_io_point suits repository_catalog
  file_io_point-Fits event mode operations byte_count wait_ps =
      literals-Fits _ context observed_at "mysql.file_io" mysql_file_io
        (file_io_fields python operations byte_count wait_ps)
        (("event", python.to_str event) ∷ ("mode", mode) ∷ []) _ refl (_, refl, refl) refl
        λ fields accepted. accepted

  with_mode :
      (event : Cell) (mode : String) (operations : Cell) (byte_count : Tried ℤ) (wait_ps : Cell)
      (k : TelemetryPoint → Raising (List TelemetryPoint))
      → ((p : TelemetryPoint) → IsAccepted p → Made (k p))
      → Made
          (file_io_point python context observed_at event mode operations byte_count wait_ps >>= k)
  with_mode event mode operations byte_count wait_ps k rest =
      >>=-Fits _ _ k (file_io_point-Fits event mode operations byte_count wait_ps) rest

  pub file_io_row-Made : (row : List Cell) → Made (file_io_row python context observed_at row)
  unfolding file_io_row Fits
  file_io_row-Made row = unpacked 9 row _ (
      with_column 0 row _ λ event. with_column 1 row _ λ read_count.
        with_column 2 row _ λ read_bytes. with_column 3 row _ λ read_wait.
          with_column 4 row _ λ write_count. with_column 5 row _ λ write_bytes.
            with_column 6 row _ λ write_wait. with_column 7 row _ λ misc_count.
              with_column 8 row _ λ misc_wait.
                with_mode event "read" read_count (int_or_zero python read_bytes) read_wait _
                  λ reads a.
                    with_mode event "write" write_count (int_or_zero python write_bytes) write_wait
                      _
                      λ writes b.
                        with_mode event "misc" misc_count (ok (pos 0)) misc_wait _
                          λ others c. (a, (b, (c, tt))))

  pub innodb_metric_row-Made :
      (row : List Cell) → Made (innodb_metric_row python context observed_at row)
  unfolding innodb_metric_row innodb_field suits repository_catalog
  innodb_metric_row-Made row = unpacked 4 row _ (
      with_column 0 row _ λ name. with_column 1 row _ λ subsystem.
        with_column 2 row _ λ metric_type. with_column 3 row _ λ cell.
          one_point "mysql.innodb_metric" mysql_innodb_metric (innodb_field python metric_type cell)
            (("name", python.to_str name)
              ∷ ("subsystem", python.to_str subsystem)
              ∷ ("metric_type", python.to_str metric_type)
              ∷ [])
            refl (_, refl, refl)
            (elim (Bool-cases
              (python.equals metric_type "counter" || python.equals metric_type "status_counter")) [
                | inl e ↦ rw e refl
                | inr e ↦ rw e refl
              ]))

  pub global_variable_row-Made :
      (row : List Cell) → Made (global_variable_row python context observed_at row)
  unfolding global_variable_row variable_fields suits repository_catalog
  global_variable_row-Made row = unpacked 2 row _ (
      with_column 0 row _ λ name. with_column 1 row _ λ raw.
        one_point "mysql.global_variable" mysql_global_variable (variable_fields python raw)
          (("name", python.to_str name) ∷ []) refl (_, refl, refl)
          (elim (Option-cases (python.to_float raw)) [
            | inl e ↦ rw (e, variable_fields) refl
            | inr (number, e) ↦ rw (e, variable_fields) refl
          ]))
