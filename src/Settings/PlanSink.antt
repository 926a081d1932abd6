-- ===== src/Settings/PlanSink.antt =====
-- mysql-internal/collector/runtime.py: `PlanSinkConfig`, the settings of the sinks where a plan gives
-- those of the targets.
use azure_mysql_monitoring.Prelude.{is_empty, String, not, [], ◌∷◌}
use azure_mysql_monitoring.Prelude.Result.{Result, raise_if}
use azure_mysql_monitoring.Settings.{ConfigError, adx_missing, Environ, optional, unset_names}
use azure_mysql_monitoring.Settings.Connection.{SinkKind, SinkError, build_sink_with}

pub record PlanSinkConfig : Type 0 where
  pub adx_ingest_uri : String
  pub adx_cluster_uri : String
  pub adx_database : String

-- `PlanSinkConfig.from_env`
unfoldable pub plan_sink_config : Environ → PlanSinkConfig
unfolding optional
plan_sink_config environ = record {
  adx_ingest_uri = optional environ "ADX_INGEST_URI" "";
  adx_cluster_uri = optional environ "ADX_CLUSTER_URI" "";
  adx_database = optional environ "ADX_DATABASE" "";
}

-- `PlanSinkConfig.require_adx`
unfoldable pub require_plan_adx : PlanSinkConfig → Result ConfigError (Unit {0})
unfolding unset_names
require_plan_adx config =
    let missing =
      unset_names
        (("ADX_INGEST_URI", config.adx_ingest_uri) ∷ ("ADX_DATABASE", config.adx_database) ∷ []) in
    raise_if (not (is_empty missing)) (adx_missing missing)

-- `build_sink` with the settings of a plan.
unfoldable pub build_plan_sink : String → PlanSinkConfig → Result SinkError SinkKind
unfolding build_sink_with require_plan_adx
build_plan_sink kind config = build_sink_with (require_plan_adx config) kind
