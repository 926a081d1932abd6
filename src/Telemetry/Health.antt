-- ===== src/Telemetry/Health.antt =====
-- mysql-internal/collector/runtime.py: `TargetWorker._health_point`, and the catalog's answer to it.
use azure_mysql_monitoring.Prelude.{
  if◌then◌else◌, ℕ, String, ◌≡◌, refl, Bool, Option, none, some, [], ◌∷◌,
}
use azure_mysql_monitoring.Prelude.Dict.{Dict}
use azure_mysql_monitoring.Prelude.Int.{ℤ, pos}
use azure_mysql_monitoring.Prelude.Result.{ok}
use azure_mysql_monitoring.Telemetry.Catalog.{MetricCatalog, validate}
use azure_mysql_monitoring.Telemetry.Measurements.{repository_catalog}
use azure_mysql_monitoring.Telemetry.Point.{
  FieldValue, real, Checked, TelemetryContext, TelemetryPoint, telemetry_point,
}

-- The fields, where the duration of the last cycle is there or not: mantissa and scale.
health_fields : Bool → Option (ℤ × ℕ) → Dict FieldValue
health_fields reachable none =
    ("heartbeat", real (pos 1) 0)
    ∷ ("mysql_reachable", real (if reachable then pos 1 else pos 0) 0)
    ∷ []
health_fields reachable (some (mantissa, scale)) =
    ("heartbeat", real (pos 1) 0)
    ∷ ("mysql_reachable", real (if reachable then pos 1 else pos 0) 0)
    ∷ ("cycle_duration_ms", real mantissa scale)
    ∷ []

pub health_point : String → TelemetryContext → Bool → Option (ℤ × ℕ) → Checked TelemetryPoint
unfolding health_fields telemetry_point
health_point ts context reachable duration =
    telemetry_point (some ts) context "collector.health" (health_fields reachable duration) []

-- The health point of a worker is always made, and the repository's catalog, which is made without
-- an error, always takes it: with a connection or without, before the first cycle and after it.
pub health_point_accepted :
    (ts : String) (context : TelemetryContext) (reachable : Bool) (duration : Option (ℤ × ℕ))
    → (catalog : MetricCatalog) × (point : TelemetryPoint) × (repository_catalog ≡ ok catalog)
      × (health_point ts context reachable duration ≡ ok point)
      × (validate catalog point ≡ ok point)
unfolding health_point repository_catalog validate
health_point_accepted ts context reachable none = (_, _, refl, refl, refl)
health_point_accepted ts context reachable (some d) = (_, _, refl, refl, refl)
