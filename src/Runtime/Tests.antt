-- ===== src/Runtime/Tests.antt =====
-- Two sinks, of which the first one raises, and the theorem about the writer at them.
use azure_mysql_monitoring.Prelude.{All, ◌≡◌, refl, true, false, List, [], ◌∷◌, map}
use azure_mysql_monitoring.Prelude.Int.{pos}
use azure_mysql_monitoring.Prelude.Result.{ok}
use azure_mysql_monitoring.Runtime.Sinks.{Sink, Written, write_points, write_points_lem}
use azure_mysql_monitoring.Telemetry.Catalog.{MetricCatalog, validate}
use azure_mysql_monitoring.Telemetry.Point.{real, gauge, float_type, TelemetryPoint}

abbrev sinks : List Sink
sinks = record { name = "jsonl"; raises = true } ∷ record { name = "adx"; raises = false } ∷ []

abbrev catalog : MetricCatalog
catalog =
    (
      "collector.health",
      record {
        name = "collector.health";
        fields =
            (
              "heartbeat",
              record {
                kind = gauge;
                unit = "state";
                value_type = float_type;
                series = true;
                required = true;
              },
            )
            ∷ [];
        tags = [];
      },
    )
    ∷ []

abbrev point : TelemetryPoint
point = record {
  observed_at = "2026-01-01T00:00:00.000Z";
  context = record {
    run_id = "run";
    target_id = "a";
    host = "db";
    tier = "premium-ssd-v2";
    azure_resource_id = "";
    collector_id = "c";
  };
  measurement = "collector.health";
  fields = ("heartbeat", real (pos 1) 0) ∷ [];
  tags = [];
}

abbrev written : Written TelemetryPoint
written = record { calls = ("jsonl", point ∷ []) ∷ ("adx", point ∷ []) ∷ []; logged = "jsonl" ∷ [] }

point_written : write_points catalog sinks (point ∷ []) ≡ ok written
unfolding write_points validate
point_written = refl

write_points_lem_example :
    (written.calls ≡ map (λ s. (s.name, point ∷ [])) sinks)
    × All (λ p. validate catalog p ≡ ok p) (point ∷ [])
write_points_lem_example = write_points_lem catalog sinks point [] written point_written
