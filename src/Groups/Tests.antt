-- ===== src/Groups/Tests.antt =====
-- A driver whose cells are integers or NULL, and the theorem about the collectors at it.
use mathlib.Core.Option.{some-injective}
use azure_mysql_monitoring.Prelude.{
  All, ◌≡◌, refl, subst, true, false, not, Option, none, some, [], ◌∷◌,
}
use azure_mysql_monitoring.Groups.Collectors.{group_collectors}
use azure_mysql_monitoring.Groups.Fit.{Fits, IsAccepted}
use azure_mysql_monitoring.Groups.Fit.Collectors.{collector-Fits}
use azure_mysql_monitoring.Groups.Fit.Status.{is_named}
use azure_mysql_monitoring.Groups.Rows.{Python, Connection, column}
use azure_mysql_monitoring.Groups.Server.{collect_global_status}
use azure_mysql_monitoring.Plan.Group.{GroupPlan}
use azure_mysql_monitoring.Prelude.Dict.{lookup}
use azure_mysql_monitoring.Prelude.Int.{ℤ, pos, is_zero}
use azure_mysql_monitoring.Prelude.Result.{ok}
use azure_mysql_monitoring.Telemetry.Measurements.{repository_catalog}
use azure_mysql_monitoring.Telemetry.Point.{real, TelemetryContext}

abbrev python : Python (Option ℤ)
python = record {
  truthy = λ cell. elim cell [ none ↦ false | some z ↦ not (is_zero z) ];
  to_int = λ cell. cell;
  to_float = λ cell. elim cell [ none ↦ none | some z ↦ some (z, 0) ];
  to_str = λ cell. elim cell [ none ↦ "None" | some z ↦ "Uptime" ];
  equals = λ cell name. false;
}

abbrev conn : Connection (Option ℤ)
conn query params = some ((some (pos 7) ∷ some (pos 60) ∷ []) ∷ [])

abbrev context : TelemetryContext
context = record {
  run_id = "run";
  target_id = "a";
  host = "db";
  tier = "premium-ssd-v2";
  azure_resource_id = "";
  collector_id = "c";
}

abbrev plan : GroupPlan
plan = record { name = "global-status"; interval = 10000; top_k = none; options = [] }

collected :
    collect_global_status python conn context plan "2026-01-01T00:00:00.000Z"
    ≡ ok (
        record {
          observed_at = "2026-01-01T00:00:00.000Z";
          context = context;
          measurement = "mysql.global_status";
          fields = ("Uptime", real (pos 60) 0) ∷ [];
          tags = [];
        }
        ∷ [])
unfolding collect_global_status column repository_catalog
collected = refl

collector-Fits_example :
    Fits
      (All IsAccepted)
      (collect_global_status python conn context plan "2026-01-01T00:00:00.000Z")
unfolding group_collectors lookup is_named
collector-Fits_example =
    collector-Fits python conn "global-status" (collect_global_status python) context plan
      "2026-01-01T00:00:00.000Z" refl
      (λ rows e. subst (All (λ row. is_named python row ≡ true)) (some-injective _ _ e) (refl, tt))
