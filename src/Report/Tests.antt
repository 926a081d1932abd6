-- ===== src/Report/Tests.antt =====
-- Two runs that differ little, and the theorem about the result at them.
use azure_mysql_monitoring.Prelude.{ℕ, String, ◌≡◌, refl, List, [], ◌∷◌}
use azure_mysql_monitoring.Report.{RunSelection, differs_beyond}
use azure_mysql_monitoring.Report.Comparisons.{SummaryRow}
use azure_mysql_monitoring.Report.Verdict.{
  InventoryRow, Limits, passed, evaluate, duration_of, has_metric,
}

abbrev old_run : RunSelection
old_run = record { run_id = "run-1"; target_id = "v1" }

abbrev new_run : RunSelection
new_run = record { run_id = "run-2"; target_id = "v2" }

abbrev row : String → RunSelection → ℕ → SummaryRow
row metric selection p95 = record {
  metric = metric;
  selection = selection;
  p95 = p95;
  samples = 100;
}

abbrev rows : List SummaryRow
rows =
    row "QPS" old_run 1000
    ∷ row "QPS" new_run 990
    ∷ row "Query p95 ms" old_run 40
    ∷ row "Query p95 ms" new_run 41
    ∷ row "Query p99 ms" old_run 80
    ∷ row "Query p99 ms" new_run 70
    ∷ row "Read IOPS" old_run 500
    ∷ row "Read IOPS" new_run 900
    ∷ row "Read latency ms" old_run 2
    ∷ row "Read latency ms" new_run 2
    ∷ []

abbrev inventory : List InventoryRow
inventory =
    record { selection = old_run; duration_seconds = 600 }
    ∷ record { selection = new_run; duration_seconds = 610 }
    ∷ []

abbrev limits : Limits
limits = record {
  max_duration_difference = 1000;
  max_sample_difference = 2000;
  material_change = 500;
}

evaluated : evaluate inventory rows old_run new_run limits ≡ passed
unfolding evaluate duration_of differs_beyond has_metric
evaluated = refl
