-- ===== src/Report/Pass.antt =====
-- What the overall result PASS says of the measurements.
use azure_mysql_monitoring.Prelude.{
  length, All, ℕ, ◌+◌, ◌-◌, ◌*◌, ◌≤◌, ◌<◌, max, ◌≡◌, ◌⊎◌, true, false, List,
}
use azure_mysql_monitoring.Collector.Cycles.{allowed}
use azure_mysql_monitoring.Prelude.Dict.{Dict}
use azure_mysql_monitoring.Prelude.Text.{contains}
use azure_mysql_monitoring.Report.{RunSelection, MetricComparison, compare_metric}
use azure_mysql_monitoring.Report.Comparisons.{Comparisons}
use azure_mysql_monitoring.Report.Verdict.{
  InventoryRow, Limits, duration_of, required_metrics, has_metric,
}
use azure_mysql_monitoring.Report.Worse.{Worse}

-- Two numbers differ by at most a part of the greater one.
pub Near : ℕ → ℕ → ℕ → Type 0
Near allowed one other = 10000 * ((one - other) + (other - one)) ≤ allowed * max one other

pub record IsConvincing (inventory : List InventoryRow) (baseline candidate : RunSelection)
    (found : Comparisons) (limits : Limits) : Type 0 where
  pub both_found : length inventory ≡ 2
  pub same_length :
      Near limits.max_duration_difference
        (duration_of baseline inventory 0)
        (duration_of candidate inventory 0)
  pub same_samples : All (λ e. Near limits.max_sample_difference e.1.0 e.1.1) found.1
  pub all_required : All (λ name. has_metric name found.0 ≡ true) required_metrics
  pub required_positive :
      All
        (λ c. (contains required_metrics c.metric ≡ false) ⊎ ((0 < c.baseline) × (0 < c.candidate)))
        found.0
  pub some_iops : (has_metric "Read IOPS" found.0 ≡ true) ⊎ (has_metric "Write IOPS" found.0 ≡ true)
  pub some_latency :
      (has_metric "Read latency ms" found.0 ≡ true) ⊎ (has_metric "Write latency ms" found.0 ≡ true)
  pub none_worse : All (λ c. ¬ Worse limits.material_change c) found.0

-- Each comparison is one of `compare_metric`.
IsCompared : ℕ → MetricComparison → Type 0
IsCompared material c = c ≡ compare_metric c.metric c.baseline c.candidate material
