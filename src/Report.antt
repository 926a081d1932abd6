-- ===== src/Report.antt =====
-- benchmark-integration/performance_report.py. A measured value is a natural number of some unit, a
-- percentage a number of hundredths of a percent; quotients are compared without rounding.
pub mod Comparisons
pub mod Verdict
pub mod Worse
pub mod Issues
pub mod Pass
mod Tests
use azure_mysql_monitoring.Prelude.{
  ltb, leb, eqb, if◌then◌else◌, ℕ, ◌+◌, ◌-◌, ◌*◌, max, String, Bool, not, ◌||◌, List, [], ◌∷◌,
}
use azure_mysql_monitoring.Prelude.Text.{contains}
use azure_mysql_monitoring.Spool.Step.{then}

abbrev higher_is_better : List String
higher_is_better =
    "QPS" ∷ "Read IOPS" ∷ "Write IOPS" ∷ "Read throughput MiB/s" ∷ "Write throughput MiB/s" ∷ []

abbrev lower_is_better : List String
lower_is_better =
    "Read latency ms" ∷ "Write latency ms" ∷ "Query p95 ms" ∷ "Query p99 ms" ∷ "Query errors/s"
    ∷ "Redo log waits/s" ∷ []

pub record RunSelection : Type 0 where
  pub run_id : String
  pub target_id : String

-- The word that a comparison ends with.
pub data Finding : Type 0 where
  inconclusive no_material_change improvement regression : Finding

-- `percent_change`: 0, infinity, or 100 · (candidate - baseline) / baseline.
pub data Change : Type 0 where
  no_change infinite : Change
  relative : ℕ → ℕ → Change

pub record MetricComparison : Type 0 where
  pub metric : String
  pub baseline : ℕ
  pub candidate : ℕ
  pub percent_change : Change
  pub verdict : Finding

-- `change >= material_change_pct`, over a baseline that is not 0.
abbrev rises : ℕ → ℕ → ℕ → Bool
rises material baseline candidate = leb (10000 * baseline + material * baseline) (10000 * candidate)

-- `change <= -material_change_pct`
abbrev falls : ℕ → ℕ → ℕ → Bool
falls material baseline candidate = leb (10000 * candidate + material * baseline) (10000 * baseline)

pub is_higher_better : String → Bool
is_higher_better metric = contains higher_is_better metric

pub is_lower_better : String → Bool
is_lower_better metric = contains lower_is_better metric

-- Without a baseline.
compare_from_zero : String → ℕ → Change × Finding
unfolding is_higher_better is_lower_better
compare_from_zero metric candidate =
    if not (is_higher_better metric || is_lower_better metric)
    then (no_change, inconclusive)
    else if eqb candidate 0
    then (no_change, no_material_change)
    else (infinite, if is_higher_better metric then improvement else regression)

verdict_of : String → ℕ → ℕ → ℕ → Finding
unfolding is_higher_better is_lower_better
verdict_of metric baseline candidate material =
    if is_higher_better metric
    then if rises material baseline candidate
      then improvement
      else if falls material baseline candidate
      then regression
      else no_material_change
    else if is_lower_better metric
    then if falls material baseline candidate
      then improvement
      else if rises material baseline candidate
      then regression
      else no_material_change
    else inconclusive

-- `compare_metric`
unfoldable pub compare_metric : String → ℕ → ℕ → ℕ → MetricComparison
unfolding compare_from_zero verdict_of
compare_metric metric baseline candidate material =
    let (change, verdict) =
      if eqb baseline 0
      then compare_from_zero metric candidate
      else (relative baseline candidate, verdict_of metric baseline candidate material) in
    record {
      metric = metric;
      baseline = baseline;
      candidate = candidate;
      percent_change = change;
      verdict = verdict;
    }

-- `relative_difference(left, right) > limit`, where the greater of both is the denominator.
unfoldable pub differs_beyond : ℕ → ℕ → ℕ → Bool
differs_beyond allowed one other =
    ltb (allowed * max one other) (10000 * ((one - other) + (other - one)))
