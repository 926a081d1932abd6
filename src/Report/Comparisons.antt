-- ===== src/Report/Comparisons.antt =====
-- performance_report.py: `build_comparisons`.
pub mod Grouped
pub mod Coverage
use Prim.Native.Char.{code}
use azure_mysql_monitoring.Prelude.{
  ltb, eqb, if◌then◌else◌, ℕ, String, Bool, true, false, ◌&&◌, Option, none, some, List, [], ◌∷◌,
  ◌==◌,
}
use azure_mysql_monitoring.Collector.Metrics.{metric}
use azure_mysql_monitoring.Prelude.Dict.{Dict, lookup, get_or, insert}
use azure_mysql_monitoring.Report.{RunSelection, MetricComparison, compare_metric}
use azure_mysql_monitoring.Spool.Step.{then}
use azure_mysql_monitoring.Workload.Balance.{held}

-- A row of the summary.
pub record SummaryRow : Type 0 where
  pub metric : String
  pub selection : RunSelection
  pub p95 : ℕ
  pub samples : ℕ

abbrev pub is_same : RunSelection → RunSelection → Bool
is_same a b = (a.run_id == b.run_id) && (a.target_id == b.target_id)

abbrev pub Runs : Type 0
Runs = List (RunSelection × SummaryRow)

-- The rows of a metric by run and target: a later row takes the place of an earlier one.
put_run : RunSelection → SummaryRow → Runs → Runs
put_run key row [] = (key, row) ∷ []
put_run key row ((other, held) ∷ runs) =
    if is_same other key then (other, row) ∷ runs else (other, held) ∷ put_run key row runs

pub get_run : RunSelection → Runs → Option SummaryRow
get_run key [] = none
get_run key ((other, held) ∷ runs) = if is_same other key then some held else get_run key runs

pub group_by_metric : List SummaryRow → Dict Runs → Dict Runs
unfolding insert lookup put_run
group_by_metric [] groups = groups
group_by_metric (row ∷ rows) groups =
    group_by_metric rows
      (insert row.metric (put_run row.selection row (get_or row.metric groups [])) groups)

-- Python's order of texts: by the code points.
is_before : String → String → Bool
is_before String.[] t = true
is_before (String.◌∷◌ c s) String.[] = false
is_before (String.◌∷◌ c s) (String.◌∷◌ d t) =
    let rest = is_before s t in
    if ltb (code c) (code d) then true else if eqb (code c) (code d) then rest else false

place_metric : String → Runs → Dict Runs → Dict Runs
unfolding is_before
place_metric metric runs [] = (metric, runs) ∷ []
place_metric metric runs ((other, held) ∷ rest) =
    if is_before metric other
    then (metric, runs) ∷ (other, held) ∷ rest
    else (other, held) ∷ place_metric metric runs rest

-- `sorted(by_metric.items())`
pub sort_metrics : Dict Runs → Dict Runs
unfolding place_metric
sort_metrics [] = []
sort_metrics ((metric, runs) ∷ rest) = place_metric metric runs (sort_metrics rest)

-- The comparisons, and for each metric the counts of samples on both sides.
abbrev pub Comparisons : Type 0
Comparisons = List MetricComparison × List (String × (ℕ × ℕ))

unfoldable pub add_comparison :
    ℕ → String → Option SummaryRow → Option SummaryRow → Comparisons → Comparisons
unfolding compare_metric
add_comparison material metric (some base_row) (some candidate_row) (comparisons, samples) = (
  compare_metric metric base_row.p95 candidate_row.p95 material ∷ comparisons,
  (metric, (base_row.samples, candidate_row.samples)) ∷ samples,
)
add_comparison material metric _ _ found = found

unfoldable pub compare_all : ℕ → RunSelection → RunSelection → Dict Runs → Comparisons
unfolding get_run add_comparison
compare_all material baseline candidate [] = ([], [])
compare_all material baseline candidate ((metric, runs) ∷ rest) =
    add_comparison material metric (get_run baseline runs) (get_run candidate runs)
      (compare_all material baseline candidate rest)

-- `build_comparisons`
unfoldable pub build_comparisons : List SummaryRow → RunSelection → RunSelection → ℕ → Comparisons
unfolding group_by_metric sort_metrics compare_all
build_comparisons rows baseline candidate material =
    compare_all material baseline candidate (sort_metrics (group_by_metric rows []))
