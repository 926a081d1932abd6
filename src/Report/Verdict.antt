-- ===== src/Report/Verdict.antt =====
-- performance_report.py: the quality issues and the overall result of `render_report`.
use azure_mysql_monitoring.Prelude.{
  eqb, if◌then◌else◌, length, is_empty, any, ℕ, String, Bool, true, false, not, ◌&&◌, ◌||◌, List,
  [], ◌∷◌, ◌==◌,
}
use azure_mysql_monitoring.Prelude.Text.{contains}
use azure_mysql_monitoring.Report.{RunSelection, regression, MetricComparison, differs_beyond}
use azure_mysql_monitoring.Report.Comparisons.{SummaryRow, is_same, Comparisons, build_comparisons}

-- A row of the inventory.
pub record InventoryRow : Type 0 where
  pub selection : RunSelection
  pub duration_seconds : ℕ

pub record Limits : Type 0 where
  pub max_duration_difference : ℕ
  pub max_sample_difference : ℕ
  pub material_change : ℕ

-- `duration_by_pair.get(key, 0.0)`: the last row of a pair counts.
unfoldable pub duration_of : RunSelection → List InventoryRow → ℕ → ℕ
duration_of key [] found = found
duration_of key (row ∷ rows) found =
    duration_of key rows (if is_same row.selection key then row.duration_seconds else found)

pub data Issue : Type 0 where
  pairs_not_found durations_differ samples_differ : Issue
  nothing_compared required_missing required_not_positive no_iops no_latency : Issue

abbrev pub required_metrics : List String
required_metrics = "QPS" ∷ "Query p95 ms" ∷ "Query p99 ms" ∷ []

-- The issues whose tests hold, in their order.
unfoldable pub reported_of : List (Bool × Issue) → List Issue
reported_of [] = []
reported_of ((true, issue) ∷ tests) = issue ∷ reported_of tests
reported_of ((false, issue) ∷ tests) = reported_of tests

-- A metric of the list was compared.
unfoldable pub has_metric : String → List MetricComparison → Bool
has_metric metric [] = false
has_metric metric (c ∷ comparisons) = c.metric == metric || has_metric metric comparisons

abbrev pub is_not_positive : MetricComparison → Bool
is_not_positive c = contains required_metrics c.metric && (eqb c.baseline 0 || eqb c.candidate 0)

abbrev pub is_regression : MetricComparison → Bool
is_regression c = elim c.verdict [ regression ↦ true | _ ↦ false ]

-- The tests before each `quality_issues.append`.
abbrev pub quality_tests :
    List InventoryRow → RunSelection → RunSelection → Comparisons → Limits → List (Bool × Issue)
quality_tests inventory baseline candidate found limits =
    (not (eqb (length inventory) 2), pairs_not_found)
    ∷ (
      differs_beyond limits.max_duration_difference (duration_of baseline inventory 0)
          (duration_of candidate inventory 0),
      durations_differ,
    )
    ∷ (any (λ e. differs_beyond limits.max_sample_difference e.1.0 e.1.1) found.1, samples_differ)
    ∷ (is_empty found.0, nothing_compared)
    ∷ (any (λ name. not (has_metric name found.0)) required_metrics, required_missing)
    ∷ (any is_not_positive found.0, required_not_positive)
    ∷ (not (has_metric "Read IOPS" found.0 || has_metric "Write IOPS" found.0), no_iops)
    ∷ (
      not (has_metric "Read latency ms" found.0 || has_metric "Write latency ms" found.0),
      no_latency,
    )
    ∷ []

unfoldable pub quality_issues :
    List InventoryRow → RunSelection → RunSelection → Comparisons → Limits → List Issue
unfolding reported_of
quality_issues inventory baseline candidate found limits =
    reported_of (quality_tests inventory baseline candidate found limits)

pub data Overall : Type 0 where
  undecided regressed passed : Overall

unfoldable pub overall_of : List Issue → List MetricComparison → Overall
overall_of [] comparisons = if any is_regression comparisons then regressed else passed
overall_of (issue ∷ issues) comparisons = undecided

-- The overall result that `main` reports of what the two queries returned.
unfoldable pub evaluate :
    List InventoryRow → List SummaryRow → RunSelection → RunSelection → Limits → Overall
unfolding quality_issues overall_of build_comparisons
evaluate inventory rows baseline candidate limits =
    let found = build_comparisons rows baseline candidate limits.material_change in
    overall_of (quality_issues inventory baseline candidate found limits) found.0
