-- ===== src/Report/Comparisons/Coverage.antt =====
-- performance_report.py, `build_comparisons`: which rows of the summary the comparisons are of.
use azure_mysql_monitoring.Prelude.{
  All, ℕ, String, ◌≡◌, refl, sym, ◌∙◌, inl, inr, Option, none, some, List, [], ◌∷◌, Memᴰ,
  Option-cases, All-mem,
}
use azure_mysql_monitoring.Prelude.Dict.{Dict}
use azure_mysql_monitoring.Report.{RunSelection, MetricComparison, compare_metric}
use azure_mysql_monitoring.Report.Comparisons.{
  SummaryRow, Runs, get_run, group_by_metric, sort_metrics, Comparisons, compare_all,
  add_comparison, build_comparisons,
}
use azure_mysql_monitoring.Report.Comparisons.Grouped.{
  row_of, sort_metrics-All, AreRows, group_by_metric-AreRows, grouped,
}

module _ (rows : List SummaryRow) (baseline candidate : RunSelection) where
  -- The comparison is of the rows of both runs.
  pub record IsOfRows (c : MetricComparison) : Type 0 where
    pub old_row : SummaryRow
    pub new_row : SummaryRow
    pub old_found : row_of baseline c.metric rows none ≡ some old_row
    pub new_found : row_of candidate c.metric rows none ≡ some new_row
    pub old_value : c.baseline ≡ old_row.p95
    pub new_value : c.candidate ≡ new_row.p95

  -- The counts of samples are of the rows of both runs.
  pub record HasCounts (e : String × (ℕ × ℕ)) : Type 0 where
    pub old_row : SummaryRow
    pub new_row : SummaryRow
    pub old_found : row_of baseline e.0 rows none ≡ some old_row
    pub new_found : row_of candidate e.0 rows none ≡ some new_row
    pub old_count : e.1.0 ≡ old_row.samples
    pub new_count : e.1.1 ≡ new_row.samples

  -- There is a comparison, with its counts, for each metric of which both runs have a row, and for
  -- no other.
  pub record Covers (found : Comparisons) : Type 0 where
    pub of_rows : All IsOfRows found.0
    pub counts : All HasCounts found.1
    pub none_missing :
        (metric : String) (old new : SummaryRow)
        → row_of baseline metric rows none ≡ some old
        → row_of candidate metric rows none ≡ some new
        → ((c : MetricComparison) × Memᴰ c found.0
            × (c.metric ≡ metric)
            × (c.baseline ≡ old.p95)
            × (c.candidate ≡ new.p95))
          × Memᴰ (metric, (old.samples, new.samples)) found.1

module _ (rows : List SummaryRow) (baseline candidate : RunSelection) (material : ℕ) where
  compare_all_found :
      (groups : Dict Runs)
      → All (AreRows rows) groups
      → All (IsOfRows rows baseline candidate) (compare_all material baseline candidate groups).0
        × All (HasCounts rows baseline candidate) (compare_all material baseline candidate groups).1
  unfolding compare_all compare_metric
  compare_all_found [] h = (tt, tt)
  compare_all_found ((metric, runs) ∷ rest) h =
      let (compared, counted) = compare_all_found rest h.1 in
      elim (Option-cases (get_run baseline runs)) [
        | inl e ↦ rw (e, compare_all) (compared, counted)
        | inr (old, e) ↦ elim (Option-cases (get_run candidate runs)) [
          | inl f ↦ rw (e, f, compare_all) (compared, counted)
          | inr (new, f) ↦
              let at_old = sym (h.0 baseline) ∙ e in
              let at_new = sym (h.0 candidate) ∙ f in
              rw (e, f, compare_all)
                (
                  (
                    record {
                      old_row = old;
                      new_row = new;
                      old_found = at_old;
                      new_found = at_new;
                      old_value = refl;
                      new_value = refl;
                    },
                    compared,
                  ),
                  (
                    record {
                      old_row = old;
                      new_row = new;
                      old_found = at_old;
                      new_found = at_new;
                      old_count = refl;
                      new_count = refl;
                    },
                    counted,
                  ),
                )
        ]
      ]

  -- The comparison and the counts of a metric are among those found.
  abbrev Has : String → SummaryRow → SummaryRow → Comparisons → Type 0
  Has metric old new found =
      ((c : MetricComparison) × Memᴰ c found.0
        × (c.metric ≡ metric)
        × (c.baseline ≡ old.p95)
        × (c.candidate ≡ new.p95))
      × Memᴰ (metric, (old.samples, new.samples)) found.1

  add_comparison-Has :
      (metric other : String) (old new : SummaryRow) (first second : Option SummaryRow)
      (found : Comparisons)
      → Has metric old new found
      → Has metric old new (add_comparison material other first second found)
  unfolding add_comparison
  add_comparison-Has metric other old new (some a) (some b) found
        ((c, m, named, before, after), counted) =
      ((c, Memᴰ.tail m, named, before, after), Memᴰ.tail counted)
  add_comparison-Has metric other old new none second found h = h
  add_comparison-Has metric other old new (some a) none found h = h

  compare_all-Has :
      (groups : Dict Runs) (metric : String) (runs : Runs) (old new : SummaryRow)
      → Memᴰ (metric, runs) groups
      → get_run baseline runs ≡ some old
      → get_run candidate runs ≡ some new
      → Has metric old new (compare_all material baseline candidate groups)
  unfolding compare_all compare_metric add_comparison
  compare_all-Has [] metric runs old new m h g = elim m [ ]
  compare_all-Has ((other, held) ∷ rest) metric runs old new (Memᴰ.head e) h g =
      let at_old : get_run baseline held ≡ some old = (λ i. get_run baseline (sym e i).1) ∙ h in
      let at_new : get_run candidate held ≡ some new = (λ i. get_run candidate (sym e i).1) ∙ g in
      rw (at_old, at_new, compare_all)
        (
          (
            compare_metric other old.p95 new.p95 material,
            Memᴰ.head refl,
            (λ i. (sym e i).0),
            refl,
            refl,
          ),
          Memᴰ.head (λ i. ((e i).0, (old.samples, new.samples))),
        )
  compare_all-Has ((other, held) ∷ rest) metric runs old new (Memᴰ.tail m) h g =
      add_comparison-Has metric other old new (get_run baseline held) (get_run candidate held) _
        (compare_all-Has rest metric runs old new m h g)

  -- The comparisons of `build_comparisons` are those of the rows.
  pub build_comparisons-Covers :
      Covers rows baseline candidate (build_comparisons rows baseline candidate material)
  unfolding build_comparisons
  build_comparisons-Covers =
      let groups = sort_metrics (group_by_metric rows []) in
      let are_rows : All (AreRows rows) groups =
        sort_metrics-All (AreRows rows) (group_by_metric rows []) (group_by_metric-AreRows rows) in
      let (compared, counted) = compare_all_found groups are_rows in
      record {
        of_rows = compared;
        counts = counted;
        none_missing = λ metric old new h g.
            let (runs, there) = grouped rows baseline metric old h in
            let same = All-mem (AreRows rows) groups are_rows there in
            compare_all-Has groups metric runs old new there (same baseline ∙ h)
              (same candidate ∙ g);
      }
