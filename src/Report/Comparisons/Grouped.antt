-- ===== src/Report/Comparisons/Grouped.antt =====
-- performance_report.py, `build_comparisons`: under which metric and run a row of the summary stands.
use mathlib.Core.Option.{some-injective}
use azure_mysql_monitoring.Prelude.{
  if◌then◌else◌, Bool-cases, All, String, ◌≡◌, refl, sym, ap, ◌∙◌, subst, inl, inr, ◌&&◌, Option,
  none, some, List, [], ◌∷◌, Memᴰ, arith, ◌==◌, eq_iff, Option-cases,
}
use azure_mysql_monitoring.Prelude.Dict.{
  Dict, get_or, insert, lookup-insert, Distinct, Distinct-insert, lookup, lookup-Distinct,
}
use azure_mysql_monitoring.Report.{RunSelection}
use azure_mysql_monitoring.Report.Comparisons.{
  SummaryRow, is_same, Runs, put_run, get_run, group_by_metric, is_before, place_metric,
  sort_metrics,
}

-- The row of a metric and a run: the last one of the list, if there is one, or else the one before.
pub row_of : RunSelection → String → List SummaryRow → Option SummaryRow → Option SummaryRow
row_of key metric [] before = before
row_of key metric (row ∷ rows) before =
    row_of key metric rows
      (if (row.metric == metric) && is_same row.selection key then some row else before)

get_run-put_run :
    (key other : RunSelection) (row : SummaryRow) (runs : Runs)
    → get_run key (put_run other row runs)
      ≡ (if is_same other key then some row else get_run key runs)
unfolding get_run put_run
get_run-put_run key other row [] = refl
get_run-put_run key other row ((third, held) ∷ runs) = ground (
  arith,
  get_run-put_run key other row runs,
  eq_iff third.run_id other.run_id,
  eq_iff third.target_id other.target_id,
  eq_iff third.run_id key.run_id,
  eq_iff third.target_id key.target_id,
  eq_iff other.run_id key.run_id,
  eq_iff other.target_id key.target_id,
)

-- A run of a metric whose rows are looked up.
abbrev run_at : RunSelection → Option Runs → Option SummaryRow
run_at key runs = get_run key (elim runs [ none ↦ [] | some held ↦ held ])

put_row :
    (key : RunSelection) (metric : String) (row : SummaryRow) (groups : Dict Runs)
    → run_at key (
        lookup metric
          (insert row.metric (put_run row.selection row (get_or row.metric groups [])) groups))
      ≡ (if (row.metric == metric) && is_same row.selection key
          then some row
          else run_at key (lookup metric groups))
put_row key metric row groups =
    let placed = put_run row.selection row (get_or row.metric groups []) in
    ap (run_at key) (lookup-insert row.metric metric placed groups)
    ∙ elim (Bool-cases (row.metric == metric)) [
      | inr e ↦ rw e refl
      | inl e ↦ rw e (
          get_run-put_run key row.selection row (get_or row.metric groups []) ∙ λ i.
          if is_same row.selection key
          then some row
          else run_at key (lookup ((eq_iff row.metric metric).0 e i) groups))
    ]

group_by_metric-row_of :
    (key : RunSelection) (metric : String) (rows : List SummaryRow) (groups : Dict Runs)
    → run_at key (lookup metric (group_by_metric rows groups))
      ≡ row_of key metric rows (run_at key (lookup metric groups))
unfolding group_by_metric row_of
group_by_metric-row_of key metric [] groups = refl
group_by_metric-row_of key metric (row ∷ rows) groups =
    group_by_metric-row_of key metric rows _
    ∙ ap (row_of key metric rows) (put_row key metric row groups)

group_by_metric-Distinct :
    (rows : List SummaryRow) (groups : Dict Runs)
    → Distinct groups
    → Distinct (group_by_metric rows groups)
unfolding group_by_metric
group_by_metric-Distinct [] groups h = h
group_by_metric-Distinct (row ∷ rows) groups h =
    group_by_metric-Distinct rows _ (Distinct-insert row.metric _ groups h)

place_metric-All :
    (Q : String × Runs → Type 0) (metric : String) (runs : Runs) (groups : Dict Runs)
    → Q (metric, runs)
    → All Q groups
    → All Q (place_metric metric runs groups)
unfolding place_metric
place_metric-All Q metric runs [] q h = (q, tt)
place_metric-All Q metric runs ((other, held) ∷ rest) q h =
    elim (Bool-cases (is_before metric other)) [
      | inl e ↦ rw e (q, h)
      | inr e ↦ rw e (h.0, place_metric-All Q metric runs rest q h.1)
    ]

pub sort_metrics-All :
    (Q : String × Runs → Type 0) (groups : Dict Runs) → All Q groups → All Q (sort_metrics groups)
unfolding sort_metrics
sort_metrics-All Q [] h = tt
sort_metrics-All Q ((metric, runs) ∷ rest) h =
    place_metric-All Q metric runs (sort_metrics rest) h.0 (sort_metrics-All Q rest h.1)

place_metric-here :
    (metric : String) (runs : Runs) (groups : Dict Runs)
    → Memᴰ (metric, runs) (place_metric metric runs groups)
unfolding place_metric
place_metric-here metric runs [] = Memᴰ.head refl
place_metric-here metric runs ((other, held) ∷ rest) = elim (Bool-cases (is_before metric other)) [
  | inl e ↦ rw e (Memᴰ.head refl)
  | inr e ↦ rw e (Memᴰ.tail (place_metric-here metric runs rest))
]

deeper :
    {A : Type 0} {x y : A} {xs ys : List A}
    → (Memᴰ x xs → Memᴰ x ys)
    → Memᴰ x (y ∷ xs)
    → Memᴰ x (y ∷ ys)
deeper f (Memᴰ.head h) = Memᴰ.head h
deeper f (Memᴰ.tail h) = Memᴰ.tail (f h)

place_metric-there :
    (entry : String × Runs) (metric : String) (runs : Runs) (groups : Dict Runs)
    → Memᴰ entry groups
    → Memᴰ entry (place_metric metric runs groups)
unfolding place_metric
place_metric-there entry metric runs [] m = elim m [ ]
place_metric-there entry metric runs ((other, held) ∷ rest) m =
    elim (Bool-cases (is_before metric other)) [
      | inl e ↦ rw e (Memᴰ.tail m)
      | inr e ↦ rw e (deeper (λ h. place_metric-there entry metric runs rest h) m)
    ]

sort_metrics-Mem :
    (entry : String × Runs) (groups : Dict Runs)
    → Memᴰ entry groups
    → Memᴰ entry (sort_metrics groups)
unfolding sort_metrics
sort_metrics-Mem entry [] m = elim m [ ]
sort_metrics-Mem entry ((metric, runs) ∷ rest) (Memᴰ.head e) =
    subst (λ x. Memᴰ x (place_metric metric runs (sort_metrics rest))) (sym e)
      (place_metric-here metric runs (sort_metrics rest))
sort_metrics-Mem entry ((metric, runs) ∷ rest) (Memᴰ.tail m) =
    place_metric-there entry metric runs (sort_metrics rest) (sort_metrics-Mem entry rest m)

lookup-Mem :
    (metric : String) (runs : Runs) (groups : Dict Runs)
    → lookup metric groups ≡ some runs
    → Memᴰ (metric, runs) groups
unfolding lookup
lookup-Mem metric runs [] h = cc h
lookup-Mem metric runs ((other, held) ∷ rest) h = elim (Bool-cases (other == metric)) [
  | inl e ↦
      let same : held ≡ runs = some-injective _ _ (rw e at h) in
      Memᴰ.head (λ i. (sym ((eq_iff other metric).0 e) i, sym same i))
  | inr e ↦ Memᴰ.tail (lookup-Mem metric runs rest (rw e at h))
]

module _ (rows : List SummaryRow) where
  -- The runs under a metric are its rows.
  abbrev pub AreRows : String × Runs → Type 0
  AreRows e = (key : RunSelection) → get_run key e.1 ≡ row_of key e.0 rows none

  pub group_by_metric-AreRows : All AreRows (group_by_metric rows [])
  unfolding get_run lookup
  group_by_metric-AreRows =
      carry (group_by_metric rows [])
        (lookup-Distinct (group_by_metric rows []) (group_by_metric-Distinct rows [] tt))
    where
      carry :
          (es : Dict Runs)
          → All (λ e. lookup e.0 (group_by_metric rows []) ≡ some e.1) es
          → All AreRows es
      carry [] h = tt
      carry ((metric, runs) ∷ es) h = (
        λ key. ap (run_at key) (sym h.0) ∙ group_by_metric-row_of key metric rows [],
        carry es h.1,
      )

  -- A metric with a row has its runs in the list.
  pub grouped :
      (key : RunSelection) (metric : String) (row : SummaryRow)
      → row_of key metric rows none ≡ some row
      → (runs : Runs) × Memᴰ (metric, runs) (sort_metrics (group_by_metric rows []))
  unfolding get_run lookup
  grouped key metric row h = elim (Option-cases (lookup metric (group_by_metric rows []))) [
    | inr (runs, e) ↦ (runs, sort_metrics-Mem (metric, runs) _ (lookup-Mem metric runs _ e))
    | inl e ↦
        let none_found : none ≡ row_of key metric rows none =
          ap (run_at key) (sym e) ∙ group_by_metric-row_of key metric rows [] in
        cc (none_found ∙ h)
  ]
