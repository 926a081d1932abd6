-- ===== src/Report/Worse.antt =====
-- performance_report.py: when a comparison of `compare_metric` is a regression.
use native.Mathlib.Nat.{mul-pos}
use azure_mysql_monitoring.Prelude.{
  ℕ, ◌+◌, ◌*◌, ◌≤◌, ◌<◌, String, ◌≡◌, ◌↔◌, true, false, arith, eqb, Bool-cases, inl, inr, leb→le,
}
use azure_mysql_monitoring.Report.{
  MetricComparison, is_higher_better, is_lower_better, compare_metric, rises, falls,
}
use azure_mysql_monitoring.Report.Verdict.{is_regression}

-- How a comparison is worse by the material change at least, or from nothing to something.
pub data Worse (material : ℕ) (c : MetricComparison) : Type 0 where
  fallen :
      is_higher_better c.metric ≡ true
      → 0 < c.baseline
      → 10000 * c.candidate + material * c.baseline ≤ 10000 * c.baseline
      → Worse material c
  risen :
      is_higher_better c.metric ≡ false
      → is_lower_better c.metric ≡ true
      → 0 < c.baseline
      → 10000 * c.baseline + material * c.baseline ≤ 10000 * c.candidate
      → Worse material c
  appeared :
      is_higher_better c.metric ≡ false
      → is_lower_better c.metric ≡ true
      → c.baseline ≡ 0
      → 0 < c.candidate
      → Worse material c

compare_metric-Worse :
    (metric : String) (baseline candidate material : ℕ)
    → 1 ≤ material
    → Worse material (compare_metric metric baseline candidate material)
    → is_regression (compare_metric metric baseline candidate material) ≡ true
unfolding compare_metric
compare_metric-Worse metric baseline candidate material m (fallen hi some_base f) =
    let p : 1 ≤ material * baseline = mul-pos m some_base in ground (arith, hi, some_base, f, p)
compare_metric-Worse metric baseline candidate material m (risen hi lo some_base f) =
    let p : 1 ≤ material * baseline = mul-pos m some_base in ground (arith, hi, lo, some_base, f, p)
compare_metric-Worse metric baseline candidate material m (appeared hi lo z some_value) =
    ground (arith, hi, lo, z, some_value)

from_zero-Worse :
    (metric : String) (baseline candidate material : ℕ)
    → eqb baseline 0 ≡ true
    → is_regression (compare_metric metric baseline candidate material) ≡ true
    → Worse material (compare_metric metric baseline candidate material)
unfolding compare_metric
from_zero-Worse metric baseline candidate material z h =
    let h₀ = rw z at h in
    elim (Bool-cases (is_higher_better metric)) [
      | inl hi ↦
          let h₁ = rw hi at h₀ in
          elim (Bool-cases (eqb candidate 0)) [ inl e ↦ cc (rw e at h₁) | inr e ↦ cc (rw e at h₁) ]
      | inr hi ↦
          let h₁ = rw hi at h₀ in
          elim (Bool-cases (is_lower_better metric)) [
            | inr lo ↦ cc (rw lo at h₁)
            | inl lo ↦
                let h₂ = rw lo at h₁ in
                elim (Bool-cases (eqb candidate 0)) [
                  | inl e ↦ cc (rw e at h₂)
                  | inr e ↦ appeared hi lo (ground (arith, z)) (ground (arith, e))
                ]
          ]
    ]

from_some-Worse :
    (metric : String) (baseline candidate material : ℕ)
    → eqb baseline 0 ≡ false
    → is_regression (compare_metric metric baseline candidate material) ≡ true
    → Worse material (compare_metric metric baseline candidate material)
unfolding compare_metric
from_some-Worse metric baseline candidate material nz h =
    let h₀ = rw nz at h in
    let up = rises material baseline candidate in
    let down = falls material baseline candidate in
    elim (Bool-cases (is_higher_better metric)) [
      | inl hi ↦
          let h₁ = rw hi at h₀ in
          elim (Bool-cases up) [
            | inl u ↦ cc (rw u at h₁)
            | inr u ↦
                let h₂ = rw u at h₁ in
                elim (Bool-cases down) [
                  | inl d ↦ fallen hi (ground (arith, nz)) (leb→le _ _ d)
                  | inr d ↦ cc (rw d at h₂)
                ]
          ]
      | inr hi ↦
          let h₁ = rw hi at h₀ in
          elim (Bool-cases (is_lower_better metric)) [
            | inr lo ↦ cc (rw lo at h₁)
            | inl lo ↦
                let h₂ = rw lo at h₁ in
                elim (Bool-cases down) [
                  | inl d ↦ cc (rw d at h₂)
                  | inr d ↦
                      let h₃ = rw d at h₂ in
                      elim (Bool-cases up) [
                        | inl u ↦ risen hi lo (ground (arith, nz)) (leb→le _ _ u)
                        | inr u ↦ cc (rw u at h₃)
                      ]
                ]
          ]
    ]

-- A comparison is a regression just when it is worse.
pub regression_iff :
    (metric : String) (baseline candidate material : ℕ)
    → 1 ≤ material
    → (is_regression (compare_metric metric baseline candidate material) ≡ true)
      ↔ Worse material (compare_metric metric baseline candidate material)
regression_iff metric baseline candidate material m = (
  λ h. elim (Bool-cases (eqb baseline 0)) [
    | inl z ↦ from_zero-Worse metric baseline candidate material z h
    | inr nz ↦ from_some-Worse metric baseline candidate material nz h
  ],
  λ w. compare_metric-Worse metric baseline candidate material m w,
)
