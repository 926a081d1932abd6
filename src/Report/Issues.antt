-- ===== src/Report/Issues.antt =====
-- When `render_report` finds no quality issue: its tests, one by one.
use azure_mysql_monitoring.Prelude.{
  eqb, Bool-cases, is_empty, any, All, ◌<◌, String, ◌≡◌, refl, ◌⊎◌, inl, inr, Bool, true, false,
  not, ◌||◌, List, [], ◌∷◌, arith,
}
use azure_mysql_monitoring.Prelude.Text.{contains}
use azure_mysql_monitoring.Report.{MetricComparison}
use azure_mysql_monitoring.Report.Verdict.{
  Issue, required_metrics, reported_of, has_metric, is_not_positive, is_regression, passed,
  overall_of,
}

pub any-false :
    {A : Type 0} (p : A → Bool) (xs : List A) → any p xs ≡ false → All (λ x. p x ≡ false) xs
any-false p [] h = tt
any-false p (x ∷ xs) h = (ground (arith, h), any-false p xs (ground (arith, h)))

pub any-All :
    {A : Type 0} (p : A → Bool) (xs : List A) → All (λ x. p x ≡ false) xs → any p xs ≡ false
any-All p [] h = refl
any-All p (x ∷ xs) h = rw h.0 (any-All p xs h.1)

pub All-map :
    {A : Type 0} {P Q : A → Type 0} (xs : List A) → ((x : A) → P x → Q x) → All P xs → All Q xs
All-map [] f h = tt
All-map (x ∷ xs) f h = (f x h.0, All-map xs f h.1)

pub reported_of-nil :
    (tests : List (Bool × Issue)) → reported_of tests ≡ [] → All (λ e. e.0 ≡ false) tests
unfolding reported_of
reported_of-nil [] h = tt
reported_of-nil ((true, issue) ∷ tests) h = cc h
reported_of-nil ((false, issue) ∷ tests) h = (refl, reported_of-nil tests h)

pub reported_of-All :
    (tests : List (Bool × Issue)) → All (λ e. e.0 ≡ false) tests → reported_of tests ≡ []
unfolding reported_of
reported_of-All [] h = refl
reported_of-All ((true, issue) ∷ tests) h = cc h.0
reported_of-All ((false, issue) ∷ tests) h = reported_of-All tests h.1

pub overall_of-passed :
    (issues : List Issue) (cs : List MetricComparison)
    → overall_of issues cs ≡ passed
    → (issues ≡ []) × (any is_regression cs ≡ false)
unfolding overall_of
overall_of-passed [] cs h = elim (Bool-cases (any is_regression cs)) [
  | inl e ↦ cc (rw e at h)
  | inr e ↦ (refl, e)
]
overall_of-passed (issue ∷ issues) cs h = cc h

pub positive-of :
    (c : MetricComparison)
    → is_not_positive c ≡ false
    → (contains required_metrics c.metric ≡ false) ⊎ ((0 < c.baseline) × (0 < c.candidate))
positive-of c h = elim (Bool-cases (contains required_metrics c.metric)) [
  | inr e ↦ inl e
  | inl e ↦
      let h' : (eqb c.baseline 0 || eqb c.candidate 0) ≡ false = ground (arith, h, e) in
      inr (ground (arith, h'), ground (arith, h'))
]

pub of-positive :
    (c : MetricComparison)
    → (contains required_metrics c.metric ≡ false) ⊎ ((0 < c.baseline) × (0 < c.candidate))
    → is_not_positive c ≡ false
of-positive c (inl e) = rw e refl
of-positive c (inr (b, d)) = ground (arith, b, d)

pub All-has_metric :
    (cs : List MetricComparison) (names : List String)
    → any (λ name. not (has_metric name cs)) names ≡ false
    → All (λ name. has_metric name cs ≡ true) names
All-has_metric cs [] h = tt
All-has_metric cs (name ∷ names) h =
    (ground (arith, h), All-has_metric cs names (ground (arith, h)))

pub has_metric-All :
    (cs : List MetricComparison) (names : List String)
    → All (λ name. has_metric name cs ≡ true) names
    → any (λ name. not (has_metric name cs)) names ≡ false
has_metric-All cs [] h = refl
has_metric-All cs (name ∷ names) h = rw h.0 (has_metric-All cs names h.1)

pub either-of : (a b : Bool) → not (a || b) ≡ false → (a ≡ true) ⊎ (b ≡ true)
either-of true b h = inl refl
either-of false true h = inr refl
either-of false false h = cc h

pub of-either : (a b : Bool) → (a ≡ true) ⊎ (b ≡ true) → not (a || b) ≡ false
of-either true b h = refl
of-either false b (inl e) = cc e
of-either false b (inr e) = rw e refl

pub has_metric-nonempty :
    (metric : String) (cs : List MetricComparison)
    → has_metric metric cs ≡ true
    → is_empty cs ≡ false
unfolding has_metric
has_metric-nonempty metric [] h = cc h
has_metric-nonempty metric (c ∷ cs) h = refl
