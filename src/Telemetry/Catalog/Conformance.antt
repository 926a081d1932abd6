-- ===== src/Telemetry/Catalog/Conformance.antt =====
-- Which points the catalog accepts, described without the code of `validate`.
use mathlib.Core.List.{append-nil}
use azure_mysql_monitoring.Prelude.{
  Bool-cases, Option-cases, is_empty, All, String, ◌≡◌, refl, inl, inr, true, false, not, ◌&&◌,
  some, List, [], ◌∷◌, ◌++◌, arith, ◌↔◌,
}
use azure_mysql_monitoring.Prelude.Dict.{Dict, keys, lookup, has, contains-keys}
use azure_mysql_monitoring.Prelude.Result.{ok, >>=-eq-ok, raise_if-eq-ok, or_raise-eq-ok}
use azure_mysql_monitoring.Prelude.Text.{contains}
use azure_mysql_monitoring.Telemetry.Catalog.{
  difference, required_missing, problem, validate_fields, MetricCatalog, validate, problems,
  measurement,
}
use azure_mysql_monitoring.Telemetry.Point.{
  FieldValue, Problem, FieldSpec, MeasurementSpec, TelemetryPoint, has_type, validate_field,
  unknown_fields, missing_fields, unknown_tags, missing_tags, invalid,
}

pub record Conforms (spec : MeasurementSpec) (point : TelemetryPoint) : Type 0 where
  -- every field is specified, and of its type
  pub typed :
      All
        (λ e.
          (f : FieldSpec) × (lookup e.0 spec.fields ≡ some f) × (has_type f.value_type e.1 ≡ true))
        point.fields
  -- no required field is missing
  pub complete : All (λ e. (e.1.required && not (has e.0 point.fields)) ≡ false) spec.fields
  -- the tags are those of the measurement
  pub tags_known : All (λ tag. contains spec.tags tag ≡ true) (keys point.tags)
  pub tags_given : All (λ tag. contains (keys point.tags) tag ≡ true) spec.tags

difference-nil :
    (names known : List String)
    → difference names known ≡ []
    → All (λ name. contains known name ≡ true) names
unfolding difference
difference-nil [] known h = tt
difference-nil (name ∷ names) known h =
    (ground arith, difference-nil names known (ground (arith, h)))

difference-All :
    (names known : List String)
    → All (λ name. contains known name ≡ true) names
    → difference names known ≡ []
unfolding difference
difference-All [] known h = refl
difference-All (name ∷ names) known h = rw h.0 (difference-All names known h.1)

required_missing-nil :
    (specs : Dict FieldSpec) (fields : Dict FieldValue)
    → required_missing specs fields ≡ []
    → All (λ e. (e.1.required && not (has e.0 fields)) ≡ false) specs
unfolding required_missing
required_missing-nil [] fields h = tt
required_missing-nil ((name, spec) ∷ specs) fields h =
    (ground arith, required_missing-nil specs fields (ground (arith, h)))

required_missing-All :
    (specs : Dict FieldSpec) (fields : Dict FieldValue)
    → All (λ e. (e.1.required && not (has e.0 fields)) ≡ false) specs
    → required_missing specs fields ≡ []
unfolding required_missing
required_missing-All [] fields h = refl
required_missing-All ((name, spec) ∷ specs) fields h =
    rw h.0 (required_missing-All specs fields h.1)

problem-nil :
    (make : List String → Problem) (names : List String) (rest : List Problem)
    → is_empty (problem make names ++ rest) ≡ true
    → (names ≡ []) × (is_empty rest ≡ true)
problem-nil make [] rest h = (refl, h)
problem-nil make (name ∷ names) rest h = cc h

validate_fields-typed :
    (spec : MeasurementSpec) (fields : Dict FieldValue)
    → validate_fields spec fields ≡ ok tt
    → All
        (λ e.
          (f : FieldSpec) × (lookup e.0 spec.fields ≡ some f) × (has_type f.value_type e.1 ≡ true))
        fields
unfolding validate_fields validate_field
validate_fields-typed spec [] h = tt
validate_fields-typed spec ((name, value) ∷ fields) h =
    elim (Option-cases (lookup name spec.fields)) [
      | inl e ↦ cc (rw (e, validate_fields) at h)
      | inr (f, e) ↦
          let h' = rw (e, validate_fields) at h in
          elim (Bool-cases (has_type f.value_type value)) [
            | inl good ↦ ((f, e, good), validate_fields-typed spec fields (rw good at h'))
            | inr bad ↦ cc (rw bad at h')
          ]
    ]

validate_fields-All :
    (spec : MeasurementSpec) (fields : Dict FieldValue)
    → All
        (λ e.
          (f : FieldSpec) × (lookup e.0 spec.fields ≡ some f) × (has_type f.value_type e.1 ≡ true))
        fields
    → validate_fields spec fields ≡ ok tt
unfolding validate_fields validate_field
validate_fields-All spec [] h = refl
validate_fields-All spec ((name, value) ∷ fields) ((f, e, good), h) =
    rw (e, validate_fields) (rw good (validate_fields-All spec fields h))

problems-Conforms :
    (spec : MeasurementSpec) (point : TelemetryPoint)
    → is_empty (problems spec point) ≡ true
    → validate_fields spec point.fields ≡ ok tt
    → Conforms spec point
unfolding problems
problems-Conforms spec point h v =
    let (_, h₁) = problem-nil unknown_fields _ _ h in
    let (missing, h₂) = problem-nil missing_fields _ _ h₁ in
    let (unknown, h₃) = problem-nil unknown_tags _ _ h₂ in
    let (absent, _) =
      problem-nil missing_tags (difference spec.tags (keys point.tags)) [] (rw append-nil h₃) in
    record {
      typed = validate_fields-typed spec point.fields v;
      complete = required_missing-nil spec.fields point.fields missing;
      tags_known = difference-nil (keys point.tags) spec.tags unknown;
      tags_given = difference-nil spec.tags (keys point.tags) absent;
    }

specified :
    (spec : MeasurementSpec) (fields : Dict FieldValue)
    → All
        (λ e.
          (f : FieldSpec) × (lookup e.0 spec.fields ≡ some f) × (has_type f.value_type e.1 ≡ true))
        fields
    → All (λ name. contains (keys spec.fields) name ≡ true) (keys fields)
specified spec [] h = tt
specified spec ((name, value) ∷ fields) ((f, e, good), h) =
    (rw (contains-keys name spec.fields) (rw (e, has) refl), specified spec fields h)

Conforms-problems :
    (spec : MeasurementSpec) (point : TelemetryPoint)
    → Conforms spec point
    → is_empty (problems spec point) ≡ true
unfolding problems
Conforms-problems spec point c =
    rw
      (
        difference-All (keys point.fields) (keys spec.fields) (specified spec point.fields c.typed),
        required_missing-All spec.fields point.fields c.complete,
        difference-All (keys point.tags) spec.tags c.tags_known,
        difference-All spec.tags (keys point.tags) c.tags_given,
      )
      refl

-- The catalog accepts a point, and returns it, just when it has the point's measurement and the point
-- conforms to it: each field is specified and of its type, no required field is missing, and the
-- tags are those of the measurement.
pub validate_iff :
    (catalog : MetricCatalog) (point : TelemetryPoint)
    → (validate catalog point ≡ ok point) ↔ (
        (spec : MeasurementSpec) × (lookup point.measurement catalog ≡ some spec)
        × Conforms spec point)
unfolding validate measurement
validate_iff catalog point = (
  λ h.
      let (spec, found, h₁) = >>=-eq-ok (measurement catalog point.measurement) _ h in
      let (clear, h₂) =
        raise_if-eq-ok (not (is_empty (problems spec point)))
          (invalid point.measurement (problems spec point)) _ h₁ in
      let (unit, v, _) = >>=-eq-ok (validate_fields spec point.fields) _ h₂ in
      (spec, or_raise-eq-ok _ _ found, problems-Conforms spec point (ground (arith, clear)) v),
  λ t.
      let (spec, found, c) = t in
      rw (found, Conforms-problems spec point c, validate_fields-All spec point.fields c.typed)
        refl,
)
