-- ===== src/Groups/Fit/Points.antt =====
-- The points that conform to a measurement of the repository are made and accepted.
use azure_mysql_monitoring.Prelude.{is_empty, any, String, ◌≡◌, refl, false, some, [], ◌∷◌, arith}
use azure_mysql_monitoring.Groups.Fit.{Fits, IsAccepted, ok-Fits}
use azure_mysql_monitoring.Groups.Rows.{checked, present, point}
use azure_mysql_monitoring.Prelude.Dict.{Dict, keys, lookup}
use azure_mysql_monitoring.Prelude.Result.{ok}
use azure_mysql_monitoring.Prelude.Text.{is_blank}
use azure_mysql_monitoring.Telemetry.Catalog.{MetricCatalog, validate}
use azure_mysql_monitoring.Telemetry.Catalog.Conformance.{Conforms, validate_iff}
use azure_mysql_monitoring.Telemetry.Measurements.{repository_catalog}
use azure_mysql_monitoring.Telemetry.Point.{
  FieldValue, MeasurementSpec, TelemetryContext, TelemetryPoint, has_blank_key, present_tags,
  telemetry_point,
}

unfoldable pub accepted_point :
    TelemetryContext → String → String → Dict FieldValue → Dict String → TelemetryPoint
accepted_point context observed_at name fields tags = record {
  observed_at = observed_at;
  context = context;
  measurement = name;
  fields = fields;
  tags = tags;
}

pub present-tags :
    (tags : Dict String)
    → any is_blank (keys tags) ≡ false
    → present_tags (present tags) ≡ some tags
unfolding present_tags
present-tags [] h = refl
present-tags ((name, value) ∷ tags) h =
    let rest : any is_blank (keys tags) ≡ false = ground (arith, h) in
    let first : is_blank name ≡ false = ground (arith, h) in rw (first, present-tags tags rest) refl

pub has_blank_key-keys :
    {V : Type 0} (fields : Dict V)
    → any is_blank (keys fields) ≡ false
    → has_blank_key fields ≡ false
unfolding has_blank_key
has_blank_key-keys [] h = refl
has_blank_key-keys ((name, value) ∷ fields) h =
    let rest : any is_blank (keys fields) ≡ false = ground (arith, h) in
    let first : is_blank name ≡ false = ground (arith, h) in
    rw (first, has_blank_key-keys fields rest) refl

-- The repository's catalog has the measurement under the name.
abbrev pub IsMeasured : String → MeasurementSpec → Type 0
IsMeasured name spec =
    (catalog : MetricCatalog) × (repository_catalog ≡ ok catalog)
    × (lookup name catalog ≡ some spec)

-- A point that conforms to a measurement of the repository is made and accepted.
pub point-Fits :
    (context : TelemetryContext) (observed_at name : String) (fields : Dict FieldValue)
    (tags : Dict String) (spec : MeasurementSpec)
    → is_blank name ≡ false
    → is_empty fields ≡ false
    → any is_blank (keys fields) ≡ false
    → any is_blank (keys tags) ≡ false
    → ((catalog : MetricCatalog) × (repository_catalog ≡ ok catalog)
        × (lookup name catalog ≡ some spec))
    → Conforms spec (accepted_point context observed_at name fields tags)
    → Fits IsAccepted (point context observed_at name fields tags)
unfolding point telemetry_point accepted_point Fits checked
point-Fits context observed_at name fields tags spec named filled keyed labelled
      (catalog, made, found) conforms =
    let p = accepted_point context observed_at name fields tags in
    let valid : validate catalog p ≡ ok p = (validate_iff catalog p).1 (spec, found, conforms) in
    ok-Fits IsAccepted {a = p}
      (rw (made, filled, named, has_blank_key-keys fields keyed, present-tags tags labelled, valid)
        refl)
      (rw (made, valid) refl)
