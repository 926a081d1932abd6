-- ===== src/Runtime/Sinks.antt =====
-- mysql-internal/collector/runtime.py: `SinkWriter`. A sink is its name and whether its
-- write raises; the lock makes a batch one step.
use azure_mysql_monitoring.Prelude.{
  if◌then◌else◌, All, String, ◌≡◌, refl, sym, ap, ◌∙◌, Bool, List, [], ◌∷◌, map, arith,
}
use azure_mysql_monitoring.Prelude.Dict.{lookup}
use azure_mysql_monitoring.Prelude.Result.{ok, ◌>>=◌, or_raise, >>=-eq-ok}
use azure_mysql_monitoring.Telemetry.Catalog.{MetricCatalog, validate}
use azure_mysql_monitoring.Telemetry.Point.{Checked, TelemetryPoint}

pub record Sink : Type 0 where
  pub name : String
  pub raises : Bool

-- What the sinks were called with, and which failures were logged.
pub record Written (A : Type 0) : Type 0 where
  pub calls : List (String × List A)
  pub logged : List String

-- `[CATALOG.validate(point) for point in points]`
validate_all : MetricCatalog → List TelemetryPoint → Checked (List TelemetryPoint)
validate_all catalog [] = ok []
validate_all catalog (point ∷ points) = do
  first ← validate catalog point
  others ← validate_all catalog points
  ok (first ∷ others)

-- The loop over the sinks: an exception is logged, and the loop goes on.
call_sinks : {A : Type 0} → List Sink → List A → Written A
call_sinks [] points = record { calls = []; logged = [] }
call_sinks (sink ∷ sinks) points =
    let rest = call_sinks sinks points in
    record {
      calls = (sink.name, points) ∷ rest.calls;
      logged = if sink.raises then sink.name ∷ rest.logged else rest.logged;
    }

-- `write_points`
unfoldable pub write_points :
    MetricCatalog → List Sink → List TelemetryPoint → Checked (Written TelemetryPoint)
unfolding validate_all call_sinks
write_points catalog sinks [] = ok (record { calls = []; logged = [] })
write_points catalog sinks (point ∷ points) = do
  validated ← validate_all catalog (point ∷ points)
  ok (call_sinks sinks validated)

-- `write_events`
write_events : {Event : Type 0} → List Sink → List Event → Written Event
unfolding call_sinks
write_events sinks [] = record { calls = []; logged = [] }
write_events sinks (event ∷ events) = call_sinks sinks (event ∷ events)

call_sinks-calls :
    {A : Type 0} (sinks : List Sink) (points : List A)
    → (call_sinks sinks points).calls ≡ map (λ s. (s.name, points)) sinks
unfolding call_sinks
call_sinks-calls [] points = refl
call_sinks-calls (sink ∷ sinks) points =
    ap (λ calls. (sink.name, points) ∷ calls) (call_sinks-calls sinks points)

validate-same :
    (catalog : MetricCatalog) (point q : TelemetryPoint) → validate catalog point ≡ ok q → point ≡ q
unfolding validate
validate-same catalog point q h =
    let (spec, _, h₁) = >>=-eq-ok (or_raise (lookup point.measurement catalog) _) _ h in
    ground (arith, h₁)

validate_all-same :
    (catalog : MetricCatalog) (points validated : List TelemetryPoint)
    → validate_all catalog points ≡ ok validated
    → (points ≡ validated) × All (λ p. validate catalog p ≡ ok p) points
unfolding validate_all
validate_all-same catalog [] validated h = (ground (arith, h), tt)
validate_all-same catalog (point ∷ points) validated h =
    let (first, e, h₁) = >>=-eq-ok (validate catalog point) _ h in
    let (others, f, h₂) = >>=-eq-ok (validate_all catalog points) _ h₁ in
    let same = validate-same catalog point first e in
    let (rest, all) = validate_all-same catalog points others f in
    (ground (arith, h₂, same, rest), (e ∙ ap ok (sym same), all))

-- A batch that is written reaches every sink, whether the sinks before it raised or not, with all of
-- its points; and each of those was accepted by the catalog.
pub write_points_lem :
    (catalog : MetricCatalog) (sinks : List Sink) (point : TelemetryPoint)
    (points : List TelemetryPoint) (written : Written TelemetryPoint)
    → write_points catalog sinks (point ∷ points) ≡ ok written
    → (written.calls ≡ map (λ s. (s.name, point ∷ points)) sinks)
      × All (λ p. validate catalog p ≡ ok p) (point ∷ points)
unfolding write_points
write_points_lem catalog sinks point points written h =
    let (validated, e, h₁) = >>=-eq-ok (validate_all catalog (point ∷ points)) _ h in
    let (same, all) = validate_all-same catalog (point ∷ points) validated e in
    let done : call_sinks sinks validated ≡ written = ground (arith, h₁) in
    (
      ap (λ w. w.calls) (sym done)
          ∙ call_sinks-calls sinks validated
          ∙ ap (λ ps. map (λ s. (s.name, ps)) sinks) (sym same),
      all,
    )
