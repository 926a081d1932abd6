-- ===== src/Telemetry/Catalog/Series.antt =====
-- What the projected rows say of their point.
use mathlib.Core.Option.{some-injective}
use azure_mysql_monitoring.Prelude.{
  Bool-cases, Option-cases, any, All, String, ◌≡◌, refl, inl, inr, true, some, List, [], ◌∷◌, Memᴰ,
  arith, ◌==◌, eq_refl, sym, ap, ◌∙◌, subst,
}
use azure_mysql_monitoring.Prelude.Dict.{Dict, lookup}
use azure_mysql_monitoring.Prelude.Result.{ok, >>=-eq-ok, or_raise-eq-ok}
use azure_mysql_monitoring.Telemetry.Catalog.{
  MetricCatalog, validate, SeriesRow, series_rows, measurement, number_of, series_of,
}
use azure_mysql_monitoring.Telemetry.Point.{
  FieldValue, FieldSpec, MeasurementSpec, TelemetryPoint, is_number,
}

-- A row of the series: one field of the point, which its measurement keeps as a series, with its
-- value, kind and unit.
pub record IsRow (spec : MeasurementSpec) (point : TelemetryPoint) (r : SeriesRow) : Type 0 where
  pub of_point : r.point ≡ point
  pub number : (v : FieldValue) × Memᴰ (r.field_name, v) point.fields × (number_of v ≡ some r.value)
  pub specified :
      (f : FieldSpec) × (lookup r.field_name spec.fields ≡ some f)
      × (f.series ≡ true)
      × (r.kind ≡ f.kind)
      × (r.unit ≡ f.unit)

module _ (spec : MeasurementSpec) (point : TelemetryPoint) where
  series_of-IsRow :
      (fields : Dict FieldValue)
      → ((e : String × FieldValue) → Memᴰ e fields → Memᴰ e point.fields)
      → All (IsRow spec point) (series_of spec point fields)
  unfolding series_of
  series_of-IsRow [] sub = tt
  series_of-IsRow ((name, value) ∷ fields) sub =
      let rest = series_of-IsRow fields (λ e m. sub e (Memᴰ.tail m)) in
      elim (Option-cases (lookup name spec.fields)) [
        | inl e ↦ rw (e, series_of) rest
        | inr (f, e) ↦
            rw (e, series_of)
              (elim (Option-cases (number_of value)) [
                | inl n ↦ rw n rest
                | inr (z, n) ↦ rw n (elim (Bool-cases f.series) [
                  | inl kept ↦ rw kept (
                    record {
                      of_point = refl;
                      number = (value, sub _ (Memᴰ.head refl), n);
                      specified = (f, e, kept, refl, refl);
                    },
                    rest,
                  )
                  | inr dropped ↦ rw dropped rest
                ])
              ])
      ]

  -- A field that is a number, and that the measurement keeps as a series, has its row.
  series_of_complete :
      (fields : Dict FieldValue) (name : String) (v : FieldValue) (f : FieldSpec)
      → Memᴰ (name, v) fields
      → is_number v ≡ true
      → lookup name spec.fields ≡ some f
      → f.series ≡ true
      → any (λ r. r.field_name == name) (series_of spec point fields) ≡ true
  unfolding series_of number_of is_number
  series_of_complete [] name v f m n e s = elim m [ ]
  series_of_complete ((k, w) ∷ fields) name v f (Memᴰ.head p) n e s =
      ground (arith, p, n, e, s, eq_refl name)
  series_of_complete ((k, w) ∷ fields) name v f (Memᴰ.tail m) n e s =
      ground (arith, series_of_complete fields name v f m n e s)

-- An accepted point has its series rows, and each is one numeric field that the measurement keeps as
-- a series, with the kind and unit of its specification.
pub series_rows-IsRow :
    (catalog : MetricCatalog) (point : TelemetryPoint) (spec : MeasurementSpec)
    → lookup point.measurement catalog ≡ some spec
    → validate catalog point ≡ ok point
    → (rows : List SeriesRow) × (series_rows catalog point ≡ ok rows) × All (IsRow spec point) rows
unfolding series_rows measurement
series_rows-IsRow catalog point spec found valid = (
  series_of spec point point.fields,
  rw (found, valid) refl,
  series_of-IsRow spec point point.fields (λ e m. m),
)

-- No field of a point is left out of its series rows that is a number and that the measurement keeps
-- as a series.
pub series_rows_complete :
    (catalog : MetricCatalog) (point : TelemetryPoint) (spec : MeasurementSpec)
    (rows : List SeriesRow) (name : String) (v : FieldValue) (f : FieldSpec)
    → lookup point.measurement catalog ≡ some spec
    → series_rows catalog point ≡ ok rows
    → Memᴰ (name, v) point.fields
    → is_number v ≡ true
    → lookup name spec.fields ≡ some f
    → f.series ≡ true
    → any (λ r. r.field_name == name) rows ≡ true
unfolding series_rows measurement
series_rows_complete catalog point spec rows name v f found h m n e s =
    let (spec', found', h₁) = >>=-eq-ok (measurement catalog point.measurement) _ h in
    let (_, _, h₂) = >>=-eq-ok (validate catalog point) _ h₁ in
    let same : spec ≡ spec' = some-injective _ _ (sym found ∙ or_raise-eq-ok _ _ found') in
    let rows_same : series_of spec point point.fields ≡ rows =
      ap (λ t. series_of t point point.fields) same ∙ ground (arith, h₂) in
    subst (λ rs. any (λ r. r.field_name == name) rs ≡ true) rows_same
      (series_of_complete spec point point.fields name v f m n e s)
