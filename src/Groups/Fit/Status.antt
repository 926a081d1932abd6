-- ===== src/Groups/Fit/Status.antt =====
-- The point of the status variables: its fields are those that the catalog was made with.
use azure_mysql_monitoring.Prelude.{
  Bool-cases, All, String, ◌≡◌, ap, inl, inr, true, some, List, [], ◌∷◌, ◌==◌, eq_iff, any, refl,
  Bool, false, not, ◌&&◌, Option-cases,
}
use azure_mysql_monitoring.Groups.Fit.{Fits, IsAccepted, >>=-Fits, unpack-Fits, column-Fits}
use azure_mysql_monitoring.Groups.Fit.Points.{accepted_point, point-Fits}
use azure_mysql_monitoring.Groups.Rows.{Python, point, unpack, tried, cell_at, column}
use azure_mysql_monitoring.Groups.Server.{status_fields, status_points}
use azure_mysql_monitoring.Prelude.Dict.{Dict, lookup, insert, keys, has, insert-All}
use azure_mysql_monitoring.Prelude.Text.{contains, is_blank}
use azure_mysql_monitoring.Telemetry.Measurements.{mysql_global_status, repository_catalog}
use azure_mysql_monitoring.Telemetry.Measurements.Status.{
  global_status_names, global_status_field, named_fields,
}
use azure_mysql_monitoring.Telemetry.Point.{
  FieldValue, is_number, FieldSpec, TelemetryContext, has_type, real,
}

abbrev pub IsStatus : String × FieldValue → Type 0
IsStatus e = (contains global_status_names e.0 ≡ true) × (is_number e.1 ≡ true)

named_fields-lookup :
    (names : List String) (name : String)
    → contains names name ≡ true
    → lookup name (named_fields names) ≡ some (global_status_field name)
unfolding lookup named_fields
named_fields-lookup [] name h = cc h
named_fields-lookup (x ∷ names) name h = elim (Bool-cases (x == name)) [
  | inl e ↦ rw e (ap (λ i. some (global_status_field i)) ((eq_iff x name).0 e))
  | inr e ↦ rw e (named_fields-lookup names name (rw e at h))
]

status-typed :
    (fields : Dict FieldValue)
    → All IsStatus fields
    → All
        (λ e.
          (f : FieldSpec) × (lookup e.0 mysql_global_status.fields ≡ some f)
          × (has_type f.value_type e.1 ≡ true))
        fields
unfolding mysql_global_status global_status_field has_type
status-typed [] h = tt
status-typed ((name, v) ∷ fields) ((named, number), h) = (
  (global_status_field name, named_fields-lookup global_status_names name named, number),
  status-typed fields h,
)

named_complete :
    (names : List String) (fields : Dict FieldValue)
    → All (λ e. (e.1.required && not (has e.0 fields)) ≡ false) (named_fields names)
unfolding named_fields global_status_field
named_complete [] fields = tt
named_complete (name ∷ names) fields = (refl, named_complete names fields)

no_blank : (name : String) → contains global_status_names name ≡ true → is_blank name ≡ false
no_blank String.[] h = cc h
no_blank (String.◌∷◌ c name) h = refl

status-keyed : (fields : Dict FieldValue) → All IsStatus fields → any is_blank (keys fields) ≡ false
status-keyed [] h = refl
status-keyed ((name, v) ∷ fields) h = rw (no_blank name h.0.0) (status-keyed fields h.1)

module _ {Cell : Type 0} (python : Python Cell) where
  -- The first cell of a row is the name of a status variable that was asked for.
  unfoldable pub is_named : List Cell → Bool
  is_named [] = true
  is_named (cell ∷ cells) = contains global_status_names (python.to_str cell)

  pub status_fields-Fits :
      (rows : List (List Cell)) (fields : Dict FieldValue)
      → All (λ row. is_named row ≡ true) rows
      → All IsStatus fields
      → Fits (All IsStatus) (status_fields python rows fields)
  unfolding status_fields is_named unpack column cell_at tried is_number Fits
  status_fields-Fits [] fields named h = h
  status_fields-Fits ([] ∷ rows) fields named h = tt
  status_fields-Fits ((cell ∷ cells) ∷ rows) fields named h =
      let row = cell ∷ cells in
      >>=-Fits _ (unpack python 2 row) _ (unpack-Fits python 2 row) λ _ _.
        >>=-Fits _ (column python 1 row) _ (column-Fits python 1 row) λ raw _.
          elim (Option-cases (python.to_float raw)) [
            | inl e ↦ rw e (status_fields-Fits rows fields named.1 h)
            | inr ((mantissa, scale), e) ↦ rw e (
                status_fields-Fits rows (insert (python.to_str cell) (real mantissa scale) fields)
                  named.1
                  (insert-All IsStatus (python.to_str cell) (real mantissa scale) fields
                    (named.0, refl) h))
          ]

  pub status_points-Fits :
      (context : TelemetryContext) (observed_at : String) (fields : Dict FieldValue)
      → All IsStatus fields
      → Fits (All IsAccepted) (status_points python context observed_at fields)
  unfolding status_points Fits repository_catalog mysql_global_status accepted_point
  status_points-Fits context observed_at [] h = tt
  status_points-Fits context observed_at (entry ∷ fields) h =
      >>=-Fits _ (point context observed_at "mysql.global_status" (entry ∷ fields) []) _
        (point-Fits context observed_at "mysql.global_status" (entry ∷ fields) []
          mysql_global_status refl refl (status-keyed (entry ∷ fields) h) refl (_, refl, refl)
          (record {
            typed = status-typed (entry ∷ fields) h;
            complete = named_complete global_status_names (entry ∷ fields);
            tags_known = tt;
            tags_given = tt;
          }))
        λ made a. (a, tt)
