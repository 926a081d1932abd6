-- ===== src/Groups/Fit.antt =====
-- Results that are no contract error, and the points that the repository's catalog accepts.
pub mod Points
pub mod Literals
pub mod Rows
pub mod Status
pub mod Collectors
use azure_mysql_monitoring.Prelude.{
  eqb, Bool-cases, Option-cases, length, All, All-append, ℕ, String, ◌≡◌, inl, inr, List, [], ◌∷◌,
}
use azure_mysql_monitoring.Groups.Rows.{
  contract, Raising, Python, Param, Connection, each_row, rows_of, unpack, column, trouble, Tried,
  tried, cell_at,
}
use azure_mysql_monitoring.Prelude.Result.{ok, err, ◌>>=◌}
use azure_mysql_monitoring.Telemetry.Catalog.{validate}
use azure_mysql_monitoring.Telemetry.Measurements.{repository_catalog}
use azure_mysql_monitoring.Telemetry.Point.{TelemetryPoint}

unfoldable pub Fits : {A : Type 0} → (A → Type 0) → Raising A → Type 0
Fits P (ok a) = P a
Fits P (err (contract e)) = ⊥
Fits P (err (trouble e)) = Unit

-- The repository's catalog is made, and takes the point.
abbrev pub IsAccepted : TelemetryPoint → Type 0
IsAccepted p = (repository_catalog >>= λ catalog. validate catalog p) ≡ ok p

abbrev pub Any : {A : Type 0} → A → Type 0
Any a = Unit

pub >>=-Fits :
    {A B : Type 0} {Q : A → Type 0} (P : B → Type 0) (m : Raising A) (k : A → Raising B)
    → Fits Q m
    → ((a : A) → Q a → Fits P (k a))
    → Fits P (m >>= k)
unfolding Fits
>>=-Fits P (ok a) k h then_fits = then_fits a h
>>=-Fits P (err (contract e)) k h then_fits = elim h [ ]
>>=-Fits P (err (trouble e)) k h then_fits = tt

pub ok-Fits : {A : Type 0} (P : A → Type 0) {m : Raising A} {a : A} → m ≡ ok a → P a → Fits P m
unfolding Fits
ok-Fits P e p = rw e p

-- Every row makes accepted points.
pub each_row-Fits :
    {R : Type 0} (make : R → Raising (List TelemetryPoint)) (rows : List R)
    → ((row : R) → Fits (All IsAccepted) (make row))
    → Fits (All IsAccepted) (each_row make rows)
unfolding each_row Fits
each_row-Fits make [] h = tt
each_row-Fits make (row ∷ rows) h = >>=-Fits _ (make row) _ (h row) λ points first.
    >>=-Fits _ (each_row make rows) _ (each_row-Fits make rows h)
      λ others rest. All-append IsAccepted points others first rest

pub tried-Fits : {A : Type 0} (m : Tried A) → Fits Any (tried m)
unfolding tried Fits
tried-Fits (ok a) = tt
tried-Fits (err e) = tt

module _ {Cell : Type 0} (python : Python Cell) where
  pub rows_of-Fits :
      (conn : Connection Cell) (name : String) (params : List Param)
      → Fits Any (rows_of python conn name params)
  unfolding rows_of Fits
  rows_of-Fits conn name params = elim (Option-cases (conn name params)) [
    | inl e ↦ rw e tt
    | inr (rows, e) ↦ rw e tt
  ]

  pub unpack-Fits : (n : ℕ) (row : List Cell) → Fits Any (unpack python n row)
  unfolding unpack Fits
  unpack-Fits n row = elim (Bool-cases (eqb (length row) n)) [ inl e ↦ rw e tt | inr e ↦ rw e tt ]

  pub column-Fits : (n : ℕ) (row : List Cell) → Fits Any (column python n row)
  unfolding column
  column-Fits n row = tried-Fits (cell_at python n row)
