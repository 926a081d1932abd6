-- ===== src/Groups/Rows.antt =====
-- groups.py: `_rows` and `_point`, over what the driver returns. The cells of a row are values of the
-- driver, and Python's built-in functions on them are parameters.
use azure_mysql_monitoring.Prelude.{
  eqb, if◌then◌else◌, length, ℕ, zero, suc, ◌+◌, String, Bool, not, Option, some, List, [], ◌∷◌,
  ◌++◌, map, none,
}
use azure_mysql_monitoring.Plan.Group.{GroupPlan}
use azure_mysql_monitoring.Prelude.Dict.{Dict}
use azure_mysql_monitoring.Prelude.Int.{ℤ, pos}
use azure_mysql_monitoring.Prelude.Result.{Result, ok, err, ◌>>=◌, raise_if, or_raise}
use azure_mysql_monitoring.Telemetry.Catalog.{validate}
use azure_mysql_monitoring.Telemetry.Measurements.{repository_catalog}
use azure_mysql_monitoring.Telemetry.Point.{
  FieldValue, integer, real, text, ContractError, Checked, TelemetryContext, TelemetryPoint,
  telemetry_point,
}

-- What the driver, or a function on its cells, raises.
pub data Trouble : Type 0 where
  query_failed unpacking conversion : Trouble

-- Why a collector ends without points.
pub data Raised : Type 0 where
  trouble : Trouble → Raised
  contract : ContractError → Raised

abbrev pub Raising {ℓ} : Type ℓ → Type ℓ
Raising A = Result Raised A

abbrev pub Tried {ℓ} : Type ℓ → Type ℓ
Tried A = Result Trouble A

unfoldable pub tried {ℓ} : {A : Type ℓ} → Tried A → Raising A
tried (ok a) = ok a
tried (err e) = err (trouble e)

-- Built-in functions on the cells; `none` stands for a `TypeError` or a `ValueError`. A float is
-- mantissa / 10 ^ scale.
pub record Python (Cell : Type 0) : Type 0 where
  pub truthy : Cell → Bool
  pub to_int : Cell → Option ℤ
  pub to_float : Cell → Option (ℤ × ℕ)
  pub to_str : Cell → String
  pub equals : Cell → String → Bool

-- A query parameter.
pub data Param : Type 0 where
  text_param : String → Param
  limit : ℕ → Param

-- A connection answers a query file with rows, or raises.
abbrev pub Connection : Type 0 → Type 0
Connection Cell = String → List Param → Option (List (List Cell))

-- A value of a `dict` literal, which may raise when it is computed.
pub data Literal : Type 0 where
  whole : Tried ℤ → Literal
  decimal : Tried (ℤ × ℕ) → Literal
  word : String → Literal

unfoldable pub value_of_literal : Literal → Raising FieldValue
unfolding tried
value_of_literal (whole m) = tried m >>= λ z. ok (integer z)
value_of_literal (decimal m) = tried m >>= λ n. ok (real n.0 n.1)
value_of_literal (word s) = ok (text s)

-- A `dict` literal with its values computed in order.
unfoldable pub dict : List (String × Literal) → Raising (Dict FieldValue)
unfolding value_of_literal
dict [] = ok []
dict ((name, literal) ∷ rest) = do
  value ← value_of_literal literal
  others ← dict rest
  ok ((name, value) ∷ others)

unfoldable pub checked {ℓ} : {A : Type ℓ} → Checked A → Raising A
checked (ok a) = ok a
checked (err e) = err (contract e)

abbrev pub present : Dict String → Dict (Option String)
present tags = map (λ e. (e.0, some e.1)) tags

-- `_point`
unfoldable pub point :
    TelemetryContext → String → String → Dict FieldValue → Dict String → Raising TelemetryPoint
unfolding checked telemetry_point validate
point context observed_at name fields tags = do
  catalog ← checked repository_catalog
  made ← checked (telemetry_point (some observed_at) context name fields (present tags))
  checked (validate catalog made)

-- `plan.top_k or default`
unfoldable pub top_k_or : ℕ → GroupPlan → ℕ
top_k_or default plan = elim plan.top_k [
  | none ↦ default
  | some zero ↦ default
  | some (suc k) ↦ suc k
]

-- The points of a loop over the rows.
unfoldable pub each_row : {R A : Type 0} → (R → Raising (List A)) → List R → Raising (List A)
each_row make [] = ok []
each_row make (row ∷ rows) = do
  points ← make row
  others ← each_row make rows
  ok (points ++ others)

abbrev pub Collector : Type 0 → Type 0
Collector Cell =
    Connection Cell → TelemetryContext → GroupPlan → String → Raising (List TelemetryPoint)

module _ {Cell : Type 0} (python : Python Cell) where
  -- `_rows`
  unfoldable pub rows_of : Connection Cell → String → List Param → Raising (List (List Cell))
  rows_of conn sql_name params = or_raise (conn sql_name params) (trouble query_failed)

  -- A row is unpacked to a number of names.
  unfoldable pub unpack : ℕ → List Cell → Raising (Unit {0})
  unpack n row = raise_if (not (eqb (length row) n)) (trouble unpacking)

  -- `row[n]`
  unfoldable pub cell_at : ℕ → List Cell → Tried Cell
  cell_at n [] = err unpacking
  cell_at zero (cell ∷ cells) = ok cell
  cell_at (suc n) (cell ∷ cells) = cell_at n cells

  -- The column of a name.
  unfoldable pub column : ℕ → List Cell → Raising Cell
  unfolding cell_at tried
  column n row = tried (cell_at n row)

  -- `int(cell)`
  unfoldable pub int_of : Cell → Tried ℤ
  int_of cell = or_raise (python.to_int cell) conversion

  -- `int(cell or 0)`
  unfoldable pub int_or_zero : Cell → Tried ℤ
  unfolding int_of
  int_or_zero cell = if python.truthy cell then int_of cell else ok (pos 0)

  -- `float(cell or 0)`
  unfoldable pub float_or_zero : Cell → Tried (ℤ × ℕ)
  float_or_zero cell =
      if python.truthy cell then or_raise (python.to_float cell) conversion else ok (pos 0, 0)

  -- `float(cell or 0) / PICOSECONDS_PER_MS`
  unfoldable pub milliseconds : Cell → Tried (ℤ × ℕ)
  unfolding float_or_zero
  milliseconds cell = float_or_zero cell >>= λ n. ok (n.0, n.1 + 9)

  -- `str(cell or default)`
  unfoldable pub str_or : String → Cell → String
  str_or default cell = if python.truthy cell then python.to_str cell else default
