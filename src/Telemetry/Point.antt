-- ===== src/Telemetry/Point.antt =====
-- mysql-internal/collector/telemetry.py: specifications, contexts and points, each with the checks
-- of its constructor. The time of a point is the text that `iso` makes of it, if it has a zone.
use mathlib.Core.Option
use Prim.Native.Char.{code}
use azure_mysql_monitoring.Prelude.{
  if◌then◌else◌, is_empty, ℕ, String, Bool, true, false, not, ◌||◌, Option, none, some, List, [],
  ◌∷◌,
}
use azure_mysql_monitoring.Prelude.Dict.{Dict}
use azure_mysql_monitoring.Prelude.Int.{ℤ}
use azure_mysql_monitoring.Prelude.Result.{Result, ok, ◌>>=◌, ◌>>◌, raise_if, or_raise}
use azure_mysql_monitoring.Prelude.Text.{is_space, is_blank, strip}

pub data FieldValue : Type 0 where
  integer : ℤ → FieldValue
  -- mantissa / 10 ^ scale
  real : ℤ → ℕ → FieldValue
  flag : Bool → FieldValue
  text : String → FieldValue

pub data FieldKind : Type 0 where
  counter gauge state : FieldKind

pub data ValueType : Type 0 where
  int_type float_type bool_type str_type : ValueType

pub data Problem : Type 0 where
  unknown_fields missing_fields unknown_tags missing_tags : List String → Problem

-- One constructor for each `raise ContractError`.
pub data ContractError : Type 0 where
  wrong_type : String → String → ContractError
  measurement_name no_field_specs : ContractError
  context_requires : List String → ContractError
  naive_time no_measurement no_fields empty_field_name bad_tags : ContractError
  duplicate_measurements : ContractError
  unknown_measurement : String → ContractError
  invalid : String → List Problem → ContractError
  tagged : String → ContractError
  -- `KeyError` of a mapping
  key_error : ContractError

abbrev pub Checked {ℓ} : Type ℓ → Type ℓ
Checked A = Result ContractError A

pub record FieldSpec : Type 0 where
  pub kind : FieldKind
  pub unit : String
  pub value_type : ValueType
  pub series : Bool
  pub required : Bool

pub record MeasurementSpec : Type 0 where
  pub name : String
  pub fields : Dict FieldSpec
  pub tags : List String

pub record TelemetryContext : Type 0 where
  pub run_id : String
  pub target_id : String
  pub host : String
  pub tier : String
  pub azure_resource_id : String
  pub collector_id : String

pub record TelemetryPoint : Type 0 where
  pub observed_at : String
  pub context : TelemetryContext
  pub measurement : String
  pub fields : Dict FieldValue
  pub tags : Dict String

-- `isinstance(value, (int, float)) and not isinstance(value, bool)`
unfoldable pub is_number : FieldValue → Bool
is_number (integer z) = true
is_number (real m s) = true
is_number (flag b) = false
is_number (text s) = false

-- The test of `FieldSpec.validate`.
unfoldable pub has_type : ValueType → FieldValue → Bool
unfolding is_number
has_type bool_type (flag b) = true
has_type bool_type _ = false
has_type float_type value = is_number value
has_type int_type (integer z) = true
has_type int_type _ = false
has_type str_type (text s) = true
has_type str_type _ = false

-- `FieldSpec.validate`
unfoldable pub validate_field : FieldSpec → String → String → FieldValue → Checked (Unit {0})
unfolding has_type
validate_field spec measurement name value =
    raise_if (not (has_type spec.value_type value)) (wrong_type measurement name)

-- `any(char.isspace() for char in self.name)`
has_space : String → Bool
unfolding is_space
has_space String.[] = false
has_space (String.◌∷◌ c rest) = is_space (code c) || has_space rest

-- `MeasurementSpec.__post_init__`
pub measurement_spec : MeasurementSpec → Checked MeasurementSpec
unfolding has_space
measurement_spec spec = do
  raise_if (is_blank spec.name || has_space spec.name) measurement_name
  raise_if (is_empty spec.fields) no_field_specs
  ok spec

-- The names of the required texts that are blank.
missing_names : List (String × String) → List String
unfolding strip
missing_names [] = []
missing_names ((name, value) ∷ rest) =
    if is_blank (strip value) then name ∷ missing_names rest else missing_names rest

-- `TelemetryContext.__post_init__`
unfoldable pub telemetry_context : TelemetryContext → Checked TelemetryContext
unfolding missing_names
telemetry_context context =
    let missing = missing_names (
      ("run_id", context.run_id)
      ∷ ("target_id", context.target_id)
      ∷ ("host", context.host)
      ∷ ("tier", context.tier)
      ∷ []) in
    do raise_if (not (is_empty missing)) (context_requires missing); ok context

unfoldable pub has_blank_key : {V : Type 0} → Dict V → Bool
has_blank_key [] = false
has_blank_key ((name, value) ∷ rest) = is_blank name || has_blank_key rest

-- The tags as they come, where a value may be missing.
unfoldable pub present_tags : Dict (Option String) → Option (Dict String)
present_tags [] = some []
present_tags ((name, none) ∷ rest) = none
present_tags ((name, some value) ∷ rest) =
    if is_blank name then none else Option.map (λ tags. (name, value) ∷ tags) (present_tags rest)

-- `TelemetryPoint.__post_init__`, for a time with a zone or without.
unfoldable pub telemetry_point :
    Option String
    → TelemetryContext
    → String
    → Dict FieldValue
    → Dict (Option String)
    → Checked TelemetryPoint
unfolding has_blank_key present_tags
telemetry_point observed_at context measurement fields tags = do
  time ← or_raise observed_at naive_time
  raise_if (is_blank measurement) no_measurement
  raise_if (is_empty fields) no_fields
  raise_if (has_blank_key fields) empty_field_name
  known ← or_raise (present_tags tags) bad_tags
  ok (record {
    observed_at = time;
    context = context;
    measurement = measurement;
    fields = fields;
    tags = known;
  })
