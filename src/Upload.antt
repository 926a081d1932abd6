-- ===== src/Upload.antt =====
-- benchmark-integration/upload_jsonl.py: an archive of packed rows, one for each line, is read back,
-- checked and ingested.
pub mod Load
pub mod RoundTrip
pub mod Archive
pub mod Main
pub mod Marking
mod Tests
use mathlib.Core.Option
use Prim.Native.Char.{code}
use azure_mysql_monitoring.Prelude.{
  eqb, if◌then◌else◌, ℕ, String, Option, none, some, [], ◌∷◌, ◌<>◌,
}
use azure_mysql_monitoring.Groups.Rows.{present}
use azure_mysql_monitoring.Plan.Document.{
  Value, obj, arr, str, int, float, bool, end, field, Items, nil, cons, entries,
}
use azure_mysql_monitoring.Prelude.Dict.{Dict, lookup, get_or, insert}
use azure_mysql_monitoring.Prelude.Result.{Result, ok, err, ◌>>=◌, ◌>>◌, or_raise}
use azure_mysql_monitoring.Spool.Codec.{Row}
use azure_mysql_monitoring.Spool.Step.{then}
use azure_mysql_monitoring.Telemetry.Point.{
  FieldValue, integer, real, flag, text, ContractError, Checked, TelemetryContext, TelemetryPoint,
  telemetry_context, telemetry_point,
}
use azure_mysql_monitoring.Workload.{reading}

-- Why a line is refused: `json.loads`, a key, a type, `fromisoformat` or the contract.
pub data RowError : Type 0 where
  not_json not_an_object bad_time bad_mapping bad_value : RowError
  missing_key : String → RowError
  refused_point : ContractError → RowError

pub data LoadError : Type 0 where
  invalid_row : ℕ → RowError → LoadError
  no_rows : LoadError

-- What the standard library does with texts.
pub record Reading : Type 0 where
  -- `json.loads`
  pub loads : String → Option Value
  -- `str`
  pub text_of : Value → String
  -- `datetime.fromisoformat`, and the text that `iso` makes of a time with a zone
  pub parse_time : String → Option (Option String)

-- `.replace("Z", "+00:00")`
unfoldable pub replace_z : String → String
replace_z String.[] = String.[]
replace_z (String.◌∷◌ c s) =
    if eqb (code c) 90 then "+00:00" <> replace_z s else String.◌∷◌ c (replace_z s)

-- A pair of the list that `dict` gets: a name that is no text is refused, as the catalog would do.
pair_of : Value → Option (String × Value)
pair_of (arr (cons (str name) (cons value nil))) = some (name, value)
pair_of (obj (field name value (field other more end))) = some (name, str other)
pair_of (str (String.◌∷◌ c (String.◌∷◌ d String.[]))) =
    some (String.◌∷◌ c String.[], str (String.◌∷◌ d String.[]))
pair_of _ = none

pairs_of : Dict Value → Items → Option (Dict Value)
unfolding pair_of insert
pairs_of done nil = some done
pairs_of done (cons item items) = elim (pair_of item) [
  | none ↦ none
  | some (name, value) ↦ pairs_of (insert name value done) items
]

-- `dict(value)`
unfoldable pub dict_of : Value → Option (Dict Value)
unfolding entries pairs_of
dict_of (obj d) = some (entries d)
dict_of (arr items) = pairs_of [] items
dict_of (str String.[]) = some []
dict_of _ = none

-- The value of a field; no measurement has one that is null, a list or an object.
unfoldable pub field_of_value : Value → Option FieldValue
field_of_value (int z) = some (integer z)
field_of_value (float m s) = some (real m s)
field_of_value (bool b) = some (flag b)
field_of_value (str s) = some (text s)
field_of_value _ = none

unfoldable pub fields_of_values : Dict Value → Option (Dict FieldValue)
unfolding field_of_value
fields_of_values [] = some []
fields_of_values ((name, value) ∷ rest) = elim (field_of_value value) [
  | none ↦ none
  | some known ↦ Option.map (λ others. (name, known) ∷ others) (fields_of_values rest)
]

unfoldable pub refused_by {ℓ} : {A : Type ℓ} → Checked A → Result RowError A
refused_by (ok a) = ok a
refused_by (err e) = err (refused_point e)

unfoldable pub at_key : Row → String → Result RowError Value
unfolding lookup
at_key row name = or_raise (lookup name row) (missing_key name)

module _ (reading : Reading) where
  unfoldable pub text_at : Row → String → Result RowError String
  unfolding at_key
  text_at row name = at_key row name >>= λ value. ok (reading.text_of value)

  -- `str(row.get(name, ""))`
  unfoldable pub text_or_blank : Row → String → String
  unfolding lookup
  text_or_blank row name = reading.text_of (get_or name row (str ""))

  unfoldable pub tags_of_values : Dict Value → Dict String
  tags_of_values [] = []
  tags_of_values ((name, value) ∷ rest) = (name, reading.text_of value) ∷ tags_of_values rest

  -- The argument `context`.
  unfoldable pub context_from_row : Row → Result RowError TelemetryContext
  unfolding text_at text_or_blank refused_by telemetry_context
  context_from_row row = do
    run_id ← text_at row "run_id"
    target_id ← text_at row "target_id"
    host ← text_at row "host"
    tier ← text_at row "tier"
    refused_by (
        telemetry_context (record {
          run_id = run_id;
          target_id = target_id;
          host = host;
          tier = tier;
          azure_resource_id = text_or_blank row "azure_resource_id";
          collector_id = text_or_blank row "collector_id";
        }))

  -- `point_from_row`
  unfoldable pub point_from_row : Row → Result RowError TelemetryPoint
  unfolding text_at at_key context_from_row dict_of tags_of_values fields_of_values refused_by
      replace_z telemetry_point
  point_from_row row = do
    ts ← text_at row "ts"
    observed_at ← or_raise (reading.parse_time (replace_z ts)) bad_time
    context ← context_from_row row
    measurement ← text_at row "measurement"
    tags ← at_key row "tags"
    tag_dict ← or_raise (dict_of tags) bad_mapping
    fields ← at_key row "fields"
    field_dict ← or_raise (dict_of fields) bad_mapping
    known ← or_raise (fields_of_values field_dict) bad_value
    refused_by
        (telemetry_point observed_at context measurement known (present (tags_of_values tag_dict)))
