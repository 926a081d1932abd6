-- ===== src/Telemetry/Rows.antt =====
-- mysql-internal/collector/telemetry.py: `series_key`, `packed_row` and the columns of the rows of
-- `series_rows`, as the json module takes them.
pub mod Order
use Prim.Native.Char.{code}
use azure_mysql_monitoring.Prelude.{
  Bool, ltb, if◌then◌else◌, ℕ, zero, suc, String, true, false, [], ◌∷◌,
}
use azure_mysql_monitoring.Groups.Rows.{point}
use azure_mysql_monitoring.Plan.Document.{Value, obj, str, int, float, bool, Fields, end, field}
use azure_mysql_monitoring.Prelude.Dict.{Dict}
use azure_mysql_monitoring.Prelude.Int.{pos}
use azure_mysql_monitoring.Spool.Codec.{Row, encode}
use azure_mysql_monitoring.Spool.Step.{then}
use azure_mysql_monitoring.Telemetry.Catalog.{SeriesRow}
use azure_mysql_monitoring.Telemetry.Point.{
  FieldValue, integer, real, flag, text, FieldKind, counter, gauge, state, TelemetryPoint,
}

-- Python's `<=` of texts: by the code points, from the first on.
unfoldable pub text_le : String → String → Bool
text_le String.[] t = true
text_le (String.◌∷◌ c s) String.[] = false
text_le (String.◌∷◌ c s) (String.◌∷◌ d t) =
    let rest = text_le s t in
    if ltb (code c) (code d) then true else (if ltb (code d) (code c) then false else rest)

unfoldable pub place_tag : String × String → Dict String → Dict String
place_tag tag [] = tag ∷ []
place_tag tag (other ∷ tags) =
    if text_le tag.0 other.0 then tag ∷ other ∷ tags else other ∷ place_tag tag tags

-- `dict(sorted(self.tags.items()))`, the names being different.
unfoldable pub sort_tags : Dict String → Dict String
unfolding place_tag
sort_tags [] = []
sort_tags (tag ∷ tags) = place_tag tag (sort_tags tags)

-- A `dict` as a value.
unfoldable pub fields_of : Dict Value → Fields
fields_of [] = end
fields_of ((name, value) ∷ rest) = field name value (fields_of rest)

abbrev pub object : Dict Value → Value
object d = obj (fields_of d)

unfoldable pub tag_values : Dict String → Dict Value
tag_values [] = []
tag_values ((name, value) ∷ rest) = (name, str value) ∷ tag_values rest

unfoldable pub value_of_field : FieldValue → Value
value_of_field (integer z) = int z
value_of_field (real m s) = float m s
value_of_field (flag b) = bool b
value_of_field (text s) = str s

unfoldable pub field_values : Dict FieldValue → Dict Value
unfolding value_of_field
field_values [] = []
field_values ((name, value) ∷ rest) = (name, value_of_field value) ∷ field_values rest

-- `s[:n]`
unfoldable pub first_chars : ℕ → String → String
first_chars zero s = String.[]
first_chars (suc n) String.[] = String.[]
first_chars (suc n) (String.◌∷◌ c s) = String.◌∷◌ c (first_chars n s)

-- The value whose JSON text is hashed.
unfoldable pub identity_of : TelemetryPoint → Value
unfolding fields_of tag_values sort_tags
identity_of point = object (
    ("target_id", str point.context.target_id)
    ∷ ("measurement", str point.measurement)
    ∷ ("tags", object (tag_values (sort_tags point.tags)))
    ∷ [])

abbrev kind_name : FieldKind → String
kind_name counter = "counter"
kind_name gauge = "gauge"
kind_name state = "state"

-- `encode` is `json.dumps` with sorted keys, and `hexdigest` the one of `hashlib.sha256`.
module _ (encode : Value → String) (hexdigest : String → String) where
  -- `series_key`
  unfoldable pub series_key : TelemetryPoint → String
  unfolding first_chars identity_of
  series_key point = first_chars 24 (hexdigest (encode (identity_of point)))

  -- `packed_row`
  unfoldable pub packed_row : TelemetryPoint → Row
  unfolding series_key fields_of tag_values field_values
  packed_row point =
      ("ts", str point.observed_at)
      ∷ ("contract_version", int (pos 2))
      ∷ ("run_id", str point.context.run_id)
      ∷ ("target_id", str point.context.target_id)
      ∷ ("host", str point.context.host)
      ∷ ("azure_resource_id", str point.context.azure_resource_id)
      ∷ ("tier", str point.context.tier)
      ∷ ("collector_id", str point.context.collector_id)
      ∷ ("measurement", str point.measurement)
      ∷ ("series_key", str (series_key point))
      ∷ ("tags", object (tag_values point.tags))
      ∷ ("fields", object (field_values point.fields))
      ∷ []

  -- The columns of a row of `series_rows`.
  unfoldable pub series_row : SeriesRow → Row
  unfolding series_key fields_of tag_values
  series_row row =
      ("ts", str row.point.observed_at)
      ∷ ("contract_version", int (pos 2))
      ∷ ("run_id", str row.point.context.run_id)
      ∷ ("target_id", str row.point.context.target_id)
      ∷ ("host", str row.point.context.host)
      ∷ ("tier", str row.point.context.tier)
      ∷ ("measurement", str row.point.measurement)
      ∷ ("series_key", str (series_key row.point))
      ∷ ("tags", object (tag_values row.point.tags))
      ∷ ("field", str row.field_name)
      ∷ ("value", float row.value.0 row.value.1)
      ∷ ("kind", str (kind_name row.kind))
      ∷ ("unit", str row.unit)
      ∷ []
