-- ===== src/Plan/Group.antt =====
-- mysql-internal/collector/plan.py: `_compile_group`, one group of a profile held to its floors.
pub mod Safety
pub mod Fuel
use azure_mysql_monitoring.Prelude.{
  ltb, is_empty, ℕ, suc, String, Bool, true, false, not, ◌&&◌, Option, none, some, List, [], ◌∷◌,
}
use azure_mysql_monitoring.Plan.Catalog.{CollectionGroupSpec, group_catalog, is_high, needs_top_k}
use azure_mysql_monitoring.Plan.Document.{Value, null, bool, int, obj, end, entries, is_false}
use azure_mysql_monitoring.Plan.Duration.{parse_duration}
use azure_mysql_monitoring.Plan.Errors.{
  PlanError, not_an_object, unknown_group, group_unknown_keys, group_disabled_alone,
  high_cardinality_not_allowed, interval_below_floor, top_k_not_positive, top_k_required,
  options_not_object, options_unknown_keys, Compiled,
}
use azure_mysql_monitoring.Prelude.Dict.{Dict, lookup, get_or, has_unknown}
use azure_mysql_monitoring.Prelude.Int.{pos}
use azure_mysql_monitoring.Prelude.Result.{ok, err, ◌>>=◌, ◌>>◌, raise_if, or_raise}

pub record GroupPlan : Type 0 where
  pub name : String
  pub interval : ℕ
  pub top_k : Option ℕ
  pub options : Dict Value

-- `_mapping`
unfoldable pub mapping : Value → PlanError → Compiled (Dict Value)
unfolding entries
mapping (obj fields) e = ok (entries fields)
mapping _ e = err e

-- `{} if raw is None else _mapping(raw)`
config_of : Value → Compiled (Dict Value)
unfolding mapping
config_of null = ok []
config_of raw = mapping raw not_an_object

interval_of : CollectionGroupSpec → Dict Value → Compiled ℕ
unfolding lookup
interval_of spec config = elim (lookup "interval" config) [
  | none ↦ ok spec.default_interval
  | some value ↦ parse_duration value
]

-- A `null` stands for no limit, also over a default.
explicit_top_k : Value → Compiled (Option ℕ)
explicit_top_k null = ok none
explicit_top_k (int (pos (suc k))) = ok (some (suc k))
explicit_top_k _ = err top_k_not_positive

top_k_of : CollectionGroupSpec → Dict Value → Compiled (Option ℕ)
unfolding lookup explicit_top_k
top_k_of spec config = elim (lookup "top_k" config) [
  | none ↦ ok spec.default_top_k
  | some value ↦ explicit_top_k value
]

abbrev pub is_none {ℓ} : {A : Type ℓ} → Option A → Bool
is_none none = true
is_none (some a) = false

abbrev group_keys : List String
group_keys = "interval" ∷ "top_k" ∷ "options" ∷ "enabled" ∷ []

-- The second half of the function: the limits, then the plan.
compile_limits : CollectionGroupSpec → Dict Value → String → ℕ → Compiled GroupPlan
unfolding lookup
compile_limits spec config name interval = do
  top_k ← top_k_of spec config
  raise_if (needs_top_k spec.cardinality && is_none top_k) top_k_required
  options ← mapping (get_or "options" config (obj end)) options_not_object
  raise_if (not (is_empty options)) options_unknown_keys
  ok (record { name = name; interval = interval; top_k = top_k; options = options })

-- The body of the function, once the catalog has its entry.
compile_with : CollectionGroupSpec → String → Value → Bool → Compiled GroupPlan
unfolding compile_limits lookup has_unknown
compile_with spec name raw allow_high_cardinality = do
  config ← config_of raw
  raise_if (has_unknown group_keys config) group_unknown_keys
  raise_if (is_false (get_or "enabled" config (bool true))) group_disabled_alone
  raise_if (is_high spec.cardinality && not allow_high_cardinality) high_cardinality_not_allowed
  interval ← interval_of spec config
  raise_if (ltb interval spec.minimum_interval) interval_below_floor
  compile_limits spec config name interval

unfoldable pub compile_group : String → Value → Bool → Compiled GroupPlan
unfolding compile_with config_of interval_of top_k_of lookup group_catalog
compile_group name raw allow_high_cardinality = do
  spec ← or_raise (lookup name group_catalog) (unknown_group name)
  compile_with spec name raw allow_high_cardinality
