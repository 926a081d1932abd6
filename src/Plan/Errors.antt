-- ===== src/Plan/Errors.antt =====
-- mysql-internal/collector/plan.py: one constructor for each `raise PlanError`, in the order of the
-- file, without the path that the message gives. The last four are the exceptions of other classes
-- that the compiler lets through, and the end of the model's fuel.
use azure_mysql_monitoring.Prelude.{String}
use azure_mysql_monitoring.Prelude.Result.{Result}

pub data PlanError : Type 0 where
  duration_not_text duration_malformed : PlanError
  secret_literal env_name_empty vault_not_object vault_unknown_keys : PlanError
  vault_uri_not_https vault_secret_empty vault_version_not_text secret_shape : PlanError
  not_an_object : PlanError
  unknown_group : String → PlanError
  group_unknown_keys group_disabled_alone high_cardinality_not_allowed : PlanError
  interval_below_floor top_k_not_positive top_k_required : PlanError
  options_not_object options_unknown_keys : PlanError
  inheritance_cycle unknown_profile : String → PlanError
  profile_unknown_keys extends_not_a_name disabled_with_options : PlanError
  disabled_not_inherited profile_empty : PlanError
  target_unknown_keys : PlanError
  field_not_text : String → PlanError
  tier_invalid target_unknown_profile port_out_of_range : PlanError
  credentials_unknown_keys run_id_not_env : PlanError
  document_unknown_keys version_not_one targets_not_a_list duplicate_ids : PlanError
  -- `OverflowError` of `timedelta`, `ValueError` of `int`, `KeyError` of a mapping
  overflow_error value_error key_error : PlanError
  out_of_fuel : PlanError

-- The results of the compiler.
abbrev pub Compiled {ℓ} : Type ℓ → Type ℓ
Compiled A = Result PlanError A
