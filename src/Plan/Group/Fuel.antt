-- ===== src/Plan/Group/Fuel.antt =====
-- `_compile_group` raises, but never reports the end of the model's fuel.
use mathlib.Core.Logic.{◌≢◌}
use azure_mysql_monitoring.Prelude.{
  Option-cases, String, inl, inr, Bool, true, false, arith, Option, none, some, ℕ,
}
use azure_mysql_monitoring.Plan.Catalog.{CollectionGroupSpec, group_catalog}
use azure_mysql_monitoring.Plan.Document.{Value, obj, end}
use azure_mysql_monitoring.Plan.Duration.{parse_duration}
use azure_mysql_monitoring.Plan.Errors.{
  PlanError, unknown_group, out_of_fuel, Compiled, group_unknown_keys, group_disabled_alone,
  high_cardinality_not_allowed, interval_below_floor, top_k_required, options_not_object,
}
use azure_mysql_monitoring.Plan.Group.{
  mapping, compile_group, config_of, interval_of, top_k_of, compile_with, compile_limits,
}
use azure_mysql_monitoring.Prelude.Dict.{Dict, lookup, get_or}
use azure_mysql_monitoring.Prelude.Result.{ok, err, ◌>>=◌, ◌>>◌, raise_if, or_raise}

parse_duration-ne-out_of_fuel : (v : Value) → parse_duration v ≢ err out_of_fuel
unfolding parse_duration
parse_duration-ne-out_of_fuel v = ground arith

interval_of-ne-out_of_fuel :
    (spec : CollectionGroupSpec) (config : Dict Value) → interval_of spec config ≢ err out_of_fuel
unfolding interval_of
interval_of-ne-out_of_fuel spec config = elim (Option-cases (lookup "interval" config)) [
  | inl e ↦ rw (e, interval_of) (ground arith)
  | inr (v, e) ↦ rw (e, interval_of) (parse_duration-ne-out_of_fuel v)
]

top_k_of-ne-out_of_fuel :
    (spec : CollectionGroupSpec) (config : Dict Value) → top_k_of spec config ≢ err out_of_fuel
unfolding top_k_of
top_k_of-ne-out_of_fuel spec config = ground arith

config_of-ne-out_of_fuel : (raw : Value) → config_of raw ≢ err out_of_fuel
unfolding config_of
config_of-ne-out_of_fuel raw = ground arith

pub mapping-ne-out_of_fuel :
    (v : Value) (e : PlanError) → e ≢ out_of_fuel → mapping v e ≢ err out_of_fuel
unfolding mapping
mapping-ne-out_of_fuel v e h = ground arith

-- A chain of steps reports the end of the fuel only if one of them does.
pub bind-ne-out_of_fuel :
    {A B : Type 0} (m : Compiled A) (f : A → Compiled B)
    → m ≢ err out_of_fuel
    → ((a : A) → f a ≢ err out_of_fuel)
    → (m >>= f) ≢ err out_of_fuel
bind-ne-out_of_fuel (ok a) f hm hf = hf a
bind-ne-out_of_fuel (err x) f hm hf = λ e. hm (ground (arith, e))

pub raise_if-ne-out_of_fuel :
    {B : Type 0} (b : Bool) (e : PlanError) (k : Compiled B)
    → e ≢ out_of_fuel
    → k ≢ err out_of_fuel
    → (raise_if b e >> k) ≢ err out_of_fuel
raise_if-ne-out_of_fuel true e k h hk = λ p. h (ground (arith, p))
raise_if-ne-out_of_fuel false e k h hk = hk

limits-ne-out_of_fuel :
    (spec : CollectionGroupSpec) (config : Dict Value) (name : String) (interval : ℕ)
    → compile_limits spec config name interval ≢ err out_of_fuel
unfolding compile_limits
limits-ne-out_of_fuel spec config name interval =
    bind-ne-out_of_fuel (top_k_of spec config) _ (top_k_of-ne-out_of_fuel spec config) λ top_k.
      raise_if-ne-out_of_fuel _ top_k_required _ (ground arith) (
        bind-ne-out_of_fuel (mapping (get_or "options" config (obj end)) options_not_object) _
          (mapping-ne-out_of_fuel _ _ (ground arith)) λ options. ground arith)

compile_with-ne-out_of_fuel :
    (spec : CollectionGroupSpec) (name : String) (raw : Value) (allow : Bool)
    → compile_with spec name raw allow ≢ err out_of_fuel
unfolding compile_with
compile_with-ne-out_of_fuel spec name raw allow =
    bind-ne-out_of_fuel (config_of raw) _ (config_of-ne-out_of_fuel raw) λ config.
      raise_if-ne-out_of_fuel _ group_unknown_keys _ (ground arith) (
        raise_if-ne-out_of_fuel _ group_disabled_alone _ (ground arith) (
          raise_if-ne-out_of_fuel _ high_cardinality_not_allowed _ (ground arith) (
            bind-ne-out_of_fuel (interval_of spec config) _ (interval_of-ne-out_of_fuel spec config)
              λ interval.
                raise_if-ne-out_of_fuel _ interval_below_floor _ (ground arith)
                  (limits-ne-out_of_fuel spec config name interval))))

pub or_raise-ne-out_of_fuel :
    {A : Type 0} (o : Option A) (e : PlanError) → e ≢ out_of_fuel → or_raise o e ≢ err out_of_fuel
or_raise-ne-out_of_fuel none e h = λ p. h (ground (arith, p))
or_raise-ne-out_of_fuel (some a) e h = λ p. ground (arith, p)

pub compile_group-ne-out_of_fuel :
    (name : String) (raw : Value) (allow : Bool) → compile_group name raw allow ≢ err out_of_fuel
unfolding compile_group
compile_group-ne-out_of_fuel name raw allow =
    bind-ne-out_of_fuel (or_raise (lookup name group_catalog) (unknown_group name)) _
      (or_raise-ne-out_of_fuel _ _ (ground arith))
      (λ spec. compile_with-ne-out_of_fuel spec name raw allow)
