-- ===== src/Plan/Group/Safety.antt =====
-- What holds of every group that `_compile_group` accepts.
use mathlib.Core.Option.{some-injective}
use azure_mysql_monitoring.Prelude.{
  ℕ, ◌≤◌, String, ◌≡◌, ◌≢◌, Bool, true, false, Option, some, [], arith, sym, ◌∙◌, inl, inr,
}
use azure_mysql_monitoring.Plan.Catalog.{CollectionGroupSpec, group_catalog, is_high, needs_top_k}
use azure_mysql_monitoring.Plan.Document.{Value}
use azure_mysql_monitoring.Plan.Errors.{PlanError, unknown_group}
use azure_mysql_monitoring.Plan.Group.{
  GroupPlan, is_none, top_k_of, compile_with, compile_group, config_of,
}
use azure_mysql_monitoring.Prelude.Dict.{Dict, lookup, Values, Values-lookup}
use azure_mysql_monitoring.Prelude.Result.{
  ok, err, or_raise, >>=-eq-ok, or_raise-eq-ok, Result-cases,
}

-- The catalog has the group; its interval is not below the floor; a group whose series can grow
-- has a positive limit; and no option is left unread.
pub record IsSafe (g : GroupPlan) : Type 0 where
  pub spec : CollectionGroupSpec
  pub known : lookup g.name group_catalog ≡ some spec
  pub floor : spec.minimum_interval ≤ g.interval
  pub limited : needs_top_k spec.cardinality ≡ true → is_none g.top_k ≡ false
  pub positive : g.top_k ≢ some 0
  pub no_options : g.options ≡ []

top_k_of-ne-zero :
    (spec : CollectionGroupSpec) (config : Dict Value) {k : Option ℕ}
    → spec.default_top_k ≢ some 0
    → top_k_of spec config ≡ ok k
    → k ≢ some 0
unfolding top_k_of
top_k_of-ne-zero spec config d h = ground arith

module _ (spec : CollectionGroupSpec) (name : String) (raw : Value) (allow : Bool) {g : GroupPlan}
    (h : compile_with spec name raw allow ≡ ok g) where
  name_kept : g.name ≡ name
  unfolding compile_with
  name_kept = ground arith

  floor_kept : spec.minimum_interval ≤ g.interval
  unfolding compile_with
  floor_kept = ground arith

  limit_kept : needs_top_k spec.cardinality ≡ true → is_none g.top_k ≡ false
  unfolding compile_with
  limit_kept = ground arith

  options_kept : g.options ≡ []
  unfolding compile_with
  options_kept = ground arith

  high_allowed : is_high spec.cardinality ≡ true → allow ≡ true
  unfolding compile_with
  high_allowed = ground arith

  source_of_top_k :
      (config : Dict Value) → config_of raw ≡ ok config → top_k_of spec config ≡ ok g.top_k
  unfolding compile_with
  source_of_top_k config e = ground arith

  config_read : (e : PlanError) → config_of raw ≢ err e
  unfolding compile_with
  config_read e = ground arith

  top_k_kept : spec.default_top_k ≢ some 0 → g.top_k ≢ some 0
  top_k_kept d = elim (Result-cases (config_of raw)) [
    | inl (config, e) ↦ top_k_of-ne-zero spec config d (source_of_top_k config e)
    | inr (e, p) ↦ absurd (config_read e p)
  ]

default_top_k-ne-zero : Values (λ s. s.default_top_k ≢ some 0) group_catalog
unfolding group_catalog
default_top_k-ne-zero = ground arith

-- `compile_group` is the body above at the catalog's entry.
compile_group-eq-ok :
    (name : String) (raw : Value) (allow : Bool) {g : GroupPlan}
    → compile_group name raw allow ≡ ok g
    → (spec : CollectionGroupSpec) × (lookup name group_catalog ≡ some spec)
      × (compile_with spec name raw allow ≡ ok g)
unfolding compile_group
compile_group-eq-ok name raw allow h =
    let (spec, found, rest) =
      >>=-eq-ok (or_raise (lookup name group_catalog) (unknown_group name)) _ h in
    (spec, or_raise-eq-ok _ _ found, rest)

-- Whatever the YAML says of a group, one that is accepted respects the floor and the limits.
pub compile_group-IsSafe :
    (name : String) (raw : Value) (allow : Bool) (g : GroupPlan)
    → compile_group name raw allow ≡ ok g
    → IsSafe g × (g.name ≡ name)
compile_group-IsSafe name raw allow g h =
    let (spec, found, rest) = compile_group-eq-ok name raw allow h in
    let named = name_kept spec name raw allow rest in
    (
      record {
        spec = spec;
        known = rw named found;
        floor = floor_kept spec name raw allow rest;
        limited = limit_kept spec name raw allow rest;
        positive = top_k_kept spec name raw allow rest (
            Values-lookup (λ s. s.default_top_k ≢ some 0) name group_catalog default_top_k-ne-zero
              found);
        no_options = options_kept spec name raw allow rest;
      },
      named,
    )

-- A high-cardinality group is accepted only under `allow_high_cardinality`.
pub compile_group_high :
    (name : String) (raw : Value) (spec : CollectionGroupSpec) (g : GroupPlan)
    → lookup name group_catalog ≡ some spec
    → is_high spec.cardinality ≡ true
    → compile_group name raw false ≢ ok g
compile_group_high name raw spec g found h e =
    let (spec', found', rest) = compile_group-eq-ok name raw false e in
    let same = some-injective _ _ (sym found' ∙ found) in
    ground (arith, high_allowed spec' name raw false rest, same)
