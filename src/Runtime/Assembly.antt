-- ===== src/Runtime/Assembly.antt =====
-- mysql-internal/collector/runtime.py: `CollectionPlanRuntime.__init__`, from a plan and the names of
-- the registered collectors to one worker for each target.
pub mod Loaded
use azure_mysql_monitoring.Prelude.{if◌then◌else◌, is_empty, ℕ, String, not, List, [], ◌∷◌, ◌++◌}
use azure_mysql_monitoring.Plan.Load.{CollectionPlan}
use azure_mysql_monitoring.Plan.Profile.{Profile}
use azure_mysql_monitoring.Plan.Target.{Target}
use azure_mysql_monitoring.Prelude.Dict.{Dict, keys, lookup}
use azure_mysql_monitoring.Prelude.Result.{Result, ok, ◌>>=◌, ◌>>◌, raise_if, or_raise}
use azure_mysql_monitoring.Prelude.Text.{contains}
use azure_mysql_monitoring.Runtime.Worker.{Worker, new_worker}
use azure_mysql_monitoring.Spool.Step.{then}
use azure_mysql_monitoring.Telemetry.Catalog.{difference}

pub data AssemblyError : Type 0 where
  -- `KeyError` of the profiles
  no_profile : AssemblyError
  missing_collectors : List String → AssemblyError

-- The groups that the workers serve themselves.
abbrev pub own_groups : List String
own_groups = "collector-health" ∷ "error-log" ∷ []

without_own : List String → List String
without_own [] = []
without_own (name ∷ names) =
    if contains own_groups name then without_own names else name ∷ without_own names

unfoldable pub configured_groups : Dict Profile → List Target → Result AssemblyError (List String)
unfolding lookup without_own
configured_groups profiles [] = ok []
configured_groups profiles (target ∷ targets) = do
  profile ← or_raise (lookup target.profile profiles) no_profile
  others ← configured_groups profiles targets
  ok (without_own (keys profile.groups) ++ others)

module _ {Point Event : Type 0} (initial_backoff max_backoff : ℕ) where
  pub make_workers :
      Dict Profile → List Target → Result AssemblyError (List (Target × Worker Point Event))
  unfolding lookup new_worker
  make_workers profiles [] = ok []
  make_workers profiles (target ∷ targets) = do
    profile ← or_raise (lookup target.profile profiles) no_profile
    others ← make_workers profiles targets
    ok ((target, new_worker profile.groups initial_backoff max_backoff) ∷ others)

  -- The workers, for the names of a registry.
  pub assemble :
      List String → CollectionPlan → Result AssemblyError (List (Target × Worker Point Event))
  unfolding difference configured_groups make_workers
  assemble registry plan = do
    configured ← configured_groups plan.profiles plan.targets
    raise_if (not (is_empty (difference configured registry)))
        (missing_collectors (difference configured registry))
    make_workers plan.profiles plan.targets
