-- ===== src/Plan/Load.antt =====
-- mysql-internal/collector/plan.py: `load_plan` from the parsed document on, and the jobs.
pub mod Jobs
pub mod Targets
mod Tests
use azure_mysql_monitoring.Prelude.{String, Bool, false, not, ◌||◌, List, [], ◌∷◌, ◌++◌, map}
use azure_mysql_monitoring.Plan.Document.{Value, null, arr, cons, elements, equals_one}
use azure_mysql_monitoring.Plan.Errors.{
  not_an_object, document_unknown_keys, version_not_one, targets_not_a_list, duplicate_ids,
  key_error, Compiled,
}
use azure_mysql_monitoring.Plan.Group.{GroupPlan, mapping}
use azure_mysql_monitoring.Plan.Profile.{Profile, compile_profiles}
use azure_mysql_monitoring.Plan.Target.{Target, compile_target}
use azure_mysql_monitoring.Prelude.Dict.{Dict, lookup, get_or, has_unknown}
use azure_mysql_monitoring.Prelude.Result.{ok, err, ◌>>=◌, ◌>>◌, raise_if, or_raise}
use azure_mysql_monitoring.Prelude.Text.{contains}

pub record CollectionPlan : Type 0 where
  pub profiles : Dict Profile
  pub targets : List Target

pub record CollectionJob : Type 0 where
  pub target : Target
  pub group : GroupPlan

abbrev jobs_of : Target → Dict GroupPlan → List CollectionJob
jobs_of target [] = []
jobs_of target ((name, group) ∷ rest) =
    record { target = target; group = group } ∷ jobs_of target rest

-- The comprehension of `jobs`: a missing profile is Python's `KeyError`.
collect_jobs : Dict Profile → List Target → Compiled (List CollectionJob)
unfolding lookup
collect_jobs profiles [] = ok []
collect_jobs profiles (target ∷ rest) = do
  profile ← or_raise (lookup target.profile profiles) key_error
  others ← collect_jobs profiles rest
  ok (jobs_of target profile.groups ++ others)

-- `CollectionPlan.jobs`
unfoldable pub jobs : CollectionPlan → Compiled (List CollectionJob)
unfolding collect_jobs
jobs plan = collect_jobs plan.profiles plan.targets

-- `len(set(ids)) != len(ids)`
pub has_duplicate : List String → Bool
has_duplicate [] = false
has_duplicate (x ∷ xs) = contains xs x || has_duplicate xs

abbrev pub ids : List Target → List String
ids targets = map (λ t. t.target_id) targets

module _ (repr : Value → String) where
  pub compile_targets : Dict Profile → List Value → Compiled (List Target)
  compile_targets profiles [] = ok []
  compile_targets profiles (raw ∷ rest) = do
    target ← compile_target repr profiles raw
    targets ← compile_targets profiles rest
    ok (target ∷ targets)

  target_list : Value → Compiled (List Value)
  unfolding elements
  target_list (arr (cons v rest)) = ok (elements (cons v rest))
  target_list _ = err targets_not_a_list

  -- The document is what `yaml.safe_load` returned.
  pub load_plan : Value → Compiled CollectionPlan
  unfolding compile_targets target_list has_duplicate mapping has_unknown
  load_plan document = do
    root ← mapping document not_an_object
    raise_if (has_unknown ("version" ∷ "profiles" ∷ "targets" ∷ []) root) document_unknown_keys
    raise_if (not (equals_one (get_or "version" root null))) version_not_one
    profiles ← compile_profiles (get_or "profiles" root null)
    raw_targets ← target_list (get_or "targets" root null)
    targets ← compile_targets profiles raw_targets
    raise_if (has_duplicate (ids targets)) duplicate_ids
    ok (record { profiles = profiles; targets = targets })
