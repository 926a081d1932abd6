-- ===== src/Plan/Load/Jobs.antt =====
-- The jobs of a loaded plan: they are there, and they are safe to run.
use mathlib.Core.List.{map-append}
use azure_mysql_monitoring.Prelude.{
  Option-cases, All, All-append, String, ◌≡◌, refl, inl, inr, none, some, List, [], ◌∷◌, ◌++◌,
  arith, ap, ◌∙◌, map,
}
use azure_mysql_monitoring.Plan.Document.{Value}
use azure_mysql_monitoring.Plan.Group.{GroupPlan}
use azure_mysql_monitoring.Plan.Group.Safety.{IsSafe}
use azure_mysql_monitoring.Plan.Load.{
  CollectionPlan, CollectionJob, jobs, load_plan, jobs_of, collect_jobs,
}
use azure_mysql_monitoring.Plan.Load.Targets.{load_plan-eq-ok, load_plan_targets}
use azure_mysql_monitoring.Plan.Profile.{Profile}
use azure_mysql_monitoring.Plan.Profile.Safety.{compiled_profiles-IsSafe}
use azure_mysql_monitoring.Plan.Target.{Target, IsValid}
use azure_mysql_monitoring.Prelude.Dict.{Dict, lookup, Values}
use azure_mysql_monitoring.Prelude.Result.{ok}

abbrev pub IsSafeJob : CollectionJob → Type 0
IsSafeJob job = IsSafe job.group

jobs_of-IsSafe :
    (target : Target) (groups : Dict GroupPlan)
    → Values IsSafe groups
    → All IsSafeJob (jobs_of target groups)
jobs_of-IsSafe target [] h = tt
jobs_of-IsSafe target ((name, group) ∷ rest) h = (h.0, jobs_of-IsSafe target rest h.1)

-- The target and the group of each job that a list of targets stands for: all groups of a target's
-- profile, target by target.
abbrev pub planned : Dict Profile → List Target → List (Target × GroupPlan)
planned profiles [] = []
planned profiles (t ∷ ts) =
    elim (lookup t.profile profiles) [ none ↦ [] | some p ↦ map (λ entry. (t, entry.1)) p.groups ]
    ++ planned profiles ts

abbrev pub target_and_group : CollectionJob → Target × GroupPlan
target_and_group job = (job.target, job.group)

jobs_of-planned :
    (target : Target) (groups : Dict GroupPlan)
    → map target_and_group (jobs_of target groups) ≡ map (λ entry. (target, entry.1)) groups
jobs_of-planned target [] = refl
jobs_of-planned target ((name, group) ∷ rest) =
    ap (λ js. (target, group) ∷ js) (jobs_of-planned target rest)

module _ (profiles : Dict Profile)
    (safe : (name : String) (p : Profile)
      → lookup name profiles ≡ some p
      → Values IsSafe p.groups) where
  collect_jobs-IsSafe :
      (targets : List Target)
      → All (IsValid profiles) targets
      → (js : List CollectionJob) × (collect_jobs profiles targets ≡ ok js)
        × All IsSafeJob js
        × (map target_and_group js ≡ planned profiles targets)
  unfolding collect_jobs
  collect_jobs-IsSafe [] h = ([], refl, tt, refl)
  collect_jobs-IsSafe (t ∷ ts) h =
      let (js, e, all, count) = collect_jobs-IsSafe ts h.1 in
      elim (Option-cases (lookup t.profile profiles)) [
        | inl missing ↦ absurd (ground (arith, h.0.known_profile))
        | inr (p, found) ↦ (
          jobs_of t p.groups ++ js,
          rw (found, e) refl,
          All-append IsSafeJob (jobs_of t p.groups) js
              (jobs_of-IsSafe t p.groups (safe t.profile p found)) all,
          rw found (
              map-append target_and_group (jobs_of t p.groups) js ∙ λ i.
              jobs_of-planned t p.groups i ++ count i),
        )
      ]

-- A loaded plan has its jobs: target by target, one with that target and that group for each group of
-- the target's profile; and each is held to the
-- catalog: no measurement is invented, no floor lowered, no growing series left without a limit.
pub load_plan-jobs :
    (repr : Value → String) (document : Value) (plan : CollectionPlan)
    → load_plan repr document ≡ ok plan
    → (js : List CollectionJob) × (jobs plan ≡ ok js)
      × All IsSafeJob js
      × (map target_and_group js ≡ planned plan.profiles plan.targets)
unfolding jobs
load_plan-jobs repr document plan h =
    let (raw_profiles, _, p, _, _) = load_plan-eq-ok repr document plan h in
    collect_jobs-IsSafe plan.profiles
      (λ name q. compiled_profiles-IsSafe raw_profiles plan.profiles name q p) plan.targets
      (load_plan_targets repr document plan h).0
