-- ===== src/Plan/Load/Tests.antt =====
-- A small document, what it loads to, and the theorems about loading at it.
use azure_mysql_monitoring.Prelude.{
  All, ℕ, String, ◌≡◌, refl, ◌≢◌, true, false, Option, none, some, List, [], ◌∷◌, eqb, not, map,
}
use azure_mysql_monitoring.Collector.Exits.{PlanEnds, plan_main-PlanEnds}
use azure_mysql_monitoring.Collector.Main.{PlanSite, plan_main}
use azure_mysql_monitoring.Groups.Collectors.{group_collectors}
use azure_mysql_monitoring.Groups.Rows.{Python}
use azure_mysql_monitoring.Plan.Document.{
  Value, null, bool, int, str, arr, obj, nil, cons, Fields, field, entries, equals_one, end,
}
use azure_mysql_monitoring.Plan.Duration.{parse_duration}
use azure_mysql_monitoring.Plan.Errors.{inheritance_cycle, out_of_fuel}
use azure_mysql_monitoring.Plan.Group.{GroupPlan, compile_group, mapping}
use azure_mysql_monitoring.Plan.Group.Safety.{IsSafe, compile_group-IsSafe}
use azure_mysql_monitoring.Plan.Load.{CollectionPlan, CollectionJob, jobs, ids, load_plan}
use azure_mysql_monitoring.Plan.Load.Jobs.{IsSafeJob, load_plan-jobs, planned, target_and_group}
use azure_mysql_monitoring.Plan.Load.Targets.{IsDistinct, load_plan_targets}
use azure_mysql_monitoring.Plan.Profile.{Profile, compile_profiles}
use azure_mysql_monitoring.Plan.Profile.Derivation.{Derives, compile_profiles-Derives}
use azure_mysql_monitoring.Plan.Profile.Termination.{compile_profiles-ne-out_of_fuel}
use azure_mysql_monitoring.Plan.Secret.{from_env, parse_secret_reference}
use azure_mysql_monitoring.Plan.Target.{Target, IsValid, compile_target}
use azure_mysql_monitoring.Prelude.Dict.{keys, lookup}
use azure_mysql_monitoring.Prelude.Int.{pos}
use azure_mysql_monitoring.Prelude.Result.{ok, err}
use azure_mysql_monitoring.Runtime.Assembly.{assemble}
use azure_mysql_monitoring.Runtime.Assembly.Loaded.{assemble_loaded}
use azure_mysql_monitoring.Runtime.Worker.{Worker}

abbrev env_field : String → Value
env_field variable = obj (field "env" (str variable) end)

abbrev base_profile : Value
base_profile = obj (
    field "groups"
      (obj
        (field "global-status" null (field "file-io" (obj (field "interval" (str "30s") end)) end)))
      end)

abbrev deep_profile : Value
deep_profile = obj (
    field "extends" (str "base") (
      field "allow_high_cardinality" (bool true) (
        field "groups"
          (obj (
            field "table-io" (obj (field "top_k" (int (pos 20)) end))
              (field "file-io" (obj (field "enabled" (bool false) end)) end)))
          end)))

abbrev quiet_profile : Value
quiet_profile = obj (field "extends" (str "deep") (field "allow_high_cardinality" (bool false) end))

abbrev profiles_field : Fields
profiles_field =
    field "quiet" quiet_profile (field "deep" deep_profile (field "base" base_profile end))

abbrev target_of : String → String → Value
target_of id profile = obj (
    field "id" (str id) (
      field "host" (str " db ") (
        field "database" (str "app") (
          field "tier" (str "premium-ssd-v2") (
            field "profile" (str profile) (
              field "run_id" (env_field "RUN") (
                field "credentials"
                  (obj
                    (field "username" (env_field "USER") (field "password" (env_field "PASS") end)))
                  end)))))))

abbrev document : Value
document = obj (
    field "version" (int (pos 1)) (
      field "profiles" (obj profiles_field) (
        field "targets" (arr (cons (target_of "a" "base") (cons (target_of "b" "deep") nil))) end)))

abbrev group : String → ℕ → Option ℕ → String × GroupPlan
group name interval top_k =
    (name, record { name = name; interval = interval; top_k = top_k; options = [] })

abbrev base : Profile
base = record {
  name = "base";
  groups = group "global-status" 10000 none ∷ group "file-io" 30000 (some 100) ∷ [];
  allow_high_cardinality = false;
}

abbrev deep : Profile
deep = record {
  name = "deep";
  groups = group "global-status" 10000 none ∷ group "table-io" 300000 (some 20) ∷ [];
  allow_high_cardinality = true;
}

abbrev quiet : Profile
quiet = record { name = "quiet"; groups = deep.groups; allow_high_cardinality = false }

abbrev target : String → String → Target
target id profile = record {
  target_id = id;
  host = "db";
  database = "app";
  tier = "premium-ssd-v2";
  profile = profile;
  username = from_env "USER";
  password = from_env "PASS";
  run_id = "RUN";
  port = 3306;
  azure_resource_id = "";
  ssl_ca = "";
}

abbrev plan : CollectionPlan
plan = record {
  profiles = ("base", base) ∷ ("deep", deep) ∷ ("quiet", quiet) ∷ [];
  targets = target "a" "base" ∷ target "b" "deep" ∷ [];
}

abbrev repr : Value → String
repr value = "?"

profiles_compiled : compile_profiles (obj profiles_field) ≡ ok plan.profiles
unfolding compile_profiles compile_group parse_duration mapping
profiles_compiled = refl

loaded : load_plan repr document ≡ ok plan
unfolding load_plan compile_profiles compile_group compile_target parse_duration
    parse_secret_reference mapping equals_one
loaded = refl

cycle_refused :
    compile_profiles (obj (field "a" (obj (field "extends" (str "a") end)) end))
    ≡ err (inheritance_cycle "a")
unfolding compile_profiles mapping
cycle_refused = refl

load_plan-jobs_example :
    (js : List CollectionJob) × (jobs plan ≡ ok js)
    × All IsSafeJob js
    × (map target_and_group js ≡ planned plan.profiles plan.targets)
load_plan-jobs_example = load_plan-jobs repr document plan loaded

load_plan_targets_example : All (IsValid plan.profiles) plan.targets × IsDistinct (ids plan.targets)
load_plan_targets_example = load_plan_targets repr document plan loaded

compile_profiles-Derives_example : Derives (entries profiles_field) "deep" deep
unfolding lookup
compile_profiles-Derives_example =
    compile_profiles-Derives profiles_field plan.profiles "deep" deep profiles_compiled refl

compile_profiles-ne-out_of_fuel_example : compile_profiles (obj profiles_field) ≢ err out_of_fuel
compile_profiles-ne-out_of_fuel_example = compile_profiles-ne-out_of_fuel (obj profiles_field)

abbrev file_io : GroupPlan
file_io = record { name = "file-io"; interval = 30000; top_k = some 100; options = [] }

file_io_compiled :
    compile_group "file-io" (obj (field "interval" (str "30s") end)) false ≡ ok file_io
unfolding compile_group parse_duration mapping
file_io_compiled = refl

compile_group-IsSafe_example : IsSafe file_io × (file_io.name ≡ "file-io")
compile_group-IsSafe_example = compile_group-IsSafe "file-io" _ false file_io file_io_compiled

-- Built-in functions on cells that are natural numbers.
abbrev python : Python ℕ
python = record {
  truthy = λ cell. not (eqb cell 0);
  to_int = λ cell. some (pos cell);
  to_float = λ cell. some (pos cell, 0);
  to_str = λ cell. "n";
  equals = λ cell name. false;
}

assemble_loaded_example :
    (workers : List (Target × Worker String String)) × (assemble 1000 60000
        (keys (group_collectors python))
        plan
      ≡ ok workers)
    × (map (λ w. w.0) workers ≡ plan.targets)
assemble_loaded_example = assemble_loaded python repr document plan 1000 60000 loaded

abbrev plan_site : PlanSite String String
plan_site = record {
  document = document;
  environ = [];
  constructs = λ kind. true;
  finishes = λ workers. true;
}

plan_main-PlanEnds_example :
    PlanEnds python repr plan_site ("jsonl" ∷ []) (plan_main python repr plan_site ("jsonl" ∷ []))
plan_main-PlanEnds_example = plan_main-PlanEnds python repr plan_site ("jsonl" ∷ [])
