-- ===== src/Plan/Profile/Termination.antt =====
-- The recursion of `compile_one` ends: each call in progress visits another name of the document.
use azure_mysql_monitoring.Prelude.{
  if◌then◌else◌, length, ℕ, suc, ◌≤◌, ◌<◌, String, ◌≡◌, false, some, List, [], ◌∷◌, arith, eq_iff,
  ◌≢◌, inl, inr, Bool, Option, Bool-cases, Option-cases, zero, none,
}
use azure_mysql_monitoring.Plan.Document.{Value, obj, end}
use azure_mysql_monitoring.Plan.Errors.{out_of_fuel, Compiled, not_an_object}
use azure_mysql_monitoring.Plan.Group.{GroupPlan, mapping}
use azure_mysql_monitoring.Plan.Group.Fuel.{
  mapping-ne-out_of_fuel, bind-ne-out_of_fuel, compile_group-ne-out_of_fuel,
}
use azure_mysql_monitoring.Plan.Profile.{
  Profile, read_header, override_group, override_groups, build_profile, Compiler, compile_profiles,
  compile_parent, compile_new, inherited_groups, compile_one, compile_names,
}
use azure_mysql_monitoring.Prelude.Dict.{Dict, lookup, keys, get_or}
use azure_mysql_monitoring.Prelude.Result.{err}
use azure_mysql_monitoring.Prelude.Text.{contains}

-- The names of the document that no call in progress visits.
unvisited : Dict Value → List String → ℕ
unvisited [] visiting = 0
unvisited ((name, value) ∷ rest) visiting =
    if contains visiting name then unvisited rest visiting else suc (unvisited rest visiting)

unvisited-le-length :
    (data' : Dict Value) (visiting : List String) → unvisited data' visiting ≤ length data'
unfolding unvisited
unvisited-le-length [] visiting = omega arith
unvisited-le-length ((name, value) ∷ rest) visiting =
    ground (arith, unvisited-le-length rest visiting)

unvisited-cons-le :
    (data' : Dict Value) (name : String) (visiting : List String)
    → unvisited data' (name ∷ visiting) ≤ unvisited data' visiting
unfolding unvisited
unvisited-cons-le [] name visiting = omega arith
unvisited-cons-le ((j, value) ∷ rest) name visiting =
    ground (arith, unvisited-cons-le rest name visiting)

unvisited-cons :
    (data' : Dict Value) (name : String) (visiting : List String) (value : Value)
    → lookup name data' ≡ some value
    → contains visiting name ≡ false
    → unvisited data' (name ∷ visiting) < unvisited data' visiting
unfolding unvisited lookup
unvisited-cons [] name visiting value h f = cc
unvisited-cons ((j, v) ∷ rest) name visiting value h f = ground (
  arith,
  eq_iff j name,
  eq_iff name j,
  unvisited-cons-le rest name visiting,
  unvisited-cons rest name visiting value,
)

override_group-ne-out_of_fuel :
    (allow : Bool) (name : String) (raw : Value) (groups : Dict GroupPlan)
    → override_group allow name raw groups ≢ err out_of_fuel
unfolding override_group
override_group-ne-out_of_fuel allow name raw groups =
    ground (arith, compile_group-ne-out_of_fuel name raw allow)

override_groups-ne-out_of_fuel :
    (allow : Bool) (raws : Dict Value) (groups : Dict GroupPlan)
    → override_groups allow raws groups ≢ err out_of_fuel
unfolding override_groups
override_groups-ne-out_of_fuel allow [] groups = ground arith
override_groups-ne-out_of_fuel allow ((name, raw) ∷ rest) groups =
    bind-ne-out_of_fuel (override_group allow name raw groups) _
      (override_group-ne-out_of_fuel allow name raw groups)
      (override_groups-ne-out_of_fuel allow rest)

build_profile-ne-out_of_fuel :
    (name : String) (raw : Dict Value) (parent : Option Profile)
    → build_profile name raw parent ≢ err out_of_fuel
unfolding build_profile
build_profile-ne-out_of_fuel name raw parent =
    bind-ne-out_of_fuel (mapping (get_or "groups" raw (obj end)) not_an_object) _
      (mapping-ne-out_of_fuel _ _ (ground arith))
      λ raw_groups.
        bind-ne-out_of_fuel (override_groups _ raw_groups (inherited_groups parent)) _
          (override_groups-ne-out_of_fuel _ raw_groups (inherited_groups parent))
          λ groups. ground arith

read_header-ne-out_of_fuel : (value : Value) → read_header value ≢ err out_of_fuel
unfolding read_header
read_header-ne-out_of_fuel value =
    bind-ne-out_of_fuel (mapping value not_an_object) _ (mapping-ne-out_of_fuel _ _ (ground arith))
      λ raw. ground arith

compile_new-ne-out_of_fuel :
    (compile : String → Compiler → Compiled (Profile × Compiler)) (name : String) (value : Value)
    (c : Compiler)
    → ((parent : String)
        → compile parent (record c { visiting = name ∷ c.visiting }) ≢ err out_of_fuel)
    → compile_new compile name value c ≢ err out_of_fuel
unfolding compile_new compile_parent
compile_new-ne-out_of_fuel compile name value c h =
    bind-ne-out_of_fuel (read_header value) _ (read_header-ne-out_of_fuel value) λ header.
      bind-ne-out_of_fuel (compile_parent compile header.extends _) _ (parent header.extends) λ r.
        bind-ne-out_of_fuel (build_profile name header.raw r.0) _
          (build_profile-ne-out_of_fuel name header.raw r.0) (λ profile. ground arith)
  where
    parent :
        (extends : Option String)
        → compile_parent compile extends (record c { visiting = name ∷ c.visiting })
          ≢ err out_of_fuel
    parent none = ground arith
    parent (some p) = bind-ne-out_of_fuel _ _ (h p) (λ r. ground arith)

module _ (profiles_data : Dict Value) where
  compile_one-ne-out_of_fuel :
      (fuel : ℕ) (name : String) (c : Compiler)
      → unvisited profiles_data c.visiting < fuel
      → compile_one profiles_data fuel name c ≢ err out_of_fuel
  unfolding compile_one
  compile_one-ne-out_of_fuel zero name c h = absurd (omega arith)
  compile_one-ne-out_of_fuel (suc fuel) name c h = elim (Option-cases (lookup name c.compiled)) [
    | inr (p, e) ↦ rw (e, compile_one) (ground arith)
    | inl e ↦
        rw (e, compile_one)
          (elim (Bool-cases (contains c.visiting name)) [
            | inl v ↦ rw v (ground arith)
            | inr v ↦ rw v (elim (Option-cases (lookup name profiles_data)) [
              | inl m ↦ rw m (ground arith)
              | inr (value, m) ↦ rw m (
                  compile_new-ne-out_of_fuel _ name value c λ parent.
                    compile_one-ne-out_of_fuel fuel parent _
                      (omega (arith, unvisited-cons profiles_data name c.visiting value m v)))
            ])
          ])
  ]

  compile_names-ne-out_of_fuel :
      (names : List String) (c : Compiler)
      → compile_names profiles_data (suc (length profiles_data)) names c ≢ err out_of_fuel
  unfolding compile_names
  compile_names-ne-out_of_fuel [] c = ground arith
  compile_names-ne-out_of_fuel (name ∷ names) c =
      bind-ne-out_of_fuel _ _
        (compile_one-ne-out_of_fuel _ name c
          (omega (arith, unvisited-le-length profiles_data c.visiting)))
        (λ r. compile_names-ne-out_of_fuel names r.1)

-- The recursion over parents always ends: whatever the document, cycles included, the fuel given
-- is enough.
pub compile_profiles-ne-out_of_fuel : (raw : Value) → compile_profiles raw ≢ err out_of_fuel
unfolding compile_profiles
compile_profiles-ne-out_of_fuel raw =
    bind-ne-out_of_fuel (mapping raw not_an_object) _ (mapping-ne-out_of_fuel _ _ (ground arith))
      λ profiles_data.
        bind-ne-out_of_fuel _ _ (compile_names-ne-out_of_fuel profiles_data (keys profiles_data) _)
          (λ c. ground arith)
