-- ===== src/Plan/Profile/Keys.antt =====
-- The groups of a compiled profile stand under their own names.
use azure_mysql_monitoring.Prelude.{
  Bool-cases, All, String, ◌≡◌, refl, subst, inl, inr, Bool, true, Option, none, some, [], ◌∷◌,
  arith,
}
use azure_mysql_monitoring.Plan.Catalog.{group_catalog}
use azure_mysql_monitoring.Plan.Document.{Value, obj}
use azure_mysql_monitoring.Plan.Errors.{not_an_object}
use azure_mysql_monitoring.Plan.Group.{GroupPlan, mapping, compile_group}
use azure_mysql_monitoring.Plan.Group.Safety.{IsSafe, compile_group-IsSafe}
use azure_mysql_monitoring.Plan.Profile.{
  Profile, build_profile, compile_profiles, disables, override_group, override_groups,
  inherited_groups,
}
use azure_mysql_monitoring.Plan.Profile.Inheritance.{
  Resolves, parentless, inheriting, compile_profiles-Resolves,
}
use azure_mysql_monitoring.Plan.Profile.Safety.{compile_profiles-IsSafe}
use azure_mysql_monitoring.Prelude.Dict.{
  Dict, lookup, insert, remove, has, Values, insert-All, remove-All,
}
use azure_mysql_monitoring.Prelude.Result.{ok, >>=-eq-ok}

abbrev IsNamed : String × GroupPlan → Type 0
IsNamed e = e.1.name ≡ e.0

override_groups-IsNamed :
    (allow : Bool) (raws : Dict Value) (groups result : Dict GroupPlan)
    → All IsNamed groups
    → override_groups allow raws groups ≡ ok result
    → All IsNamed result
unfolding override_groups override_group
override_groups-IsNamed allow [] groups result s h =
    let same : groups ≡ result = ground arith in subst (All IsNamed) same s
override_groups-IsNamed allow ((name, raw) ∷ rest) groups result s h =
    let (mid, first, last) = >>=-eq-ok (override_group allow name raw groups) _ h in
    override_groups-IsNamed allow rest mid result (overridden mid first) last
  where
    overridden :
        (mid : Dict GroupPlan) → override_group allow name raw groups ≡ ok mid → All IsNamed mid
    overridden mid e = elim (Bool-cases (disables raw)) [
      | inl d ↦
          let same : remove name groups ≡ mid = ground arith in
          subst (All IsNamed) same (remove-All IsNamed name groups s)
      | inr d ↦
          let (group, compiled, e₁) =
            >>=-eq-ok (compile_group name raw allow) _ (rw (d, override_group) at e) in
          let same : insert name group groups ≡ mid = ground arith in
          subst (All IsNamed) same (
            insert-All IsNamed name group groups
              (compile_group-IsSafe name raw allow group compiled).1 s)
    ]

build_profile-IsNamed :
    (name : String) (raw : Dict Value) (parent : Option Profile) (p : Profile)
    → All IsNamed (inherited_groups parent)
    → build_profile name raw parent ≡ ok p
    → All IsNamed p.groups
unfolding build_profile
build_profile-IsNamed name raw parent p s h =
    let (raw_groups, _, h₁) = >>=-eq-ok (mapping _ not_an_object) _ h in
    let (groups, compiled, h₂) =
      >>=-eq-ok (override_groups _ raw_groups (inherited_groups parent)) _ h₁ in
    let same : groups ≡ p.groups = ground arith in
    subst (All IsNamed) same
      (override_groups-IsNamed _ raw_groups (inherited_groups parent) groups s compiled)

Resolves-IsNamed :
    {profiles_data : Dict Value} {name : String} {p : Profile}
    → Resolves profiles_data name p
    → All IsNamed p.groups
Resolves-IsNamed (parentless name value header p found read e built) =
    build_profile-IsNamed name header.raw none p tt built
Resolves-IsNamed (inheriting name value header p parent_name parent found read e r built) =
    build_profile-IsNamed name header.raw (some parent) p (Resolves-IsNamed r) built

abbrev pub IsCatalogued : String × GroupPlan → Type 0
IsCatalogued e = has e.0 group_catalog ≡ true

All-IsCatalogued :
    (groups : Dict GroupPlan) → All IsNamed groups → Values IsSafe groups → All IsCatalogued groups
All-IsCatalogued [] named safe = tt
All-IsCatalogued ((name, group) ∷ groups) named safe = (
  subst (λ k. has k group_catalog ≡ true) named.0 (rw (safe.0.known, has) refl),
  All-IsCatalogued groups named.1 safe.1,
)

-- Each group of a compiled profile stands under a name of the catalog.
pub compiled_profiles-IsCatalogued :
    (raw : Value) (profiles : Dict Profile) (name : String) (p : Profile)
    → compile_profiles raw ≡ ok profiles
    → lookup name profiles ≡ some p
    → All IsCatalogued p.groups
unfolding compile_profiles mapping
compiled_profiles-IsCatalogued (obj fields) profiles name p h found =
    All-IsCatalogued p.groups
      (Resolves-IsNamed (compile_profiles-Resolves fields profiles name p h found))
      (compile_profiles-IsSafe fields profiles name p h found)
compiled_profiles-IsCatalogued _ profiles name p h found = cc h
