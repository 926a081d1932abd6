-- ===== src/Plan/Profile/Safety.antt =====
-- Every group of every compiled profile is safe, inherited or not.
use azure_mysql_monitoring.Prelude.{
  Bool-cases, String, ◌≡◌, subst, inl, inr, Bool, Option, none, some, [], ◌∷◌, arith, is_empty,
  false,
}
use azure_mysql_monitoring.Plan.Document.{Value, obj, Fields, bool, truthy}
use azure_mysql_monitoring.Plan.Errors.{not_an_object}
use azure_mysql_monitoring.Plan.Group.{GroupPlan, mapping, compile_group}
use azure_mysql_monitoring.Plan.Group.Safety.{IsSafe, compile_group-IsSafe}
use azure_mysql_monitoring.Plan.Profile.{
  Profile, build_profile, compile_profiles, disables, override_group, override_groups,
  inherited_groups,
}
use azure_mysql_monitoring.Plan.Profile.Inheritance.{
  Resolves, compile_profiles-Resolves, parentless, inheriting,
}
use azure_mysql_monitoring.Prelude.Dict.{
  Dict, lookup, insert, remove, Values, Values-insert, Values-remove,
}
use azure_mysql_monitoring.Prelude.Result.{ok, >>=-eq-ok}

override_groups-IsSafe :
    (allow : Bool) (raws : Dict Value) (groups groups' : Dict GroupPlan)
    → Values IsSafe groups
    → override_groups allow raws groups ≡ ok groups'
    → Values IsSafe groups'
unfolding override_groups override_group
override_groups-IsSafe allow [] groups groups' s h =
    let same : groups ≡ groups' = ground arith in subst (Values IsSafe) same s
override_groups-IsSafe allow ((name, raw) ∷ rest) groups groups' s h =
    let (mid, first, last) = >>=-eq-ok (override_group allow name raw groups) _ h in
    override_groups-IsSafe allow rest mid groups' (step mid first) last
  where
    step :
        (mid : Dict GroupPlan) → override_group allow name raw groups ≡ ok mid → Values IsSafe mid
    step mid e = elim (Bool-cases (disables raw)) [
      | inl d ↦
          let same : remove name groups ≡ mid = ground arith in
          subst (Values IsSafe) same (Values-remove IsSafe name groups s)
      | inr d ↦
          let (group, compiled, e₁) =
            >>=-eq-ok (compile_group name raw allow) _ (rw (d, override_group) at e) in
          let same : insert name group groups ≡ mid = ground arith in
          subst (Values IsSafe) same (
            Values-insert IsSafe name group groups
              (compile_group-IsSafe name raw allow group compiled).0 s)
    ]

build_profile-IsSafe :
    (name : String) (raw : Dict Value) (parent : Option Profile) (p : Profile)
    → Values IsSafe (inherited_groups parent)
    → build_profile name raw parent ≡ ok p
    → Values IsSafe p.groups
unfolding build_profile
build_profile-IsSafe name raw parent p s h =
    let (raw_groups, _, h₁) = >>=-eq-ok (mapping _ not_an_object) _ h in
    let (groups, compiled, h₂) =
      >>=-eq-ok (override_groups _ raw_groups (inherited_groups parent)) _ h₁ in
    let same : groups ≡ p.groups = ground arith in
    subst (Values IsSafe) same
      (override_groups-IsSafe _ raw_groups (inherited_groups parent) groups s compiled)

Resolves-IsSafe :
    {profiles_data : Dict Value} {name : String} {p : Profile}
    → Resolves profiles_data name p
    → Values IsSafe p.groups
Resolves-IsSafe (parentless name value header p found read e built) =
    build_profile-IsSafe name header.raw none p tt built
Resolves-IsSafe (inheriting name value header p parent_name parent found read e r built) =
    build_profile-IsSafe name header.raw (some parent) p (Resolves-IsSafe r) built

-- Whatever a profile inherits, overrides or disables, each of its groups is in the catalog, not
-- below its floor, and limited where its series can grow.
pub compile_profiles-IsSafe :
    (fields : Fields) (profiles : Dict Profile) (name : String) (p : Profile)
    → compile_profiles (obj fields) ≡ ok profiles
    → lookup name profiles ≡ some p
    → Values IsSafe p.groups
compile_profiles-IsSafe fields profiles name p h found =
    Resolves-IsSafe (compile_profiles-Resolves fields profiles name p h found)

-- A profile that says `allow_high_cardinality: false` and no groups keeps every group of its
-- parent, the high-cardinality ones too: only the groups in its own text are held to its own flag.
pub build_profile_inherits_high :
    (name : String) (raw : Dict Value) (parent : Profile)
    → lookup "groups" raw ≡ none
    → lookup "allow_high_cardinality" raw ≡ some (bool false)
    → is_empty parent.groups ≡ false
    → build_profile name raw (some parent)
      ≡ ok (record { name = name; groups = parent.groups; allow_high_cardinality = false })
unfolding build_profile override_groups mapping truthy
build_profile_inherits_high name raw parent hg ha he = ground arith

-- The same of a document of any shape.
pub compiled_profiles-IsSafe :
    (raw : Value) (profiles : Dict Profile) (name : String) (p : Profile)
    → compile_profiles raw ≡ ok profiles
    → lookup name profiles ≡ some p
    → Values IsSafe p.groups
unfolding compile_profiles mapping
compiled_profiles-IsSafe (obj fields) profiles name p h found =
    compile_profiles-IsSafe fields profiles name p h found
compiled_profiles-IsSafe _ profiles name p h found = cc h
