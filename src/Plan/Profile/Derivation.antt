-- ===== src/Plan/Profile/Derivation.antt =====
-- What a profile of the document comes to: its own text over the profile of its parent.
use azure_mysql_monitoring.Prelude.{
  if◌then◌else◌, is_empty, String, ◌≡◌, refl, sym, ap, ◌∙◌, subst, Bool, false, Option, none, some,
  [],
}
use azure_mysql_monitoring.Plan.Document.{
  Value, obj, str, Fields, entries, truthy, arr, int, float, bool, null, end,
}
use azure_mysql_monitoring.Plan.Errors.{not_an_object, profile_unknown_keys, profile_empty}
use azure_mysql_monitoring.Plan.Group.{GroupPlan, mapping}
use azure_mysql_monitoring.Plan.Profile.{
  Profile, override_groups, Header, read_header, build_profile, compile_profiles, parent_of,
  inherited_groups, inherited_allowance, profile_keys,
}
use azure_mysql_monitoring.Plan.Profile.Inheritance.{
  Resolves, parentless, inheriting, compile_profiles-Resolves,
}
use azure_mysql_monitoring.Plan.Profile.Overrides.{last_text, group_of, override_groups_lem}
use azure_mysql_monitoring.Prelude.Dict.{Dict, lookup, get_or, has_unknown, Distinct}
use azure_mysql_monitoring.Prelude.Result.{ok, >>=-eq-ok, raise_if-eq-ok}
use azure_mysql_monitoring.Prelude.Text.{is_blank}

-- What `extends` names, if anything: an empty text is no parent.
abbrev pub named : Option Value → Option String
named (some (str s)) = if is_blank s then none else some s
named _ = none

-- What `groups` holds.
abbrev pub group_texts : Option Value → Dict Value
group_texts (some (obj fields)) = entries fields
group_texts _ = []

abbrev pub groups_of : Option Profile → Dict GroupPlan
groups_of none = []
groups_of (some parent) = parent.groups

-- The flag of the text, or else the parent's, or else none.
abbrev pub allowance : Option Value → Option Profile → Bool
allowance (some value) parent = truthy value
allowance none none = false
allowance none (some parent) = parent.allow_high_cardinality

-- `p` is the profile of this text over this parent.
pub record IsOver (name : String) (raw : Dict Value) (parent : Option Profile) (p : Profile)
    : Type 0 where
  pub same_name : p.name ≡ name
  pub flag : p.allow_high_cardinality ≡ allowance (lookup "allow_high_cardinality" raw) parent
  pub each_group :
      (group : String)
      → lookup group p.groups
        ≡ group_of
            (allowance (lookup "allow_high_cardinality" raw) parent)
            group
            (last_text group (group_texts (lookup "groups" raw)))
            (lookup group (groups_of parent))
  pub some_group : is_empty p.groups ≡ false

-- `name` comes to `p`, through all its ancestors.
pub data Derives (profiles_data : Dict Value) : String → Profile → Type 0 where
  without_parent :
      (name : String) (fields : Fields) (p : Profile)
      → lookup name profiles_data ≡ some (obj fields)
      → named (lookup "extends" (entries fields)) ≡ none
      → IsOver name (entries fields) none p
      → Derives profiles_data name p
  with_parent :
      (name : String) (fields : Fields) (p : Profile) (parent_name : String) (parent : Profile)
      → lookup name profiles_data ≡ some (obj fields)
      → named (lookup "extends" (entries fields)) ≡ some parent_name
      → Derives profiles_data parent_name parent
      → IsOver name (entries fields) (some parent) p
      → Derives profiles_data name p

-- What `_mapping` accepts.
mapping-obj :
    (raw : Option Value) (d : Dict Value)
    → mapping (elim raw [ none ↦ obj end | some value ↦ value ]) not_an_object ≡ ok d
    → d ≡ group_texts raw
unfolding mapping entries
mapping-obj none d h = cc h
mapping-obj (some (obj fields)) d h = cc h
mapping-obj (some null) d h = cc h
mapping-obj (some (bool b)) d h = cc h
mapping-obj (some (int z)) d h = cc h
mapping-obj (some (float m s)) d h = cc h
mapping-obj (some (str s)) d h = cc h
mapping-obj (some (arr items)) d h = cc h

allowance_lem :
    (raw : Option Value) (parent : Option Profile)
    → truthy (elim raw [ none ↦ bool (inherited_allowance parent) | some value ↦ value ])
      ≡ allowance raw parent
unfolding truthy
allowance_lem (some value) parent = refl
allowance_lem none none = refl
allowance_lem none (some parent) = refl

groups_of_lem : (parent : Option Profile) → inherited_groups parent ≡ groups_of parent
groups_of_lem none = refl
groups_of_lem (some parent) = refl

build_profile-IsOver :
    (name : String) (raw : Dict Value) (parent : Option Profile) (p : Profile)
    → Distinct (groups_of parent)
    → build_profile name raw parent ≡ ok p
    → IsOver name raw parent p × Distinct p.groups
unfolding build_profile
build_profile-IsOver name raw parent p d h =
    let (texts, found, h₁) = >>=-eq-ok (mapping _ not_an_object) _ h in
    let allow = allowance (lookup "allow_high_cardinality" raw) parent in
    let (groups, compiled, h₂) =
      >>=-eq-ok (override_groups _ texts (inherited_groups parent)) _ h₁ in
    let (filled, h₃) = raise_if-eq-ok (is_empty groups) profile_empty _ h₂ in
    let compiled' : override_groups allow (group_texts (lookup "groups" raw)) (groups_of parent)
        ≡ ok groups =
      (λ i.
        override_groups (sym (allowance_lem (lookup "allow_high_cardinality" raw) parent) i)
          (sym (mapping-obj (lookup "groups" raw) texts found) i) (sym (groups_of_lem parent) i))
      ∙ compiled in
    let (each, d') = override_groups_lem allow _ (groups_of parent) groups d compiled' in
    let same : record {
      name = name;
      groups = groups;
      allow_high_cardinality =
          truthy (get_or "allow_high_cardinality" raw (bool (inherited_allowance parent)));
    }
        ≡ p =
      cc h₃ in
    subst (λ q. IsOver name raw parent q × Distinct q.groups) same
      (
        record {
          same_name = refl;
          flag = allowance_lem (lookup "allow_high_cardinality" raw) parent;
          each_group = each;
          some_group = filled;
        },
        d',
      )

-- What the header says is what the text says.
parent_of-named :
    (raw : Option Value) (extends : Option String)
    → parent_of (elim raw [ none ↦ null | some value ↦ value ]) ≡ ok extends
    → named raw ≡ extends
unfolding parent_of
parent_of-named none extends h = cc h
parent_of-named (some null) extends h = cc h
parent_of-named (some (str s)) extends h = cc h
parent_of-named (some (obj fields)) extends h = cc h
parent_of-named (some (bool b)) extends h = cc h
parent_of-named (some (int z)) extends h = cc h
parent_of-named (some (float m s)) extends h = cc h
parent_of-named (some (arr items)) extends h = cc h

read_header-named :
    (value : Value) (header : Header)
    → read_header value ≡ ok header
    → (fields : Fields) × (value ≡ obj fields)
      × (header.raw ≡ entries fields)
      × (named (lookup "extends" (entries fields)) ≡ header.extends)
unfolding read_header mapping
read_header-named (obj fields) header h =
    let (known, h₁) =
      raise_if-eq-ok (has_unknown profile_keys (entries fields)) profile_unknown_keys _ h in
    let (extends, found, h₂) = >>=-eq-ok (parent_of _) _ h₁ in
    let same : record { raw = entries fields; extends = extends } ≡ header = cc h₂ in
    (
      fields,
      refl,
      ap (λ x. x.raw) (sym same),
      parent_of-named (lookup "extends" (entries fields)) extends found ∙ ap (λ x. x.extends) same,
    )
read_header-named null header h = cc h
read_header-named (bool b) header h = cc h
read_header-named (int z) header h = cc h
read_header-named (float m s) header h = cc h
read_header-named (str s) header h = cc h
read_header-named (arr items) header h = cc h

Resolves-Derives :
    {profiles_data : Dict Value} {name : String} {p : Profile}
    → Resolves profiles_data name p
    → Derives profiles_data name p × Distinct p.groups
Resolves-Derives {profiles_data} (parentless name value header p found read e built) =
    let (fields, shape, raw, extends) = read_header-named value header read in
    let (over, d) =
      build_profile-IsOver name (entries fields) none p tt
        ((λ i. build_profile name (sym raw i) none) ∙ built) in
    (without_parent name fields p (found ∙ ap some shape) (extends ∙ e) over, d)
Resolves-Derives {profiles_data}
      (inheriting name value header p parent_name parent found read e r built) =
    let (fields, shape, raw, extends) = read_header-named value header read in
    let (derives, d) = Resolves-Derives r in
    let (over, d') =
      build_profile-IsOver name (entries fields) (some parent) p d
        ((λ i. build_profile name (sym raw i) (some parent)) ∙ built) in
    (
      with_parent name fields p parent_name parent (found ∙ ap some shape) (extends ∙ e) derives
          over,
      d',
    )

-- Each profile of the result is its own text over its parent's profile, which is that of the name in
-- `extends`, and so on: it has the flag of the text or else the parent's; a group of which the text
-- says nothing is the parent's, one that it disables is not there, and any other one is what its
-- text compiles to under that flag; and there is one group at least.
pub compile_profiles-Derives :
    (fields : Fields) (profiles : Dict Profile) (name : String) (p : Profile)
    → compile_profiles (obj fields) ≡ ok profiles
    → lookup name profiles ≡ some p
    → Derives (entries fields) name p
compile_profiles-Derives fields profiles name p h found =
    (Resolves-Derives (compile_profiles-Resolves fields profiles name p h found)).0
