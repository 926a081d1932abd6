-- ===== src/Plan/Profile.antt =====
-- mysql-internal/collector/plan.py: `_compile_profiles`, the profiles with what they inherit.
pub mod Termination
pub mod Inheritance
pub mod Coverage
pub mod Safety
pub mod Keys
pub mod Overrides
pub mod Derivation
use azure_mysql_monitoring.Prelude.{
  if◌then◌else◌, length, is_empty, ℕ, zero, suc, String, Bool, false, not, Option, none, some, List,
  [], ◌∷◌, ◌==◌,
}
use azure_mysql_monitoring.Plan.Document.{
  Value, null, bool, str, obj, end, entries, is_false, truthy,
}
use azure_mysql_monitoring.Plan.Errors.{
  not_an_object, inheritance_cycle, unknown_profile, profile_unknown_keys, extends_not_a_name,
  disabled_with_options, disabled_not_inherited, profile_empty, out_of_fuel, Compiled,
}
use azure_mysql_monitoring.Plan.Group.{GroupPlan, mapping, compile_group}
use azure_mysql_monitoring.Prelude.Dict.{
  Dict, keys, lookup, get_or, insert, remove, has, has_unknown,
}
use azure_mysql_monitoring.Prelude.Result.{ok, err, ◌>>=◌, ◌>>◌, raise_if, or_raise}
use azure_mysql_monitoring.Prelude.Text.{is_blank, contains}

pub record Profile : Type 0 where
  pub name : String
  pub groups : Dict GroupPlan
  pub allow_high_cardinality : Bool

-- What `compile_one` reads of a profile before it turns to the parent.
pub record Header : Type 0 where
  pub raw : Dict Value
  pub extends : Option String

abbrev profile_keys : List String
profile_keys = "extends" ∷ "allow_high_cardinality" ∷ "groups" ∷ []

-- An empty name is no parent.
parent_of : Value → Compiled (Option String)
parent_of null = ok none
parent_of (str s) = ok (if is_blank s then none else some s)
parent_of _ = err extends_not_a_name

pub read_header : Value → Compiled Header
unfolding parent_of lookup has_unknown
read_header value = do
  raw ← mapping value not_an_object
  raise_if (has_unknown profile_keys raw) profile_unknown_keys
  extends ← parent_of (get_or "extends" raw null)
  ok (record { raw = raw; extends = extends })

-- `isinstance(group_raw, dict) and group_raw.get("enabled") is False`
pub disables : Value → Bool
unfolding lookup entries
disables (obj fields) = is_false (get_or "enabled" (entries fields) null)
disables _ = false

has_only_enabled : Value → Bool
unfolding has_unknown entries
has_only_enabled (obj fields) = not (has_unknown ("enabled" ∷ []) (entries fields))
has_only_enabled _ = false

-- One round of the loop over `raw_groups`.
override_group : Bool → String → Value → Dict GroupPlan → Compiled (Dict GroupPlan)
unfolding disables has_only_enabled lookup insert remove
override_group allow_high name raw groups =
    if disables raw
    then (do
      raise_if (not (has_only_enabled raw)) disabled_with_options
      raise_if (not (has name groups)) disabled_not_inherited
      ok (remove name groups))
    else (do group ← compile_group name raw allow_high; ok (insert name group groups))

pub override_groups : Bool → Dict Value → Dict GroupPlan → Compiled (Dict GroupPlan)
override_groups allow_high [] groups = ok groups
override_groups allow_high ((name, raw) ∷ rest) groups = do
  groups' ← override_group allow_high name raw groups
  override_groups allow_high rest groups'

abbrev inherited_groups : Option Profile → Dict GroupPlan
inherited_groups none = []
inherited_groups (some parent) = parent.groups

abbrev inherited_allowance : Option Profile → Bool
inherited_allowance none = false
inherited_allowance (some parent) = parent.allow_high_cardinality

-- The rest of `compile_one`, once the parent is compiled.
pub build_profile : String → Dict Value → Option Profile → Compiled Profile
unfolding lookup truthy
build_profile name raw parent =
    let allow_high =
      truthy (get_or "allow_high_cardinality" raw (bool (inherited_allowance parent))) in
    do
      raw_groups ← mapping (get_or "groups" raw (obj end)) not_an_object
      groups ← override_groups allow_high raw_groups (inherited_groups parent)
      raise_if (is_empty groups) profile_empty
      ok (record { name = name; groups = groups; allow_high_cardinality = allow_high })

-- The variables that `compile_one` closes over.
pub record Compiler : Type 0 where
  pub compiled : Dict Profile
  pub visiting : List String

abbrev pub start : Compiler
start = record { compiled = []; visiting = [] }

-- `visiting.remove(name)`
discard : String → List String → List String
discard name [] = []
discard name (x ∷ xs) = if x == name then xs else x ∷ discard name xs

abbrev pub Recursion : Type 0
Recursion = String → Compiler → Compiled (Profile × Compiler)

compile_parent : Recursion → Option String → Compiler → Compiled (Option Profile × Compiler)
compile_parent compile none c = ok (none, c)
compile_parent compile (some name) c = do (parent, c') ← compile name c; ok (some parent, c')

pub compile_new : Recursion → String → Value → Compiler → Compiled (Profile × Compiler)
unfolding discard insert
compile_new compile name value c = do
  header ← read_header value
  (parent, c') ← compile_parent compile header.extends (record c { visiting = name ∷ c.visiting })
  profile ← build_profile name header.raw parent
  ok (
    profile,
    record { compiled = insert name profile c'.compiled; visiting = discard name c'.visiting },
  )

module _ (profiles_data : Dict Value) where
  -- The recursion of `compile_one`, on fuel: `Termination` shows that it never runs out.
  pub compile_one : ℕ → String → Compiler → Compiled (Profile × Compiler)
  compile_one zero name c = err out_of_fuel
  compile_one (suc fuel) name c = elim (lookup name c.compiled) [
    | some profile ↦ ok (profile, c)
    | none ↦ if contains c.visiting name then err (inheritance_cycle name) else (do
      value ← or_raise (lookup name profiles_data) (unknown_profile name)
      compile_new (compile_one fuel) name value c)
  ]

  -- The loop over the names of the document.
  compile_names : ℕ → List String → Compiler → Compiled Compiler
  compile_names fuel [] c = ok c
  compile_names fuel (name ∷ names) c = do
    (_, c') ← compile_one fuel name c
    compile_names fuel names c'

unfoldable pub compile_profiles : Value → Compiled (Dict Profile)
unfolding compile_names compile_one compile_new compile_parent read_header build_profile
    override_groups override_group
compile_profiles raw_profiles = do
  profiles_data ← mapping raw_profiles not_an_object
  c ←
      compile_names profiles_data (suc (length profiles_data)) (keys profiles_data)
        (record { compiled = []; visiting = [] })
  ok c.compiled
