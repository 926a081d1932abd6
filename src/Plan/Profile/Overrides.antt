-- ===== src/Plan/Profile/Overrides.antt =====
-- The groups of a profile, one by one: its own texts over the groups that its parent has. The text of
-- a group that is named twice is the last one, as `yaml.safe_load` keeps it.
use azure_mysql_monitoring.Prelude.{
  if◌then◌else◌, Bool-cases, String, ◌≡◌, sym, ap, ◌∙◌, subst, inl, inr, Bool, false, Option, none,
  some, [], ◌∷◌, arith, ◌==◌, eq_iff,
}
use azure_mysql_monitoring.Plan.Document.{Value}
use azure_mysql_monitoring.Plan.Errors.{Compiled}
use azure_mysql_monitoring.Plan.Group.{GroupPlan, compile_group}
use azure_mysql_monitoring.Plan.Profile.{disables, override_group, override_groups}
use azure_mysql_monitoring.Prelude.Dict.{
  Dict, lookup, insert, remove, lookup-insert, Distinct, lookup-remove_key, Distinct-insert,
  Distinct-remove,
}
use azure_mysql_monitoring.Prelude.Result.{ok, err, >>=-eq-ok}

pub last_text : String → Dict Value → Option Value
last_text name [] = none
last_text name ((k, value) ∷ rest) = elim (last_text name rest) [
  | some text ↦ some text
  | none ↦ if k == name then some value else none
]

abbrev pub compiled_group : Compiled GroupPlan → Option GroupPlan
compiled_group (ok group) = some group
compiled_group (err e) = none

-- A group that the text disables is none; one that it has is compiled under the flag; and one of which
-- it says nothing is the parent's.
abbrev pub group_of : Bool → String → Option Value → Option GroupPlan → Option GroupPlan
group_of allow name none inherited = inherited
group_of allow name (some text) inherited =
    if disables text then none else compiled_group (compile_group name text allow)

module _ (allow : Bool) where
  -- `one` is `groups` under this text.
  abbrev Over : String → Value → Dict GroupPlan → Dict GroupPlan → Type 0
  Over name text groups one =
      ((g : String)
        → lookup g one
          ≡ (if name == g then group_of allow g (some text) (lookup g groups) else lookup g groups))
      × Distinct one

  compiled_over :
      (name g : String) (text : Value) (group : GroupPlan) (groups : Dict GroupPlan)
      → disables text ≡ false
      → compile_group name text allow ≡ ok group
      → lookup g (insert name group groups)
        ≡ (if name == g then group_of allow g (some text) (lookup g groups) else lookup g groups)
  compiled_over name g text group groups e made = elim (Bool-cases (name == g)) [
    | inr other ↦ rw other (rw other at (lookup-insert {V = GroupPlan} name g group groups))
    | inl here ↦
        let same : compile_group g text allow ≡ ok group =
          subst (λ n. compile_group n text allow ≡ ok group) ((eq_iff name g).0 here) made in
        rw (here, e)
          ((rw here at (lookup-insert {V = GroupPlan} name g group groups))
            ∙ ap compiled_group (sym same))
  ]

  override_group_lem :
      (name : String) (text : Value) (groups one : Dict GroupPlan)
      → Distinct groups
      → override_group allow name text groups ≡ ok one
      → Over name text groups one
  unfolding override_group
  override_group_lem name text groups one d h = elim (Bool-cases (disables text)) [
    | inl e ↦
        let same : remove name groups ≡ one = ground arith in
        subst (Over name text groups) same
          (λ g. rw e (lookup-remove_key name g groups d), Distinct-remove name groups d)
    | inr e ↦
        let (group, made, last) =
          >>=-eq-ok (compile_group name text allow) _ (rw (e, override_group) at h) in
        let same : insert name group groups ≡ one = ground arith in
        subst (Over name text groups) same
          (λ g. compiled_over name g text group groups e made, Distinct-insert name group groups d)
  ]

  -- The first text counts where no later one does.
  over_two :
      (name g : String) (text : Value) (later : Option Value) (old between new : Option GroupPlan)
      → between ≡ (if name == g then group_of allow g (some text) old else old)
      → new ≡ group_of allow g later between
      → new
        ≡ group_of allow g
            (elim later [ some value ↦ some value | none ↦ if name == g then some text else none ])
            old
  over_two name g text (some value) old between new h e = e
  over_two name g text none old between new h e = elim (Bool-cases (name == g)) [
    | inl here ↦ rw here (e ∙ (rw here at h))
    | inr other ↦ rw other (e ∙ (rw other at h))
  ]

  pub override_groups_lem :
      (texts : Dict Value) (groups result : Dict GroupPlan)
      → Distinct groups
      → override_groups allow texts groups ≡ ok result
      → ((g : String) → lookup g result ≡ group_of allow g (last_text g texts) (lookup g groups))
        × Distinct result
  unfolding override_groups last_text
  override_groups_lem [] groups result d h =
      let same : groups ≡ result = ground arith in
      (λ g. ap (lookup g) (sym same), subst Distinct same d)
  override_groups_lem ((name, text) ∷ texts) groups result d h =
      let (mid, first, last) = >>=-eq-ok (override_group allow name text groups) _ h in
      let (one, d') = override_group_lem name text groups mid d first in
      let (others, d'') = override_groups_lem texts mid result d' last in
      (
        λ g.
            over_two name g text (last_text g texts) (lookup g groups) (lookup g mid)
              (lookup g result) (one g) (others g),
        d'',
      )
