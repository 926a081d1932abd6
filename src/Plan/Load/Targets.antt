-- ===== src/Plan/Load/Targets.antt =====
-- What `load_plan` guarantees of the targets that it returns.
use azure_mysql_monitoring.Prelude.{
  All, String, ◌≡◌, subst, ◌≢◌, false, not, List, [], ◌∷◌, arith, eq_iff,
}
use azure_mysql_monitoring.Plan.Document.{Value, null, equals_one}
use azure_mysql_monitoring.Plan.Errors.{
  not_an_object, document_unknown_keys, version_not_one, duplicate_ids,
}
use azure_mysql_monitoring.Plan.Group.{mapping}
use azure_mysql_monitoring.Plan.Load.{
  CollectionPlan, ids, load_plan, has_duplicate, compile_targets, target_list,
}
use azure_mysql_monitoring.Plan.Profile.{Profile, compile_profiles}
use azure_mysql_monitoring.Plan.Target.{Target, IsValid, compile_target, compile_target-IsValid}
use azure_mysql_monitoring.Prelude.Dict.{Dict, get_or, has_unknown}
use azure_mysql_monitoring.Prelude.Result.{ok, >>=-eq-ok, raise_if-eq-ok}
use azure_mysql_monitoring.Prelude.Text.{contains}

abbrev pub IsDistinct : List String → Type 0
IsDistinct [] = Unit
IsDistinct (x ∷ xs) = All (λ y. x ≢ y) xs × IsDistinct xs

All-ne_of_contains : (x : String) (xs : List String) → contains xs x ≡ false → All (λ y. x ≢ y) xs
All-ne_of_contains x [] h = tt
All-ne_of_contains x (y ∷ ys) h =
    (ground (arith, eq_iff y x, eq_iff x y), All-ne_of_contains x ys (ground arith))

IsDistinct-of_has_duplicate : (xs : List String) → has_duplicate xs ≡ false → IsDistinct xs
unfolding has_duplicate
IsDistinct-of_has_duplicate [] h = tt
IsDistinct-of_has_duplicate (x ∷ xs) h =
    (All-ne_of_contains x xs (ground arith), IsDistinct-of_has_duplicate xs (ground arith))

module _ (repr : Value → String) where
  compile_targets-IsValid :
      (profiles : Dict Profile) (raws : List Value) (targets : List Target)
      → compile_targets repr profiles raws ≡ ok targets
      → All (IsValid profiles) targets
  unfolding compile_targets
  compile_targets-IsValid profiles [] [] h = tt
  compile_targets-IsValid profiles [] (t ∷ ts) h = cc
  compile_targets-IsValid profiles (raw ∷ raws) targets h =
      let (t, first, h₁) = >>=-eq-ok (compile_target repr profiles raw) _ h in
      let (ts, others, h₂) = >>=-eq-ok (compile_targets repr profiles raws) _ h₁ in
      let same : t ∷ ts ≡ targets = ground arith in
      subst (All (IsValid profiles)) same (
        compile_target-IsValid repr profiles raw t first,
        compile_targets-IsValid profiles raws ts others,
      )

  -- The parts of a successful `load_plan`.
  pub load_plan-eq-ok :
      (document : Value) (plan : CollectionPlan)
      → load_plan repr document ≡ ok plan
      → (raw_profiles : Value) × (raw_targets : List Value) × (compile_profiles raw_profiles
          ≡ ok plan.profiles)
        × (compile_targets repr plan.profiles raw_targets ≡ ok plan.targets)
        × (has_duplicate (ids plan.targets) ≡ false)
  unfolding load_plan
  load_plan-eq-ok document plan h =
      let (fields, _, h₁) = >>=-eq-ok (mapping document not_an_object) _ h in
      let (_, h₂) =
        raise_if-eq-ok (has_unknown ("version" ∷ "profiles" ∷ "targets" ∷ []) fields)
          document_unknown_keys _ h₁ in
      let (_, h₃) =
        raise_if-eq-ok (not (equals_one (get_or "version" fields null))) version_not_one _ h₂ in
      let (profiles, p, h₄) = >>=-eq-ok (compile_profiles (get_or "profiles" fields null)) _ h₃ in
      let (raws, r, h₅) = >>=-eq-ok (target_list repr (get_or "targets" fields null)) _ h₄ in
      let (targets, t, h₆) = >>=-eq-ok (compile_targets repr profiles raws) _ h₅ in
      let (d, h₇) = raise_if-eq-ok (has_duplicate (ids targets)) duplicate_ids _ h₆ in
      let ep : profiles ≡ plan.profiles = ground arith in
      let et : targets ≡ plan.targets = ground arith in
      (get_or "profiles" fields null, raws, cc (p, ep), cc (t, ep, et), cc (d, et))

  -- Each target of a loaded plan has a profile of the plan, a storage tier of the two, and a port;
  -- and no two targets share an id.
  pub load_plan_targets :
      (document : Value) (plan : CollectionPlan)
      → load_plan repr document ≡ ok plan
      → All (IsValid plan.profiles) plan.targets × IsDistinct (ids plan.targets)
  load_plan_targets document plan h =
      let (_, raws, _, t, d) = load_plan-eq-ok document plan h in
      (compile_targets-IsValid plan.profiles raws plan.targets t, IsDistinct-of_has_duplicate _ d)
