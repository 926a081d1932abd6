-- ===== src/Runtime/Assembly/Loaded.antt =====
-- A loaded plan can be run with the collectors of the repository.
use azure_mysql_monitoring.Prelude.{
  Bool-cases, String, ◌≡◌, refl, ◌∙◌, subst, inl, inr, Bool, true, false, ◌&&◌, List, [], ◌∷◌, ◌++◌,
  arith, ◌==◌, eq_iff, Option-cases, All, ℕ, ap, some, map,
}
use azure_mysql_monitoring.Groups.Collectors.{group_collectors}
use azure_mysql_monitoring.Groups.Rows.{Python}
use azure_mysql_monitoring.Plan.Catalog.{group_catalog}
use azure_mysql_monitoring.Plan.Document.{Value}
use azure_mysql_monitoring.Plan.Group.{GroupPlan}
use azure_mysql_monitoring.Plan.Load.{CollectionPlan, load_plan}
use azure_mysql_monitoring.Plan.Load.Targets.{load_plan-eq-ok, load_plan_targets}
use azure_mysql_monitoring.Plan.Profile.{Profile}
use azure_mysql_monitoring.Plan.Profile.Keys.{IsCatalogued, compiled_profiles-IsCatalogued}
use azure_mysql_monitoring.Plan.Target.{Target, IsValid}
use azure_mysql_monitoring.Prelude.Dict.{keys, has, contains-keys, Dict, lookup}
use azure_mysql_monitoring.Prelude.Result.{ok}
use azure_mysql_monitoring.Prelude.Text.{contains}
use azure_mysql_monitoring.Runtime.Assembly.{
  own_groups, configured_groups, make_workers, assemble, without_own,
}
use azure_mysql_monitoring.Runtime.Worker.{Worker, new_worker}
use azure_mysql_monitoring.Telemetry.Catalog.{difference}

covers : List String → List String → Bool
covers known [] = true
covers known (name ∷ names) = contains known name && covers known names

covers-contains :
    (known names : List String) (name : String)
    → covers known names ≡ true
    → contains names name ≡ true
    → contains known name ≡ true
unfolding covers
covers-contains known [] name h m = cc m
covers-contains known (other ∷ names) name h m = elim (Bool-cases (other == name)) [
  | inl e ↦ subst (λ n. contains known n ≡ true) ((eq_iff other name).0 e) (ground (arith, h))
  | inr e ↦ covers-contains known names name (ground (arith, h)) (rw e at m)
]

difference-append :
    (xs ys known : List String)
    → difference xs known ≡ []
    → difference ys known ≡ []
    → difference (xs ++ ys) known ≡ []
unfolding difference
difference-append [] ys known a b = b
difference-append (x ∷ xs) ys known a b = elim (Bool-cases (contains known x)) [
  | inl e ↦ rw e (difference-append xs ys known (rw e at a) b)
  | inr e ↦ cc (rw e at a)
]

own_or_known :
    (known : List String) (name : String)
    → contains own_groups name ≡ false
    → contains ("collector-health" ∷ "error-log" ∷ known) name ≡ true
    → contains known name ≡ true
own_or_known known name h m = ground (arith, h, m)

module _ {Cell : Type 0} (python : Python Cell) where
  abbrev registry : List String
  registry = keys (group_collectors python)

  -- A group of the catalog that the worker does not serve itself has a collector.
  catalogued_collector :
      (name : String)
      → has name group_catalog ≡ true
      → contains own_groups name ≡ false
      → contains registry name ≡ true
  unfolding group_catalog group_collectors covers
  catalogued_collector name h other =
      let known : contains (keys group_catalog) name ≡ true =
        contains-keys name group_catalog ∙ h in
      let there =
        covers-contains ("collector-health" ∷ "error-log" ∷ registry) (keys group_catalog) name refl
          known in
      own_or_known registry name other there

  without_own-difference :
      (groups : Dict GroupPlan)
      → All IsCatalogued groups
      → difference (without_own (keys groups)) registry ≡ []
  unfolding difference without_own
  without_own-difference [] h = refl
  without_own-difference ((name, group) ∷ groups) h =
      let rest = without_own-difference groups h.1 in
      elim (Bool-cases (contains own_groups name)) [
        | inl own ↦ rw own rest
        | inr other ↦
            let there : contains registry name ≡ true = catalogued_collector name h.0 other in
            rw other (rw there rest)
      ]

  module _ (profiles : Dict Profile)
      (catalogued : (name : String) (p : Profile)
        → lookup name profiles ≡ some p
        → All IsCatalogued p.groups) where
    configured_groups-difference :
        (targets : List Target)
        → All (IsValid profiles) targets
        → (names : List String) × (configured_groups profiles targets ≡ ok names)
          × (difference names registry ≡ [])
    unfolding configured_groups difference
    configured_groups-difference [] h = ([], refl, refl)
    configured_groups-difference (t ∷ ts) h =
        let (names, e, d) = configured_groups-difference ts h.1 in
        elim (Option-cases (lookup t.profile profiles)) [
          | inl missing ↦ absurd (ground (arith, h.0.known_profile))
          | inr (p, found) ↦ (
            without_own (keys p.groups) ++ names,
            rw (found, e) refl,
            difference-append (without_own (keys p.groups)) names registry
                (without_own-difference p.groups (catalogued t.profile p found)) d,
          )
        ]

  module _ {Point Event : Type 0} (initial max' : ℕ) (profiles : Dict Profile) where
    make_workers-targets :
        (targets : List Target)
        → All (IsValid profiles) targets
        → (workers : List (Target × Worker Point Event)) × (make_workers initial max' profiles
              targets
            ≡ ok workers)
          × (map (λ w. w.0) workers ≡ targets)
    unfolding make_workers
    make_workers-targets [] h = ([], refl, refl)
    make_workers-targets (t ∷ ts) h =
        let (workers, e, same) = make_workers-targets ts h.1 in
        elim (Option-cases (lookup t.profile profiles)) [
          | inl missing ↦ absurd (ground (arith, h.0.known_profile))
          | inr (p, found) ↦ (
            (t, new_worker p.groups initial max') ∷ workers,
            rw (found, e) refl,
            ap (λ rest. t ∷ rest) same,
          )
        ]

  -- Every plan that is loaded can be run with the collectors of the repository: each of its groups
  -- has a collector or is served by the worker itself, and there is one worker for each target, in
  -- their order.
  pub assemble_loaded :
      {Point Event : Type 0} (repr : Value → String) (document : Value) (plan : CollectionPlan)
      (initial_backoff max_backoff : ℕ)
      → load_plan repr document ≡ ok plan
      → (workers : List (Target × Worker Point Event)) × (assemble initial_backoff max_backoff
            registry plan
          ≡ ok workers)
        × (map (λ w. w.0) workers ≡ plan.targets)
  unfolding assemble
  assemble_loaded repr document plan initial_backoff max_backoff h =
      let (raw_profiles, _, p, _, _) = load_plan-eq-ok repr document plan h in
      let valid = (load_plan_targets repr document plan h).0 in
      let (names, configured, covered) =
        configured_groups-difference plan.profiles
          (λ name q. compiled_profiles-IsCatalogued raw_profiles plan.profiles name q p)
          plan.targets valid in
      let (workers, made, same) =
        make_workers-targets initial_backoff max_backoff plan.profiles plan.targets valid in
      (workers, rw (configured, covered, made) refl, same)
