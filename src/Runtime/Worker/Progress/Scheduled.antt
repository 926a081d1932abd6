-- ===== src/Runtime/Worker/Progress/Scheduled.antt =====
-- What is due, and what a served group is due next.
use mathlib.Core.Option.{some-injective}
use azure_mysql_monitoring.Prelude.{
  if◌then◌else◌, Bool-cases, Option-cases, ℕ, ◌<◌, String, ◌≡◌, refl, sym, ap, ◌∙◌, subst, ◌⊎◌, inl,
  inr, true, none, some, List, [], ◌∷◌, arith, ◌==◌, eq_iff,
}
use azure_mysql_monitoring.Plan.Group.{GroupPlan}
use azure_mysql_monitoring.Prelude.Dict.{Dict, lookup, get_or, insert, has, lookup-insert}
use azure_mysql_monitoring.Prelude.Text.{contains}
use azure_mysql_monitoring.Runtime.Schedule.{advance_due, advance_due_past}
use azure_mysql_monitoring.Runtime.Worker.{
  Environment, Worker, due_names, connection_failed, run_group, without_health, advance,
}

pub due_names_due :
    (now : ℕ) (d : Dict ℕ) (k : String) (t : ℕ)
    → lookup k d ≡ some t
    → (now < t) ⊎ (contains (due_names now d) k ≡ true)
unfolding due_names lookup
due_names_due now [] k t h = cc
due_names_due now ((j, s) ∷ rest) k t h = ground (arith, due_names_due now rest k t, eq_iff j k)

pub without_health-contains :
    (names : List String) (k : String)
    → contains names k ≡ true
    → (k ≡ "collector-health") ⊎ (contains (without_health names) k ≡ true)
unfolding without_health
without_health-contains [] k h = cc
without_health-contains (x ∷ xs) k h =
    ground (arith, without_health-contains xs k, eq_iff x k, eq_iff x "collector-health")

pub without_health_sub :
    (names : List String) (k : String)
    → contains (without_health names) k ≡ true
    → contains names k ≡ true
unfolding without_health
without_health_sub [] k h = cc
without_health_sub (x ∷ xs) k h = ground (arith, without_health_sub xs k)

pub due_names_planned :
    (now : ℕ) (d : Dict ℕ) (k : String) → contains (due_names now d) k ≡ true → has k d ≡ true
unfolding due_names lookup
due_names_planned now [] k h = cc
due_names_planned now ((j, s) ∷ rest) k h = ground (arith, due_names_planned now rest k)

module _ {Point Event : Type 0} where
  -- Every due time that has come belongs to a group that is still to be served.
  abbrev pub Covered : ℕ → List String → Worker Point Event → Type 0
  Covered now names w =
      (k : String) (t : ℕ) → lookup k w.due ≡ some t → (now < t) ⊎ (contains names k ≡ true)

  -- Every scheduled group has a plan, with an interval.
  pub record IsScheduled (w : Worker Point Event) : Type 0 where
    pub planned : (k : String) (t : ℕ) → lookup k w.due ≡ some t → has k w.groups ≡ true
    pub intervals : (k : String) (g : GroupPlan) → lookup k w.groups ≡ some g → 0 < g.interval

  -- The due time that `advance` writes.
  advance-due :
      (name : String) (now : ℕ) (w : Worker Point Event) (g : GroupPlan)
      → lookup name w.groups ≡ some g
      → (advance name now w).due
        ≡ insert name (advance_due g.interval now (get_or name w.due 0)) w.due
  unfolding advance
  advance-due name now w g h = ground arith

  pub advance-Covered :
      (now : ℕ) (name : String) (names : List String) (w : Worker Point Event)
      → IsScheduled w
      → has name w.groups ≡ true
      → Covered now (name ∷ names) w
      → Covered now names (advance name now w)
  advance-Covered now name names w s planned c k t h = elim (Option-cases (lookup name w.groups)) [
    | inl missing ↦ absurd (ground (arith, planned))
    | inr (g, found) ↦
        let slot = advance_due g.interval now (get_or name w.due 0) in
        let h' : (if name == k then some slot else lookup k w.due) ≡ some t =
          sym (lookup-insert name k slot w.due)
          ∙ ap (lookup k) (sym (advance-due name now w g found))
          ∙ h in
        elim (Bool-cases (name == k)) [
          | inl same ↦
              let written : slot ≡ t = some-injective _ _ (rw same at h') in
              inl (
                subst (λ x. now < x) written
                  (advance_due_past g.interval now (s.intervals name g found)
                    (get_or name w.due 0)))
          | inr other ↦ elim (c k t (rw other at h')) [
            | inl later ↦ inl later
            | inr m ↦ inr (ground (arith, m))
          ]
        ]
  ]

  pub advance-groups :
      (name : String) (now : ℕ) (w : Worker Point Event) → (advance name now w).groups ≡ w.groups
  unfolding advance
  advance-groups name now w = ground arith

  pub advance-IsScheduled :
      (now : ℕ) (name : String) (w : Worker Point Event)
      → IsScheduled w
      → IsScheduled (advance name now w)
  advance-IsScheduled now name w s = record {
    planned = λ k t h. rw advance-groups (elim (Option-cases (lookup name w.groups)) [
      | inl missing ↦ s.planned k t (ap (lookup k) (sym (unplanned missing)) ∙ h)
      | inr (g, found) ↦
          let h' =
            sym (lookup-insert name k _ w.due)
            ∙ ap (lookup k) (sym (advance-due name now w g found))
            ∙ h in
          elim (Bool-cases (name == k)) [
            | inl same ↦
                subst (λ n. has n w.groups ≡ true) ((eq_iff name k).0 same) (rw (found, has) refl)
            | inr other ↦ s.planned k t (rw other at h')
          ]
    ]);
    intervals = λ k g h. s.intervals k g (ap (lookup k) (sym (advance-groups name now w)) ∙ h);
  }
    where
      unplanned : lookup name w.groups ≡ none → (advance name now w).due ≡ w.due
      unplanned e = unfold advance in ground arith

  pub run_group_keeps :
      (env : Environment Point Event) (handle : ℕ) (name : String) (w : Worker Point Event)
      → ((run_group env handle name w).1.due ≡ w.due)
        × ((run_group env handle name w).1.groups ≡ w.groups)
  unfolding run_group
  run_group_keeps env handle name w = ground arith

  pub connection_failed_closes :
      (now : ℕ) (w : Worker Point Event) → (connection_failed now w).connection ≡ none
  unfolding connection_failed
  connection_failed_closes now w = ground arith
