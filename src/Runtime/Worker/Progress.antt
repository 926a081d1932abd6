-- ===== src/Runtime/Worker/Progress.antt =====
-- A cycle that keeps its connection has served every group that was due.
pub mod Scheduled
use azure_mysql_monitoring.Prelude.{
  ℕ, ◌<◌, String, ◌≡◌, ◌⊎◌, true, some, List, [], ◌∷◌, arith, eq_iff, Bool-cases, Option-cases,
  refl, sym, ap, ◌∙◌, subst, inl, inr, none, ◌==◌, Bool, false, eq_refl, Option, is_empty,
}
use azure_mysql_monitoring.Prelude.Dict.{lookup, has, some-ne-none}
use azure_mysql_monitoring.Prelude.Text.{contains}
use azure_mysql_monitoring.Runtime.Worker.{
  Worker, due_names, without_health, advance, Environment, run_group, after_group,
  ensure_connection, run_groups, emit, collect_due, send_health, run_on, run_cycle, report,
  with_context,
}
use azure_mysql_monitoring.Runtime.Worker.Cycle.{ensure_context_known}
use azure_mysql_monitoring.Runtime.Worker.Progress.Scheduled.{
  due_names_due, without_health-contains, without_health_sub, due_names_planned, Covered,
  IsScheduled, advance-Covered, advance-groups, advance-IsScheduled, run_group_keeps,
  connection_failed_closes,
}

module _ {Point Event : Type 0} where
  abbrev Planned : List String → Worker Point Event → Type 0
  Planned names w = (k : String) → contains names k ≡ true → has k w.groups ≡ true

  -- What a served group leaves to the rest of the loop.
  record Serves (now : ℕ) (names : List String) (w : Worker Point Event) : Type 0 where
    scheduled : IsScheduled w
    planned : Planned names w
    covered : Covered now names w

  Serves-of_eq :
      (now : ℕ) (names : List String) (w u : Worker Point Event)
      → (u.due ≡ w.due) × (u.groups ≡ w.groups)
      → Serves now names w
      → Serves now names u
  Serves-of_eq now names w u (d, g) s = record {
    scheduled = record {
      planned = λ k t h. rw g (s.scheduled.planned k t (ap (lookup k) (sym d) ∙ h));
      intervals = λ k p h. s.scheduled.intervals k p (ap (lookup k) (sym g) ∙ h);
    };
    planned = λ k h. rw g (s.planned k h);
    covered = λ k t h. s.covered k t (ap (lookup k) (sym d) ∙ h);
  }

  advance-Serves :
      (now : ℕ) (name : String) (names : List String) (w : Worker Point Event)
      → Serves now (name ∷ names) w
      → Serves now names (advance name now w)
  advance-Serves now name names w s = record {
    scheduled = advance-IsScheduled now name w s.scheduled;
    planned = λ k h. rw advance-groups (s.planned k (ground (arith, h)));
    covered =
        advance-Covered now name names w s.scheduled (s.planned name (rw eq_refl refl)) s.covered;
  }

  after_group-Serves :
      (now : ℕ) (name : String) (names : List String) (r : Bool × Worker Point Event)
      → (after_group now name r).0 ≡ true
      → Serves now (name ∷ names) r.1
      → Serves now names (after_group now name r).1
  unfolding after_group
  after_group-Serves now name names (true, w) e s = advance-Serves now name names w s
  after_group-Serves now name names (false, w) e s = cc

  after_group_stopped :
      (now : ℕ) (name : String) (r : Bool × Worker Point Event)
      → (after_group now name r).0 ≡ false
      → (after_group now name r).1.connection ≡ none
  unfolding after_group
  after_group_stopped now name (true, w) e = cc
  after_group_stopped now name (false, w) e = connection_failed_closes now w

  run_groups-Serves :
      (env : Environment Point Event) (now handle : ℕ) (names : List String)
      (w : Worker Point Event) {h : ℕ}
      → Serves now names w
      → (run_groups env now handle names w).connection ≡ some h
      → Covered now [] (run_groups env now handle names w)
  unfolding run_groups
  run_groups-Serves env now handle [] w s c = s.covered
  run_groups-Serves env now handle (name ∷ names) w {h} s c =
      let p = run_group env handle name w in
      let r = after_group now name p in
      elim (Bool-cases r.0) [
        | inl going ↦ rw going (
            run_groups-Serves env now handle names r.1
              (after_group-Serves now name names p going
                (Serves-of_eq now (name ∷ names) w p.1 (run_group_keeps env handle name w) s))
              (rw going at c))
        | inr stopped ↦
            absurd (some-ne-none (after_group_stopped now name p stopped) (rw stopped at c))
      ]

  ensure_connection_keeps :
      (env : Environment Point Event) (now : ℕ) (w : Worker Point Event)
      → ((ensure_connection env now w).1.due ≡ w.due)
        × ((ensure_connection env now w).1.groups ≡ w.groups)
  unfolding ensure_connection
  ensure_connection_keeps env now w = ground arith

  run_on-Serves :
      (env : Environment Point Event) (now : ℕ) (names : List String) (o : Option ℕ)
      (w : Worker Point Event) {h : ℕ}
      → w.connection ≡ o
      → Serves now names w
      → (run_on env now names o w).connection ≡ some h
      → Covered now [] (run_on env now names o w)
  unfolding run_on
  run_on-Serves env now names none w e s c = absurd (some-ne-none e c)
  run_on-Serves env now names (some handle) w e s c = run_groups-Serves env now handle names w s c

  refused_closed :
      (env : Environment Point Event) (now : ℕ) (w : Worker Point Event)
      → (ensure_connection env now w).0 ≡ false
      → (ensure_connection env now w).1.connection ≡ none
  unfolding ensure_connection
  refused_closed env now w e = ground arith

  collect_due-Serves :
      (env : Environment Point Event) (now : ℕ) (names : List String) (w : Worker Point Event)
      {h : ℕ}
      → Serves now names w
      → (collect_due env now names w).connection ≡ some h
      → Covered now [] (collect_due env now names w)
  unfolding collect_due
  collect_due-Serves env now [] w s c = s.covered
  collect_due-Serves env now (name ∷ names) w s c =
      let r = ensure_connection env now w in
      elim (Bool-cases r.0) [
        | inr refused ↦ absurd (some-ne-none (refused_closed env now w refused) (rw refused at c))
        | inl connected ↦ rw connected (
            run_on-Serves env now (name ∷ names) r.1.connection r.1 refl
              (Serves-of_eq now (name ∷ names) w r.1 (ensure_connection_keeps env now w) s)
              (rw connected at c))
      ]

  send_health-Serves :
      (now : ℕ) (names : List String) (w : Worker Point Event)
      → contains names "collector-health" ≡ true
      → Serves now names w
      → Serves now (without_health names) (send_health now w)
  unfolding send_health
  send_health-Serves now names w due s =
      advance-Serves now "collector-health" (without_health names) (emit _ w) (record {
        scheduled = record { planned = s.scheduled.planned; intervals = s.scheduled.intervals };
        planned = λ k h. s.planned k (back k h);
        covered = λ k t h. forth k (s.covered k t h);
      })
    where
      back :
          (k : String)
          → contains ("collector-health" ∷ without_health names) k ≡ true
          → contains names k ≡ true
      back k h = elim (Bool-cases ("collector-health" == k)) [
        | inl same ↦ subst (λ n. contains names n ≡ true) ((eq_iff "collector-health" k).0 same) due
        | inr other ↦ without_health_sub names k (rw other at h)
      ]

      forth :
          {A : Type 0} (k : String)
          → A ⊎ (contains names k ≡ true)
          → A ⊎ (contains ("collector-health" ∷ without_health names) k ≡ true)
      forth k (inl a) = inl a
      forth k (inr h) =
          inr (ground (arith, without_health-contains names k h, eq_iff "collector-health" k))

  Serves-start :
      (now : ℕ) (w : Worker Point Event) → IsScheduled w → Serves now (due_names now w.due) w
  Serves-start now w s = record {
    scheduled = s;
    planned = λ k h. elim (Option-cases (lookup k w.due)) [
      | inl e ↦ absurd (ground (arith, due_names_planned now w.due k h))
      | inr (t, e) ↦ s.planned k t e
    ];
    covered = due_names_due now w.due;
  }

  report-Serves :
      (env : Environment Point Event) (now : ℕ) (names : List String) (accepted : Bool)
      (w : Worker Point Event) {h : ℕ}
      → accepted ≡ true
      → contains names "collector-health" ≡ true
      → Serves now names w
      → (report env now names accepted w).1.connection ≡ some h
      → Covered now [] (report env now names accepted w).1
  unfolding report
  report-Serves env now names true w e due s c =
      collect_due-Serves env now (without_health names) (send_health now w)
        (send_health-Serves now names w due s) c
  report-Serves env now names false w e due s c = cc

  with_context-Serves :
      (env : Environment Point Event) (now : ℕ) (names : List String) (w : Worker Point Event)
      {h : ℕ}
      → env.accepts_health ≡ true
      → Serves now names w
      → (with_context env now names w).1.connection ≡ some h
      → Covered now [] (with_context env now names w).1
  unfolding with_context
  with_context-Serves env now names w fine s c =
      elim (Bool-cases (contains names "collector-health")) [
        | inl due ↦
            rw due (report-Serves env now names env.accepts_health w fine due s (rw due at c))
        | inr quiet ↦ rw quiet (collect_due-Serves env now names w s (rw quiet at c))
      ]

  nothing_due :
      (now : ℕ) (names : List String) (w : Worker Point Event)
      → is_empty names ≡ true
      → Serves now names w
      → Covered now [] w
  nothing_due now [] w e s = s.covered
  nothing_due now (x ∷ xs) w e s = cc

  -- A cycle of a worker that knows its run, and that still has a connection when the cycle ends,
  -- has served every due group: each next time is later than now.
  pub run_cycle_serves :
      (env : Environment Point Event) (now : ℕ) (w : Worker Point Event) (run_id : String) (h : ℕ)
      → IsScheduled w
      → w.context ≡ some run_id
      → env.accepts_health ≡ true
      → (run_cycle env now w).1.connection ≡ some h
      → (k : String) (t : ℕ) → lookup k (run_cycle env now w).1.due ≡ some t
      → now < t
  unfolding run_cycle
  run_cycle_serves env now w run_id h s known fine c k t at =
      elim (served (due_names now w.due) refl k t at) [
        | inl later ↦ later
        | inr none_left ↦ cc none_left
      ]
    where
      served :
          (names : List String)
          → names ≡ due_names now w.due
          → Covered now [] (run_cycle env now w).1
      served names e = elim (Bool-cases (is_empty (due_names now w.due))) [
        | inl idle ↦ rw idle (nothing_due now (due_names now w.due) w idle (Serves-start now w s))
        | inr busy ↦
            rw (busy, ensure_context_known env now w run_id known)
              (with_context-Serves env now (due_names now w.due) w fine (Serves-start now w s)
                (rw (busy, ensure_context_known env now w run_id known) at c))
      ]
