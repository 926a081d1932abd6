-- ===== src/Runtime/Worker/Step.antt =====
-- What a cycle of a worker is made of: the steps that it may take, with what must hold before each.
use azure_mysql_monitoring.Prelude.{
  ℕ, ◌≤◌, String, ◌≡◌, true, none, some, ◌∷◌, arith, ltb, Bool-cases, Option-cases, refl, ◌∙◌, inl,
  inr, Bool, false, Option, List, [], is_empty,
}
use azure_mysql_monitoring.Prelude.Dict.{has}
use azure_mysql_monitoring.Prelude.Text.{contains}
use azure_mysql_monitoring.Runtime.Worker.{
  resolving, connecting, opened, Environment, Worker, emit, schedule_reconnect, connection_failed,
  ensure_context, check_session, run_group, after_group, send_health, run_cycle, advance, open_with,
  ensure_connection, run_groups, collect_due, connect_at, due_names, without_health, run_on,
  with_context, report,
}

module _ {Point Event : Type 0} where
  pub data Step (env : Environment Point Event) (now : ℕ) (w u : Worker Point Event) : Type 0 where
    context_failed :
        w.context ≡ none
        → w.next_reconnect ≤ now
        → u ≡ schedule_reconnect now (emit resolving w)
        → Step env now w u
    context_resolved :
        (run_id : String)
        → w.context ≡ none
        → w.next_reconnect ≤ now
        → u ≡ record w {
          context = some run_id;
          error_reader = has "error-log" w.groups;
          trace = resolving ∷ w.trace;
        }
        → Step env now w u
    reported : u ≡ send_health now w → Step env now w u
    -- the attempt ends before there is a connection
    unreachable :
        w.connection ≡ none
        → w.next_reconnect ≤ now
        → u ≡ connection_failed now (emit connecting w)
        → Step env now w u
    -- the connection is there, and passes its checks or not
    checked :
        (handle : ℕ)
        → w.connection ≡ none
        → w.next_reconnect ≤ now
        → u
          ≡ (check_session env now handle (record w {
            connection = some handle;
            trace = opened handle ∷ connecting ∷ w.trace;
          })).1
        → Step env now w u
    ran :
        (handle : ℕ) (name : String)
        → w.connection ≡ some handle
        → u ≡ (after_group now name (run_group env handle name w)).1
        → Step env now w u

  pub data Reach (env : Environment Point Event) (now : ℕ) (w : Worker Point Event)
      : Worker Point Event → Type 0 where
    here : Reach env now w w
    next : {u v : Worker Point Event} → Reach env now w u → Step env now u v → Reach env now w v

  pub Reach-trans :
      {env : Environment Point Event} {now : ℕ} {w u v : Worker Point Event}
      → Reach env now w u
      → Reach env now u v
      → Reach env now w v
  Reach-trans r here = r
  Reach-trans r (next s st) = next (Reach-trans r s) st

  -- Induction along the steps.
  pub Reach_ind :
      {env : Environment Point Event} {now : ℕ} {w u : Worker Point Event}
      (P : Worker Point Event → Type 0)
      → ((x y : Worker Point Event) → Step env now x y → P x → P y)
      → Reach env now w u
      → P w
      → P u
  Reach_ind P keep here p = p
  Reach_ind P keep (next {u = x} {v = y} r st) p = keep x y st (Reach_ind P keep r p)

  module _ (env : Environment Point Event) (now : ℕ) where
    ensure_context-Reach : (w : Worker Point Event) → Reach env now w (ensure_context env now w).1
    unfolding ensure_context
    ensure_context-Reach w = elim (Option-cases w.context) [
      | inr (r, e) ↦ simp (e, ensure_context) here
      | inl e ↦
          simp (e, ensure_context)
            (elim (Bool-cases (ltb now w.next_reconnect)) [
              | inl early ↦ rw early here
              | inr late ↦ rw late (elim (Option-cases env.run_id) [
                | inl f ↦ rw f (next here (context_failed e (ground arith) refl))
                | inr (run_id, f) ↦ rw f (next here (context_resolved run_id e (ground arith) refl))
              ])
            ])
    ]

    open_with-Reach :
        (username password : Option String) (connect : Option ℕ) (w : Worker Point Event)
        → w.connection ≡ none
        → w.next_reconnect ≤ now
        → Reach env now w (open_with env now username password connect (emit connecting w)).1
    unfolding open_with
    open_with-Reach (some u) (some p) (some handle) w e h = next here (checked handle e h refl)
    open_with-Reach _ _ _ w e h = next here (unreachable e h refl)

    connect_at-Reach :
        (o : Option ℕ) (w : Worker Point Event)
        → w.connection ≡ o
        → Reach env now w (connect_at env now o w).1
    unfolding connect_at
    connect_at-Reach (some handle) w e = here
    connect_at-Reach none w e = elim (Bool-cases (ltb now w.next_reconnect)) [
      | inl early ↦ rw early here
      | inr late ↦
          rw late (open_with-Reach env.username env.password env.connect w e (ground arith))
    ]

    ensure_connection-Reach :
        (w : Worker Point Event) → Reach env now w (ensure_connection env now w).1
    unfolding ensure_connection
    ensure_connection-Reach w = connect_at-Reach w.connection w refl

    -- A group that ran leaves the connection as it was.
    run_group-connection :
        (handle : ℕ) (name : String) (w : Worker Point Event)
        → (run_group env handle name w).1.connection ≡ w.connection
    unfolding run_group
    run_group-connection handle name w = ground arith

    after_group-connection :
        (name : String) (r : Bool × Worker Point Event)
        → (after_group now name r).0 ≡ true
        → (after_group now name r).1.connection ≡ r.1.connection
    unfolding after_group advance
    after_group-connection name (true, w) h = ground arith
    after_group-connection name (false, w) h = cc

    run_groups-Reach :
        (handle : ℕ) (names : List String) (w : Worker Point Event)
        → w.connection ≡ some handle
        → Reach env now w (run_groups env now handle names w)
    unfolding run_groups
    run_groups-Reach handle [] w h = here
    run_groups-Reach handle (name ∷ names) w h =
        let r = after_group now name (run_group env handle name w) in
        let first : Reach env now w r.1 = next here (ran handle name h refl) in
        elim (Bool-cases r.0) [
          | inl going ↦
              let same =
                after_group-connection name (run_group env handle name w) going
                ∙ run_group-connection handle name w
                ∙ h in
              rw going (Reach-trans first (run_groups-Reach handle names r.1 same))
          | inr stopped ↦ rw stopped first
        ]

    run_on-Reach :
        (names : List String) (o : Option ℕ) (w : Worker Point Event)
        → w.connection ≡ o
        → Reach env now w (run_on env now names o w)
    unfolding run_on
    run_on-Reach names none w e = here
    run_on-Reach names (some handle) w e = run_groups-Reach handle names w e

    pub collect_due-Reach :
        (names : List String) (w : Worker Point Event)
        → Reach env now w (collect_due env now names w)
    unfolding collect_due
    collect_due-Reach [] w = here
    collect_due-Reach (name ∷ names) w =
        let r = ensure_connection env now w in
        let attempted = ensure_connection-Reach w in
        elim (Bool-cases r.0) [
          | inr refused ↦ rw refused attempted
          | inl connected ↦
              rw connected
                (Reach-trans attempted (run_on-Reach (name ∷ names) r.1.connection r.1 refl))
        ]

    report-Reach :
        (names : List String) (accepted : Bool) (w : Worker Point Event)
        → Reach env now w (report env now names accepted w).1
    unfolding report
    report-Reach names true w =
        let first : Reach env now w (send_health now w) = next here (reported refl) in
        Reach-trans first (collect_due-Reach (without_health names) (send_health now w))
    report-Reach names false w = here

    with_context-Reach :
        (names : List String) (w : Worker Point Event)
        → Reach env now w (with_context env now names w).1
    unfolding with_context
    with_context-Reach names w = elim (Bool-cases (contains names "collector-health")) [
      | inr quiet ↦ rw quiet (collect_due-Reach names w)
      | inl due ↦ rw due (report-Reach names env.accepts_health w)
    ]

    -- A cycle is a sequence of these steps.
    pub run_cycle-Reach : (w : Worker Point Event) → Reach env now w (run_cycle env now w).1
    unfolding run_cycle
    run_cycle-Reach w =
        let names = due_names now w.due in
        let r = ensure_context env now w in
        elim (Bool-cases (is_empty names)) [
          | inl idle ↦ rw idle here
          | inr busy ↦ rw busy (elim (Bool-cases r.0) [
            | inr early ↦ rw early (ensure_context-Reach w)
            | inl ready ↦
                rw ready (Reach-trans (ensure_context-Reach w) (with_context-Reach names r.1))
          ])
        ]
