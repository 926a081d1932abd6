-- ===== src/Runtime/Worker/Cycle.antt =====
-- What one cycle gives: the health point comes before anything that can fail, and a cycle that
-- keeps its connection leaves nothing due.
use azure_mysql_monitoring.Prelude.{
  ℕ, String, ◌≡◌, refl, ◌⊎◌, inl, inr, Bool, true, false, some, List, [], ◌∷◌, arith, is_empty,
}
use azure_mysql_monitoring.Prelude.Text.{contains}
use azure_mysql_monitoring.Runtime.Worker.{
  Effect, connecting, health, Environment, Worker, emit, schedule_reconnect, connection_failed,
  check_session, run_group, after_group, send_health, run_cycle, is_connected, due_names, advance,
  without_health, ensure_context, report, with_context,
}
use azure_mysql_monitoring.Runtime.Worker.Step.{
  Step, context_failed, context_resolved, reported, unreachable, checked, ran, Reach_ind,
  collect_due-Reach,
}

not_empty_of_contains :
    (names : List String) (a : String) → contains names a ≡ true → is_empty names ≡ false
not_empty_of_contains [] a h = cc
not_empty_of_contains (x ∷ xs) a h = refl

module _ {Point Event : Type 0} where
  -- The trace `es` has grown from the trace `t`.
  abbrev pub EndsIn : List (Effect Point Event) → List (Effect Point Event) → Type 0
  EndsIn t [] = t ≡ []
  EndsIn t (e ∷ es) = (t ≡ e ∷ es) ⊎ EndsIn t es

  EndsIn-refl : (t : List (Effect Point Event)) → EndsIn t t
  EndsIn-refl [] = refl
  EndsIn-refl (e ∷ es) = inl refl

  module _ (t : List (Effect Point Event)) where
    abbrev Grew : Worker Point Event → Type 0
    Grew w = EndsIn t w.trace

    connection_failed-Grew :
        (now : ℕ) (w : Worker Point Event) → Grew w → Grew (connection_failed now w)
    unfolding connection_failed
    connection_failed-Grew now w h = ground arith

    advance-Grew :
        (name : String) (now : ℕ) (w : Worker Point Event) → Grew w → Grew (advance name now w)
    unfolding advance
    advance-Grew name now w h = ground arith

    check_session-Grew :
        (env : Environment Point Event) (now handle : ℕ) (w : Worker Point Event)
        → Grew w
        → Grew (check_session env now handle w).1
    unfolding check_session
    check_session-Grew env now handle w h = ground (arith, connection_failed-Grew now w h)

    run_group-Grew :
        (env : Environment Point Event) (handle : ℕ) (name : String) (w : Worker Point Event)
        → Grew w
        → Grew (run_group env handle name w).1
    unfolding run_group
    run_group-Grew env handle name w h = ground arith

    after_group-Grew :
        (now : ℕ) (name : String) (r : Bool × Worker Point Event)
        → Grew r.1
        → Grew (after_group now name r).1
    unfolding after_group
    after_group-Grew now name (true, w) h = advance-Grew name now w h
    after_group-Grew now name (false, w) h = connection_failed-Grew now w h

    Step-Grew :
        {env : Environment Point Event} {now : ℕ} (w u : Worker Point Event)
        → Step env now w u
        → Grew w
        → Grew u
    unfolding schedule_reconnect send_health
    Step-Grew w u (context_failed _ _ e) h = rw e (inr h)
    Step-Grew w u (context_resolved run_id _ _ e) h = rw e (inr h)
    Step-Grew {now = now} w u (reported e) h = rw e (advance-Grew _ now (emit _ w) (inr h))
    Step-Grew {now = now} w u (unreachable c _ e) h =
        rw e (connection_failed-Grew now (emit connecting w) (inr h))
    Step-Grew {env} {now} w u (checked handle c _ e) h =
        rw e (check_session-Grew env now handle _ (inr (inr h)))
    Step-Grew {env} {now} w u (ran handle name c e) h =
        rw e (after_group-Grew now name _ (run_group-Grew env handle name w h))

  advance-trace :
      (name : String) (now : ℕ) (w : Worker Point Event) → (advance name now w).trace ≡ w.trace
  unfolding advance
  advance-trace name now w = ground arith

  report-EndsIn :
      (env : Environment Point Event) (now : ℕ) (names : List String) (accepted : Bool)
      (w : Worker Point Event)
      → accepted ≡ true
      → EndsIn
          (health (is_connected w.connection) w.last_cycle_duration ∷ w.trace)
          (report env now names accepted w).1.trace
  unfolding report send_health
  report-EndsIn env now names true w e =
      Reach_ind (Grew _) (Step-Grew _) (collect_due-Reach env now (without_health names) _) (
        rw advance-trace
          (EndsIn-refl (health (is_connected w.connection) w.last_cycle_duration ∷ w.trace)))
  report-EndsIn env now names false w e = cc

  pub ensure_context_known :
      (env : Environment Point Event) (now : ℕ) (w : Worker Point Event) (run_id : String)
      → w.context ≡ some run_id
      → ensure_context env now w ≡ (true, w)
  unfolding ensure_context
  ensure_context_known env now w run_id c = ground arith

  -- When the heartbeat is due and the run is known, the health point is the first thing that the
  -- cycle does: it comes before a connection attempt and before every collector, whatever they do.
  pub run_cycle_reports_first :
      (env : Environment Point Event) (now : ℕ) (w : Worker Point Event) (run_id : String)
      → w.context ≡ some run_id
      → contains (due_names now w.due) "collector-health" ≡ true
      → env.accepts_health ≡ true
      → EndsIn
          (health (is_connected w.connection) w.last_cycle_duration ∷ w.trace)
          (run_cycle env now w).1.trace
  unfolding run_cycle with_context
  run_cycle_reports_first env now w run_id c due fine =
      rw (not_empty_of_contains (due_names now w.due) "collector-health" due) (
        rw (ensure_context_known env now w run_id c)
          (rw due (report-EndsIn env now (due_names now w.due) env.accepts_health w fine)))
