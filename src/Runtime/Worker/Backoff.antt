-- ===== src/Runtime/Worker/Backoff.antt =====
-- The reconnect delay: it stays between its two limits, and no attempt comes before its time.
use azure_mysql_monitoring.Prelude.{
  ℕ, ◌≤◌, String, Bool, true, false, arith, suc, ◌<◌, ◌≡◌, refl, none, List, [], ◌∷◌,
}
use azure_mysql_monitoring.Prelude.Dict.{some-ne-none}
use azure_mysql_monitoring.Runtime.Schedule.{next_backoff}
use azure_mysql_monitoring.Runtime.Worker.{
  connecting, Environment, Worker, emit, schedule_reconnect, connection_failed, check_session,
  run_group, after_group, send_health, run_cycle, advance, Effect, resolving,
}
use azure_mysql_monitoring.Runtime.Worker.Step.{
  Step, context_failed, context_resolved, reported, unreachable, checked, ran, Reach_ind,
  run_cycle-Reach,
}

module _ {Point Event : Type 0} where
  pub record IsPaced (w : Worker Point Event) : Type 0 where
    pub ordered : w.initial_backoff ≤ w.max_backoff
    pub above : w.initial_backoff ≤ w.backoff
    pub below : w.backoff ≤ w.max_backoff

  connection_failed-IsPaced :
      (now : ℕ) (w : Worker Point Event) → IsPaced w → IsPaced (connection_failed now w)
  unfolding connection_failed next_backoff
  connection_failed-IsPaced now w h = ground arith

  check_session-IsPaced :
      (env : Environment Point Event) (now handle : ℕ) (w : Worker Point Event)
      → IsPaced w
      → IsPaced (check_session env now handle w).1
  unfolding check_session
  check_session-IsPaced env now handle w h = ground (arith, connection_failed-IsPaced now w)

  run_group-IsPaced :
      (env : Environment Point Event) (handle : ℕ) (name : String) (w : Worker Point Event)
      → IsPaced w
      → IsPaced (run_group env handle name w).1
  unfolding run_group
  run_group-IsPaced env handle name w h = ground arith

  advance-IsPaced :
      (name : String) (now : ℕ) (w : Worker Point Event) → IsPaced w → IsPaced (advance name now w)
  unfolding advance
  advance-IsPaced name now w h = ground arith

  after_group-IsPaced :
      (now : ℕ) (name : String) (r : Bool × Worker Point Event)
      → IsPaced r.1
      → IsPaced (after_group now name r).1
  unfolding after_group
  after_group-IsPaced now name (true, w) h = advance-IsPaced name now w h
  after_group-IsPaced now name (false, w) h = connection_failed-IsPaced now w h

  Step-IsPaced :
      {env : Environment Point Event} {now : ℕ} (w u : Worker Point Event)
      → Step env now w u
      → IsPaced w
      → IsPaced u
  unfolding schedule_reconnect next_backoff send_health
  Step-IsPaced w u (context_failed _ _ e) h = ground arith
  Step-IsPaced w u (context_resolved run_id _ _ e) h = ground arith
  Step-IsPaced {now = now} w u (reported e) h =
      rw e (advance-IsPaced _ now (emit _ w) (ground arith))
  Step-IsPaced {now = now} w u (unreachable _ _ e) h =
      rw e (connection_failed-IsPaced now (emit connecting w) (ground arith))
  Step-IsPaced {env} {now} w u (checked handle _ _ e) h =
      rw e (check_session-IsPaced env now handle _ (ground arith))
  Step-IsPaced {env} {now} w u (ran handle name _ e) h =
      rw e (after_group-IsPaced now name _ (run_group-IsPaced env handle name w h))

  -- Over a whole cycle the reconnect delay stays between the initial and the maximal one.
  pub run_cycle-IsPaced :
      (env : Environment Point Event) (now : ℕ) (w : Worker Point Event)
      → IsPaced w
      → IsPaced (run_cycle env now w).1
  run_cycle-IsPaced env now w = Reach_ind IsPaced Step-IsPaced (run_cycle-Reach env now w)

  -- How often a worker tried to resolve its run or to connect.
  abbrev pub attempts : List (Effect Point Event) → ℕ
  attempts [] = 0
  attempts (resolving ∷ es) = suc (attempts es)
  attempts (connecting ∷ es) = suc (attempts es)
  attempts (_ ∷ es) = attempts es

  -- What stays while the worker waits.
  record IsWaiting (now count : ℕ) (w : Worker Point Event) : Type 0 where
    early : now < w.next_reconnect
    disconnected : w.connection ≡ none
    counted : attempts w.trace ≡ count

  advance-IsWaiting :
      (now count : ℕ) (name : String) (at : ℕ) (w : Worker Point Event)
      → IsWaiting now count w
      → IsWaiting now count (advance name at w)
  unfolding advance
  advance-IsWaiting now count name at w h = ground arith

  Step-IsWaiting :
      {env : Environment Point Event} {now count : ℕ} (w u : Worker Point Event)
      → Step env now w u
      → IsWaiting now count w
      → IsWaiting now count u
  unfolding send_health
  Step-IsWaiting w u (context_failed _ late e) h = absurd (omega (arith, h.early))
  Step-IsWaiting w u (context_resolved run_id _ late e) h = absurd (omega (arith, h.early))
  Step-IsWaiting {now = now} {count} w u (reported e) h = rw e (
      advance-IsWaiting now count "collector-health" now (emit _ w)
        (record { early = h.early; disconnected = h.disconnected; counted = h.counted }))
  Step-IsWaiting w u (unreachable _ late e) h = absurd (omega (arith, h.early))
  Step-IsWaiting w u (checked handle _ late e) h = absurd (omega (arith, h.early))
  Step-IsWaiting w u (ran handle name c e) h = absurd (some-ne-none h.disconnected c)

  -- A cycle before the reconnect time, on a worker without a connection, makes no attempt of any
  -- kind and leaves it without a connection.
  pub run_cycle_waits :
      (env : Environment Point Event) (now : ℕ) (w : Worker Point Event)
      → now < w.next_reconnect
      → w.connection ≡ none
      → (attempts (run_cycle env now w).1.trace ≡ attempts w.trace)
        × ((run_cycle env now w).1.connection ≡ none)
  run_cycle_waits env now w early c =
      let h =
        Reach_ind (IsWaiting now (attempts w.trace)) Step-IsWaiting (run_cycle-Reach env now w)
          (record { early = early; disconnected = c; counted = refl }) in
      (h.counted, h.disconnected)
