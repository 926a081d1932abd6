-- ===== src/Runtime/Worker/Tests.antt =====
-- Workers and environments of a few groups, and the theorems about the runtime at them.
use azure_mysql_monitoring.Prelude.{
  ℕ, ◌+◌, ◌*◌, ◌≤◌, ◌<◌, String, ◌≡◌, refl, true, false, none, some, List, [], ◌∷◌, arith,
}
use azure_mysql_monitoring.Plan.Group.{GroupPlan}
use azure_mysql_monitoring.Prelude.Dict.{Dict, lookup}
use azure_mysql_monitoring.Runtime.Schedule.{advance_due, advance_due_slot}
use azure_mysql_monitoring.Runtime.Worker.{
  resolving, connecting, opened, verified, closed, health, wrote_points, wrote_events, Environment,
  Worker, due_names, new_worker, run_cycle, run, is_connected,
}
use azure_mysql_monitoring.Runtime.Worker.Backoff.{
  IsPaced, run_cycle-IsPaced, attempts, run_cycle_waits,
}
use azure_mysql_monitoring.Runtime.Worker.Cycle.{EndsIn, run_cycle_reports_first}
use azure_mysql_monitoring.Runtime.Worker.Progress.{run_cycle_serves}
use azure_mysql_monitoring.Runtime.Worker.Progress.Scheduled.{IsScheduled}

-- Everything answers: connection 7, one point for each group, one event.
abbrev healthy : Environment ℕ ℕ
healthy = record {
  run_id = some "run";
  username = some "user";
  password = some "secret";
  connect = some 7;
  cipher = some "TLS_AES_256_GCM_SHA384";
  version = some "8.4.2";
  registered = λ name. true;
  collect = λ name. some (1 ∷ []);
  accepts = λ points. true;
  accepts_health = true;
  load_cursor = true;
  poll = some (5 ∷ []);
  is_connected = true;
}

-- The server is of a version that is not supported.
abbrev outdated : Environment ℕ ℕ
outdated = record healthy { version = some "8.0.36" }

-- The collectors raise.
abbrev broken : Environment ℕ ℕ
broken = record healthy { collect = λ name. none }

abbrev plan_of : String → ℕ → String × GroupPlan
plan_of name interval =
    (name, record { name = name; interval = interval; top_k = none; options = [] })

abbrev plans : Dict GroupPlan
plans = plan_of "global-status" 10000 ∷ plan_of "error-log" 15000 ∷ []

abbrev worker : Worker ℕ ℕ
worker = record {
  groups = plan_of "collector-health" 10000 ∷ plan_of "global-status" 10000 ∷ [];
  initial_backoff = 1000;
  max_backoff = 60000;
  backoff = 1000;
  next_reconnect = 0;
  due = ("collector-health", 0) ∷ ("global-status", 0) ∷ [];
  connection = none;
  context = some "run";
  error_reader = false;
  error_reader_loaded = false;
  last_cycle_duration = none;
  trace = [];
}

-- It failed to connect and has to wait.
abbrev waiting : Worker ℕ ℕ
waiting = record worker { next_reconnect = 9000; backoff = 4000 }

abbrev served : Worker ℕ ℕ
served = record worker {
  next_reconnect = 25000;
  due = ("collector-health", 30000) ∷ ("global-status", 30000) ∷ [];
  connection = some 7;
  trace =
      wrote_points 7 "global-status" (1 ∷ [])
      ∷ verified 7
      ∷ opened 7
      ∷ connecting
      ∷ health false none
      ∷ [];
}

cycle_serves : run_cycle healthy 25000 worker ≡ (true, served)
unfolding run_cycle
cycle_serves = refl

cycle_refuses_version : (run_cycle outdated 25000 worker).1.next_reconnect ≡ 26000
unfolding run_cycle
cycle_refuses_version = refl

-- Three cycles, of which the second one fails, and the end of the run.
abbrev history : List (Environment ℕ ℕ × ℕ × ℕ)
history = (healthy, 0, 5) ∷ (broken, 10000, 6) ∷ (healthy, 11000, 7) ∷ []

run_closes :
    (run history (new_worker plans 1000 60000)).trace
    ≡ closed 7
      ∷ wrote_points 7 "global-status" (1 ∷ [])
      ∷ verified 7
      ∷ opened 7
      ∷ connecting
      ∷ closed 7
      ∷ health true (some 5)
      ∷ wrote_events 7 (5 ∷ [])
      ∷ wrote_points 7 "global-status" (1 ∷ [])
      ∷ verified 7
      ∷ opened 7
      ∷ connecting
      ∷ health false none
      ∷ resolving
      ∷ []
unfolding run new_worker run_cycle
run_closes = refl

worker-IsPaced : IsPaced worker
worker-IsPaced = ground arith

worker-IsScheduled : IsScheduled worker
unfolding lookup
worker-IsScheduled = record {
  planned = λ k t h. ground (arith, h);
  intervals = λ k g h. ground (arith, h);
}

run_cycle-IsPaced_example : IsPaced (run_cycle outdated 25000 worker).1
run_cycle-IsPaced_example = run_cycle-IsPaced outdated 25000 worker worker-IsPaced

run_cycle_waits_example :
    (attempts (run_cycle healthy 5000 waiting).1.trace ≡ 0)
    × ((run_cycle healthy 5000 waiting).1.connection ≡ none)
run_cycle_waits_example = run_cycle_waits healthy 5000 waiting (omega arith) refl

run_cycle_reports_first_example :
    EndsIn (health false none ∷ []) (run_cycle outdated 25000 worker).1.trace
unfolding due_names is_connected
run_cycle_reports_first_example = run_cycle_reports_first outdated 25000 worker "run" refl refl refl

run_cycle_serves_example : 25000 < 30000
unfolding run_cycle lookup
run_cycle_serves_example =
    run_cycle_serves healthy 25000 worker "run" 7 worker-IsScheduled refl refl refl "global-status"
      30000 refl

advance_due_slot_example :
    (25000 < advance_due 10000 25000 0)
    × (advance_due 10000 25000 0 ≤ 35000)
    × ((k : ℕ) × (advance_due 10000 25000 0 ≡ 0 + k * 10000))
advance_due_slot_example = advance_due_slot 10000 25000 (omega arith) 0 (omega arith)
