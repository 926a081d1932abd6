-- ===== src/Runtime/Worker.antt =====
-- mysql-internal/collector/runtime.py: `TargetWorker`. The secret resolver, the MySQL driver, the
-- collectors and the log reader answer through an `Environment`, one for each cycle. What the
-- worker does to the outside is kept, newest first, in its trace. A connection is a number.
pub mod Step
pub mod Backoff
pub mod Trace
pub mod Cycle
pub mod Progress
mod Tests
use text.Mathlib.Text.{starts_with}
use azure_mysql_monitoring.Prelude.{
  ltb, leb, if◌then◌else◌, is_empty, ℕ, ◌+◌, String, Bool, true, false, not, Option, none, some,
  List, [], ◌∷◌, ◌==◌, ◌-◌, min, ◌&&◌, ◌||◌, ◌++◌,
}
use azure_mysql_monitoring.Plan.Group.{GroupPlan}
use azure_mysql_monitoring.Prelude.Dict.{Dict, lookup, get_or, insert, has}
use azure_mysql_monitoring.Prelude.Text.{contains}
use azure_mysql_monitoring.Runtime.Schedule.{advance_due, next_backoff}

pub data Effect (Point Event : Type 0) : Type 0 where
  -- the run's name is resolved; a connection attempt begins; it hands over a connection; the
  -- connection has passed the checks of TLS and version; the connection is closed
  resolving connecting : Effect Point Event
  opened verified closed : ℕ → Effect Point Event
  -- the health point: is a connection open, and how long did the last cycle take
  health : Bool → Option ℕ → Effect Point Event
  wrote_points : ℕ → String → List Point → Effect Point Event
  wrote_events : ℕ → List Event → Effect Point Event

pub record Environment (Point Event : Type 0) : Type 0 where
  -- `none` stands for `SecretResolutionError`
  pub run_id : Option String
  -- `none` stands for an exception of any kind
  pub username : Option String
  pub password : Option String
  pub connect : Option ℕ
  pub cipher : Option String
  pub version : Option String
  -- is there a collector for the group, and what does it return or raise
  pub registered : String → Bool
  pub collect : String → Option (List Point)
  -- the catalog takes the points, the health point
  pub accepts : List Point → Bool
  pub accepts_health : Bool
  pub load_cursor : Bool
  pub poll : Option (List Event)
  pub is_connected : Bool

pub record Worker (Point Event : Type 0) : Type 0 where
  pub groups : Dict GroupPlan
  pub initial_backoff : ℕ
  pub max_backoff : ℕ
  pub backoff : ℕ
  pub next_reconnect : ℕ
  pub due : Dict ℕ
  pub connection : Option ℕ
  pub context : Option String
  pub error_reader : Bool
  pub error_reader_loaded : Bool
  pub last_cycle_duration : Option ℕ
  pub trace : List (Effect Point Event)

abbrev heartbeat_plan : GroupPlan
heartbeat_plan = record { name = "collector-health"; interval = 10000; top_k = none; options = [] }

-- `self.groups.setdefault(...)`
with_heartbeat : Dict GroupPlan → Dict GroupPlan
unfolding lookup insert
with_heartbeat groups =
    if has "collector-health" groups
    then groups
    else insert "collector-health" heartbeat_plan groups

-- `{name: 0.0 for name in self.groups}`
due_at_zero : Dict GroupPlan → Dict ℕ
due_at_zero [] = []
due_at_zero ((name, group) ∷ rest) = (name, 0) ∷ due_at_zero rest

-- `version.startswith("8.4")`
abbrev is_supported : Option String → Bool
is_supported none = false
is_supported (some version) = starts_with version "8.4"

pub is_connected : Option ℕ → Bool
is_connected none = false
is_connected (some handle) = true

pub due_names : ℕ → Dict ℕ → List String
due_names now [] = []
due_names now ((name, due) ∷ rest) =
    if leb due now then name ∷ due_names now rest else due_names now rest

-- `due_names.remove("collector-health")`
pub without_health : List String → List String
without_health [] = []
without_health (name ∷ names) =
    if name == "collector-health" then names else name ∷ without_health names

-- The due times that `next_delay` waits for: without a connection only the heartbeat's.
candidates : Bool → Dict ℕ → List ℕ
candidates connected [] = []
candidates connected ((name, due) ∷ rest) =
    if name == "collector-health" || connected
    then due ∷ candidates connected rest
    else candidates connected rest

-- `any(name != "collector-health" for name in self._due)`
has_other : Dict ℕ → Bool
has_other [] = false
has_other ((name, due) ∷ rest) = not (name == "collector-health") || has_other rest

-- `min` of a list that is not empty.
minimum : ℕ → List ℕ → ℕ
minimum x [] = x
minimum x (y ∷ ys) = min x (minimum y ys)

module _ {Point Event : Type 0} where
  unfoldable pub new_worker : Dict GroupPlan → ℕ → ℕ → Worker Point Event
  unfolding with_heartbeat due_at_zero
  new_worker groups initial_backoff max_backoff = record {
    groups = with_heartbeat groups;
    initial_backoff = initial_backoff;
    max_backoff = max_backoff;
    backoff = initial_backoff;
    next_reconnect = 0;
    due = due_at_zero (with_heartbeat groups);
    connection = none;
    context = none;
    error_reader = false;
    error_reader_loaded = false;
    last_cycle_duration = none;
    trace = [];
  }

  abbrev pub emit : Effect Point Event → Worker Point Event → Worker Point Event
  emit e w = record w { trace = e ∷ w.trace }

  -- An exception of `close` is logged and dropped.
  close_connection : Worker Point Event → Worker Point Event
  close_connection w = elim w.connection [
    | none ↦ w
    | some handle ↦ record w { connection = none; trace = closed handle ∷ w.trace }
  ]

  pub schedule_reconnect : ℕ → Worker Point Event → Worker Point Event
  unfolding next_backoff
  schedule_reconnect now w = record w {
    next_reconnect = now + w.backoff;
    backoff = next_backoff w.initial_backoff w.max_backoff w.backoff;
  }

  pub connection_failed : ℕ → Worker Point Event → Worker Point Event
  unfolding close_connection schedule_reconnect
  connection_failed now w = schedule_reconnect now (close_connection w)

  pub advance : String → ℕ → Worker Point Event → Worker Point Event
  unfolding lookup insert advance_due
  advance name now w = elim (lookup name w.groups) [
    | none ↦ w
    | some group ↦ record w {
      due = insert name (advance_due group.interval now (get_or name w.due 0)) w.due;
    }
  ]

  resolve_context : Environment Point Event → ℕ → Worker Point Event → Bool × Worker Point Event
  unfolding lookup schedule_reconnect
  resolve_context env now w = elim env.run_id [
    | none ↦ (false, schedule_reconnect now (emit resolving w))
    | some run_id ↦ (
      true,
      record w {
        context = some run_id;
        error_reader = has "error-log" w.groups;
        trace = resolving ∷ w.trace;
      },
    )
  ]

  pub ensure_context : Environment Point Event → ℕ → Worker Point Event → Bool × Worker Point Event
  unfolding resolve_context
  ensure_context env now w = elim w.context [
    | some run_id ↦ (true, w)
    | none ↦ if ltb now w.next_reconnect then (false, w) else resolve_context env now w
  ]

  -- The connection is there: the checks of TLS, of the server's identity and of its version.
  pub check_session :
      Environment Point Event → ℕ → ℕ → Worker Point Event → Bool × Worker Point Event
  unfolding connection_failed
  check_session env now handle w = elim env.cipher [
    | none ↦ (false, connection_failed now w)
    | some cipher ↦
        if is_supported env.version
        then (
          true,
          record w {
            backoff = w.initial_backoff;
            next_reconnect = now;
            trace = verified handle ∷ w.trace;
          },
        )
        else (false, connection_failed now w)
  ]

  -- The attempt, on what the resolver and the driver answer: both names are resolved before the
  -- driver is called.
  open_with :
      Environment Point Event
      → ℕ
      → Option String
      → Option String
      → Option ℕ
      → Worker Point Event
      → Bool × Worker Point Event
  unfolding connection_failed check_session
  open_with env now (some username) (some password) (some handle) w =
      check_session env now handle
        (record w { connection = some handle; trace = opened handle ∷ w.trace })
  open_with env now username password connect w = (false, connection_failed now w)

  connect_at :
      Environment Point Event → ℕ → Option ℕ → Worker Point Event → Bool × Worker Point Event
  unfolding open_with
  connect_at env now (some handle) w = (true, w)
  connect_at env now none w =
      if ltb now w.next_reconnect
      then (false, w)
      else open_with env now env.username env.password env.connect (emit connecting w)

  ensure_connection : Environment Point Event → ℕ → Worker Point Event → Bool × Worker Point Event
  unfolding connect_at
  ensure_connection env now w = connect_at env now w.connection w

  -- The error log: `false` is an exception.
  poll_events : Environment Point Event → ℕ → Worker Point Event → Bool × Worker Point Event
  poll_events env handle w = elim env.poll [
    | none ↦ (false, w)
    | some [] ↦ (env.is_connected, w)
    | some (e ∷ es) ↦
        if env.is_connected then (true, emit (wrote_events handle (e ∷ es)) w) else (false, w)
  ]

  write_error_log_events :
      Environment Point Event → ℕ → Worker Point Event → Bool × Worker Point Event
  unfolding poll_events
  write_error_log_events env handle w =
      if not w.error_reader
      then (false, w)
      else if w.error_reader_loaded
      then poll_events env handle w
      else if env.load_cursor
      then poll_events env handle (record w { error_reader_loaded = true })
      else (false, w)

  -- A group's collector and its write: `false` is an exception.
  collect_group :
      Environment Point Event → ℕ → String → Worker Point Event → Bool × Worker Point Event
  collect_group env handle name w = elim (env.collect name) [
    | none ↦ (false, w)
    | some [] ↦ (true, w)
    | some (p ∷ ps) ↦
        if env.accepts (p ∷ ps)
        then (true, emit (wrote_points handle name (p ∷ ps)) w)
        else (false, w)
  ]

  -- What one due group asks for, on an open connection.
  pub run_group :
      Environment Point Event → ℕ → String → Worker Point Event → Bool × Worker Point Event
  unfolding write_error_log_events collect_group
  run_group env handle name w =
      if name == "error-log"
      then write_error_log_events env handle w
      else if env.registered name
      then collect_group env handle name w
      else (true, w)

  pub after_group : ℕ → String → Bool × Worker Point Event → Bool × Worker Point Event
  unfolding advance connection_failed
  after_group now name (true, w) = (true, advance name now w)
  after_group now name (false, w) = (false, connection_failed now w)

  -- The loop over the due groups: an exception closes the connection and ends it.
  run_groups :
      Environment Point Event → ℕ → ℕ → List String → Worker Point Event → Worker Point Event
  unfolding run_group after_group
  run_groups env now handle [] w = w
  run_groups env now handle (name ∷ names) w =
      let (going, w') = after_group now name (run_group env handle name w) in
      let rest = run_groups env now handle names w' in if going then rest else w'

  run_on :
      Environment Point Event → ℕ → List String → Option ℕ → Worker Point Event → Worker Point Event
  unfolding run_groups
  run_on env now names none w = w
  run_on env now names (some handle) w = run_groups env now handle names w

  -- The second half of `run_cycle`, behind the health point.
  pub collect_due :
      Environment Point Event → ℕ → List String → Worker Point Event → Worker Point Event
  unfolding ensure_connection run_on
  collect_due env now [] w = w
  collect_due env now (name ∷ names) w =
      let (connected, w') = ensure_connection env now w in
      if connected then run_on env now (name ∷ names) w'.connection w' else w'

  pub send_health : ℕ → Worker Point Event → Worker Point Event
  unfolding is_connected advance
  send_health now w =
      advance "collector-health" now
        (emit (health (is_connected w.connection) w.last_cycle_duration) w)

  -- The health point is due: does the catalog take it? A refusal is an exception, which ends the
  -- worker.
  report :
      Environment Point Event
      → ℕ
      → List String
      → Bool
      → Worker Point Event
      → Bool × Worker Point Event
  unfolding send_health collect_due without_health
  report env now names true w =
      (true, collect_due env now (without_health names) (send_health now w))
  report env now names false w = (false, w)

  with_context :
      Environment Point Event → ℕ → List String → Worker Point Event → Bool × Worker Point Event
  unfolding report
  with_context env now names w =
      if contains names "collector-health"
      then report env now names env.accepts_health w
      else (true, collect_due env now names w)

  pub run_cycle : Environment Point Event → ℕ → Worker Point Event → Bool × Worker Point Event
  unfolding with_context ensure_context due_names
  run_cycle env now w =
      let names = due_names now w.due in
      if is_empty names
      then (true, w)
      else (let (ready, w') = ensure_context env now w in
          if ready then with_context env now names w' else (true, w'))

  all_candidates : Worker Point Event → List ℕ
  unfolding candidates has_other is_connected
  all_candidates w =
      candidates (is_connected w.connection) w.due
      ++ (if not (is_connected w.connection) && has_other w.due then w.next_reconnect ∷ [] else [])

  -- Subtraction stops at 0, as `max(0.0, ...)` does.
  pub next_delay : ℕ → Worker Point Event → ℕ
  unfolding all_candidates minimum
  next_delay now w = elim w.context [
    | none ↦ w.next_reconnect - now
    | some run_id ↦ elim (all_candidates w) [ [] ↦ 1000 | t ∷ ts ↦ minimum t ts - now ]
  ]

  -- The loop of `run`: a cycle's environment, its time and its length, until the stop event is set
  -- or an exception ends the worker.
  run_loop : List (Environment Point Event × ℕ × ℕ) → Worker Point Event → Worker Point Event
  run_loop [] w = w
  run_loop ((env, now, duration) ∷ cycles) w =
      let (alive, w') = run_cycle env now w in
      let rest = run_loop cycles (record w' { last_cycle_duration = some duration }) in
      if alive then rest else w'

  -- `run`, with its `finally`.
  pub run : List (Environment Point Event × ℕ × ℕ) → Worker Point Event → Worker Point Event
  unfolding run_loop close_connection
  run cycles w = close_connection (run_loop cycles w)
